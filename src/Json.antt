-- ===== src/Json.antt =====
-- JSON values, as Python's `json` and nlohmann::json see them: the dictionaries of the scripts under
-- scripts/ and the records of consumers/src/ and api/src/.
pub mod Print
pub mod Members
pub mod Parse
use cdc_pipeline.Base.{
  ℕ, suc, String, Bool, true, false, Option, none, some, List, [], ◌∷◌, str_eq, if◌then◌else◌,
}
use cdc_pipeline.Base.Int.{ℤ, pos}

-- `tenths n` is the floating point literal n / 10. An object's fields stand in iteration order:
-- insertion order for a Python dict, the order of the keys for an nlohmann object.
mutual
  pub data Value : Type 0 where
    null : Value
    bool : Bool → Value
    int : ℤ → Value
    tenths : ℕ → Value
    str : String → Value
    arr : Items → Value
    obj : Fields → Value

  pub data Items : Type 0 where
    nil : Items
    ◌▹◌ : Value → Items → Items

  pub data Fields : Type 0 where
    end : Fields
    ◌⦂◌⨾◌ : String → Value → Fields → Fields

infixr 5 ◌▹◌ ◌⦂◌⨾◌
pattern abbrev pub num : ℕ → Value
num n = int (pos n)

unfoldable pub find_field : String → Fields → Option Value
find_field k end = none
find_field k (j ⦂ v ⨾ fs) = if str_eq j k then some v else find_field k fs

-- `v.get(k)` of a dict, and `v.contains(k)` with `v[k]` of an nlohmann object; `none` where the
-- field is missing or `v` is no object.
unfoldable pub field? : String → Value → Option Value
unfolding find_field
field? k (obj fs) = find_field k fs
field? k _ = none

-- The members of an array; none of anything else.
unfoldable pub elements : Items → List Value
elements nil = []
elements (v ▹ vs) = v ∷ elements vs

abbrev pub fields_size : Fields → ℕ
fields_size end = 0
fields_size (k ⦂ v ⨾ fs) = suc (fields_size fs)

abbrev pub is_null : Value → Bool
is_null null = true
is_null _ = false
