-- ===== src/Json/Members.antt =====
-- Writing a member of an nlohmann object, `v[k] = x`. Objects are kept in the order of their keys.
use Prim.Native.Char.{code}
use cdc_pipeline.Base.{
  String, ◌≡◌, refl, Bool, true, false, ◌&&◌, ◌||◌, some, arith, ltb, ◌==◌, str_eq, str_eq_iff,
  if◌then◌else◌,
}
use cdc_pipeline.Json.{Value, num, null, Fields, end, ◌⦂◌⨾◌, find_field}

-- The order of `std::map`'s keys: by code points, which is the order of their UTF-8 bytes.
str_lt : String → String → Bool
str_lt s String.[] = false
str_lt String.[] (String.◌∷◌ d t) = true
str_lt (String.◌∷◌ c s) (String.◌∷◌ d t) = ltb (code c) (code d) || (code c == code d) && str_lt s t

-- A key that is there keeps its place.
unfoldable pub set_field : String → Value → Fields → Fields
unfolding str_lt
set_field k v end = k ⦂ v ⨾ end
set_field k v (j ⦂ w ⨾ fs) =
    let rest = set_field k v fs in
    if str_eq j k then k ⦂ v ⨾ fs else if str_lt k j then k ⦂ v ⨾ (j ⦂ w ⨾ fs) else j ⦂ w ⨾ rest

pub find_field-set_field :
    (i k : String) (v : Value) (fs : Fields)
    → find_field i (set_field k v fs) ≡ (if str_eq k i then some v else find_field i fs)
unfolding find_field set_field
find_field-set_field i k v end = refl
find_field-set_field i k v (j ⦂ w ⨾ fs) =
    ground (arith, str_eq_iff k i, str_eq_iff j i, str_eq_iff j k, find_field-set_field i k v fs)

set_field_sorted :
    set_field "source" null ("id" ⦂ num 1 ⨾ "status" ⦂ num 2 ⨾ end)
    ≡ ("id" ⦂ num 1 ⨾ "source" ⦂ null ⨾ "status" ⦂ num 2 ⨾ end)
unfolding set_field
set_field_sorted = refl
