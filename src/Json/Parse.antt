-- ===== src/Json/Parse.antt =====
-- `json.loads` of Python's standard library. Of the floating point numbers it reads those with one decimal
-- and no sign, and of the texts those that hold no lone surrogate; on any other it fails here.
pub mod Strings
use Prim.Native.Char.{code}
use cdc_pipeline.Base.{
  ℕ, zero, suc, ◌+◌, ◌-◌, ◌*◌, ◌<◌, String, ◌<>◌, ◌≡◌, refl, Bool, true, false, ◌&&◌, ◌||◌, Option,
  none, some, arith, leb, ◌==◌, if◌then◌else◌,
}
use cdc_pipeline.Base.Int.{ℤ, pos, negsuc}
use cdc_pipeline.Json.{
  Value, null, bool, int, tenths, str, arr, obj, Items, nil, ◌▹◌, Fields, end, ◌⦂◌⨾◌,
}
use cdc_pipeline.Json.Parse.Strings.{read_string}

-- What has been read, and the text behind it.
abbrev pub Parsed : Type 0 → Type 0
Parsed A = Option (A × String)

abbrev pub then_read : {A B : Type 0} → Parsed A → (A → String → Parsed B) → Parsed B
then_read none f = none
then_read (some (a, s)) f = f a s

abbrev pub is_blank : ℕ → Bool
is_blank c = c == 32 || c == 9 || c == 10 || c == 13

unfoldable pub skip : String → String
skip String.[] = ""
skip (String.◌∷◌ c s) = let rest = skip s in if is_blank (code c) then rest else String.◌∷◌ c s

abbrev pub is_digit : ℕ → Bool
is_digit c = leb 48 c && leb c 57

-- The digits in front, after those read so far.
unfoldable pub digits : ℕ → String → ℕ × String
digits n String.[] = (n, "")
digits n (String.◌∷◌ c s) =
    let rest = digits (n * 10 + (code c - 48)) s in
    if is_digit (code c) then rest else (n, String.◌∷◌ c s)

-- A number has no zero in front of other digits.
unfoldable pub natural : String → Parsed ℕ
unfolding digits
natural String.[] = none
natural (String.◌∷◌ c s) =
    if code c == 48
    then some (0, s)
    else if is_digit (code c)
    then some (digits 0 (String.◌∷◌ c s))
    else none

abbrev pub goes_on : String → Bool
goes_on String.[] = false
goes_on (String.◌∷◌ c s) = is_digit (code c) || code c == 46 || code c == 101 || code c == 69

-- An exponent, or more decimals than one, is not read.
abbrev pub ended : Value → String → Parsed Value
ended v s = if goes_on s then none else some (v, s)

unfoldable pub fraction : ℕ → String → Parsed Value
fraction n (String.◌∷◌ p (String.◌∷◌ c s)) =
    if code p == 46
    then (if is_digit (code c) then ended (tenths (n * 10 + (code c - 48))) s else none)
    else ended (int (pos n)) (String.◌∷◌ p (String.◌∷◌ c s))
fraction n s = ended (int (pos n)) s

abbrev pub negated : ℕ → ℤ
negated zero = pos 0
negated (suc n) = negsuc n

unfoldable pub number : String → Parsed Value
unfolding natural fraction
number String.[] = none
number (String.◌∷◌ c s) =
    if code c == 45
    then then_read (natural s) (λ n rest. ended (int (negated n)) rest)
    else then_read (natural (String.◌∷◌ c s)) fraction

-- The rest behind a word.
unfoldable pub word : String → Value → String → Parsed Value
word String.[] v s = some (v, s)
word (String.◌∷◌ c p) v String.[] = none
word (String.◌∷◌ c p) v (String.◌∷◌ d s) =
    let rest = word p v s in if code c == code d then rest else none

-- Everything but arrays and objects.
unfoldable pub scalar : String → Parsed Value
unfolding number word read_string
scalar String.[] = none
scalar (String.◌∷◌ c s) =
    if code c == 34
    then then_read (read_string s) (λ t rest. some (str t, rest))
    else if code c == 110
    then word "ull" null s
    else if code c == 116
    then word "rue" (bool true) s
    else if code c == 102
    then word "alse" (bool false) s
    else number (String.◌∷◌ c s)

-- `c` in front, after white space.
unfoldable pub expect : ℕ → String → Option String
unfolding skip
expect c s = elim (skip s) [
  | String.[] ↦ none
  | String.◌∷◌ d rest ↦ if code d == c then some rest else none
]

abbrev pub key_of : Option String → Parsed String
key_of none = none
key_of (some s) = read_string s

abbrev pub behind : {A : Type 0} → Option String → (String → Parsed A) → Parsed A
behind none f = none
behind (some s) f = f s

-- A later member with the same key takes the place of an earlier one in a `dict`; the
-- members are kept as they stand, so `json.loads` is this for objects whose keys differ.
unfoldable mutual
  unfolding scalar expect skip read_string

  pub value : ℕ → String → Parsed Value
  value zero s = none
  value (suc fuel) s = opened fuel (skip s)

  pub opened : ℕ → String → Parsed Value
  opened zero s = none
  opened (suc fuel) String.[] = none
  opened (suc fuel) (String.◌∷◌ c s) = elim (code c == 91) [
    | true ↦ array fuel s
    | false ↦ elim (code c == 123) [ true ↦ object fuel s | false ↦ scalar (String.◌∷◌ c s) ]
  ]

  pub array : ℕ → String → Parsed Value
  array zero s = none
  array (suc fuel) s = elim (expect 93 s) [
    | some rest ↦ some (arr nil, rest)
    | none ↦ then_read (items fuel s) (λ vs rest. some (arr vs, rest))
  ]

  -- `v, …]`
  pub items : ℕ → String → Parsed Items
  items zero s = none
  items (suc fuel) s = then_read (value fuel s) (λ v s'. elim (expect 93 s') [
    | some rest ↦ some (v ▹ nil, rest)
    | none ↦
        behind (expect 44 s') (λ s''. then_read (items fuel s'') (λ vs rest. some (v ▹ vs, rest)))
  ])

  pub object : ℕ → String → Parsed Value
  object zero s = none
  object (suc fuel) s = elim (expect 125 s) [
    | some rest ↦ some (obj end, rest)
    | none ↦ then_read (fields fuel s) (λ fs rest. some (obj fs, rest))
  ]

  -- `"k": v, …}`
  pub fields : ℕ → String → Parsed Fields
  fields zero s = none
  fields (suc fuel) s = then_read (key_of (expect 34 s)) (λ k s'. behind (expect 58 s') (λ s''.
      then_read (value fuel s'') (λ v s'''. elim (expect 125 s''') [
        | some rest ↦ some (k ⦂ v ⨾ end, rest)
        | none ↦
            behind (expect 44 s''')
              (λ s''''. then_read (fields fuel s'''') (λ fs rest. some (k ⦂ v ⨾ fs, rest)))
      ])))

abbrev pub len : String → ℕ
len String.[] = 0
len (String.◌∷◌ c s) = suc (len s)

abbrev whole : {A : Type 0} → A → String → Option A
whole a String.[] = some a
whole a (String.◌∷◌ c s) = none

abbrev pub all_read : Parsed Value → Option Value
unfolding skip
all_read none = none
all_read (some (v, rest)) = whole v (skip rest)

-- `json.loads(text)`: none where Python raises. Every call consumes a character or enters a function that
-- does, three calls at most for a character.
unfoldable pub loads : String → Option Value
unfolding value skip
loads text = all_read (value (3 * len text + 1) text)
