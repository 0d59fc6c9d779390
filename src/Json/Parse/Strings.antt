-- ===== src/Json/Parse/Strings.antt =====
-- The strings of JSON: escapes, and the surrogate pairs that stand for characters above U+FFFF.
use Prim.Native.Nat.{Ordering, compare}
use Prim.Native.Char.{Char, char, code, IsScalar}
use cdc_pipeline.Base.{
  ℕ, zero, suc, ◌+◌, ◌-◌, ◌*◌, ◌<◌, ap, ◌⊎◌, String, ◌≡◌, refl, Bool, true, false, ◌&&◌, Option,
  none, some, List, [], ◌∷◌, arith, ltb, leb, ◌==◌, if◌then◌else◌,
}

-- In an escape, and with the hexadecimal digits that are to come and the number before them.
pub data Mode : Type 0 where
  plain escaped : Mode
  hex : ℕ → ℕ → Mode

pub data Step : Type 0 where
  finish fail : Step
  go : Mode → Step
  emit : ℕ → Step

unfoldable pub hex_digit : ℕ → Option ℕ
hex_digit c =
    if leb 48 c && leb c 57
    then some (c - 48)
    else if leb 97 c && leb c 102
    then some (c - 87)
    else if leb 65 c && leb c 70
    then some (c - 55)
    else none

hex_step : ℕ → ℕ → Option ℕ → Step
hex_step more n none = fail
hex_step zero n (some d) = emit (n * 16 + d)
hex_step (suc more) n (some d) = go (hex more (n * 16 + d))

escape_step : ℕ → Step
escape_step c =
    if c == 117
    then go (hex 3 0)
    else if c == 34
    then emit 34
    else if c == 92
    then emit 92
    else if c == 47
    then emit 47
    else if c == 98
    then emit 8
    else if c == 102
    then emit 12
    else if c == 110
    then emit 10
    else if c == 114
    then emit 13
    else if c == 116
    then emit 9
    else fail

unfoldable pub step : Mode → ℕ → Step
unfolding escape_step hex_step hex_digit
step plain c =
    if c == 34 then finish else if c == 92 then go escaped else if ltb c 32 then fail else emit c
step escaped c = escape_step c
step (hex more n) c = hex_step more n (hex_digit c)

abbrev pub Units : Type 0
Units = Option (List ℕ × String)

abbrev pub add_unit : ℕ → Units → Units
add_unit u none = none
add_unit u (some (us, rest)) = some (u ∷ us, rest)

-- The code units up to the closing quote, and the text behind it.
unfoldable pub units : Mode → String → Units
unfolding step
units m String.[] = none
units m (String.◌∷◌ c s) = elim (step m (code c)) [
  | finish ↦ some ([], s)
  | fail ↦ none
  | go m' ↦ units m' s
  | emit u ↦ add_unit u (units plain s)
]

-- A character for a number, if it is a scalar value.
abbrev IsBelow : Ordering → Type 0
IsBelow Ordering.lt = Unit
IsBelow Ordering.eq = ⊥
IsBelow Ordering.gt = ⊥

below? : (o : Ordering) → Option (IsBelow o)
below? Ordering.lt = some tt
below? Ordering.eq = none
below? Ordering.gt = none

abbrev Both : Ordering → Ordering → Type 0
Both Ordering.lt o = IsBelow o
Both Ordering.eq _ = ⊥
Both Ordering.gt _ = ⊥

abbrev Range : Ordering → Ordering → Ordering → Type 0
Range Ordering.lt _ _ = Unit
Range Ordering.eq o p = Both o p
Range Ordering.gt o p = Both o p

above? : (o p : Ordering) → Option (Both o p)
unfolding below?
above? Ordering.lt p = below? p
above? Ordering.eq p = none
above? Ordering.gt p = none

range? : (a b c : Ordering) → Option (Range a b c)
unfolding above?
range? Ordering.lt b c = some tt
range? Ordering.eq b c = above? b c
range? Ordering.gt b c = above? b c

scalar? : (n : ℕ) → Option (IsScalar n)
unfolding range?
scalar? n = range? (compare n 55296) (compare 57343 n) (compare n 1114112)

unfoldable pub to_char : ℕ → Option Char
unfolding scalar?
to_char n = elim (scalar? n) [ some p ↦ some (char n p) | none ↦ none ]

unfoldable pub is_high : ℕ → Bool
is_high u = leb 55296 u && leb u 56319

unfoldable pub is_low : ℕ → Bool
is_low u = leb 56320 u && leb u 57343

abbrev pub pair : ℕ → ℕ → ℕ
pair h l = 65536 + (h - 55296) * 1024 + (l - 56320)

abbrev add_char : Option Char → Option String → Option String
add_char (some c) (some s) = some (String.◌∷◌ c s)
add_char _ _ = none

-- The text for code units, with the high half of a pair in front, if there is one.
unfoldable pub join : Option ℕ → List ℕ → Option String
unfolding is_high is_low
join none [] = some ""
join (some h) [] = none
join none (u ∷ us) =
    let behind_high = join (some u) us in
    let behind = add_char (to_char u) (join none us) in if is_high u then behind_high else behind
join (some h) (u ∷ us) =
    let behind = add_char (to_char (pair h u)) (join none us) in if is_low u then behind else none

abbrev joined : String → Option String → Option (String × String)
joined rest none = none
joined rest (some t) = some (t, rest)

abbrev text_of_units : Units → Option (String × String)
text_of_units none = none
text_of_units (some (us, rest)) = joined rest (join none us)

-- A string behind its opening quote.
unfoldable pub read_string : String → Option (String × String)
unfolding units join
read_string s = text_of_units (units plain s)

-- Facts about single characters.
below?_lem : (o : Ordering) (p : IsBelow o) → below? o ≡ some p
unfolding below?
below?_lem Ordering.lt p = refl
below?_lem Ordering.eq p = elim p [ ]
below?_lem Ordering.gt p = elim p [ ]

above?_lem : (a b : Ordering) (p : Both a b) → above? a b ≡ some p
unfolding above?
above?_lem Ordering.lt b p = below?_lem b p
above?_lem Ordering.eq b p = elim p [ ]
above?_lem Ordering.gt b p = elim p [ ]

range?_lem : (a b c : Ordering) (p : Range a b c) → range? a b c ≡ some p
unfolding range?
range?_lem Ordering.lt b c p = refl
range?_lem Ordering.eq b c p = above?_lem b c p
range?_lem Ordering.gt b c p = above?_lem b c p

pub to_char-code : (c : Char) → to_char (code c) ≡ some c
unfolding to_char range?
to_char-code (char n p) =
    ap (λ (o : Option (IsScalar n)). elim o [ some q ↦ some (char n q) | none ↦ none ])
      (range?_lem (compare n 55296) (compare 57343 n) (compare n 1114112) p)

pub code_range : (c : Char) → (code c < 55296) ⊎ ((57343 < code c) × (code c < 1114112))
code_range (char n p) = ground arith

module _ (c : Char) (us : List ℕ) (t : String) (behind : join none us ≡ some t) where
  pub join_one :
      (u : ℕ) → is_high u ≡ false → to_char u ≡ some c → join none (u ∷ us) ≡ some (String.◌∷◌ c t)
  unfolding join
  join_one u low e = rw low (rw (e, behind) refl)

  pub join_two :
      (h l : ℕ)
      → is_high h ≡ true
      → is_low l ≡ true
      → to_char (pair h l) ≡ some c
      → join none (h ∷ l ∷ us) ≡ some (String.◌∷◌ c t)
  unfolding join
  join_two h l high low e = rw (high, low) (rw (e, behind) refl)
