-- ===== src/Json/Print/Texts.antt =====
-- A text between quotes, as `json.dumps` prints it, is read back.
use text.Mathlib.TextLemmas.{append_assoc, nil-append, cons-append}
use Prim.Native.Char.{Char, code}
use cdc_pipeline.Base.{
  ℕ, ◌+◌, ◌-◌, ◌/◌, ◌%◌, ◌<◌, String, ◌<>◌, ◌≡◌, refl, ap, ◌∙◌, ◌⊎◌, inl, inr, true, false, none,
  some, List, [], ◌∷◌, ◌++◌, arith, ltb, Bool-cases,
}
use cdc_pipeline.Json.Parse.Strings.{
  plain, add_unit, units, to_char, to_char-code, code_range, join, join_one, join_two, is_high,
  is_low, pair, read_string,
}
use cdc_pipeline.Json.Print.{escape, escape_char}
use cdc_pipeline.Json.Print.Characters.{units_of, add_units, units-escape_char}

all_units : String → List ℕ
all_units String.[] = []
all_units (String.◌∷◌ c s) = units_of (code c) ++ all_units s

add_units-some :
    (us vs : List ℕ) (rest : String) → add_units us (some (vs, rest)) ≡ some (us ++ vs, rest)
add_units-some [] vs rest = refl
add_units-some (u ∷ us) vs rest = ap (add_unit u) (add_units-some us vs rest)

units-escape :
    (s rest : String) → units plain (escape s <> ("\"" <> rest)) ≡ some (all_units s, rest)
unfolding escape all_units
units-escape String.[] rest =
    ap (units plain) (
      nil-append ("\"" <> rest) ∙ cons-append "\"" "" rest ∙ ap (String.◌∷◌ "\"") (nil-append rest))
    ∙ (unfold units in refl)
units-escape (String.◌∷◌ c s) rest =
    ap (units plain) (append_assoc (escape_char c) (escape s) ("\"" <> rest))
    ∙ units-escape_char c (escape s <> ("\"" <> rest))
    ∙ ap (add_units (units_of (code c))) (units-escape s rest)
    ∙ add_units-some (units_of (code c)) (all_units s) rest

not_high : (n : ℕ) → (n < 55296) ⊎ ((57343 < n) × (n < 1114112)) → is_high n ≡ false
unfolding is_high
not_high n (inl low) = ground arith
not_high n (inr high) = ground arith

-- The two halves of a character above U+FFFF.
module _ (n : ℕ) (low : 65535 < n) (high : n < 1114112) where
  abbrev hi : ℕ
  hi = 55296 + (n - 65536) / 1024

  abbrev lo : ℕ
  lo = 56320 + (n - 65536) % 1024

  hi-is_high : is_high hi ≡ true
  unfolding is_high
  hi-is_high = ground arith

  lo-is_low : is_low lo ≡ true
  unfolding is_low
  lo-is_low = ground arith

  pair-halves : pair hi lo ≡ n
  pair-halves = omega arith

join_halves :
    (c : Char) (us : List ℕ) (t : String) (low : 65535 < code c) (high : code c < 1114112)
    → join none us ≡ some t
    → join none (hi (code c) low high ∷ lo (code c) low high ∷ us) ≡ some (String.◌∷◌ c t)
join_halves c us t low high e =
    join_two c us t e (hi (code c) low high) (lo (code c) low high) (hi-is_high (code c) low high)
      (lo-is_low (code c) low high) (ap to_char (pair-halves (code c) low high) ∙ to_char-code c)

join-all_units : (s : String) → join none (all_units s) ≡ some s
unfolding all_units units_of
join-all_units String.[] = unfold join in refl
join-all_units (String.◌∷◌ c s) = elim (Bool-cases (ltb (code c) 65536)) [
  | inl one ↦ rw one (
      join_one c (all_units s) s (join-all_units s) (code c) (not_high (code c) (code_range c))
        (to_char-code c))
  | inr two ↦ rw two (
      join_halves c (all_units s) s (ground arith)
        (elim (code_range c) [ inl low ↦ omega arith | inr (high, bound) ↦ bound ])
        (join-all_units s))
]

pub read_string-escape :
    (s rest : String) → read_string (escape s <> ("\"" <> rest)) ≡ some (s, rest)
unfolding read_string
read_string-escape s rest = rw (units-escape s rest) (rw (join-all_units s) refl)
