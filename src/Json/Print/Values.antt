-- ===== src/Json/Print/Values.antt =====
-- Values, as `json.dumps` prints them, are read back.
use text.Mathlib.TextLemmas.{append_assoc, nil-append, cons-append}
use Prim.Native.Char.{Char, code}
use cdc_pipeline.Base.{
  ℕ, suc, ◌+◌, ◌/◌, ◌%◌, String, ◌<>◌, ◌≡◌, refl, sym, ap, ◌∙◌, Bool, true, false, none, some,
  arith, ◌==◌, if◌then◌else◌,
}
use cdc_pipeline.Base.Int.{pos, negsuc}
use cdc_pipeline.Base.Text.{digit, show, show_ℤ}
use cdc_pipeline.Base.Decimal.{digit-IsDigit, show_onto-digit}
use cdc_pipeline.Base.Decimal as Decimal
use cdc_pipeline.Json.{Value, null, bool, int, tenths, str, arr, obj}
use cdc_pipeline.Json.Parse.{
  then_read, is_blank, skip, word, scalar, goes_on, expect, value, opened,
}
use cdc_pipeline.Json.Print.{quote, escape, scalar as printed}
use cdc_pipeline.Json.Print.Texts.{read_string-escape}
use cdc_pipeline.Json.Print.Numbers.{scalar-pos, scalar-negsuc, scalar-tenths}

word-append : (p rest : String) (v : Value) → word p v (p <> rest) ≡ some (v, rest)
unfolding word
word-append String.[] rest v = ap (λ s. some (v, s)) (nil-append rest)
word-append (String.◌∷◌ c p) rest v =
    rw (cons-append c p rest) (ground (arith, word-append p rest v))

abbrev pub is_scalar : Value → Bool
is_scalar (arr vs) = false
is_scalar (obj fs) = false
is_scalar v = true

scalar-str : (s rest : String) → scalar (quote s <> rest) ≡ some (str s, rest)
unfolding quote scalar
scalar-str s rest =
    ap scalar (
      append_assoc "\"" (escape s <> "\"") rest
      ∙ cons-append "\"" "" ((escape s <> "\"") <> rest)
      ∙ ap (String.◌∷◌ "\"")
          (nil-append ((escape s <> "\"") <> rest) ∙ append_assoc (escape s) "\"" rest))
    ∙ ap (λ r. then_read r (λ t s'. some (str t, s'))) (read_string-escape s rest)

scalar-printed :
    (v : Value) (rest : String)
    → is_scalar v ≡ true
    → goes_on rest ≡ false
    → scalar (printed v <> rest) ≡ some (v, rest)
unfolding printed scalar
scalar-printed null rest s h = ap scalar (cons-append "n" "ull" rest) ∙ word-append "ull" rest null
scalar-printed (bool true) rest s h =
    ap scalar (cons-append "t" "rue" rest) ∙ word-append "rue" rest (bool true)
scalar-printed (bool false) rest s h =
    ap scalar (cons-append "f" "alse" rest) ∙ word-append "alse" rest (bool false)
scalar-printed (int (pos n)) rest s h = scalar-pos n rest h
scalar-printed (int (negsuc n)) rest s h = scalar-negsuc n rest h
scalar-printed (tenths n) rest s h = scalar-tenths n rest h
scalar-printed (str t) rest s h = scalar-str t rest
scalar-printed (arr vs) rest s h = cc
scalar-printed (obj fs) rest s h = cc

-- A first character that is no blank and no bracket.
abbrev pub Opens : Char → Type 0
Opens c =
    (is_blank (code c) ≡ false)
    × ((code c == 93) ≡ false)
    × ((code c == 125) ≡ false)
    × ((code c == 91) ≡ false)
    × ((code c == 123) ≡ false)

show-Opens : (n : ℕ) → (c : Char) × (t : String) × (show n ≡ String.◌∷◌ c t) × Opens c
unfolding Decimal.is_digit show
show-Opens n =
    let (d, t, lt, e) = show_onto-digit (n + 1) n "" (omega arith) in
    let (is, _, _, _, _, _) = digit-IsDigit d lt in
    (digit d, t, e, (ground arith, ground arith, ground arith, ground arith, ground arith))

pub printed-Opens :
    (v : Value)
    → is_scalar v ≡ true
    → (c : Char) × (t : String) × (printed v ≡ String.◌∷◌ c t) × Opens c
unfolding printed quote show_ℤ
printed-Opens null s = ("n", "ull", refl, (refl, refl, refl, refl, refl))
printed-Opens (bool true) s = ("t", "rue", refl, (refl, refl, refl, refl, refl))
printed-Opens (bool false) s = ("f", "alse", refl, (refl, refl, refl, refl, refl))
printed-Opens (int (pos n)) s = show-Opens n
printed-Opens (int (negsuc n)) s = ("-", show (n + 1), refl, (refl, refl, refl, refl, refl))
printed-Opens (tenths n) s =
    let (c, t, e, o) = show-Opens (n / 10) in
    (
      c,
      t <> ("." <> show (n % 10)),
      ap (λ x. x <> ("." <> show (n % 10))) e ∙ cons-append c t ("." <> show (n % 10)),
      o,
    )
printed-Opens (str t) s = (
  "\"",
  escape t <> "\"",
  cons-append "\"" "" (escape t <> "\"") ∙ ap (String.◌∷◌ "\"") (nil-append (escape t <> "\"")),
  (refl, refl, refl, refl, refl),
)
printed-Opens (arr vs) s = cc
printed-Opens (obj fs) s = cc

pub skip-first :
    (c : Char) (t : String) → is_blank (code c) ≡ false → skip (String.◌∷◌ c t) ≡ String.◌∷◌ c t
unfolding skip
skip-first c t h = rw h refl

pub skip-blank : (t : String) → skip (String.◌∷◌ " " t) ≡ skip t
unfolding skip
skip-blank t = refl

pub expect-first :
    (k : ℕ) (c : Char) (t : String)
    → is_blank (code c) ≡ false
    → expect k (String.◌∷◌ c t) ≡ (if code c == k then some t else none)
unfolding expect
expect-first k c t h = rw (skip-first c t h, expect) refl

value-scalar :
    (fuel : ℕ) (c : Char) (t : String)
    → Opens c
    → value (suc (suc fuel)) (String.◌∷◌ c t) ≡ scalar (String.◌∷◌ c t)
unfolding value
value-scalar fuel c t (blank, _, _, bracket, brace) =
    ap (opened (suc fuel)) (skip-first c t blank) ∙ rw (bracket, brace, opened) refl

pub value-printed :
    (v : Value) (fuel : ℕ) (rest : String)
    → is_scalar v ≡ true
    → goes_on rest ≡ false
    → value (suc (suc fuel)) (printed v <> rest) ≡ some (v, rest)
value-printed v fuel rest s h =
    let (c, t, e, o) = printed-Opens v s in
    let first : (printed v <> rest) ≡ String.◌∷◌ c (t <> rest) =
      ap (λ x. x <> rest) e ∙ cons-append c t rest in
    ap (value (suc (suc fuel))) first
    ∙ value-scalar fuel c (t <> rest) o
    ∙ ap scalar (sym first)
    ∙ scalar-printed v rest s h
