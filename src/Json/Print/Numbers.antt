-- ===== src/Json/Print/Numbers.antt =====
-- Numbers, as `json.dumps` prints them, are read back.
use text.Mathlib.TextLemmas.{append_assoc, nil-append, cons-append}
use Prim.Native.Char.{Char, code}
use cdc_pipeline.Base.{
  ℕ, zero, suc, ◌+◌, ◌*◌, ◌/◌, ◌%◌, ◌<◌, String, ◌<>◌, ◌≡◌, refl, sym, ap, ◌∙◌, inl, inr, Bool,
  true, false, some, arith, ltb, ◌==◌, Bool-cases,
}
use cdc_pipeline.Base.Int.{pos, negsuc}
use cdc_pipeline.Base.Text.{digit, show, show_onto, show_ℤ}
use cdc_pipeline.Base.Decimal.{IsDigit, digit-IsDigit, show_onto-digit, show_onto-append}
use cdc_pipeline.Base.Decimal as Decimal
use cdc_pipeline.Json.{int, tenths}
use cdc_pipeline.Json.Parse.{
  then_read, is_digit, digits, natural, goes_on, scalar, number, fraction, ended, negated,
}

digits-digit :
    (d n : ℕ) (rest : String)
    → d < 10
    → digits n (String.◌∷◌ (digit d) rest) ≡ digits (n * 10 + d) rest
unfolding Decimal.is_digit digits
digits-digit d n rest h =
    let (is, value, _, _, _, _) = digit-IsDigit d h in rw (is, value, digits) refl

digits-show_onto :
    (fuel n : ℕ) (rest : String) → n < fuel → digits 0 (show_onto fuel n rest) ≡ digits n rest
unfolding show_onto
digits-show_onto zero n rest h = elim h [ ]
digits-show_onto (suc fuel) n rest h = elim (Bool-cases (ltb n 10)) [
  | inl small ↦
      rw small (digits-digit n 0 rest (ground arith) ∙ ap (λ m. digits m rest) (omega arith))
  | inr large ↦ rw large (
      digits-show_onto fuel (n / 10) (String.◌∷◌ (digit (n % 10)) rest) (ground arith)
      ∙ digits-digit (n % 10) (n / 10) rest (omega arith)
      ∙ ap (λ m. digits m rest) (omega arith))
]

-- The first digit of a positive number is not zero.
show_onto-first :
    (fuel n : ℕ) (rest : String)
    → n < fuel
    → 0 < n
    → (d : ℕ) × (t : String) × (d < 10) × (0 < d) × (show_onto fuel n rest ≡ String.◌∷◌ (digit d) t)
unfolding show_onto
show_onto-first zero n rest h p = elim h [ ]
show_onto-first (suc fuel) n rest h p = elim (Bool-cases (ltb n 10)) [
  | inl small ↦ rw small (n, rest, ground arith, p, refl)
  | inr large ↦ rw large (
      show_onto-first fuel (n / 10) (String.◌∷◌ (digit (n % 10)) rest) (ground arith)
        (ground arith))
]

abbrev begins : String → Bool
begins String.[] = false
begins (String.◌∷◌ c s) = is_digit (code c)

digits-stop : (n : ℕ) (rest : String) → begins rest ≡ false → digits n rest ≡ (n, rest)
unfolding digits
digits-stop n String.[] h = refl
digits-stop n (String.◌∷◌ c s) h = rw h refl

natural-digit :
    (d : ℕ) (t : String)
    → d < 10
    → 0 < d
    → natural (String.◌∷◌ (digit d) t) ≡ some (digits 0 (String.◌∷◌ (digit d) t))
unfolding Decimal.is_digit natural
natural-digit d t lt p =
    let (is, value, _, _, _, _) = digit-IsDigit d lt in
    let nonzero : (code (digit d) == 48) ≡ false = ground arith in rw (nonzero, is, natural) refl

natural-show_onto :
    (n : ℕ) (rest : String)
    → begins rest ≡ false
    → natural (show_onto (n + 1) n rest) ≡ some (n, rest)
natural-show_onto zero rest h = unfold show_onto natural digit in refl
natural-show_onto (suc n) rest h =
    let (d, t, lt, p, e) = show_onto-first (suc n + 1) (suc n) rest (omega arith) (omega arith) in
    ap natural e
    ∙ natural-digit d t lt p
    ∙ ap (λ s. some (digits 0 s)) (sym e)
    ∙ ap some (digits-show_onto (suc n + 1) (suc n) rest (omega arith) ∙ digits-stop (suc n) rest h)

-- Which reader a first character chooses.
module _ (c : Char) (t : String) where
  scalar-number :
      (code c == 34) ≡ false
      → (code c == 110) ≡ false
      → (code c == 116) ≡ false
      → (code c == 102) ≡ false
      → scalar (String.◌∷◌ c t) ≡ number (String.◌∷◌ c t)
  unfolding scalar
  scalar-number h1 h2 h3 h4 = rw h1 (rw h2 (rw h3 (rw h4 refl)))

  number-natural :
      (code c == 45) ≡ false
      → number (String.◌∷◌ c t) ≡ then_read (natural (String.◌∷◌ c t)) fraction
  unfolding number
  number-natural h = rw h refl

  scalar_of_digit :
      is_digit (code c) ≡ true
      → scalar (String.◌∷◌ c t) ≡ then_read (natural (String.◌∷◌ c t)) fraction
  scalar_of_digit h =
      scalar-number (ground arith) (ground arith) (ground arith) (ground arith)
      ∙ number-natural (ground arith)

scalar-show_onto :
    (n : ℕ) (rest : String)
    → begins rest ≡ false
    → scalar (show_onto (n + 1) n rest) ≡ fraction n rest
unfolding Decimal.is_digit
scalar-show_onto n rest h =
    let (d, t, lt, e) = show_onto-digit (n + 1) n rest (omega arith) in
    let (is, _, _, _, _, _) = digit-IsDigit d lt in
    ap scalar e
    ∙ scalar_of_digit (digit d) t is
    ∙ ap (λ s. then_read (natural s) fraction) (sym e)
    ∙ ap (λ r. then_read r fraction) (natural-show_onto n rest h)

goes_on-begins : (rest : String) → goes_on rest ≡ false → begins rest ≡ false
goes_on-begins String.[] h = refl
goes_on-begins (String.◌∷◌ c s) h = ground arith

fraction-ends :
    (n : ℕ) (rest : String) → goes_on rest ≡ false → fraction n rest ≡ some (int (pos n), rest)
unfolding fraction
fraction-ends n String.[] h = refl
fraction-ends n (String.◌∷◌ p String.[]) h = rw h refl
fraction-ends n (String.◌∷◌ p (String.◌∷◌ c s)) h = ground arith

fraction-point :
    (n d : ℕ) (rest : String)
    → d < 10
    → goes_on rest ≡ false
    → fraction n (String.◌∷◌ "." (String.◌∷◌ (digit d) rest)) ≡ some (tenths (n * 10 + d), rest)
unfolding fraction Decimal.is_digit
fraction-point n d rest lt h =
    let (is, value, _, _, _, _) = digit-IsDigit d lt in rw (is, value, fraction) (rw h refl)

show-append : (n : ℕ) (rest : String) → show n <> rest ≡ show_onto (n + 1) n rest
unfolding show
show-append n rest = show_onto-append (n + 1) n "" rest ∙ ap (show_onto (n + 1) n) (nil-append rest)

pub scalar-pos :
    (n : ℕ) (rest : String)
    → goes_on rest ≡ false
    → scalar (show_ℤ (pos n) <> rest) ≡ some (int (pos n), rest)
unfolding show_ℤ
scalar-pos n rest h =
    ap scalar (show-append n rest)
    ∙ scalar-show_onto n rest (goes_on-begins rest h)
    ∙ fraction-ends n rest h

number-minus :
    (t : String)
    → number (String.◌∷◌ "-" t) ≡ then_read (natural t) (λ n rest. ended (int (negated n)) rest)
unfolding number
number-minus t = refl

negated_suc : (n : ℕ) → negated (n + 1) ≡ negsuc n
negated_suc n = let e : n + 1 ≡ suc n = omega arith in ap negated e

pub scalar-negsuc :
    (n : ℕ) (rest : String)
    → goes_on rest ≡ false
    → scalar (show_ℤ (negsuc n) <> rest) ≡ some (int (negsuc n), rest)
unfolding show_ℤ
scalar-negsuc n rest h =
    ap scalar (cons-append "-" (show (n + 1)) rest ∙ ap (String.◌∷◌ "-") (show-append (n + 1) rest))
    ∙ scalar-number "-" (show_onto (n + 1 + 1) (n + 1) rest) refl refl refl refl
    ∙ number-minus (show_onto (n + 1 + 1) (n + 1) rest)
    ∙ ap (λ r. then_read r (λ m s. ended (int (negated m)) s))
        (natural-show_onto (n + 1) rest (goes_on-begins rest h))
    ∙ rw h (ap (λ m. some (int m, rest)) (negated_suc n))

show_digit : (d : ℕ) → d < 10 → show d ≡ String.◌∷◌ (digit d) ""
unfolding show show_onto
show_digit d h =
    let e : d + 1 ≡ suc d = omega arith in
    let small : ltb d 10 ≡ true = ground arith in ap (λ f. show_onto f d "") e ∙ rw small refl

pub scalar-tenths :
    (n : ℕ) (rest : String)
    → goes_on rest ≡ false
    → scalar ((show (n / 10) <> ("." <> show (n % 10))) <> rest) ≡ some (tenths n, rest)
scalar-tenths n rest h =
    let point : String = String.◌∷◌ "." (String.◌∷◌ (digit (n % 10)) rest) in
    let e : ((show (n / 10) <> ("." <> show (n % 10))) <> rest)
        ≡ show_onto (n / 10 + 1) (n / 10) point =
      append_assoc (show (n / 10)) ("." <> show (n % 10)) rest
      ∙ ap (λ t. show (n / 10) <> t)
          (ap (λ t. ("." <> t) <> rest) (show_digit (n % 10) (omega arith))
            ∙ append_assoc "." (String.◌∷◌ (digit (n % 10)) "") rest
            ∙ cons-append "." "" (String.◌∷◌ (digit (n % 10)) "" <> rest)
            ∙ ap (String.◌∷◌ ".") (
                nil-append (String.◌∷◌ (digit (n % 10)) "" <> rest)
                ∙ cons-append (digit (n % 10)) "" rest
                ∙ ap (String.◌∷◌ (digit (n % 10))) (nil-append rest)))
      ∙ show-append (n / 10) point in
    ap scalar e
    ∙ scalar-show_onto (n / 10) point refl
    ∙ fraction-point (n / 10) (n % 10) rest (omega arith) h
    ∙ ap (λ m. some (tenths m, rest)) (omega arith)
