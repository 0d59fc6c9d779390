-- ===== src/Json/Print/Characters.antt =====
-- Each character that `json.dumps` escapes is read back as its code units.
use text.Mathlib.TextLemmas.{append_assoc, nil-append, cons-append}
use Prim.Native.Char.{Char, code}
use cdc_pipeline.Base.{
  ℕ, ◌+◌, ◌-◌, ◌/◌, ◌%◌, ◌<◌, String, ◌<>◌, ◌≡◌, refl, sym, ap, ◌∙◌, inl, inr, true, false, ◌&&◌,
  List, [], ◌∷◌, arith, ltb, leb, ◌==◌, if◌then◌else◌, Bool-cases,
}
use cdc_pipeline.Base.Text.{hex4}
use cdc_pipeline.Json.Parse.Strings.{plain, escaped, emit, Units, add_unit, units, step, code_range}
use cdc_pipeline.Json.Print.{escape_char, escape_code}
use cdc_pipeline.Json.Print.Escapes.{units-hex4}

-- UTF-16.
unfoldable pub units_of : ℕ → List ℕ
units_of n =
    if ltb n 65536 then n ∷ [] else (55296 + (n - 65536) / 1024) ∷ (56320 + (n - 65536) % 1024) ∷ []

abbrev pub add_units : List ℕ → Units → Units
add_units [] r = r
add_units (u ∷ us) r = add_unit u (add_units us r)

units-escaped :
    (e : Char) (n k : ℕ) (rest : String)
    → (n == k) ≡ true
    → k < 65536
    → step escaped (code e) ≡ emit k
    → units plain (String.◌∷◌ "\\" (String.◌∷◌ e "") <> rest)
      ≡ add_units (units_of n) (units plain rest)
unfolding units units_of
units-escaped e n k rest same small steps =
    ap (units plain) (
      cons-append "\\" (String.◌∷◌ e "") rest
      ∙ ap (String.◌∷◌ "\\") (cons-append e "" rest ∙ ap (String.◌∷◌ e) (nil-append rest)))
    ∙ rw (steps, units) (ground arith)

units-plain :
    (c : Char) (rest : String)
    → (code c == 34) ≡ false
    → (code c == 92) ≡ false
    → (leb 32 (code c) && leb (code c) 126) ≡ true
    → units plain (String.◌∷◌ c "" <> rest) ≡ add_units (units_of (code c)) (units plain rest)
unfolding units units_of
units-plain c rest quote backslash printable =
    ap (units plain) (cons-append c "" rest ∙ ap (String.◌∷◌ c) (nil-append rest)) ∙ ground arith

-- "\u" and four digits.
units-u :
    (u : ℕ) (rest : String)
    → u < 65536
    → units plain (("\\u" <> hex4 u) <> rest) ≡ add_unit u (units plain rest)
unfolding units
units-u u rest h =
    ap (units plain) (
      append_assoc "\\u" (hex4 u) rest
      ∙ cons-append "\\" "u" (hex4 u <> rest)
      ∙ ap (String.◌∷◌ "\\")
          (cons-append "u" "" (hex4 u <> rest) ∙ ap (String.◌∷◌ "u") (nil-append (hex4 u <> rest))))
    ∙ units-hex4 u rest h

units-escape_code :
    (n : ℕ) (rest : String)
    → n < 1114112
    → units plain (escape_code n <> rest) ≡ add_units (units_of n) (units plain rest)
unfolding escape_code units_of
units-escape_code n rest h = elim (Bool-cases (ltb n 65536)) [
  | inl one ↦ rw one (units-u n rest (ground arith))
  | inr two ↦ rw two (
      let hi : ℕ = 55296 + (n - 65536) / 1024 in
      let lo : ℕ = 56320 + (n - 65536) % 1024 in
      ap (units plain) (
        ap (λ t. t <> rest) (sym (append_assoc "\\u" (hex4 hi) ("\\u" <> hex4 lo)))
        ∙ append_assoc ("\\u" <> hex4 hi) ("\\u" <> hex4 lo) rest)
      ∙ units-u hi (("\\u" <> hex4 lo) <> rest) (ground arith)
      ∙ ap (add_unit hi) (units-u lo rest (omega arith)))
]

code_bound : (c : Char) → code c < 1114112
code_bound c = elim (code_range c) [ inl low ↦ omega arith | inr (high, bound) ↦ bound ]

step_34 : step escaped 34 ≡ emit 34
unfolding step
step_34 = refl

step_92 : step escaped 92 ≡ emit 92
unfolding step
step_92 = refl

step_10 : step escaped 110 ≡ emit 10
unfolding step
step_10 = refl

step_13 : step escaped 114 ≡ emit 13
unfolding step
step_13 = refl

step_9 : step escaped 116 ≡ emit 9
unfolding step
step_9 = refl

step_12 : step escaped 102 ≡ emit 12
unfolding step
step_12 = refl

step_8 : step escaped 98 ≡ emit 8
unfolding step
step_8 = refl

pub units-escape_char :
    (c : Char) (rest : String)
    → units plain (escape_char c <> rest) ≡ add_units (units_of (code c)) (units plain rest)
unfolding escape_char
units-escape_char c rest = elim (Bool-cases (code c == 34)) [
  | inl e ↦ rw e (units-escaped "\"" (code c) 34 rest e (omega arith) (step_34))
  | inr h34 ↦ rw h34 (elim (Bool-cases (code c == 92)) [
    | inl e ↦ rw e (units-escaped "\\" (code c) 92 rest e (omega arith) (step_92))
    | inr h92 ↦ rw h92 (elim (Bool-cases (code c == 10)) [
      | inl e ↦ rw e (units-escaped "n" (code c) 10 rest e (omega arith) (step_10))
      | inr h10 ↦ rw h10 (elim (Bool-cases (code c == 13)) [
        | inl e ↦ rw e (units-escaped "r" (code c) 13 rest e (omega arith) (step_13))
        | inr h13 ↦ rw h13 (elim (Bool-cases (code c == 9)) [
          | inl e ↦ rw e (units-escaped "t" (code c) 9 rest e (omega arith) (step_9))
          | inr h9 ↦ rw h9 (elim (Bool-cases (code c == 12)) [
            | inl e ↦ rw e (units-escaped "f" (code c) 12 rest e (omega arith) (step_12))
            | inr h12 ↦ rw h12 (elim (Bool-cases (code c == 8)) [
              | inl e ↦ rw e (units-escaped "b" (code c) 8 rest e (omega arith) (step_8))
              | inr h8 ↦ rw h8 (elim (Bool-cases (leb 32 (code c) && leb (code c) 126)) [
                | inl shown ↦ rw shown (units-plain c rest h34 h92 shown)
                | inr hidden ↦ rw hidden (units-escape_code (code c) rest (code_bound c))
              ])
            ])
          ])
        ])
      ])
    ])
  ])
]
