-- ===== src/Json/Print/Escapes.antt =====
-- Texts that `json.dumps` has escaped are read back.
use text.Mathlib.TextLemmas.{nil-append, cons-append}
use Prim.Native.Char.{code}
use cdc_pipeline.Base.{
  ℕ, zero, suc, ◌+◌, ◌*◌, ◌/◌, ◌%◌, ◌<◌, String, ◌<>◌, ◌≡◌, refl, ap, ◌∙◌, some, arith,
}
use cdc_pipeline.Base.Text.{digit, hex4}
use cdc_pipeline.Json.Parse.Strings.{plain, hex, add_unit, units, hex_digit}

hex_digit-digit : (d : ℕ) → d < 16 → hex_digit (code (digit d)) ≡ some d
unfolding hex_digit digit
hex_digit-digit zero h = refl
hex_digit-digit (suc zero) h = refl
hex_digit-digit (suc (suc zero)) h = refl
hex_digit-digit (suc (suc (suc zero))) h = refl
hex_digit-digit (suc (suc (suc (suc zero)))) h = refl
hex_digit-digit (suc (suc (suc (suc (suc zero))))) h = refl
hex_digit-digit (suc (suc (suc (suc (suc (suc zero)))))) h = refl
hex_digit-digit (suc (suc (suc (suc (suc (suc (suc zero))))))) h = refl
hex_digit-digit (suc (suc (suc (suc (suc (suc (suc (suc zero)))))))) h = refl
hex_digit-digit (suc (suc (suc (suc (suc (suc (suc (suc (suc zero))))))))) h = refl
hex_digit-digit (suc (suc (suc (suc (suc (suc (suc (suc (suc (suc zero)))))))))) h = refl
hex_digit-digit (suc (suc (suc (suc (suc (suc (suc (suc (suc (suc (suc zero))))))))))) h = refl
hex_digit-digit (suc (suc (suc (suc (suc (suc (suc (suc (suc (suc (suc (suc zero)))))))))))) h =
    refl
hex_digit-digit (suc (suc (suc (suc (suc (suc (suc (suc (suc (suc (suc (suc (suc zero)))))))))))))
      h =
    refl
hex_digit-digit
      (suc (suc (suc (suc (suc (suc (suc (suc (suc (suc (suc (suc (suc (suc zero)))))))))))))) h =
    refl
hex_digit-digit
      (suc (suc (suc (suc (suc (suc (suc (suc (suc (suc (suc (suc (suc (suc (suc zero)))))))))))))))
      h =
    refl
hex_digit-digit
      (suc
        (suc (suc (suc (suc (suc (suc (suc (suc (suc (suc (suc (suc (suc (suc (suc d))))))))))))))))
      h =
    absurd (omega arith)

units-digit :
    (more n d : ℕ) (rest : String)
    → d < 16
    → units (hex (suc more) n) (String.◌∷◌ (digit d) rest) ≡ units (hex more (n * 16 + d)) rest
unfolding units
units-digit more n d rest h = rw (hex_digit-digit d h, units) refl

units-last :
    (n d : ℕ) (rest : String)
    → d < 16
    → units (hex 0 n) (String.◌∷◌ (digit d) rest) ≡ add_unit (n * 16 + d) (units plain rest)
unfolding units
units-last n d rest h = rw (hex_digit-digit d h, units) refl

abbrev four : ℕ → ℕ → ℕ → ℕ → String → String
four a b c d rest =
    String.◌∷◌ (digit a) (String.◌∷◌ (digit b) (String.◌∷◌ (digit c) (String.◌∷◌ (digit d) rest)))

hex4_lem : (u : ℕ) → hex4 u ≡ four (u / 4096 % 16) (u / 256 % 16) (u / 16 % 16) (u % 16) ""
unfolding hex4
hex4_lem u = refl

abbrev one : ℕ → String
one d = String.◌∷◌ (digit d) ""

abbrev two : ℕ → ℕ → String
two c d = String.◌∷◌ (digit c) (one d)

abbrev three : ℕ → ℕ → ℕ → String
three b c d = String.◌∷◌ (digit b) (two c d)

four-append : (a b c d : ℕ) (rest : String) → four a b c d "" <> rest ≡ four a b c d rest
four-append a b c d rest =
    cons-append (digit a) (three b c d) rest
    ∙ ap (String.◌∷◌ (digit a)) (
        cons-append (digit b) (two c d) rest
        ∙ ap (String.◌∷◌ (digit b)) (
            cons-append (digit c) (one d) rest
            ∙ ap (String.◌∷◌ (digit c))
                (cons-append (digit d) "" rest ∙ ap (String.◌∷◌ (digit d)) (nil-append rest))))

units-four :
    (a b c d : ℕ) (rest : String)
    → a < 16
    → b < 16
    → c < 16
    → d < 16
    → units (hex 3 0) (four a b c d rest)
      ≡ add_unit ((((0 * 16 + a) * 16 + b) * 16 + c) * 16 + d) (units plain rest)
units-four a b c d rest ha hb hc hd =
    units-digit 2 0 a (String.◌∷◌ (digit b) (String.◌∷◌ (digit c) (String.◌∷◌ (digit d) rest))) ha
    ∙ units-digit 1 (0 * 16 + a) b (String.◌∷◌ (digit c) (String.◌∷◌ (digit d) rest)) hb
    ∙ units-digit 0 ((0 * 16 + a) * 16 + b) c (String.◌∷◌ (digit d) rest) hc
    ∙ units-last (((0 * 16 + a) * 16 + b) * 16 + c) d rest hd

pub units-hex4 :
    (u : ℕ) (rest : String)
    → u < 65536
    → units (hex 3 0) (hex4 u <> rest) ≡ add_unit u (units plain rest)
units-hex4 u rest h =
    ap (λ t. units (hex 3 0) (t <> rest)) (hex4_lem u)
    ∙ ap (units (hex 3 0)) (four-append (u / 4096 % 16) (u / 256 % 16) (u / 16 % 16) (u % 16) rest)
    ∙ units-four (u / 4096 % 16) (u / 256 % 16) (u / 16 % 16) (u % 16) rest (omega arith)
        (omega arith) (omega arith) (omega arith)
    ∙ ap (λ n. add_unit n (units plain rest)) (omega arith)
