-- ===== src/Api/Tests/Quotes.antt =====
-- Texts cut at their quotes: the statements of `DatabaseClient` fall into the parts they are put together from.
use text.Mathlib.TextLemmas.{append_assoc, nil-append, cons-append}
use Prim.Native.Char.{Char, code}
use cdc_pipeline.Base.{
  ℕ, zero, suc, ◌+◌, ◌<◌, ◌/◌, ◌%◌, String, ◌<>◌, ◌≡◌, refl, sym, ap, ◌∙◌, true, List, [], ◌∷◌,
  arith, inl, inr, ◌==◌, if◌then◌else◌, Bool-cases, ltb,
}
use cdc_pipeline.Base.Text.{show, show_onto, digit}
use cdc_pipeline.Base.Decimal.{digit-IsDigit, is_digit}
use cdc_pipeline.Api.Table.{is_plain}
use cdc_pipeline.Api.Database.{insert_sql, select_sql}

-- The parts of a text between its quotes.
prepend : Char → List String → List String
prepend c [] = []
prepend c (p ∷ ps) = String.◌∷◌ c p ∷ ps

unfoldable pub quoted : String → List String
unfolding prepend
quoted String.[] = "" ∷ []
quoted (String.◌∷◌ c s) =
    let parts = quoted s in if code c == 39 then "" ∷ parts else prepend c parts

quoted-plain : (a rest : String) → is_plain a ≡ true → quoted (a <> ("'" <> rest)) ≡ a ∷ quoted rest
unfolding quoted
quoted-plain String.[] rest h = rw (nil-append, cons-append, nil-append) refl
quoted-plain (String.◌∷◌ c a) rest h = elim (Bool-cases (code c == 39)) [
  | inl quote ↦ absurd (ground arith)
  | inr other ↦ rw cons-append (rw (other, quoted-plain a rest (ground arith)) refl)
]

is_plain-append : (a b : String) → is_plain a ≡ true → is_plain b ≡ true → is_plain (a <> b) ≡ true
is_plain-append String.[] b h k = rw nil-append k
is_plain-append (String.◌∷◌ c a) b h k = rw cons-append (ground (arith, is_plain-append a b))

is_plain-digit :
    (d : ℕ) (rest : String)
    → d < 10
    → is_plain rest ≡ true
    → is_plain (String.◌∷◌ (digit d) rest) ≡ true
unfolding is_digit
is_plain-digit d rest lt h = let (is, _, _, _, _, _) = digit-IsDigit d lt in ground arith

is_plain-show_onto :
    (fuel n : ℕ) (rest : String) → is_plain rest ≡ true → is_plain (show_onto fuel n rest) ≡ true
unfolding show_onto
is_plain-show_onto zero n rest h = h
is_plain-show_onto (suc fuel) n rest h = elim (Bool-cases (ltb n 10)) [
  | inl small ↦ rw small (is_plain-digit n rest (ground arith) h)
  | inr large ↦ rw large (
      is_plain-show_onto fuel (n / 10) (String.◌∷◌ (digit (n % 10)) rest)
        (is_plain-digit (n % 10) rest (omega arith) h))
]

-- The texts of the two statements, cut at their quotes.
quoted_next :
    (a m rest : String)
    → is_plain a ≡ true
    → is_plain m ≡ true
    → quoted (a <> (("'" <> (m <> "'")) <> rest)) ≡ a ∷ (m ∷ quoted rest)
quoted_next a m rest h k =
    ap (λ t. quoted (a <> t))
      (append_assoc "'" (m <> "'") rest ∙ ap (λ t. "'" <> t) (append_assoc m "'" rest))
    ∙ quoted-plain a (m <> ("'" <> rest)) h
    ∙ ap (λ ps. a ∷ ps) (quoted-plain m rest k)

quoted_first : (a rest : String) → is_plain a ≡ true → quoted ((a <> "'") <> rest) ≡ a ∷ quoted rest
quoted_first a rest h = ap quoted (append_assoc a "'" rest) ∙ quoted-plain a rest h

quoted_then :
    (a b rest : String)
    → is_plain a ≡ true
    → quoted (a <> (("'" <> b) <> rest)) ≡ a ∷ quoted (b <> rest)
quoted_then a b rest h =
    ap (λ t. quoted (a <> t)) (append_assoc "'" b rest) ∙ quoted-plain a (b <> rest) h

abbrev select_head : String
select_head = "SELECT id, user_id, total_amount, status, items_jsonb FROM orders WHERE id = "

abbrev pub insert_head : String
insert_head = "INSERT INTO orders (id, user_id, total_amount, status, items_jsonb) VALUES ("

pub quoted-select_sql :
    (id : String) → is_plain id ≡ true → quoted (select_sql id) ≡ select_head ∷ (id ∷ ("" ∷ []))
unfolding select_sql quoted
quoted-select_sql id h =
    quoted_first select_head (id <> "'") refl ∙ ap (λ ps. select_head ∷ ps) (quoted-plain id "" h)

-- The amount, with what stands around it.
amount_part :
    (amount x : String)
    → ", " <> (amount <> (", 'CREATED', '" <> x))
      ≡ (", " <> (amount <> ", ")) <> (("'" <> "CREATED', '") <> x)
amount_part amount x =
    ap (λ t. ", " <> (amount <> t)) (append_assoc ", " "'CREATED', '" x)
    ∙ ap (λ t. ", " <> t) (sym (append_assoc amount ", " ("'CREATED', '" <> x)))
    ∙ sym (append_assoc ", " (amount <> ", ") ("'CREATED', '" <> x))

abbrev pub amount_text : String → String
amount_text amount = ", " <> (amount <> ", ")

quoted_values :
    (user_id amount items : String)
    → is_plain user_id ≡ true
    → is_plain amount ≡ true
    → is_plain items ≡ true
    → quoted (user_id <> (("'" <> ", ") <> (amount <> (", 'CREATED', '" <> (items <> "')")))))
      ≡ user_id ∷ (amount_text amount ∷ ("CREATED" ∷ (", " ∷ (items ∷ (")" ∷ [])))))
unfolding quoted
quoted_values user_id amount items hu ha hi =
    quoted_then user_id ", " (amount <> (", 'CREATED', '" <> (items <> "')"))) hu
    ∙ ap (λ ps. user_id ∷ ps)
        (ap quoted (amount_part amount (items <> "')"))
          ∙ quoted_then (amount_text amount) "CREATED', '" (items <> "')")
              (is_plain-append ", " (amount <> ", ") refl (is_plain-append amount ", " ha refl))
          ∙ ap (λ ps. amount_text amount ∷ ps)
              (ap quoted (append_assoc "CREATED" "', '" (items <> "')"))
                ∙ quoted_next "CREATED" ", " (items <> "')") refl refl
                ∙ ap (λ ps. "CREATED" ∷ (", " ∷ ps)) (quoted-plain items ")" hi)))

abbrev pub insert_parts : String → String → String → String → List String
insert_parts id user_id amount items =
    insert_head
    ∷ (id ∷ (", " ∷ (user_id ∷ (amount_text amount ∷ ("CREATED" ∷ (", " ∷ (items ∷ (")" ∷ []))))))))

pub quoted-insert_sql :
    (id user_id amount items : String)
    → is_plain id ≡ true
    → is_plain user_id ≡ true
    → is_plain amount ≡ true
    → is_plain items ≡ true
    → quoted (insert_sql id user_id amount items) ≡ insert_parts id user_id amount items
unfolding insert_sql
quoted-insert_sql id user_id amount items h hu ha hi =
    let rest : String = user_id <> ("', " <> (amount <> (", 'CREATED', '" <> (items <> "')")))) in
    quoted_first insert_head (id <> ("', '" <> rest)) refl
    ∙ ap (λ ps. insert_head ∷ ps)
        (quoted_next id ", " rest h refl
          ∙ ap (λ ps. id ∷ (", " ∷ ps)) (quoted_values user_id amount items hu ha hi))

pub is_plain-show : (n : ℕ) → is_plain (show n) ≡ true
unfolding show
is_plain-show n = is_plain-show_onto (n + 1) n "" refl
