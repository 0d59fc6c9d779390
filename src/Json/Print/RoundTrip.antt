-- ===== src/Json/Print/RoundTrip.antt =====
-- Objects, and with them every value, as `json.dumps` prints them, are read back by `json.loads`.
use text.Mathlib.TextLemmas.{append_assoc, nil-append, cons-append}
use cdc_pipeline.Base.{ℕ, zero, suc, ◌≤◌, String, ◌<>◌, ◌≡◌, refl, sym, ap, ◌∙◌, false, some, arith}
use cdc_pipeline.Json.{
  Value, null, bool, int, tenths, str, arr, obj, Items, nil, ◌▹◌, Fields, end, ◌⦂◌⨾◌,
}
use cdc_pipeline.Json.Parse.{then_read, goes_on, value, object, fields}
use cdc_pipeline.Json.Print.{dumps, dumps_fields, quote, escape}
use cdc_pipeline.Json.Print.Texts.{read_string-escape}
use cdc_pipeline.Json.Print.Arrays.{
  cost, cost_fields, ValueRead, ItemsRead, ItemsRead-cons, ValueRead-scalar, ValueRead-arr,
  bracketed, literal, value-blank,
}

-- The members of an object from the second on, and its end.
abbrev fields_end : Fields → String → String
fields_end fs rest = dumps_fields ", " fs <> ("}" <> rest)

abbrev field_text : String → Value → Fields → String → String
field_text k v fs rest = quote k <> (": " <> (dumps v <> fields_end fs rest))

abbrev FieldsRead : Fields → Type 0
FieldsRead end = Unit
FieldsRead (k ⦂ v ⨾ fs) =
    (fuel : ℕ) (rest : String)
    → cost_fields (k ⦂ v ⨾ fs) ≤ fuel
    → fields fuel (field_text k v fs rest) ≡ some (k ⦂ v ⨾ fs, rest)

fields_end-end : (rest : String) → fields_end end rest ≡ String.◌∷◌ "}" rest
unfolding dumps_fields
fields_end-end rest = nil-append ("}" <> rest) ∙ literal "}" rest

-- The text of a first member, whatever stands in front of it and behind it.
field_text-append :
    (k : String) (v : Value) (fs : Fields) (rest : String)
    → (quote k <> (": " <> (dumps v <> dumps_fields ", " fs))) <> ("}" <> rest)
      ≡ field_text k v fs rest
field_text-append k v fs rest =
    append_assoc (quote k) (": " <> (dumps v <> dumps_fields ", " fs)) ("}" <> rest)
    ∙ ap (λ t. quote k <> t)
        (append_assoc ": " (dumps v <> dumps_fields ", " fs) ("}" <> rest)
          ∙ ap (λ t. ": " <> t) (append_assoc (dumps v) (dumps_fields ", " fs) ("}" <> rest)))

fields_end-cons :
    (k : String) (v : Value) (fs : Fields) (rest : String)
    → fields_end (k ⦂ v ⨾ fs) rest ≡ String.◌∷◌ "," (String.◌∷◌ " " (field_text k v fs rest))
unfolding dumps_fields
fields_end-cons k v fs rest =
    let text : String = quote k <> (": " <> (dumps v <> dumps_fields ", " fs)) in
    append_assoc ", " text ("}" <> rest)
    ∙ cons-append "," " " (text <> ("}" <> rest))
    ∙ ap (String.◌∷◌ ",")
        (literal " " (text <> ("}" <> rest)) ∙ ap (String.◌∷◌ " ") (field_text-append k v fs rest))

goes_on-fields_end : (fs : Fields) (rest : String) → goes_on (fields_end fs rest) ≡ false
goes_on-fields_end end rest = ap goes_on (fields_end-end rest)
goes_on-fields_end (k ⦂ v ⨾ fs) rest = ap goes_on (fields_end-cons k v fs rest)

-- A quoted key in front of a text.
quote-append : (k rest : String) → quote k <> rest ≡ String.◌∷◌ "\"" (escape k <> ("\"" <> rest))
unfolding quote
quote-append k rest = bracketed "\"" (escape k) "\"" rest

colon : (rest : String) → ": " <> rest ≡ String.◌∷◌ ":" (String.◌∷◌ " " rest)
colon rest = cons-append ":" " " rest ∙ ap (String.◌∷◌ ":") (literal " " rest)

fields-blank : (fuel : ℕ) (s : String) → fields fuel (String.◌∷◌ " " s) ≡ fields fuel s
unfolding fields
fields-blank zero s = refl
fields-blank (suc fuel) s = refl

module _ (k : String) (v : Value) (read : ValueRead v) where
  fields_last :
      (fuel : ℕ) (rest : String)
      → cost v ≤ fuel
      → fields (suc fuel) (field_text k v end rest) ≡ some (k ⦂ v ⨾ end, rest)
  unfolding fields
  fields_last fuel rest h =
      let x : String = dumps v <> fields_end end rest in
      rw (quote-append k (": " <> x), fields)
        (rw (read_string-escape k (": " <> x)) (
          rw (colon x) (
            rw (value-blank fuel x) (
              rw (read fuel (fields_end end rest) h (goes_on-fields_end end rest))
                (rw (fields_end-end rest) refl)))))

  fields_more :
      (j : String) (w : Value) (fs : Fields) (fuel : ℕ) (rest : String)
      → cost v ≤ fuel
      → fields fuel (field_text j w fs rest) ≡ some (j ⦂ w ⨾ fs, rest)
      → fields (suc fuel) (field_text k v (j ⦂ w ⨾ fs) rest) ≡ some (k ⦂ v ⨾ (j ⦂ w ⨾ fs), rest)
  unfolding fields
  fields_more j w fs fuel rest h others =
      let gs : Fields = j ⦂ w ⨾ fs in
      let x : String = dumps v <> fields_end gs rest in
      rw (quote-append k (": " <> x), fields)
        (rw (read_string-escape k (": " <> x)) (
          rw (colon x) (
            rw (value-blank fuel x) (
              rw (read fuel (fields_end gs rest) h (goes_on-fields_end gs rest)) (
                rw (fields_end-cons j w fs rest)
                  (rw (fields-blank fuel (field_text j w fs rest)) (rw others refl)))))))

FieldsRead-cons :
    (k : String) (v : Value) (fs : Fields) → ValueRead v → FieldsRead fs → FieldsRead (k ⦂ v ⨾ fs)
FieldsRead-cons k v end read others zero rest h = absurd (unfold cost in omega arith)
FieldsRead-cons k v end read others (suc fuel) rest h =
    fields_last k v read fuel rest (unfold cost in omega arith)
FieldsRead-cons k v (j ⦂ w ⨾ fs) read others zero rest h = absurd (unfold cost in omega arith)
FieldsRead-cons k v (j ⦂ w ⨾ fs) read others (suc fuel) rest h =
    fields_more k v read j w fs fuel rest (unfold cost in omega arith)
      (others fuel rest (unfold cost in omega arith))

obj_end : (rest : String) → dumps (obj end) <> rest ≡ String.◌∷◌ "{" (String.◌∷◌ "}" rest)
unfolding dumps
obj_end rest = cons-append "{" "}" rest ∙ ap (String.◌∷◌ "{") (literal "}" rest)

obj_cons :
    (k : String) (v : Value) (fs : Fields) (rest : String)
    → dumps (obj (k ⦂ v ⨾ fs)) <> rest ≡ String.◌∷◌ "{" (field_text k v fs rest)
unfolding dumps
obj_cons k v fs rest =
    let text : String = quote k <> (": " <> (dumps v <> dumps_fields ", " fs)) in
    bracketed "{" ("" <> text) "}" rest
    ∙ ap (String.◌∷◌ "{")
        (ap (λ t. t <> ("}" <> rest)) (nil-append text) ∙ field_text-append k v fs rest)

value-object : (fuel : ℕ) (s : String) → value (suc (suc fuel)) (String.◌∷◌ "{" s) ≡ object fuel s
unfolding value
value-object fuel s = refl

object-quote :
    (fuel : ℕ) (t : String)
    → object (suc fuel) (String.◌∷◌ "\"" t)
      ≡ then_read (fields fuel (String.◌∷◌ "\"" t)) (λ fs rest. some (obj fs, rest))
unfolding object
object-quote fuel t = refl

-- A text that begins with a quote is no closing bracket.
object-fields :
    (fuel : ℕ) (k : String) (x : String)
    → object (suc fuel) (quote k <> x)
      ≡ then_read (fields fuel (quote k <> x)) (λ fs rest. some (obj fs, rest))
object-fields fuel k x =
    ap (object (suc fuel)) (quote-append k x)
    ∙ object-quote fuel (escape k <> ("\"" <> x))
    ∙ ap (λ t. then_read (fields fuel t) (λ fs rest. some (obj fs, rest))) (sym (quote-append k x))

ValueRead-end : ValueRead (obj end)
ValueRead-end zero rest h ends = absurd (unfold cost in omega arith)
ValueRead-end (suc zero) rest h ends = absurd (unfold cost in omega arith)
ValueRead-end (suc (suc zero)) rest h ends = absurd (unfold cost in omega arith)
ValueRead-end (suc (suc (suc fuel))) rest h ends =
    ap (value (suc (suc (suc fuel)))) (obj_end rest)
    ∙ value-object (suc fuel) (String.◌∷◌ "}" rest)
    ∙ (unfold object in refl)

ValueRead-obj : (fs : Fields) → FieldsRead fs → ValueRead (obj fs)
ValueRead-obj end read fuel rest h ends = ValueRead-end fuel rest h ends
ValueRead-obj (k ⦂ v ⨾ fs) read zero rest h ends = absurd (unfold cost in omega arith)
ValueRead-obj (k ⦂ v ⨾ fs) read (suc zero) rest h ends = absurd (unfold cost in omega arith)
ValueRead-obj (k ⦂ v ⨾ fs) read (suc (suc zero)) rest h ends = absurd (unfold cost in omega arith)
ValueRead-obj (k ⦂ v ⨾ fs) read (suc (suc (suc fuel))) rest h ends =
    ap (value (suc (suc (suc fuel)))) (obj_cons k v fs rest)
    ∙ value-object (suc fuel) (field_text k v fs rest)
    ∙ object-fields fuel k (": " <> (dumps v <> fields_end fs rest))
    ∙ ap (λ r. then_read r (λ gs r'. some (obj gs, r')))
        (read fuel rest (unfold cost in omega arith))

mutual
  unfolding dumps cost

  pub value-dumps : (v : Value) → ValueRead v
  value-dumps null = ValueRead-scalar null refl refl refl
  value-dumps (bool b) = ValueRead-scalar (bool b) refl refl refl
  value-dumps (int n) = ValueRead-scalar (int n) refl refl refl
  value-dumps (tenths n) = ValueRead-scalar (tenths n) refl refl refl
  value-dumps (str s) = ValueRead-scalar (str s) refl refl refl
  value-dumps (arr vs) = ValueRead-arr vs (items-dumps vs)
  value-dumps (obj fs) = ValueRead-obj fs (fields-dumps fs)

  items-dumps : (vs : Items) → ItemsRead vs
  items-dumps nil = tt
  items-dumps (v ▹ vs) = ItemsRead-cons v vs (value-dumps v) (items-dumps vs)

  fields-dumps : (fs : Fields) → FieldsRead fs
  fields-dumps end = tt
  fields-dumps (k ⦂ v ⨾ fs) = FieldsRead-cons k v fs (value-dumps v) (fields-dumps fs)
