-- ===== src/Json/Print/Arrays.antt =====
-- Arrays, as `json.dumps` prints them, are read back where their members are.
use text.Mathlib.TextLemmas.{append_assoc, nil-append, cons-append}
use Prim.Native.Char.{Char, code}
use cdc_pipeline.Base.{
  ℕ, zero, suc, ◌+◌, ◌≤◌, String, ◌<>◌, ◌≡◌, refl, sym, ap, ◌∙◌, true, false, some, arith, ◌==◌,
}
use cdc_pipeline.Json.{
  Value, null, bool, int, tenths, str, arr, obj, Items, nil, ◌▹◌, Fields, end, ◌⦂◌⨾◌,
}
use cdc_pipeline.Json.Parse.{then_read, is_blank, goes_on, value, opened, array, items}
use cdc_pipeline.Json.Print.{dumps, dumps_items, dumps_fields, scalar as printed}
use cdc_pipeline.Json.Print.Values.{is_scalar, printed-Opens, value-printed, skip-blank}

-- The calls that a value needs.
unfoldable mutual
  pub cost : Value → ℕ
  cost (arr vs) = 3 + cost_items vs
  cost (obj fs) = 3 + cost_fields fs
  cost null = 2
  cost (bool b) = 2
  cost (int n) = 2
  cost (tenths n) = 2
  cost (str s) = 2

  pub cost_items : Items → ℕ
  cost_items nil = 0
  cost_items (v ▹ vs) = 1 + cost v + cost_items vs

  pub cost_fields : Fields → ℕ
  cost_fields end = 0
  cost_fields (k ⦂ v ⨾ fs) = 1 + cost v + cost_fields fs

abbrev pub ValueRead : Value → Type 0
ValueRead v =
    (fuel : ℕ) (rest : String)
    → cost v ≤ fuel
    → goes_on rest ≡ false
    → value fuel (dumps v <> rest) ≡ some (v, rest)

-- The members of an array from the second on, and its end.
abbrev pub items_end : Items → String → String
items_end vs rest = dumps_items ", " vs <> ("]" <> rest)

abbrev pub ItemsRead : Items → Type 0
ItemsRead nil = Unit
ItemsRead (v ▹ vs) =
    (fuel : ℕ) (rest : String)
    → cost_items (v ▹ vs) ≤ fuel
    → items fuel (dumps v <> items_end vs rest) ≡ some (v ▹ vs, rest)

pub literal : (c : Char) (rest : String) → String.◌∷◌ c "" <> rest ≡ String.◌∷◌ c rest
literal c rest = cons-append c "" rest ∙ ap (String.◌∷◌ c) (nil-append rest)

items_end-nil : (rest : String) → items_end nil rest ≡ String.◌∷◌ "]" rest
unfolding dumps
items_end-nil rest = nil-append ("]" <> rest) ∙ literal "]" rest

items_end-cons :
    (v : Value) (vs : Items) (rest : String)
    → items_end (v ▹ vs) rest ≡ String.◌∷◌ "," (String.◌∷◌ " " (dumps v <> items_end vs rest))
unfolding dumps_items
items_end-cons v vs rest =
    append_assoc ", " (dumps v <> dumps_items ", " vs) ("]" <> rest)
    ∙ cons-append "," " " ((dumps v <> dumps_items ", " vs) <> ("]" <> rest))
    ∙ ap (String.◌∷◌ ",") (
        literal " " ((dumps v <> dumps_items ", " vs) <> ("]" <> rest))
        ∙ ap (String.◌∷◌ " ") (append_assoc (dumps v) (dumps_items ", " vs) ("]" <> rest)))

pub goes_on-items_end : (vs : Items) (rest : String) → goes_on (items_end vs rest) ≡ false
goes_on-items_end nil rest = ap goes_on (items_end-nil rest)
goes_on-items_end (v ▹ vs) rest = ap goes_on (items_end-cons v vs rest)

pub value-blank : (fuel : ℕ) (s : String) → value fuel (String.◌∷◌ " " s) ≡ value fuel s
unfolding value
value-blank zero s = refl
value-blank (suc fuel) s = ap (opened fuel) (skip-blank s)

items-blank : (fuel : ℕ) (s : String) → items fuel (String.◌∷◌ " " s) ≡ items fuel s
unfolding items
items-blank zero s = refl
items-blank (suc fuel) s = rw (value-blank fuel s, items) refl

module _ (v : Value) (read : ValueRead v) where
  items_last :
      (fuel : ℕ) (rest : String)
      → cost v ≤ fuel
      → items (suc fuel) (dumps v <> items_end nil rest) ≡ some (v ▹ nil, rest)
  unfolding items
  items_last fuel rest h =
      rw (read fuel (items_end nil rest) h (goes_on-items_end nil rest), items)
        (rw (items_end-nil rest) refl)

  items_more :
      (w : Value) (ws : Items) (fuel : ℕ) (rest : String)
      → cost v ≤ fuel
      → items fuel (dumps w <> items_end ws rest) ≡ some (w ▹ ws, rest)
      → items (suc fuel) (dumps v <> items_end (w ▹ ws) rest) ≡ some (v ▹ (w ▹ ws), rest)
  unfolding items
  items_more w ws fuel rest h others =
      rw (read fuel (items_end (w ▹ ws) rest) h (goes_on-items_end (w ▹ ws) rest), items)
        (rw (items_end-cons w ws rest)
          (rw (items-blank fuel (dumps w <> items_end ws rest)) (rw others refl)))

pub ItemsRead-cons : (v : Value) (vs : Items) → ValueRead v → ItemsRead vs → ItemsRead (v ▹ vs)
ItemsRead-cons v nil read others zero rest h = absurd (unfold cost in omega arith)
ItemsRead-cons v nil read others (suc fuel) rest h =
    items_last v read fuel rest (unfold cost in omega arith)
ItemsRead-cons v (w ▹ ws) read others zero rest h = absurd (unfold cost in omega arith)
ItemsRead-cons v (w ▹ ws) read others (suc fuel) rest h =
    items_more v read w ws fuel rest (unfold cost in omega arith)
      (others fuel rest (unfold cost in omega arith))

pub ValueRead-scalar :
    (v : Value) → is_scalar v ≡ true → dumps v ≡ printed v → cost v ≡ 2 → ValueRead v
ValueRead-scalar v s same two zero rest h ends = absurd (omega arith)
ValueRead-scalar v s same two (suc zero) rest h ends = absurd (omega arith)
ValueRead-scalar v s same two (suc (suc fuel)) rest h ends =
    ap (λ t. value (suc (suc fuel)) (t <> rest)) same ∙ value-printed v fuel rest s ends

-- A text between brackets.
pub bracketed :
    (c : Char) (a z rest : String)
    → (String.◌∷◌ c "" <> (a <> z)) <> rest ≡ String.◌∷◌ c (a <> (z <> rest))
bracketed c a z rest =
    append_assoc (String.◌∷◌ c "") (a <> z) rest
    ∙ literal c ((a <> z) <> rest)
    ∙ ap (String.◌∷◌ c) (append_assoc a z rest)

pub arr_nil : (rest : String) → dumps (arr nil) <> rest ≡ String.◌∷◌ "[" (String.◌∷◌ "]" rest)
unfolding dumps
arr_nil rest = cons-append "[" "]" rest ∙ ap (String.◌∷◌ "[") (literal "]" rest)

pub arr_cons :
    (v : Value) (vs : Items) (rest : String)
    → dumps (arr (v ▹ vs)) <> rest ≡ String.◌∷◌ "[" (dumps v <> items_end vs rest)
unfolding dumps
arr_cons v vs rest =
    bracketed "[" ("" <> (dumps v <> dumps_items ", " vs)) "]" rest
    ∙ ap (String.◌∷◌ "[") (
        ap (λ t. t <> ("]" <> rest)) (nil-append (dumps v <> dumps_items ", " vs))
        ∙ append_assoc (dumps v) (dumps_items ", " vs) ("]" <> rest))

-- The first character of any value.
abbrev pub Starts : String → Type 0
Starts s =
    (c : Char) × (t : String) × (s ≡ String.◌∷◌ c t)
    × ((is_blank (code c) ≡ false) × ((code c == 93) ≡ false) × ((code c == 125) ≡ false))

Starts-scalar : (v : Value) → is_scalar v ≡ true → dumps v ≡ printed v → Starts (dumps v)
Starts-scalar v s same =
    let (c, t, e, (blank, square, curly, _, _)) = printed-Opens v s in
    (c, t, same ∙ e, (blank, square, curly))

pub dumps-Starts : (v : Value) → Starts (dumps v)
unfolding dumps
dumps-Starts null = Starts-scalar null refl refl
dumps-Starts (bool b) = Starts-scalar (bool b) refl refl
dumps-Starts (int n) = Starts-scalar (int n) refl refl
dumps-Starts (tenths n) = Starts-scalar (tenths n) refl refl
dumps-Starts (str t) = Starts-scalar (str t) refl refl
dumps-Starts (arr vs) =
    ("[", dumps_items "" vs <> "]", literal "[" (dumps_items "" vs <> "]"), (refl, refl, refl))
dumps-Starts (obj fs) =
    ("{", dumps_fields "" fs <> "}", literal "{" (dumps_fields "" fs <> "}"), (refl, refl, refl))

pub value-array : (fuel : ℕ) (s : String) → value (suc (suc fuel)) (String.◌∷◌ "[" s) ≡ array fuel s
unfolding value
value-array fuel s = refl

pub array-items :
    (fuel : ℕ) (c : Char) (t : String)
    → is_blank (code c) ≡ false
    → (code c == 93) ≡ false
    → array (suc fuel) (String.◌∷◌ c t)
      ≡ then_read (items fuel (String.◌∷◌ c t)) (λ vs rest. some (arr vs, rest))
unfolding array
array-items fuel c t blank square = rw (blank, square, array) refl

ValueRead-nil : ValueRead (arr nil)
ValueRead-nil zero rest h ends = absurd (unfold cost in omega arith)
ValueRead-nil (suc zero) rest h ends = absurd (unfold cost in omega arith)
ValueRead-nil (suc (suc zero)) rest h ends = absurd (unfold cost in omega arith)
ValueRead-nil (suc (suc (suc fuel))) rest h ends =
    ap (value (suc (suc (suc fuel)))) (arr_nil rest)
    ∙ value-array (suc fuel) (String.◌∷◌ "]" rest)
    ∙ (unfold array in refl)

pub ValueRead-arr : (vs : Items) → ItemsRead vs → ValueRead (arr vs)
ValueRead-arr nil read fuel rest h ends = ValueRead-nil fuel rest h ends
ValueRead-arr (v ▹ vs) read zero rest h ends = absurd (unfold cost in omega arith)
ValueRead-arr (v ▹ vs) read (suc zero) rest h ends = absurd (unfold cost in omega arith)
ValueRead-arr (v ▹ vs) read (suc (suc zero)) rest h ends = absurd (unfold cost in omega arith)
ValueRead-arr (v ▹ vs) read (suc (suc (suc fuel))) rest h ends =
    let (c, t, e, (blank, square, _)) = dumps-Starts v in
    let first : (dumps v <> items_end vs rest) ≡ String.◌∷◌ c (t <> items_end vs rest) =
      ap (λ x. x <> items_end vs rest) e ∙ cons-append c t (items_end vs rest) in
    ap (value (suc (suc (suc fuel)))) (arr_cons v vs rest)
    ∙ value-array (suc fuel) (dumps v <> items_end vs rest)
    ∙ ap (array (suc fuel)) first
    ∙ array-items fuel c (t <> items_end vs rest) blank square
    ∙ ap (λ x. then_read (items fuel x) (λ ws r. some (arr ws, r))) (sym first)
    ∙ ap (λ r. then_read r (λ ws r'. some (arr ws, r')))
        (read fuel rest (unfold cost in omega arith))
