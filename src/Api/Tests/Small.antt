-- ===== src/Api/Tests/Small.antt =====
-- A small database that reads the statements of `DatabaseClient` from their texts, and that it is as the
-- order service relies on.
use text.Mathlib.TextLemmas.{nil-append, cons-append}
use cdc_pipeline.Base.{
  ℕ, ◌+◌, String, ◌<>◌, ◌≡◌, refl, sym, ap, ◌∙◌, Bool, true, false, Option, none, some, List, [],
  ◌∷◌, arith, str_eq, str_eq_iff, str_eq_refl, if◌then◌else◌,
}
use cdc_pipeline.Base.Int.{pos}
use cdc_pipeline.Json.{Value, int, num}
use cdc_pipeline.Base.Text.{show}
use cdc_pipeline.Base.Decimal.{read, read-show_onto, show_onto-append}
use cdc_pipeline.Consumer.Effects.{Answer, answered, failed}
use cdc_pipeline.Api.Library.{Library, Postgres, Row}
use cdc_pipeline.Api.Table.{View, IsPostgres, is_plain, new_row, with_status, row_list, row_count}
use cdc_pipeline.Api.Database.{insert_sql, select_sql}
use cdc_pipeline.Api.Tests.Quotes.{
  quoted, quoted-select_sql, quoted-insert_sql, amount_text, is_plain-show,
}

-- The numbers of the small database are natural.
abbrev natural : Value → Option ℕ
natural (int (pos n)) = some n
natural v = none

-- The statements that the small database knows.
pub data Statement : Type 0 where
  insert : Row ℕ → Statement
  select : String → Statement

-- The number behind ", ".
amount_of : String → ℕ
amount_of String.[] = 0
amount_of (String.◌∷◌ c String.[]) = 0
amount_of (String.◌∷◌ c (String.◌∷◌ d s)) = read 0 s

parse_sql : List String → Option Statement
unfolding amount_of
parse_sql (head ∷ id ∷ tail ∷ []) = some (select id)
parse_sql (head ∷ id ∷ _ ∷ user ∷ amount ∷ status ∷ _ ∷ items ∷ tail ∷ []) = some (
    insert record {
      id = id;
      user_id = user;
      total_amount = amount_of amount;
      status = status;
      items_jsonb = items;
    })
parse_sql _ = none

unfoldable pub find : List (Row ℕ) → String → Option (Row ℕ)
find [] k = none
find (row ∷ rows) k = if str_eq row.id k then some row else find rows k

abbrev is_there : Option (Row ℕ) → Bool
is_there none = false
is_there (some row) = true

perform : Option Statement → List (Row ℕ) → Answer (List (Row ℕ)) × List (Row ℕ)
unfolding find
perform none t = (failed "syntax error", t)
perform (some (select id)) t = (answered (row_list (find t id)), t)
perform (some (insert row)) t =
    if is_there (find t row.id) then (failed "duplicate key", t) else (answered [], row ∷ t)

set_status : String → String → List (Row ℕ) → List (Row ℕ)
set_status id status [] = []
set_status id status (row ∷ rows) =
    (if str_eq row.id id then record row { status = status } else row) ∷ set_status id status rows

unfoldable pub execute_params : List String → List (Row ℕ) → Answer ℕ × List (Row ℕ)
unfolding set_status find
execute_params (status ∷ id ∷ []) t = (answered (row_count (find t id)), set_status id status t)
execute_params _ t = (failed "parameters", t)

unfoldable pub execute : String → List (Row ℕ) → Answer (List (Row ℕ)) × List (Row ℕ)
unfolding perform parse_sql quoted
execute sql t = perform (parse_sql (quoted sql)) t

abbrev pub small : Postgres ℕ
small = record {
  State = List (Row ℕ);
  execute = execute;
  execute_params = λ sql args t. execute_params args t;
}

abbrev pub small_view : View ℕ (List (Row ℕ))
small_view = record { find = find; stored = λ row. row; same = str_eq }

find-set_status :
    (id status k : String) (t : List (Row ℕ))
    → find (set_status id status t) k
      ≡ (if str_eq id k then with_status status (find t k) else find t k)
unfolding find set_status
find-set_status id status k [] = ground arith
find-set_status id status k (row ∷ rows) = ground (
  arith,
  str_eq_iff id k,
  str_eq_iff row.id id,
  str_eq_iff row.id k,
  find-set_status id status k rows,
)

perform_failed :
    (s : Option Statement) (why : String) (t u : List (Row ℕ))
    → perform s t ≡ (failed why, u)
    → u ≡ t
unfolding perform
perform_failed none why t u e = ground arith
perform_failed (some (select id)) why t u e = ground arith
perform_failed (some (insert row)) why t u e = ground arith

params_failed :
    (args : List String) (why : String) (t u : List (Row ℕ))
    → execute_params args t ≡ (failed why, u)
    → u ≡ t
unfolding execute_params
params_failed [] why t u e = ground arith
params_failed (a ∷ []) why t u e = ground arith
params_failed (a ∷ b ∷ []) why t u e = ground arith
params_failed (a ∷ b ∷ c ∷ r) why t u e = ground arith

amount_of-amount_text : (n : ℕ) → amount_of (amount_text (show n)) ≡ n
unfolding amount_of show read
amount_of-amount_text n =
    let x : String = show n <> ", " in
    let e : (", " <> x) ≡ String.◌∷◌ "," (String.◌∷◌ " " x) =
      cons-append "," " " x
      ∙ ap (String.◌∷◌ ",") (cons-append " " "" x ∙ ap (String.◌∷◌ " ") (nil-append x)) in
    ap amount_of e
    ∙ ap (read 0) (show_onto-append (n + 1) n "" ", ")
    ∙ read-show_onto (n + 1) n ", " (omega arith)

find_kept :
    (row r : Row ℕ) (t : List (Row ℕ)) (k : String)
    → is_there (find t row.id) ≡ false
    → find t k ≡ some r
    → find (row ∷ t) k ≡ some r
unfolding find
find_kept row r t k new there = ground (arith, str_eq_iff row.id k)

module _ (row : Row ℕ) (t u : List (Row ℕ)) (rows : List (Row ℕ))
    (done : perform (some (insert row)) t ≡ (answered rows, u)) where
  insert_new : is_there (find t row.id) ≡ false
  unfolding perform
  insert_new = ground arith

  insert_after : u ≡ row ∷ t
  unfolding perform
  insert_after = ground arith

  insert_done :
      (find u row.id ≡ some row)
      × ((k : String) (r : Row ℕ) → find t k ≡ some r → find u k ≡ some r)
  insert_done = rw insert_after (
    (unfold find in rw (str_eq_refl row.id) refl),
    λ k r there. find_kept row r t k insert_new there,
  )

parse_sql-insert :
    (id user_id items : String) (n : ℕ)
    → is_plain id ≡ true
    → is_plain user_id ≡ true
    → is_plain items ≡ true
    → parse_sql (quoted (insert_sql id user_id (show n) items))
      ≡ some (insert (new_row id user_id n items))
unfolding parse_sql
parse_sql-insert id user_id items n h hu hi =
    ap parse_sql (quoted-insert_sql id user_id (show n) items h hu (is_plain-show n) hi)
    ∙ ap (λ amount. some (insert (new_row id user_id amount items))) (amount_of-amount_text n)

parse_sql-select :
    (id : String) → is_plain id ≡ true → parse_sql (quoted (select_sql id)) ≡ some (select id)
unfolding parse_sql
parse_sql-select id h = ap parse_sql (quoted-select_sql id h)

selected :
    (id : String) (rows s t : List (Row ℕ))
    → perform (some (select id)) s ≡ (answered rows, t)
    → (rows ≡ row_list (find s id)) × ((k : String) → find t k ≡ find s k)
unfolding perform
selected id rows s t e = (ground arith, λ k. ground arith)

params_updated :
    (id status : String) (n : ℕ) (s t : List (Row ℕ))
    → execute_params (status ∷ id ∷ []) s ≡ (answered n, t)
    → (n ≡ row_count (find s id))
      × ((k : String)
          → find t k ≡ (if str_eq id k then with_status status (find s k) else find s k))
unfolding execute_params
params_updated id status n s t e =
    (ground arith, λ k. ground (arith, find-set_status id status k s))

abbrev pub reader : (parse : String → Option Value) (dump : Value → String) → Library
reader parse dump = record {
  Double = ℕ;
  double_of = λ v. natural v;
  value_of = num;
  show = show;
  parse = parse;
  dump = dump;
  parse_error = λ text. "parse error";
  type_error = λ v k. "type error";
}

module _ (parse : String → Option Value) (dump : Value → String) where
  pub small-IsPostgres : IsPostgres (reader parse dump) small small_view
  unfolding execute
  small-IsPostgres = record {
    rolled_back =
        λ sql why s t e k. ap (λ u. find u k) (perform_failed (parse_sql (quoted sql)) why s t e);
    params_rolled_back = λ sql why args s t e k. ap (λ u. find u k) (params_failed args why s t e);
    inserted = λ id user_id items amount rows s t h hu hi e.
        insert_done (new_row id user_id amount items) s t rows
          (ap (λ p. perform p s) (sym (parse_sql-insert id user_id items amount h hu hi)) ∙ e);
    selected = λ id rows s t h e.
        selected id rows s t (ap (λ p. perform p s) (sym (parse_sql-select id h)) ∙ e);
    updated = λ id status n s t e. params_updated id status n s t e;
  }
