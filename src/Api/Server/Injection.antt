-- ===== src/Api/Server/Injection.antt =====
-- Texts of a client inside the statement of `GetOrderById`, which `fmt::format` puts together.
use text.Mathlib.TextLemmas.{append_assoc}
use cdc_pipeline.Base.{String, ◌<>◌, ◌≡◌, none, arith, ap, sym, ◌∙◌}
use cdc_pipeline.Api.Action.{Service}
use cdc_pipeline.Api.Library.{Library, Postgres}
use cdc_pipeline.Api.Cache.{Reply}
use cdc_pipeline.Api.Database.{select_sql}
use cdc_pipeline.Api.Server.{get_order, cache_key}
use cdc_pipeline.Api.Server.Reads.{cached}

-- An identifier that closes the literal, and hides the quote behind it in a comment.
abbrev pub closing : String → String
closing statement = "'; " <> (statement <> "; --")

abbrev pub two_statements : String → String
two_statements statement =
    "SELECT id, user_id, total_amount, status, items_jsonb FROM orders WHERE id = ''; "
    <> (statement <> "; --'")

abbrev select_prefix : String
select_prefix = "SELECT id, user_id, total_amount, status, items_jsonb FROM orders WHERE id = '"

select_sql-closing :
    (statement : String) → select_sql (closing statement) ≡ two_statements statement
unfolding select_sql
select_sql-closing statement =
    ap (λ t. select_prefix <> t)
      (append_assoc "'; " (statement <> "; --") "'"
        ∙ ap (λ t. "'; " <> t) (append_assoc statement "; --" "'"))
    ∙ sym (append_assoc select_prefix "'; " (statement <> "; --'"))

module _ (L : Library) (P : Postgres L.Double) (redis : String → Reply) (w : Service P.State) where
  get_order-missed :
      (id : String)
      → cached L w.connected (redis (cache_key id)) ≡ none
      → (get_order L P redis id w).1.database ≡ (P.execute (select_sql id) w.database).1
  unfolding get_order
  get_order-missed id missed = ground arith

  -- Where the cache has no order, a GET has Postgres execute any statement that its identifier holds.
  pub get_order-executes :
      (statement : String)
      → cached L w.connected (redis (cache_key (closing statement))) ≡ none
      → (get_order L P redis (closing statement) w).1.database
        ≡ (P.execute (two_statements statement) w.database).1
  get_order-executes statement missed =
      get_order-missed (closing statement) missed
      ∙ ap (λ sql. (P.execute sql w.database).1) (select_sql-closing statement)
