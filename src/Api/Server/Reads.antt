-- ===== src/Api/Server/Reads.antt =====
-- What a GET of the order service answers: the text in Redis, or else the row in Postgres.
use cdc_pipeline.Base.{
  String, ◌≡◌, refl, Bool, true, false, ◌&&◌, Option, none, some, List, [], ◌∷◌, arith, inl, inr,
  Option-cases, ◌∙◌, ap,
}
use cdc_pipeline.Json.{Value, null, str, obj, end, ◌⦂◌⨾◌}
use cdc_pipeline.Json.Members.{set_field}
use cdc_pipeline.Consumer.Effects.{Answer, answered, failed}
use cdc_pipeline.Api.Action.{Service}
use cdc_pipeline.Api.Library.{Library, Postgres, Row, and_then, Answer-cases}
use cdc_pipeline.Api.Table.{View, IsPostgres, Unchanged, row_list, is_plain}
use cdc_pipeline.Api.Cache.{Reply, no_reply, text_reply}
use cdc_pipeline.Api.Database.{select_sql}
use cdc_pipeline.Api.Server.{Response, respond, server_error, not_found, get_order, cache_key}

-- The value with its member `source`, where it can have one.
abbrev pub with_source : String → Value → Option Value
with_source source null = some (obj ("source" ⦂ str source ⨾ end))
with_source source (obj fs) = some (obj (set_field "source" (str source) fs))
with_source source v = none

-- The order that the cache gives: a text that is an object or null, over a connection that is alive.
abbrev pub cached : (L : Library) → Bool → Reply → Option Value
cached L true (text_reply text) = and_then (with_source "redis") (L.parse text)
cached L _ _ = none

abbrev pub order_value : (L : Library) → Row L.Double → Value → Value
order_value L row items = obj (
    "id"
    ⦂ str row.id ⨾ "items_jsonb"
    ⦂ items ⨾ "source"
    ⦂ str "postgres" ⨾ "status"
    ⦂ str row.status ⨾ "total_amount"
    ⦂ L.value_of row.total_amount ⨾ "user_id"
    ⦂ str row.user_id ⨾ end)

abbrev row_items : (L : Library) → Row L.Double → Option Value → Response
row_items L row (some items) = respond 200 (L.dump (order_value L row items))
row_items L row none = server_error

-- The reply from the table.
abbrev pub row_reply : (L : Library) → Option (Row L.Double) → Response
row_reply L none = not_found
row_reply L (some row) = row_items L row (L.parse row.items_jsonb)

-- How a GET ends, by what the cache gives and the answer of Postgres, which is asked only
-- without an order from the cache.
abbrev pub Read :
    (L : Library) (P : Postgres L.Double)
    → View L.Double P.State
    → String
    → Option Value
    → Service P.State
    → Answer (List (Row L.Double)) × P.State
    → Response × Service P.State
    → Type 0
Read L P V id (some order) w a (r, w') =
    (r ≡ respond 200 (L.dump order)) × (w'.database ≡ w.database)
Read L P V id none w (answered rows, t) (r, w') =
    (r ≡ row_reply L (V.find w.database id)) × Unchanged V w.database w'.database
Read L P V id none w (failed why, t) (r, w') =
    (r ≡ server_error) × Unchanged V w.database w'.database

abbrev rows_reply : (L : Library) → List (Row L.Double) → Response
rows_reply L [] = not_found
rows_reply L (row ∷ rows) = row_items L row (L.parse row.items_jsonb)

rows_reply-row_list :
    (L : Library) (row : Option (Row L.Double)) → rows_reply L (row_list row) ≡ row_reply L row
rows_reply-row_list L none = refl
rows_reply-row_list L (some row) = refl

module _ (L : Library) (P : Postgres L.Double) (redis : String → Reply) (id : String)
    (w : Service P.State) where
  abbrev pub after : Service P.State
  after = (get_order L P redis id w).1

  abbrev pub reply : Response
  reply = (get_order L P redis id w).0

  abbrev pub cache : Option Value
  cache = cached L w.connected (redis (cache_key id))

  pub hit :
      (order : Value)
      → cache ≡ some order
      → (reply ≡ respond 200 (L.dump order)) × (after.database ≡ w.database)
  unfolding get_order
  hit order h = ground arith

  module _ (missed : cache ≡ none) where
    accepted :
        (rows : List (Row L.Double)) (t : P.State)
        → P.execute (select_sql id) w.database ≡ (answered rows, t)
        → (reply ≡ rows_reply L rows) × (after.database ≡ t)
    unfolding get_order
    accepted rows t e = ground arith

    refused :
        (why : String) (t : P.State)
        → P.execute (select_sql id) w.database ≡ (failed why, t)
        → (reply ≡ server_error) × (after.database ≡ t)
    unfolding get_order
    refused why t e = ground arith

-- The connection is lost where a command gets no reply, and only there.
abbrev pub replied : Reply → Bool
replied no_reply = false
replied _ = true

pub get_order-connected :
    (L : Library) (P : Postgres L.Double) (redis : String → Reply) (id : String)
    (w : Service P.State)
    → (get_order L P redis id w).1.connected ≡ (w.connected && replied (redis (cache_key id)))
unfolding get_order
get_order-connected L P redis id w = ground arith

module _ (L : Library) (P : Postgres L.Double) (V : View L.Double P.State)
    (H : IsPostgres L P V) where
  missed-Read :
      (redis : String → Reply) (id : String) (w : Service P.State)
      → is_plain id ≡ true
      → cached L w.connected (redis (cache_key id)) ≡ none
      → Read L P V id none w (P.execute (select_sql id) w.database) (get_order L P redis id w)
  missed-Read redis id w plain missed = elim (Answer-cases (P.execute (select_sql id) w.database)) [
    | inl (rows, t, e) ↦
        let (r, d) = accepted L P redis id w missed rows t e in
        let (found, kept) = H.selected id rows w.database t plain e in
        rw (e, d) (r ∙ ap (rows_reply L) found ∙ rows_reply-row_list L (V.find w.database id), kept)
    | inr (why, t, e) ↦
        let (r, d) = refused L P redis id w missed why t e in
        rw (e, d) (r, H.rolled_back (select_sql id) why w.database t e)
  ]

  pub get_order-Read :
      (redis : String → Reply) (id : String) (w : Service P.State)
      → is_plain id ≡ true
      → Read L P V id
          (cached L w.connected (redis (cache_key id)))
          w
          (P.execute (select_sql id) w.database)
          (get_order L P redis id w)
  get_order-Read redis id w plain =
      elim (Option-cases (cached L w.connected (redis (cache_key id)))) [
        | inl missed ↦ rw missed (missed-Read redis id w plain missed)
        | inr (order, found) ↦ rw found (hit L P redis id w order found)
      ]
