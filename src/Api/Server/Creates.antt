-- ===== src/Api/Server/Creates.antt =====
-- What a POST to the order service leaves in the table, for every body and every answer of Postgres.
use cdc_pipeline.Base.{String, ◌≡◌, true, Option, none, some, List, arith, inl, inr}
use cdc_pipeline.Json.{Value, field?}
use cdc_pipeline.Consumer.Effects.{Answer, answered, failed}
use cdc_pipeline.Api.Action.{Service}
use cdc_pipeline.Api.Library.{Library, Postgres, Row, string_of, and_then, Answer-cases}
use cdc_pipeline.Api.Table.{View, IsPostgres, Unchanged, new_row, is_plain}
use cdc_pipeline.Api.Database.{insert_sql}
use cdc_pipeline.Api.Server.{Response, respond, created, bad_request, server_error, post_order}

-- An order as the service reads it from a body.
pub record Order (D : Type 0) : Type 0 where
  pub user_id : String
  pub amount : D
  pub items : Value

module _ {D : Type 0} where
  abbrev order_of : Option String → Option D → Option Value → Option (Order D)
  order_of (some user_id) (some amount) (some items) =
      some (record { user_id = user_id; amount = amount; items = items })
  order_of _ _ _ = none

-- The bodies that are accepted: an object with a text `user_id`, a number `total_amount` and `items`.
abbrev pub read_order : (L : Library) → String → Option (Order L.Double)
read_order L body =
    and_then
      (λ v.
        order_of (and_then string_of (field? "user_id" v))
          (and_then L.double_of (field? "total_amount" v)) (field? "items" v))
      (L.parse body)

abbrev pub sql : (L : Library) → String → Order L.Double → String
sql L uuid o = insert_sql uuid o.user_id (L.show o.amount) (L.dump o.items)

module _ (L : Library) (P : Postgres L.Double) (uuid body : String) (w : Service P.State) where
  abbrev after : Service P.State
  after = (post_order L P uuid body w).1

  abbrev reply : Response
  reply = (post_order L P uuid body w).0

  rejected : read_order L body ≡ none → (reply ≡ bad_request) × (after.database ≡ w.database)
  unfolding post_order
  rejected h = ground arith

  module _ (o : Order L.Double) (read : read_order L body ≡ some o) where
    accepted :
        (rows : List (Row L.Double)) (t : P.State)
        → P.execute (sql L uuid o) w.database ≡ (answered rows, t)
        → (reply ≡ respond 201 (L.dump (created uuid))) × (after.database ≡ t)
    unfolding post_order
    accepted rows t e = ground arith

    refused :
        (why : String) (t : P.State)
        → P.execute (sql L uuid o) w.database ≡ (failed why, t)
        → (reply ≡ server_error) × (after.database ≡ t)
    unfolding post_order
    refused why t e = ground arith

-- How an accepted order ends, by the answer of Postgres to its INSERT.
abbrev pub Settled :
    (L : Library) (P : Postgres L.Double)
    → View L.Double P.State
    → String
    → Order L.Double
    → Service P.State
    → Answer (List (Row L.Double)) × P.State
    → Response × Service P.State
    → Type 0
Settled L P V uuid o w (answered rows, t) (r, w') =
    (r ≡ respond 201 (L.dump (created uuid)))
    × (V.find w'.database uuid ≡ some (V.stored (new_row uuid o.user_id o.amount (L.dump o.items))))
    × ((k : String) (row : Row L.Double)
        → V.find w.database k ≡ some row
        → V.find w'.database k ≡ some row)
Settled L P V uuid o w (failed why, t) (r, w') =
    (r ≡ server_error) × Unchanged V w.database w'.database

module _ (L : Library) (P : Postgres L.Double) (V : View L.Double P.State)
    (H : IsPostgres L P V) where
  pub post_order-Settled :
      (uuid body : String) (o : Order L.Double) (w : Service P.State)
      → read_order L body ≡ some o
      → is_plain uuid ≡ true
      → is_plain o.user_id ≡ true
      → is_plain (L.dump o.items) ≡ true
      → Settled L P V uuid o w (P.execute (sql L uuid o) w.database) (post_order L P uuid body w)
  post_order-Settled uuid body o w read pu pn pi =
      elim (Answer-cases (P.execute (sql L uuid o) w.database)) [
        | inl (rows, t, e) ↦
            let (r, d) = accepted L P uuid body w o read rows t e in
            let (here, others) =
              H.inserted uuid o.user_id (L.dump o.items) o.amount rows w.database t pu pn pi e in
            rw (e, d) (r, here, others)
        | inr (why, t, e) ↦
            let (r, d) = refused L P uuid body w o read why t e in
            rw (e, d) (r, H.rolled_back (sql L uuid o) why w.database t e)
      ]

  -- Any other body changes nothing.
  pub post_order-rejected :
      (uuid body : String) (w : Service P.State)
      → read_order L body ≡ none
      → ((post_order L P uuid body w).0 ≡ bad_request)
        × ((post_order L P uuid body w).1.database ≡ w.database)
  post_order-rejected uuid body w bad = rejected L P uuid body w bad

pub post_order-connected :
    (L : Library) (P : Postgres L.Double) (uuid body : String) (w : Service P.State)
    → (post_order L P uuid body w).1.connected ≡ w.connected
unfolding post_order
post_order-connected L P uuid body w = ground arith
