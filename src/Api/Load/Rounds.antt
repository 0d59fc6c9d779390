-- ===== src/Api/Load/Rounds.antt =====
-- Rounds of a worker of the load generator, with the order service of api/src behind its client.
use cdc_pipeline.Base.{String, ◌≡◌, refl, ◌⊎◌, Bool, true, false, Option, none, some, List, [], ◌∷◌}
use cdc_pipeline.Json.{field?, find_field}
use cdc_pipeline.Api.Action.{Service}
use cdc_pipeline.Api.Library.{Library, Postgres}
use cdc_pipeline.Api.Cache.{no_reply}
use cdc_pipeline.Api.Table.{View, IsPostgres, is_plain}
use cdc_pipeline.Api.Database.{update_sql}
use cdc_pipeline.Api.Server.{Response, created, patch_status}
use cdc_pipeline.Api.Server.Creates.{read_order, sql, post_order-Settled, Order}
use cdc_pipeline.Api.Server.Updates.{read_status, patch_status-Patched}
use cdc_pipeline.Api.Routes.{Request, handle}
use cdc_pipeline.Api.Routes.Paths.{is_id, route-status}
use cdc_pipeline.Api.Load.{
  Draws, items, payload, patch_body, Worker, Log, request_sent, request_failed, round, picked_id,
  picked_status, post_request, patch_request, new_id,
}
use cdc_pipeline.Api.Load.Served.{IsOrder, Accepted, Changed, Settled-Accepted, Patched-Changed}

-- A round's draws, the identifier that the service would draw, and whether the client misses the reply.
pub record Round (D : Type 0) : Type 0 where
  pub draws : Draws D
  pub uuid : String
  pub lost : Bool

abbrev pub client : {A : Type 0} → Bool → A → Option A
client true r = none
client false r = some r

module _ (L : Library) (P : Postgres L.Double) where
  -- The client of a worker. It never asks Redis.
  abbrev pub send : Round L.Double → Request → Service P.State → Option Response × Service P.State
  send e req w = let (r, w') = handle L P (λ k. no_reply) e.uuid req w in (client e.lost r, w')

  unfoldable pub rounds :
      List (Round L.Double) → Worker (Service P.State) → Worker (Service P.State)
  unfolding round
  rounds [] w = w
  rounds (e ∷ es) w = rounds es (round L (send e) e.draws w)

-- Replies that no request of a worker has had: 400, 404, and whatever else.
abbrev pub IsExpected : Log → Type 0
IsExpected (request_sent m code) = (code ≡ 200) ⊎ (code ≡ 201)
IsExpected (request_failed m code) = (code ≡ 0) ⊎ (code ≡ 500)

-- What a round relies on in nlohmann: the texts that are printed here are read back. The texts drawn have no quote.
pub record IsFit (L : Library) (e : Round L.Double) : Type 0 where
  pub plain : is_plain e.uuid ≡ true
  pub id : is_id e.uuid ≡ true
  pub plain_user : is_plain e.draws.user_id ≡ true
  pub plain_items : is_plain (L.dump (items L e.draws)) ≡ true
  pub amount : L.double_of (L.value_of e.draws.amount) ≡ some e.draws.amount
  pub reads_payload : L.parse (L.dump (payload L e.draws)) ≡ some (payload L e.draws)
  pub reads_status :
      L.parse (L.dump (patch_body (picked_status L e.draws)))
      ≡ some (patch_body (picked_status L e.draws))
  pub reads_created : L.parse (L.dump (created e.uuid)) ≡ some (created e.uuid)

module _ (L : Library) (e : Round L.Double) (fit : IsFit L e) where
  abbrev order : Order L.Double
  order = record { user_id = e.draws.user_id; amount = e.draws.amount; items = items L e.draws }

  pub read_order-payload : read_order L (L.dump (payload L e.draws)) ≡ some order
  unfolding field? find_field
  read_order-payload = rw fit.reads_payload (rw fit.amount refl)

  pub read_status-patch_body :
      read_status L (L.dump (patch_body (picked_status L e.draws))) ≡ some (picked_status L e.draws)
  unfolding field? find_field
  read_status-patch_body = rw fit.reads_status refl

  pub new_id-created : new_id L (L.dump (created e.uuid)) ≡ some e.uuid
  unfolding field? find_field
  new_id-created = rw fit.reads_created refl

module _ (L : Library) (P : Postgres L.Double) (V : View L.Double P.State) (H : IsPostgres L P V)
    (e : Round L.Double) (fit : IsFit L e) (w : Service P.State) where
  abbrev pub posted : Response × Service P.State
  posted = handle L P (λ k. no_reply) e.uuid (post_request L e.draws) w

  pub posted-Accepted : Accepted L P V H e.uuid w.database posted.0 posted.1.database
  unfolding handle
  posted-Accepted =
      Settled-Accepted L P V H e.uuid (order L e fit) w
        (P.execute (sql L e.uuid (order L e fit)) w.database) posted.0 posted.1
        (post_order-Settled L P V H e.uuid (L.dump (payload L e.draws)) (order L e fit) w
          (read_order-payload L e fit) fit.plain fit.plain_user fit.plain_items)

  module _ (ids : List String) (there : is_id (picked_id L e.draws ids) ≡ true)
      (found : IsOrder V w.database (picked_id L e.draws ids)) where
    abbrev pub patched : Response × Service P.State
    patched = handle L P (λ k. no_reply) e.uuid (patch_request L e.draws ids) w

    abbrev pub id : String
    id = picked_id L e.draws ids

    abbrev status : String
    status = picked_status L e.draws

    abbrev direct : Response × Service P.State
    direct = patch_status L P id (L.dump (patch_body status)) w

    patch_reached : patched ≡ direct
    unfolding handle
    patch_reached = rw (route-status id there) refl

    pub patched-Changed : Changed L P V H w.database patched.0 patched.1.database
    patched-Changed = rw patch_reached (
        Patched-Changed L P V H id status w
          (P.execute_params update_sql (status ∷ id ∷ []) w.database) direct.0 direct.1
          (rw (read_status-patch_body L e fit) at
            (patch_status-Patched L P V H id (L.dump (patch_body status)) w))
          found)
