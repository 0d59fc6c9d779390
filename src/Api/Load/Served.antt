-- ===== src/Api/Load/Served.antt =====
-- The load generator against the order service: its requests are ones that the service accepts, for
-- orders that the service has.
use cdc_pipeline.Base.{
  ℕ, String, ◌≡◌, refl, ◌∙◌, ◌⊎◌, inl, inr, Bool, true, false, Option, some, List, if◌then◌else◌,
}
use cdc_pipeline.Consumer.Effects.{Answer, answered, failed}
use cdc_pipeline.Api.Action.{Service}
use cdc_pipeline.Api.Library.{Library, Postgres, Row}
use cdc_pipeline.Api.Table.{View, IsPostgres, Unchanged, with_status, new_row}
use cdc_pipeline.Api.Server.{Response, respond, server_error, created}
use cdc_pipeline.Api.Server.Creates.{Settled, Order}
use cdc_pipeline.Api.Server.Updates.{Patched}

module _ {D S : Type 0} (V : View D S) where
  -- There is a row for the identifier.
  abbrev pub IsOrder : S → String → Type 0
  IsOrder s k = (row : Row D) × (V.find s k ≡ some row)

  abbrev pub Keeps : S → S → Type 0
  Keeps s t = (k : String) → IsOrder s k → IsOrder t k

  Keeps-Unchanged : (s t : S) → Unchanged V s t → Keeps s t
  Keeps-Unchanged s t h k (row, there) = (row, h k ∙ there)

abbrev updated_row : {D : Type 0} → Bool → String → Row D → Row D
updated_row true status row = record row { status = status }
updated_row false status row = row

updated_row_lem :
    {D : Type 0} (b : Bool) (status : String) (row : Row D) (found : Option (Row D))
    → found ≡ some row
    → (if b then with_status status found else found) ≡ some (updated_row b status row)
updated_row_lem true status row found e = rw e refl
updated_row_lem false status row found e = e

module _ (L : Library) (P : Postgres L.Double) (V : View L.Double P.State)
    (H : IsPostgres L P V) where
  -- What a POST of the generator comes to.
  abbrev pub Accepted : String → P.State → Response → P.State → Type 0
  Accepted uuid s r t =
      Keeps V s t
      × ((r ≡ respond 201 (L.dump (created uuid))) × IsOrder V t uuid ⊎ (r ≡ server_error))

  pub Settled-Accepted :
      (uuid : String) (o : Order L.Double) (w : Service P.State)
      (a : Answer (List (Row L.Double)) × P.State) (r : Response) (w' : Service P.State)
      → Settled L P V uuid o w a (r, w')
      → Accepted uuid w.database r w'.database
  Settled-Accepted uuid o w (answered rows, t) r w' (reply, here, others) = (
    λ k (row, there). (row, others k row there),
    inl (reply, (V.stored (new_row uuid o.user_id o.amount (L.dump o.items)), here)),
  )
  Settled-Accepted uuid o w (failed why, t) r w' (reply, same) =
      (Keeps-Unchanged V w.database w'.database same, inr reply)

  abbrev pub Changed : P.State → Response → P.State → Type 0
  Changed s r t = Keeps V s t × ((r ≡ respond 200 "{\"updated\": true}") ⊎ (r ≡ server_error))

  pub Patched-Changed :
      (id status : String) (w : Service P.State) (a : Answer ℕ × P.State) (r : Response)
      (w' : Service P.State)
      → Patched L P V id (some status) w a (r, w')
      → IsOrder V w.database id
      → Changed w.database r w'.database
  Patched-Changed id status w (answered n, t) r w' (reply, rows) (row, there) = (
    λ k (row', there'). (
      updated_row (V.same id k) status row',
      rows k ∙ updated_row_lem (V.same id k) status row' (V.find w.database k) there',
    ),
    inl (rw there at reply),
  )
  Patched-Changed id status w (failed why, t) r w' (reply, same) there =
      (Keeps-Unchanged V w.database w'.database same, inr reply)
