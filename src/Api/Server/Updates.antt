-- ===== src/Api/Server/Updates.antt =====
-- What a PATCH of the order service does to the table, for every body and every answer of Postgres.
use cdc_pipeline.Base.{
  ℕ, zero, suc, String, ◌≡◌, refl, Option, none, some, [], ◌∷◌, arith, inl, inr, if◌then◌else◌, ap,
  ◌∙◌, Option-cases,
}
use cdc_pipeline.Json.{field?}
use cdc_pipeline.Consumer.Effects.{Answer, answered, failed}
use cdc_pipeline.Api.Action.{Service}
use cdc_pipeline.Api.Library.{Library, Postgres, Row, string_of, and_then, Answer-cases}
use cdc_pipeline.Api.Table.{View, IsPostgres, Unchanged, with_status, row_count}
use cdc_pipeline.Api.Database.{update_sql}
use cdc_pipeline.Api.Server.{Response, respond, bad_request, server_error, not_found, patch_status}

-- The bodies that are accepted: an object with a text `status`, whatever the text.
abbrev pub read_status : (L : Library) → String → Option String
read_status L body = and_then (λ v. and_then string_of (field? "status" v)) (L.parse body)

abbrev pub updated_reply : {D : Type 0} → Option (Row D) → Response
updated_reply none = not_found
updated_reply (some row) = respond 200 "{\"updated\": true}"

-- How a PATCH ends, by the status that its body asks for and the answer of Postgres.
abbrev pub Patched :
    (L : Library) (P : Postgres L.Double)
    → View L.Double P.State
    → String
    → Option String
    → Service P.State
    → Answer ℕ × P.State
    → Response × Service P.State
    → Type 0
Patched L P V id none w a (r, w') = (r ≡ bad_request) × (w'.database ≡ w.database)
Patched L P V id (some status) w (failed why, t) (r, w') =
    (r ≡ server_error) × Unchanged V w.database w'.database
Patched L P V id (some status) w (answered n, t) (r, w') =
    (r ≡ updated_reply (V.find w.database id))
    × ((k : String)
        → V.find w'.database k
          ≡ (if V.same id k then with_status status (V.find w.database k) else V.find w.database k))

abbrev reply_to : ℕ → Response
reply_to zero = not_found
reply_to (suc n) = respond 200 "{\"updated\": true}"

reply_to-row_count :
    {D : Type 0} (row : Option (Row D)) → reply_to (row_count row) ≡ updated_reply row
reply_to-row_count none = refl
reply_to-row_count (some row) = refl

module _ (L : Library) (P : Postgres L.Double) (id body : String) (w : Service P.State) where
  abbrev after : Service P.State
  after = (patch_status L P id body w).1

  abbrev reply : Response
  reply = (patch_status L P id body w).0

  abbrev pub asked : String → Answer ℕ × P.State
  asked status = P.execute_params update_sql (status ∷ id ∷ []) w.database

  rejected : read_status L body ≡ none → (reply ≡ bad_request) × (after.database ≡ w.database)
  unfolding patch_status
  rejected h = ground arith

  module _ (status : String) (read : read_status L body ≡ some status) where
    accepted :
        (n : ℕ) (t : P.State)
        → asked status ≡ (answered n, t)
        → (reply ≡ reply_to n) × (after.database ≡ t)
    unfolding patch_status
    accepted n t e = ground arith

    refused :
        (why : String) (t : P.State)
        → asked status ≡ (failed why, t)
        → (reply ≡ server_error) × (after.database ≡ t)
    unfolding patch_status
    refused why t e = ground arith

abbrev pub status_or : Option String → String
status_or none = ""
status_or (some s) = s

module _ (L : Library) (P : Postgres L.Double) (V : View L.Double P.State)
    (H : IsPostgres L P V) where
  pub patch_status-Patched :
      (id body : String) (w : Service P.State)
      → Patched L P V id
          (read_status L body)
          w
          (asked L P id body w (status_or (read_status L body)))
          (patch_status L P id body w)
  patch_status-Patched id body w = elim (Option-cases (read_status L body)) [
    | inl bad ↦ rw bad (rejected L P id body w bad)
    | inr (status, read) ↦ rw read (elim (Answer-cases (asked L P id body w status)) [
      | inl (n, t, e) ↦
          let (r, d) = accepted L P id body w status read n t e in
          let (count, rows) = H.updated id status n w.database t e in
          rw (e, d) (r ∙ ap reply_to count ∙ reply_to-row_count (V.find w.database id), rows)
      | inr (why, t, e) ↦
          let (r, d) = refused L P id body w status read why t e in
          rw (e, d) (r, H.params_rolled_back update_sql why (status ∷ id ∷ []) w.database t e)
    ])
  ]

pub patch_status-connected :
    (L : Library) (P : Postgres L.Double) (id body : String) (w : Service P.State)
    → (patch_status L P id body w).1.connected ≡ w.connected
unfolding patch_status
patch_status-connected L P id body w = ground arith
