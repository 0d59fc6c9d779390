-- ===== src/Update/Runs.antt =====
-- Runs of scripts/update_kibana_dashboard.py, by themselves and after the large dashboard's script.
use cdc_pipeline.Base.{
  ◌∙◌, ◌⊎◌, inl, inr, str_eq, str_eq_iff, Bool-cases, ℕ, String, ◌<>◌, ◌≡◌, refl, sym, ap, true,
  false, none, some, List, map, ltb, ◌&&◌, if◌then◌else◌, arith,
}
use cdc_pipeline.Base.Text.{show}
use cdc_pipeline.Json.{elements, field?}
use cdc_pipeline.Exec.{url_error, Outcome, continue, http_error, ok, raised}
use cdc_pipeline.Http.{
  unreachable, Reply, Request, reply, Server, World, is_success, urlopen, print,
}
use cdc_pipeline.Kibana.{SavedObject, object_request, object_url}
use cdc_pipeline.Kibana.Deploy.{IsKibana, url_of, body_of}
use cdc_pipeline.Dashboard.References.{cdc_telemetry_dashboard}
use cdc_pipeline.Dashboard.Layout.{Rect, rect, covering, is_tiled, Inside, covering_lem}
use cdc_pipeline.Update.{panels, attributes, update_request, update_dashboard}

-- The object that the script writes.
abbrev pub text_dashboard : SavedObject
text_dashboard = record {
  obj_type = "dashboard";
  obj_id = "cdc-telemetry-dashboard";
  attributes = attributes;
  references = none;
}

request_lem : update_request ≡ object_request text_dashboard
unfolding update_request object_request
request_lem = refl

same_url : url_of text_dashboard ≡ url_of cdc_telemetry_dashboard
unfolding object_request object_url
same_url = refl

Reply-cases :
    (r : Reply)
    → ((why : String) × (r ≡ unreachable why))
      ⊎ ((status : ℕ) × (text : String) × (r ≡ reply status text))
Reply-cases (unreachable why) = inl (why, refl)
Reply-cases (reply status text) = inr (status, text, refl)

-- A request and a line about its answer's status.
module _ (V : Server) (q : Request) (line : ℕ → String) (w : World V.State) where
  abbrev posted : Outcome (Unit {0}) × World V.State
  posted = continue (λ resp. print (line resp.status)) (urlopen V q w)

  server-posted : posted.1.server ≡ (V.respond q w.server).1
  unfolding urlopen print
  server-posted = ground arith

  posted_cases :
      ((status : ℕ) × (text : String) × ((V.respond q w.server).0 ≡ reply status text)
        × (is_success status ≡ true)
        × (posted.0 ≡ ok tt))
      ⊎ (((status : ℕ) × (text : String) × ((V.respond q w.server).0 ≡ reply status text)
            × (is_success status ≡ false)
            × (posted.0 ≡ raised (http_error status text)))
          ⊎ ((why : String) × (posted.0 ≡ raised (url_error why))))
  unfolding urlopen print
  posted_cases = elim (Reply-cases (V.respond q w.server).0) [
    | inl (why, e) ↦ inr (inr (why, rw e refl))
    | inr (status, text, e) ↦ elim (Bool-cases (is_success status)) [
      | inl good ↦ inl (status, text, e, good, rw e (rw good refl))
      | inr bad ↦ inr (inl (status, text, e, bad, rw e (rw bad refl)))
    ]
  ]

abbrev line : ℕ → String
line status = "[SUCCESS] Kibana Dashboard updated successfully: HTTP " <> show status

update_dashboard-posted :
    (V : Server) (w : World V.State)
    → update_dashboard V w ≡ posted V (object_request text_dashboard) line w
unfolding update_dashboard
update_dashboard-posted V w = ap (λ q. posted V q line w) request_lem

module _ (V : Server) (K : IsKibana V) (w : World V.State) where
  abbrev url : String
  url = url_of text_dashboard

  stored_ok :
      (status : ℕ) (text j : String)
      → (V.respond (object_request text_dashboard) w.server).0 ≡ reply status text
      → is_success status ≡ true
      → K.stored (V.respond (object_request text_dashboard) w.server).1 j
        ≡ (if str_eq url j then some (body_of text_dashboard) else K.stored w.server j)
  stored_ok status text j answered success = elim (Bool-cases (str_eq url j)) [
    | inl same ↦ rw same (
        ap (K.stored (V.respond (object_request text_dashboard) w.server).1)
          (sym ((str_eq_iff url j).0 same))
        ∙ K.saved text_dashboard w.server status text answered success)
    | inr other ↦
        rw other
          (K.others text_dashboard w.server j (λ e. cc (sym ((str_eq_iff url j).1 e) ∙ other)))
  ]

  stored_refused :
      (status : ℕ) (text j : String)
      → (V.respond (object_request text_dashboard) w.server).0 ≡ reply status text
      → is_success status ≡ false
      → K.stored (V.respond (object_request text_dashboard) w.server).1 j ≡ K.stored w.server j
  stored_refused status text j answered failure = elim (Bool-cases (str_eq url j)) [
    | inl same ↦
        let e : url ≡ j = (str_eq_iff url j).0 same in
        ap (K.stored (V.respond (object_request text_dashboard) w.server).1) (sym e)
        ∙ (K.refused text_dashboard w.server status text answered failure
            ∙ ap (K.stored w.server) e)
    | inr other ↦
        K.others text_dashboard w.server j (λ e. cc (sym ((str_eq_iff url j).1 e) ∙ other))
  ]

  -- A run returns, and has replaced the dashboard of build_full_kibana_dashboard.py by the one of three
  -- texts and touched nothing else; or it raises the server's HTTP error, and nothing is changed; or it
  -- raises since the server could not be reached.
  pub update_dashboard_lem :
      (j : String)
      → (((update_dashboard V w).0 ≡ ok tt)
          × (K.stored (update_dashboard V w).1.server j ≡ (
              if str_eq (url_of cdc_telemetry_dashboard) j
              then some (body_of text_dashboard)
              else K.stored w.server j)))
        ⊎ (((status : ℕ) × (text : String) × ((update_dashboard V w).0
                ≡ raised (http_error status text))
              × (K.stored (update_dashboard V w).1.server j ≡ K.stored w.server j))
            ⊎ ((why : String) × ((update_dashboard V w).0 ≡ raised (url_error why))))
  update_dashboard_lem j =
      let q = object_request text_dashboard in
      rw (update_dashboard-posted, sym same_url)
        (elim (posted_cases V q line w) [
          | inl (status, text, answered, success, returned) ↦ inl (
            returned,
            ap (λ s. K.stored s j) (server-posted V q line w)
                ∙ stored_ok status text j answered success,
          )
          | inr (inl (status, text, answered, failure, error)) ↦ inr (
              inl (
                status,
                text,
                error,
                ap (λ s. K.stored s j) (server-posted V q line w)
                    ∙ stored_refused status text j answered failure,
              ))
          | inr (inr r) ↦ inr (inr r)
        ])

unfoldable pub text_rects : List Rect
unfolding rect
text_rects = map rect (elements panels)

text_rects-tiled : is_tiled 48 29 text_rects ≡ true
unfolding is_tiled text_rects field? elements
text_rects-tiled = refl

text_rects-Inside : Inside 48 29 text_rects
unfolding text_rects field? elements
text_rects-Inside = omega arith

-- The three texts tile the grid of 48 columns and 29 rows.
pub covering-text_rects :
    (i j : ℕ) → covering i j text_rects ≡ (if ltb i 48 && ltb j 29 then 1 else 0)
covering-text_rects i j = covering_lem 48 29 i j text_rects text_rects-tiled text_rects-Inside
