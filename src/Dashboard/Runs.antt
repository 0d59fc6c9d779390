-- ===== src/Dashboard/Runs.antt =====
-- The run of scripts/build_full_kibana_dashboard.py as a whole.
use mathlib.Core.List.{head-eq_of_cons-eq, tail-eq_of_cons-eq}
use cdc_pipeline.Base.{
  ℕ, suc, ◌<◌, String, ◌≡◌, refl, ap, ◌∙◌, ◌⊎◌, inl, inr, Option, some, true, List, [], ◌∷◌, ◌++◌,
  map, All, All-split,
}
use cdc_pipeline.Exec.{Exn, http_error, ok, raised}
use cdc_pipeline.Http.{Server, World, print}
use cdc_pipeline.Json.{Value, elements}
use cdc_pipeline.Kibana.{SavedObject, object_url, object_request}
use cdc_pipeline.Kibana.Deploy.{
  IsKibana, url_of, body_of, requests, Distinct, distinct_sound, differ, differ_sound, deploy,
  deploy-Stops,
}
use cdc_pipeline.Kibana.Stored.{Holds, deploy-Holds, deploy_refused}
use cdc_pipeline.Dashboard.Panels.{panels}
use cdc_pipeline.Dashboard.References.{cdc_telemetry_dashboard}
use cdc_pipeline.Dashboard.Main.{main, rule, success_line, visualizations, objects}
use cdc_pipeline.Dashboard.Wiring.{panel_target, targets}

module _ (V : Server) where
  -- The world after the four lines of the heading.
  abbrev started : World V.State → World V.State
  started w = record w {
    out =
        (((w.out ++ rule ∷ [])
            ++ " Deploying Complete Enterprise Kibana Observability & Benchmark Suite" ∷ [])
          ++ " Includes All Figures 1-4: Throughput Timelines & Latency Bar Graphs" ∷ [])
        ++ rule ∷ [];
  }

  main_lem : (w : World V.State) → main V w ≡ deploy V objects (print success_line) (started w)
  unfolding main print
  main_lem w = refl

objects-Distinct : Distinct objects
unfolding object_request object_url
objects-Distinct = distinct_sound objects refl

-- Each panel is looked up to the URL of its object, and what is stored there is that object's body.
abbrev pub Shows : (String → Option String) → List Value → List SavedObject → Type 0
Shows stored [] [] = Unit
Shows stored (p ∷ ps) (o ∷ os) =
    (panel_target p ≡ some (url_of o)) × (stored (url_of o) ≡ some (body_of o)) × Shows stored ps os
Shows stored _ _ = ⊥

Shows-intro :
    (stored : String → Option String) (ps : List Value) (os : List SavedObject)
    → map panel_target ps ≡ map (λ o. some (url_of o)) os
    → All (λ o. stored (url_of o) ≡ some (body_of o)) os
    → Shows stored ps os
Shows-intro stored [] [] t h = tt
Shows-intro stored [] (o ∷ os) t h = cc
Shows-intro stored (p ∷ ps) [] t h = cc
Shows-intro stored (p ∷ ps) (o ∷ os) t h =
    (head-eq_of_cons-eq t, h.0, Shows-intro stored ps os (tail-eq_of_cons-eq t) h.1)

module _ (V : Server) (w : World V.State) where
  -- Whatever the server answers, the run makes the requests for the objects in order. It returns
  -- after all 23 of them, and if it raises, the request that failed was its last.
  pub main-requests :
      ((n : ℕ) × (e : Exn) × (n < 23)
        × ((main V w).0 ≡ raised e)
        × ((main V w).1.sent ≡ w.sent ++ requests (suc n) objects))
      ⊎ (((main V w).0 ≡ ok tt) × ((main V w).1.sent ≡ w.sent ++ requests 23 objects))
  unfolding print
  main-requests = elim (deploy-Stops V objects (print success_line) (started V w)) [
    | inl (n, e, w', lt, run, sent) ↦ inl (
      n,
      e,
      lt,
      ap (λ r. r.0) (main_lem V w ∙ run),
      ap (λ r. r.1.sent) (main_lem V w ∙ run) ∙ sent,
    )
    | inr (w', run, sent) ↦
        inr (ap (λ r. r.0) (main_lem V w ∙ run), ap (λ r. r.1.sent) (main_lem V w ∙ run) ∙ sent)
  ]

dashboard_differs : differ (url_of cdc_telemetry_dashboard) visualizations ≡ true
unfolding object_request object_url
dashboard_differs = refl

module _ (V : Server) (K : IsKibana V) (w : World V.State) where
  -- When the run returns, every panel of the dashboard shows an object that Kibana has stored as the
  -- script built it, and Kibana has stored the dashboard too.
  pub main-Shows :
      (main V w).0 ≡ ok tt
      → Shows (K.stored (main V w).1.server) (elements panels) visualizations
        × (K.stored (main V w).1.server (url_of cdc_telemetry_dashboard)
            ≡ some (body_of cdc_telemetry_dashboard))
  unfolding print
  main-Shows h =
      let (shown, board) =
        All-split (Holds V K (main V w).1.server) visualizations (cdc_telemetry_dashboard ∷ []) (
          rw main_lem (
            deploy-Holds V K (print success_line) (λ v. refl) objects objects-Distinct (started V w)
              (rw main_lem at h))) in
      (
        Shows-intro (K.stored (main V w).1.server) (elements panels) visualizations targets shown,
        board.0,
      )

  -- A run that an HTTP error ends leaves the dashboard that Kibana had.
  pub main_keeps_dashboard :
      (status : ℕ) (text : String)
      → (main V w).0 ≡ raised (http_error status text)
      → K.stored (main V w).1.server (url_of cdc_telemetry_dashboard)
        ≡ K.stored w.server (url_of cdc_telemetry_dashboard)
  unfolding print
  main_keeps_dashboard status text h = rw main_lem (
      deploy_refused V K visualizations cdc_telemetry_dashboard (print success_line) (λ v. refl)
        (differ_sound (url_of cdc_telemetry_dashboard) visualizations dashboard_differs)
        (started V w) status text (rw main_lem at h))
