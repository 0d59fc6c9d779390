-- ===== src/Update/Tests.antt =====
-- The theorems at a Kibana in memory.
use cdc_pipeline.Base.{◌⊎◌, str_eq, if◌then◌else◌, ℕ, String, ◌≡◌, some, none}
use cdc_pipeline.Exec.{Outcome, url_error, http_error, ok, raised}
use cdc_pipeline.Http.{World}
use cdc_pipeline.Kibana.Memory.{Memory, memory, memory-IsKibana, fresh}
use cdc_pipeline.Kibana.Deploy.{url_of, body_of}
use cdc_pipeline.Dashboard.References.{cdc_telemetry_dashboard}
use cdc_pipeline.Dashboard.Layout.{covering}
use cdc_pipeline.Update.{update_dashboard}
use cdc_pipeline.Update.Runs.{text_dashboard, text_rects, update_dashboard_lem, covering-text_rects}

abbrev run_from : ℕ → Outcome (Unit {0}) × World Memory
run_from n = update_dashboard memory (fresh n)

update_dashboard_lem_example :
    (((run_from 1).0 ≡ ok tt)
      × ((run_from 1).1.server.saved (url_of cdc_telemetry_dashboard) ≡ (
          if str_eq (url_of cdc_telemetry_dashboard) (url_of cdc_telemetry_dashboard)
          then some (body_of text_dashboard)
          else none)))
    ⊎ (((status : ℕ) × (text : String) × ((run_from 1).0 ≡ raised (http_error status text))
          × ((run_from 1).1.server.saved (url_of cdc_telemetry_dashboard) ≡ none))
        ⊎ ((why : String) × ((run_from 1).0 ≡ raised (url_error why))))
update_dashboard_lem_example =
    update_dashboard_lem memory memory-IsKibana (fresh 1) (url_of cdc_telemetry_dashboard)

covering-text_rects_example : covering 47 28 text_rects ≡ 1
covering-text_rects_example = covering-text_rects 47 28
