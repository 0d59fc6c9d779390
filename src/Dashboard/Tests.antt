-- ===== src/Dashboard/Tests.antt =====
-- The theorems at a Kibana in memory.
use cdc_pipeline.Kibana.Decoded.{Sends, create_saved_object-Sends}
use cdc_pipeline.Kibana.Memory.{serve, memory, memory-IsKibana, fresh}
use cdc_pipeline.Base.{ℕ, suc, ◌<◌, String, ◌≡◌, refl, ◌⊎◌, Option, none, some, [], ◌++◌}
use cdc_pipeline.Json.{elements}
use cdc_pipeline.Exec.{Exn, http_error, ok, raised}
use cdc_pipeline.Kibana.{create_saved_object}
use cdc_pipeline.Kibana.Deploy.{url_of, body_of, requests}
use cdc_pipeline.Dashboard.Panels.{panels}
use cdc_pipeline.Dashboard.References.{cdc_telemetry_dashboard}
use cdc_pipeline.Dashboard.Main.{main, visualizations, objects}
use cdc_pipeline.Dashboard.Layout.{covering, rects, covering-rects}
use cdc_pipeline.Dashboard.Runs.{Shows, main-requests, main-Shows, main_keeps_dashboard}

covering-rects_example : covering 47 94 rects ≡ 1
covering-rects_example = covering-rects 47 94

main-requests_example :
    ((n : ℕ) × (e : Exn) × (n < 23)
      × ((main memory (fresh 3)).0 ≡ raised e)
      × ((main memory (fresh 3)).1.sent ≡ [] ++ requests (suc n) objects))
    ⊎ (((main memory (fresh 3)).0 ≡ ok tt)
        × ((main memory (fresh 3)).1.sent ≡ [] ++ requests 23 objects))
main-requests_example = main-requests memory (fresh 3)

runs_to_the_end : (main memory (fresh 23)).0 ≡ ok tt
unfolding main create_saved_object serve
runs_to_the_end = refl

stops_at_the_last : (main memory (fresh 22)).0 ≡ raised (http_error 503 "unavailable")
unfolding main create_saved_object serve
stops_at_the_last = refl

abbrev after_run : ℕ → String → Option String
after_run n = (main memory (fresh n)).1.server.saved

main-Shows_example :
    Shows (after_run 23) (elements panels) visualizations
    × (after_run 23 (url_of cdc_telemetry_dashboard) ≡ some (body_of cdc_telemetry_dashboard))
main-Shows_example = main-Shows memory memory-IsKibana (fresh 23) runs_to_the_end

main_keeps_dashboard_example : after_run 22 (url_of cdc_telemetry_dashboard) ≡ none
main_keeps_dashboard_example =
    main_keeps_dashboard memory memory-IsKibana (fresh 22) 503 "unavailable" stops_at_the_last

create_saved_object-Sends_example :
    Sends cdc_telemetry_dashboard
      (fresh 3)
      (create_saved_object memory cdc_telemetry_dashboard (fresh 3)).1
create_saved_object-Sends_example =
    create_saved_object-Sends memory cdc_telemetry_dashboard (fresh 3)
