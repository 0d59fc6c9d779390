-- ===== src/Update.antt =====
-- scripts/update_kibana_dashboard.py: a dashboard of three texts, under the id of the large one.
pub mod Texts
pub mod Runs
mod Tests
use cdc_pipeline.Base.{ℕ, String, ◌<>◌, true, [], ◌∷◌}
use cdc_pipeline.Base.Text.{show}
use cdc_pipeline.Json.{Value, bool, num, str, arr, obj, Items, nil, ◌▹◌, end, ◌⦂◌⨾◌}
use cdc_pipeline.Json.Print.{dumps}
use cdc_pipeline.Exec.{Exec, ◌>>=◌}
use cdc_pipeline.Http.{Request, Server, World, print, urlopen}
use cdc_pipeline.Kibana.{kibana_url}
use cdc_pipeline.Dashboard.Parts.{no_search}
use cdc_pipeline.Update.Texts.{header_text, architecture_panel, links_panel}

abbrev pub dashboard_id : String
dashboard_id = "cdc-telemetry-dashboard"

abbrev pub text_panel : ℕ → ℕ → ℕ → ℕ → String → String → Value
text_panel x y w h i body = obj (
    "version"
    ⦂ str "8.10.2" ⨾ "type"
    ⦂ str "text" ⨾ "gridData"
    ⦂ obj ("x" ⦂ num x ⨾ "y" ⦂ num y ⨾ "w" ⦂ num w ⨾ "h" ⦂ num h ⨾ "i" ⦂ str i ⨾ end) ⨾ "panelIndex"
    ⦂ str i ⨾ "embeddableConfig"
    ⦂ obj ("attributes" ⦂ obj ("body" ⦂ str body ⨾ end) ⨾ end) ⨾ end)

abbrev pub panels : Items
panels =
    text_panel 0 0 48 15 "1" header_text
    ▹ text_panel 0 15 24 14 "2" architecture_panel
    ▹ text_panel 24 15 24 14 "3" links_panel
    ▹ nil

-- `payload["attributes"]`
abbrev pub attributes : Value
attributes = obj (
    "title"
    ⦂ str "TransactFlow — Distributed Systems Observability & Telemetry" ⨾ "description"
    ⦂ str "Production observability dashboard for TransactFlow CDC soak test at 1,000 req/sec" ⨾
      "hits"
    ⦂ num 0 ⨾ "kibanaSavedObjectMeta"
    ⦂ obj ("searchSourceJSON" ⦂ str (dumps no_search) ⨾ end) ⨾ "panelsJSON"
    ⦂ str (dumps (arr panels)) ⨾ "timeRestore"
    ⦂ bool true ⨾ "timeFrom"
    ⦂ str "now-30m" ⨾ "timeTo"
    ⦂ str "now" ⨾ end)

unfoldable pub update_request : Request
update_request = record {
  method = "POST";
  url = kibana_url <> ("/api/saved_objects/dashboard/" <> (dashboard_id <> "?overwrite=true"));
  headers = ("Content-Type", "application/json") ∷ ("kbn-xsrf", "true") ∷ [];
  body = dumps (obj ("attributes" ⦂ attributes ⨾ end));
}

unfoldable pub update_dashboard : (V : Server) → Exec (World V.State) (Unit {0})
unfolding update_request print urlopen
update_dashboard V = do
  resp ← urlopen V update_request
  print ("[SUCCESS] Kibana Dashboard updated successfully: HTTP " <> show resp.status)
