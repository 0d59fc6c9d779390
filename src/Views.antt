-- ===== src/Views.antt =====
-- scripts/setup_kibana.py: the data views over the log indices and the orders.
pub mod Runs
mod Tests
use cdc_pipeline.Base.{
  ℕ, String, ◌<>◌, Bool, true, false, ◌||◌, Option, none, some, List, [], ◌∷◌, ◌==◌, if◌then◌else◌,
}
use cdc_pipeline.Base.Text.{show, contains}
use cdc_pipeline.Json.{Value, str, obj, Fields, end, ◌⦂◌⨾◌}
use cdc_pipeline.Json.Print.{dumps}
use cdc_pipeline.Exec.{Exn, http_error, Exec, pure, raise, rescue, ◌>>=◌, ◌>>◌}
use cdc_pipeline.Http.{Request, Server, World, print, urlopen}
use cdc_pipeline.Kibana.{kibana_url}

-- A row of the list in `main`: the arguments of one call.
pub record View : Type 0 where
  pub view_id : String
  pub title : String
  pub name : String
  pub time_field : Option String

-- `if time_field:` is false for `None` and for "".
abbrev time_fields : Option String → Fields
time_fields none = end
time_fields (some String.[]) = end
time_fields (some (String.◌∷◌ c s)) = "timeFieldName" ⦂ str (String.◌∷◌ c s) ⨾ end

unfoldable pub view_request : View → Request
view_request v = record {
  method = "POST";
  url = kibana_url <> "/api/data_views/data_view";
  headers = ("Content-Type", "application/json") ∷ ("kbn-xsrf", "true") ∷ [];
  body = dumps (
      obj (
        "data_view"
        ⦂ obj (
            "id"
            ⦂ str v.view_id ⨾ "title"
            ⦂ str v.title ⨾ "name"
            ⦂ str v.name ⨾ time_fields v.time_field) ⨾
          end));
}

-- The test of the handler on an error's status and body.
abbrev pub is_present : ℕ → String → Bool
is_present code body = code == 409 || contains "already exists" body || contains "duplicate" body

abbrev pub created_line : View → ℕ → String
created_line v status =
    "[SUCCESS] Created Data View: " <> (v.name <> (" (" <> (v.title <> (") -> " <> show status))))

abbrev pub info_line : View → String
info_line v = "[INFO] Data View " <> (v.name <> " already exists.")

abbrev pub error_line : View → ℕ → String → String
error_line v code body =
    "[ERROR] Failed to create " <> (v.name <> (": HTTP " <> (show code <> (": " <> body))))

-- `except urllib.error.HTTPError as e`; any other exception passes.
abbrev handle : {S : Type 0} → View → Exn → Exec (World S) (Unit {0})
handle v (http_error code body) =
    if is_present code body then print (info_line v) else print (error_line v code body)
handle v e = raise e

unfoldable pub create_data_view : (V : Server) → View → Exec (World V.State) (Unit {0})
unfolding view_request print urlopen
create_data_view V v w =
    rescue (handle v) ((do resp ← urlopen V (view_request v); print (created_line v resp.status)) w)

abbrev pub views : List View
views =
    record {
      view_id = "cdc-api-logs";
      title = "cdc-api-logs-*";
      name = "CDC API Logs";
      time_field = some "@timestamp";
    }
    ∷ record {
      view_id = "cdc-consumer-logs";
      title = "cdc-consumer-logs-*";
      name = "CDC Consumer Logs";
      time_field = some "@timestamp";
    }
    ∷ record {
      view_id = "cdc-system-logs";
      title = "cdc-system-logs-*";
      name = "CDC System Logs";
      time_field = some "@timestamp";
    }
    ∷ record {
      view_id = "orders";
      title = "orders";
      name = "Elasticsearch Orders Store";
      time_field = none;
    }
    ∷ []

abbrev pub heading : String
heading = "Connecting to Kibana to configure Data Views..."

module _ (V : Server) where
  -- The loop of `main`.
  unfoldable pub create_all : List View → Exec (World V.State) (Unit {0})
  create_all [] = pure tt
  create_all (v ∷ vs) = create_data_view V v >> create_all vs

  unfoldable pub main : Exec (World V.State) (Unit {0})
  unfolding create_all print
  main = do print heading; create_all views
