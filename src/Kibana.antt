-- ===== src/Kibana.antt =====
-- `create_saved_object` of scripts/build_full_kibana_dashboard.py.
pub mod Deploy
pub mod Stored
pub mod Memory
pub mod Decoded
use cdc_pipeline.Base.{String, ◌<>◌, Option, none, some, [], ◌∷◌}
use cdc_pipeline.Base.Text.{show}
use cdc_pipeline.Json.{Value, arr, obj, Items, nil, ◌▹◌, end, ◌⦂◌⨾◌}
use cdc_pipeline.Json.Print.{dumps}
use cdc_pipeline.Exec.{Exec, ◌>>=◌}
use cdc_pipeline.Http.{Request, Server, World, print, urlopen}

abbrev pub kibana_url : String
kibana_url = "http://localhost:5601"

-- The arguments of one call.
pub record SavedObject : Type 0 where
  pub obj_type : String
  pub obj_id : String
  pub attributes : Value
  pub references : Option Items

unfoldable pub object_url : String → String → String
object_url obj_type obj_id =
    kibana_url <> ("/api/saved_objects/" <> (obj_type <> ("/" <> (obj_id <> "?overwrite=true"))))

-- `if references:` is false for `None` and for an empty list.
unfoldable pub payload : Value → Option Items → Value
payload attributes none = obj ("attributes" ⦂ attributes ⨾ end)
payload attributes (some nil) = obj ("attributes" ⦂ attributes ⨾ end)
payload attributes (some (r ▹ rs)) =
    obj ("attributes" ⦂ attributes ⨾ "references" ⦂ arr (r ▹ rs) ⨾ end)

unfoldable pub object_request : SavedObject → Request
unfolding object_url payload
object_request o = record {
  method = "POST";
  url = object_url o.obj_type o.obj_id;
  headers = ("Content-Type", "application/json") ∷ ("kbn-xsrf", "true") ∷ [];
  body = dumps (payload o.attributes o.references);
}

module _ (V : Server) where
  unfoldable pub create_saved_object : SavedObject → Exec (World V.State) (Unit {0})
  unfolding object_request print urlopen
  create_saved_object o = do
    resp ← urlopen V (object_request o)
    print ("[OK] " <> (o.obj_type <> ("/" <> (o.obj_id <> (" -> " <> show resp.status)))))
