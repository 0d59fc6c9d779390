-- ===== src/Routing.antt =====
-- logstash/logstash.conf: which index a log line goes to.
pub mod Cards
mod Tests
use cdc_pipeline.Base.{
  String, Bool, true, false, ◌||◌, Option, none, some, List, [], ◌∷◌, str_eq, if◌then◌else◌,
}
use cdc_pipeline.Json.{
  Value, null, bool, int, tenths, str, arr, obj, Items, nil, ◌▹◌, Fields, end, ◌⦂◌⨾◌, find_field,
}

-- `event.set(k, v)`
pub set_field : String → Value → Fields → Fields
set_field k v end = k ⦂ v ⨾ end
set_field k v (j ⦂ w ⨾ rest) = if str_eq j k then j ⦂ v ⨾ rest else j ⦂ w ⨾ set_field k v rest

-- `event.remove(k)`
pub remove_field : String → Fields → Fields
remove_field k end = end
remove_field k (j ⦂ w ⨾ rest) = if str_eq j k then rest else j ⦂ w ⨾ remove_field k rest

pub set_all : Fields → Fields → Fields
unfolding set_field
set_all end event = event
set_all (k ⦂ v ⨾ msg) event = set_all msg (set_field k v event)

-- The filter's first part: the members of `message` become members of the event.
flatten_by : Option Value → Fields → Fields
unfolding set_all remove_field
flatten_by (some (obj msg)) event = remove_field "message" (set_all msg event)
flatten_by _ event = event

unfoldable pub flatten : Fields → Fields
unfolding flatten_by find_field
flatten event = flatten_by (find_field "message" event) event

abbrev pub is_in : String → List String → Bool
is_in s [] = false
is_in s (t ∷ ts) = str_eq s t || is_in s ts

abbrev pub api_events : List String
api_events =
    "request_sent" ∷ "request_failed" ∷ "api_order_created" ∷ "api_order_status_updated"
    ∷ "api_cache_hit" ∷ "api_cache_miss" ∷ []

abbrev pub consumer_events : List String
consumer_events =
    "redis_updated" ∷ "es_indexed" ∷ "email_notification_sent" ∷ "record_processed"
    ∷ "routed_to_dlq" ∷ "record_processing_failed" ∷ "redis_stale_event_ignored" ∷ []

abbrev pub log_type_of : Option Value → String
log_type_of (some (str event)) =
    if is_in event api_events
    then "api"
    else if is_in event consumer_events
    then "consumer"
    else "system"
log_type_of _ = "system"

pub append_field : String → Value → Fields → Fields
append_field k v end = k ⦂ v ⨾ end
append_field k v (j ⦂ w ⨾ rest) = j ⦂ w ⨾ append_field k v rest

-- `mutate { add_field }`: a field that is there becomes a list with the new value at its end.
pub added : Option Value → String → String → Fields → Fields
unfolding append_field set_field
added none k v event = append_field k (str v) event
added (some w) k v event = set_field k (arr (w ▹ str v ▹ nil)) event

-- The routing part of the filter.
unfoldable pub classify : Fields → Fields
unfolding added find_field
classify event =
    added (find_field "log_type" event) "log_type" (log_type_of (find_field "event" event)) event

-- The output: the index without its date.
abbrev pub index_for : Option Value → String
index_for (some (str t)) =
    if str_eq t "api"
    then "cdc-api-logs"
    else if str_eq t "consumer"
    then "cdc-consumer-logs"
    else "cdc-system-logs"
index_for _ = "cdc-system-logs"

unfoldable pub index_of : Fields → String
unfolding flatten classify find_field
index_of event = index_for (find_field "log_type" (classify (flatten event)))
