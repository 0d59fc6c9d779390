-- ===== src/Api/Server.antt =====
-- The three handlers of api/src/api_server.cpp, and which of them a request reaches.
pub mod Creates
pub mod Updates
pub mod Reads
pub mod Injection
use cdc_pipeline.Base.{ℕ, String, ◌<>◌, Bool, true, false, Option, none, some, if◌then◌else◌}
use cdc_pipeline.Json.{Value, str, obj, Fields, end, ◌⦂◌⨾◌}
use cdc_pipeline.Api.Action.{
  Service, api_order_created, api_db_hit, api_cache_hit, api_cache_miss, api_order_status_updated,
  api_redis_fallback, api_bad_request, api_server_error, Exception, json_exception, other_exception,
  what, Outcome, returned, thrown, Action, pure, rescue, write_log, log, ◌>>=◌, ◌>>◌,
}
use cdc_pipeline.Api.Library.{Library, Postgres, parse, at_key, get_string, get_double, assign}
use cdc_pipeline.Api.Cache.{Reply, get}
use cdc_pipeline.Api.Database.{create_order, update_order_status, get_order_by_id}

-- Every content is "application/json".
pub record Response : Type 0 where
  pub status : ℕ
  pub body : String

abbrev pub respond : ℕ → String → Response
respond status body = record { status = status; body = body }

abbrev pub bad_request : Response
bad_request = respond 400 "{\"error\": \"Invalid JSON payload\"}"

abbrev pub server_error : Response
server_error = respond 500 "{\"error\": \"Internal Server Error\"}"

abbrev pub not_found : Response
not_found = respond 404 "{\"error\": \"Order not found\"}"

-- The two catch clauses of the handlers that write.
abbrev pub catch_all : {S : Type 0} → Outcome Response × Service S → Response × Service S
catch_all (returned r, w) = (r, w)
catch_all (thrown (json_exception why), w) = (bad_request, write_log (api_bad_request why) w)
catch_all (thrown (other_exception why), w) = (server_error, write_log (api_server_error why) w)

-- The one of the handler that reads.
abbrev pub catch_read : {S : Type 0} → Outcome Response × Service S → Response × Service S
catch_read (returned r, w) = (r, w)
catch_read (thrown e, w) = (server_error, write_log (api_server_error (what e)) w)

abbrev pub cache_key : String → String
cache_key id = "order:" <> id

abbrev pub created : String → Value
created id = obj ("id" ⦂ str id ⨾ "status" ⦂ str "CREATED" ⨾ end)

module _ (L : Library) (P : Postgres L.Double) where
  create : String → String → Action P.State Response
  create uuid body = do
    order ← parse L body
    user ← at_key L order "user_id"
    user_id ← get_string L user
    total ← at_key L order "total_amount"
    amount ← get_double L total
    items ← at_key L order "items"
    id ← create_order L P uuid user_id amount items
    log (api_order_created id)
    pure (respond 201 (L.dump (created id)))

  -- POST /api/v1/orders
  unfoldable pub post_order : String → String → Service P.State → Response × Service P.State
  unfolding create create_order
  post_order uuid body w = catch_all (create uuid body w)

  report_patch : Bool → String → String → Action P.State Response
  report_patch true id status =
      log (api_order_status_updated id status) >> pure (respond 200 "{\"updated\": true}")
  report_patch false id status = pure not_found

  set_status : String → String → Action P.State Response
  unfolding report_patch
  set_status id body = do
    order ← parse L body
    value ← at_key L order "status"
    status ← get_string L value
    updated ← update_order_status L P id status
    report_patch updated id status

  -- PATCH /api/v1/orders/:id/status
  unfoldable pub patch_status : String → String → Service P.State → Response × Service P.State
  unfolding set_status update_order_status
  patch_status id body w = catch_all (set_status id body w)

  abbrev pub sourced : String → Value → Action P.State Response
  sourced source order = do
    order' ← assign L "source" (str source) order
    pure (respond 200 (L.dump order'))

  answer_hit : String → String → Action P.State (Option Response)
  answer_hit id text = do
    log (api_cache_hit id)
    order ← parse L text
    r ← sourced "redis" order
    pure (some r)

  from_cache : String → Option String → Action P.State (Option Response)
  unfolding answer_hit
  from_cache id (some text) = answer_hit id text
  from_cache id none = log (api_cache_miss id) >> pure none

  -- Any exception on the way falls back to Postgres.
  read_cache : (String → Reply) → String → Action P.State (Option Response)
  unfolding from_cache get
  read_cache redis id w =
      rescue (λ e. log (api_redis_fallback (what e) id) >> pure none)
        ((get redis (cache_key id) >>= from_cache id) w)

  from_database : String → Option Value → Action P.State Response
  from_database id (some order) = log (api_db_hit id) >> sourced "postgres" order
  from_database id none = pure not_found

  cache_or_database : String → Option Response → Action P.State Response
  unfolding from_database get_order_by_id
  cache_or_database id (some r) = pure r
  cache_or_database id none = get_order_by_id L P id >>= from_database id

  -- GET /api/v1/orders/:id
  unfoldable pub get_order :
      (String → Reply) → String → Service P.State → Response × Service P.State
  unfolding read_cache cache_or_database
  get_order redis id w = catch_read ((read_cache redis id >>= cache_or_database id) w)
