-- ===== src/Api/Tests.antt =====
-- Concrete parameters for the order service, and the theorems at them.
mod Quotes
mod Small
use cdc_pipeline.Base.{
  ℕ, ◌+◌, ◌*◌, ◌≤◌, ◌<◌, max, String, ◌≡◌, refl, inl, inr, Bool, true, false, Option, none, some,
  List, [], ◌∷◌, arith, str_eq, if◌then◌else◌,
}
use cdc_pipeline.Base.Int.{pos}
use cdc_pipeline.Base.Text.{show}
use cdc_pipeline.Json.{Value, num, str, arr, obj, nil, ◌▹◌, end, ◌⦂◌⨾◌, field?, find_field}
use cdc_pipeline.Json.Print.{dumps}
use cdc_pipeline.Api.Action.{Service}
use cdc_pipeline.Api.Library.{Library, Row}
use cdc_pipeline.Api.Cache.{Reply, no_reply, nil_reply, text_reply}
use cdc_pipeline.Api.Database.{select_sql}
use cdc_pipeline.Api.Table.{View, Unchanged, IsPostgres, is_plain}
use cdc_pipeline.Api.Server.{
  Response, respond, created, post_order, get_order, cache_key, bad_request,
}
use cdc_pipeline.Api.Server.Creates.{
  Order, Settled, read_order, sql, post_order-Settled, post_order-rejected,
}
use cdc_pipeline.Api.Server.Reads.{Read, cached, get_order-Read}
use cdc_pipeline.Api.Server.Injection.{closing, two_statements, get_order-executes}
use cdc_pipeline.Api.Routes.{Request, get, post, patch}
use cdc_pipeline.Api.Routes.Runs.{Event, serve, serve-Read}
use cdc_pipeline.Api.Load.{Draws, Worker, payload, patch_body, thread_rps, sleep_duration}
use cdc_pipeline.Api.Load.Rate.{thread_rps_bounds}
use cdc_pipeline.Api.Load.Rounds.{Round, IsFit, rounds}
use cdc_pipeline.Api.Load.Runs.{IsServed, rounds-IsServed}
use cdc_pipeline.Api.Tests.Small.{small, small_view, small-IsPostgres, reader}

thread_rps_bounds_example :
    (1 ≤ thread_rps 100 7)
    × (thread_rps 100 7 * 7 ≤ max 100 7)
    × (100 < thread_rps 100 7 * 7 + 7)
    × (sleep_duration 100 7 * thread_rps 100 7 ≤ 1000000)
thread_rps_bounds_example = thread_rps_bounds 100 7 (omega arith)

-- The texts that the small library reads.
abbrev parse_among : List Value → String → Option Value
parse_among [] text = none
parse_among (v ∷ vs) text = if str_eq (dumps v) text then some v else parse_among vs text

abbrev draws : Draws ℕ
draws = record {
  patch_chance = 0;
  picked = 5;
  status_pick = 1;
  product = 3;
  quantity = 1;
  user_id = "u-1";
  amount = 25;
}

abbrev order_text : Value
order_text =
    obj ("items" ⦂ arr (num 1 ▹ nil) ⨾ "total_amount" ⦂ num 30 ⨾ "user_id" ⦂ str "u-2" ⨾ end)

abbrev cached_order : Value
cached_order = obj ("id" ⦂ str "o-1" ⨾ "status" ⦂ str "SHIPPED" ⨾ end)

-- The numbers do not depend on the texts.
abbrev known : List Value
known =
    payload (reader (λ t. none) dumps) draws
    ∷ patch_body "SHIPPED"
    ∷ created "o-1"
    ∷ order_text
    ∷ arr (num 1 ▹ nil)
    ∷ cached_order
    ∷ []

abbrev lib : Library
lib = reader (parse_among known) dumps

abbrev empty_service : Service (List (Row ℕ))
empty_service = record { database = []; connected = true; logs = [] }

abbrev order : Order ℕ
order = record { user_id = "u-2"; amount = 30; items = arr (num 1 ▹ nil) }

reads_order : read_order lib (dumps order_text) ≡ some order
unfolding dumps field? find_field
reads_order = refl

plain_items : is_plain (dumps (arr (num 1 ▹ nil))) ≡ true
unfolding dumps
plain_items = refl

abbrev known-IsPostgres : IsPostgres lib small small_view
known-IsPostgres = small-IsPostgres (parse_among known) dumps

post_order-Settled_example :
    Settled lib small small_view "o-1" order empty_service
      (small.execute (sql lib "o-1" order) [])
      (post_order lib small "o-1" (dumps order_text) empty_service)
post_order-Settled_example =
    post_order-Settled lib small small_view known-IsPostgres "o-1" (dumps order_text) order
      empty_service reads_order refl refl plain_items

reads_nothing : read_order lib (dumps (patch_body "SHIPPED")) ≡ none
unfolding dumps field? find_field
reads_nothing = refl

post_order-rejected_example :
    ((post_order lib small "o-1" (dumps (patch_body "SHIPPED")) empty_service).0 ≡ bad_request)
    × ((post_order lib small "o-1" (dumps (patch_body "SHIPPED")) empty_service).1.database ≡ [])
post_order-rejected_example =
    post_order-rejected lib small small_view known-IsPostgres "o-1" (dumps (patch_body "SHIPPED"))
      empty_service reads_nothing

abbrev row : Row ℕ
row = record {
  id = "o-1";
  user_id = "u-2";
  total_amount = 30;
  status = "CREATED";
  items_jsonb = "[1]";
}

abbrev service : Service (List (Row ℕ))
service = record { database = row ∷ []; connected = true; logs = [] }

get_order-Read_example :
    Read lib small small_view "o-1"
      (cached lib true (text_reply (dumps cached_order)))
      service
      (small.execute (select_sql "o-1") (row ∷ []))
      (get_order lib small (λ k. text_reply (dumps cached_order)) "o-1" service)
get_order-Read_example =
    get_order-Read lib small small_view known-IsPostgres (λ k. text_reply (dumps cached_order))
      "o-1" service refl

abbrev unplugged : Service (List (Row ℕ))
unplugged = record { database = row ∷ []; connected = false; logs = [] }

abbrev events : List Event
events =
    record {
      request = record { method = get; path = "/api/v1/orders/o-1"; body = "" };
      redis = λ k. text_reply (dumps cached_order);
      uuid = "o-2";
    }
    ∷ []

serve-Read_example :
    Read lib small small_view "o-1" none
      (serve lib small events unplugged)
      (small.execute (select_sql "o-1") (serve lib small events unplugged).database)
      (get_order lib small
        (λ k. text_reply (dumps cached_order))
        "o-1"
        (serve lib small events unplugged))
serve-Read_example =
    serve-Read lib small small_view known-IsPostgres events (λ k. text_reply (dumps cached_order))
      "o-1" unplugged refl refl

get_order-executes_example :
    (get_order lib small (λ k. nil_reply) (closing "DELETE FROM orders") service).1.database
    ≡ (small.execute (two_statements "DELETE FROM orders") (row ∷ [])).1
get_order-executes_example =
    get_order-executes lib small (λ k. nil_reply) service "DELETE FROM orders" refl

abbrev first_round : Round ℕ
first_round = record { draws = draws; uuid = "o-1"; lost = false }

first_round-IsFit : IsFit lib first_round
unfolding dumps show
first_round-IsFit = record {
  plain = refl;
  id = refl;
  plain_user = refl;
  plain_items = refl;
  amount = refl;
  reads_payload = refl;
  reads_status = refl;
  reads_created = refl;
}

abbrev worker : Worker (Service (List (Row ℕ)))
worker = record { server = empty_service; created_ids = []; logs = [] }

-- A POST and, of what it created, a PATCH.
rounds-IsServed_example :
    IsServed lib small small_view known-IsPostgres
      (rounds lib small (first_round ∷ first_round ∷ []) worker)
rounds-IsServed_example =
    rounds-IsServed lib small small_view known-IsPostgres (first_round ∷ first_round ∷ []) worker
      (first_round-IsFit, (first_round-IsFit, tt)) (omega arith, tt, tt)
