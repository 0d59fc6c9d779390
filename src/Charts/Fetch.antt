-- ===== src/Charts/Fetch.antt =====
-- The requests of the two charts of scripts/generate_benchmark_charts.py that read Elasticsearch, and
-- what they take from the answers. Its `query_es` is that of scripts/check_soak_status.py, word for
-- word. A count that is no natural number ends the run here.
pub mod Answers
use cdc_pipeline.Base.{ℕ, String, Option, none, some, List, [], ◌∷◌}
use cdc_pipeline.Base.Int.{ℤ, pos}
use cdc_pipeline.Json.{Value, int, num, str, arr, obj, nil, ◌▹◌, Items, end, ◌⦂◌⨾◌, elements}
use cdc_pipeline.Exec.{Exn, type_error, Exec, pure, raise, ◌>>=◌, ◌>>◌}
use cdc_pipeline.Http.{Server, World, print}
use cdc_pipeline.Soak.{get_item, query_es}
use cdc_pipeline.Charts.{Bucket, Point, timeline}

abbrev pub event_filter : String → Value
event_filter event = obj ("term" ⦂ obj ("event.keyword" ⦂ str event ⨾ end) ⨾ end)

abbrev pub throughput_query : String → Value
throughput_query event = obj (
    "size"
    ⦂ num 0 ⨾ "query"
    ⦂ event_filter event ⨾ "aggs"
    ⦂ obj (
        "rate_per_10s"
        ⦂ obj (
            "date_histogram"
            ⦂ obj ("field" ⦂ str "@timestamp" ⨾ "fixed_interval" ⦂ str "10s" ⨾ end) ⨾ end) ⨾
          end) ⨾
      end)

abbrev pub percents : Items
percents = num 50 ▹ num 90 ▹ num 95 ▹ num 99 ▹ nil

abbrev pub percentile_query : String → String → Value
percentile_query event field = obj (
    "size"
    ⦂ num 0 ⨾ "query"
    ⦂ event_filter event ⨾ "aggs"
    ⦂ obj (
        "p"
        ⦂ obj ("percentiles" ⦂ obj ("field" ⦂ str field ⨾ "percents" ⦂ arr percents ⨾ end) ⨾ end) ⨾
          end) ⨾
      end)

module _ {S : Type 0} where
  abbrev pub natural_of : Value → Exec (World S) ℕ
  natural_of (int (pos n)) = pure n
  natural_of v = raise type_error

  abbrev pub text_of : Value → Exec (World S) String
  text_of (str s) = pure s
  text_of v = raise type_error

  -- A bucket in the loop of the chart, where the count is read first.
  read_interval : Value → Exec (World S) Bucket
  read_interval b = do
    found ← get_item "doc_count" b
    count ← natural_of found
    named ← get_item "key_as_string" b
    key ← text_of named
    pure (record { key_as_string = key; doc_count = count })

  read_intervals : List Value → Exec (World S) (List Bucket)
  unfolding read_interval
  read_intervals [] = pure []
  read_intervals (b ∷ bs) = do
    first ← read_interval b
    rest ← read_intervals bs
    pure (first ∷ rest)

  -- A bucket in the dictionary of a sink, where the key is read first.
  read_member : Value → Exec (World S) Bucket
  read_member b = do
    named ← get_item "key_as_string" b
    key ← text_of named
    found ← get_item "doc_count" b
    count ← natural_of found
    pure (record { key_as_string = key; doc_count = count })

  read_members : List Value → Exec (World S) (List Bucket)
  unfolding read_member
  read_members [] = pure []
  read_members (b ∷ bs) = do first ← read_member b; rest ← read_members bs; pure (first ∷ rest)

  abbrev pub members : Value → Exec (World S) (List Value)
  members (arr vs) = pure (elements vs)
  members v = raise type_error

  -- `res["aggregations"]["rate_per_10s"]["buckets"]`
  unfoldable pub found_in : Value → Exec (World S) Value
  found_in res = do
    aggs ← get_item "aggregations" res
    rates ← get_item "rate_per_10s" aggs
    get_item "buckets" rates

  unfoldable pub intervals_of : Value → Exec (World S) (List Bucket)
  unfolding read_intervals
  intervals_of buckets = do found ← members buckets; read_intervals found

  unfoldable pub rates_of : Value → Exec (World S) (List Bucket)
  unfolding found_in read_members
  rates_of res = do buckets ← found_in res; found ← members buckets; read_members found

  -- `res["aggregations"]["p"]["values"]`, and the four values of a group of bars.
  unfoldable pub percentiles_of : Value → Exec (World S) (List Value)
  percentiles_of values = do
    p50 ← get_item "50.0" values
    p90 ← get_item "90.0" values
    p95 ← get_item "95.0" values
    p99 ← get_item "99.0" values
    pure (p50 ∷ p90 ∷ p95 ∷ p99 ∷ [])

  unfoldable pub values_of : Value → Exec (World S) Value
  values_of res = do aggs ← get_item "aggregations" res; p ← get_item "p" aggs; get_item "values" p

abbrev pub first_line : String
first_line = "Generating Chart 1: Pipeline Throughput Timeline..."

abbrev pub second_line : String
second_line = "Generating Chart 2: Latency Percentiles..."

-- The bars of the second chart, a list for each layer.
pub record Bars : Type 0 where
  pub api : List Value
  pub redis : List Value
  pub es : List Value
  pub proc : List Value

module _ (V : Server) where
  unfoldable pub rates : String → String → Exec (World V.State) (List Bucket)
  unfolding rates_of
  rates index event = do res ← query_es V index (throughput_query event); rates_of res

  -- The data of the first chart: the three requests, and then the loop over the first answer's buckets.
  unfoldable pub fetch_throughput : Exec (World V.State) (List Point)
  unfolding rates intervals_of found_in
  fetch_throughput = do
    print first_line
    res ← query_es V "cdc-api-logs-*" (throughput_query "request_sent")
    buckets ← found_in res
    redis ← rates "cdc-consumer-logs-*" "redis_updated"
    es ← rates "cdc-consumer-logs-*" "es_indexed"
    api ← intervals_of buckets
    pure (timeline redis es api)

  percentile_values : String → String → String → Exec (World V.State) Value
  unfolding values_of
  percentile_values index event field = do
    res ← query_es V index (percentile_query event field)
    values_of res

  -- The data of the second chart: four answers, then their values.
  unfoldable pub fetch_percentiles : Exec (World V.State) Bars
  unfolding percentile_values percentiles_of
  fetch_percentiles = do
    print second_line
    api ← percentile_values "cdc-api-logs-*" "request_sent" "latency_ms"
    redis ← percentile_values "cdc-consumer-logs-*" "redis_updated" "sink_latency_ms"
    es ← percentile_values "cdc-consumer-logs-*" "es_indexed" "sink_latency_ms"
    proc ← percentile_values "cdc-consumer-logs-*" "record_processed" "processing_latency_ms"
    api_vals ← percentiles_of api
    redis_vals ← percentiles_of redis
    es_vals ← percentiles_of es
    proc_vals ← percentiles_of proc
    pure (record { api = api_vals; redis = redis_vals; es = es_vals; proc = proc_vals })
