-- ===== src/Charts.antt =====
-- scripts/generate_benchmark_charts.py: the data of the first two charts. The drawing is matplotlib's.
pub mod Timeline
pub mod Fetch
pub mod Queries
mod Tests
use cdc_pipeline.Base.{
  ℕ, zero, suc, ◌*◌, String, Bool, true, Option, none, some, List, [], ◌∷◌, ◌++◌, str_eq, ltb,
  length, if◌then◌else◌,
}
use cdc_pipeline.Json.{Value, num, str, arr, obj, nil, ◌▹◌, end, ◌⦂◌⨾◌}

-- A bucket of Elasticsearch's `date_histogram`.
pub record Bucket : Type 0 where
  pub key_as_string : String
  pub doc_count : ℕ

-- `{b["key_as_string"]: b["doc_count"] for b in …}.get(t, 0)`: the last bucket with the key decides.
abbrev count_or : Option ℕ → ℕ → ℕ
count_or none d = d
count_or (some n) d = n

pub lookup : String → List Bucket → Option ℕ
lookup t [] = none
lookup t (b ∷ bs) =
    let rest = lookup t bs in
    if str_eq b.key_as_string t then some (count_or rest b.doc_count) else rest

abbrev pub count_at : String → List Bucket → ℕ
count_at t bs = count_or (lookup t bs) 0

-- A point of the three lines. The code divides each count by 10.0; here a rate is in tenths.
pub record Point : Type 0 where
  pub time : ℕ
  pub api_rps : ℕ
  pub redis_rps : ℕ
  pub es_rps : ℕ

-- `if cnt > 100`
abbrev pub is_active : Bucket → Bool
is_active b = ltb 100 b.doc_count

module _ (redis_buckets es_buckets : List Bucket) where
  abbrev pub point : ℕ → Bucket → Point
  point time b = record {
    time = time;
    api_rps = b.doc_count;
    redis_rps = count_at b.key_as_string redis_buckets;
    es_rps = count_at b.key_as_string es_buckets;
  }

  -- The loop over the buckets, with the points so far.
  unfoldable pub collect : List Bucket → List Point → List Point
  unfolding lookup
  collect [] points = points
  collect (b ∷ bs) points =
      collect bs (if is_active b then points ++ point (length points * 10) b ∷ [] else points)

  unfoldable pub timeline : List Bucket → List Point
  unfolding collect
  timeline buckets = collect buckets []

-- A call of `query_es` of the script: the index, and the event of the query's `term`.
pub record Query : Type 0 where
  pub index : String
  pub event : String

abbrev pub throughput_queries : List Query
throughput_queries =
    record { index = "cdc-api-logs"; event = "request_sent" }
    ∷ record { index = "cdc-consumer-logs"; event = "redis_updated" }
    ∷ record { index = "cdc-consumer-logs"; event = "es_indexed" }
    ∷ []

abbrev pub percentile_queries : List Query
percentile_queries =
    record { index = "cdc-api-logs"; event = "request_sent" }
    ∷ record { index = "cdc-consumer-logs"; event = "redis_updated" }
    ∷ record { index = "cdc-consumer-logs"; event = "es_indexed" }
    ∷ record { index = "cdc-consumer-logs"; event = "record_processed" }
    ∷ []
