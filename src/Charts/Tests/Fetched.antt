-- ===== src/Charts/Tests/Fetched.antt =====
-- The first chart against an Elasticsearch that gives the same two intervals to every query.
use cdc_pipeline.Base.{ℕ, suc, String, ◌≡◌, refl, some, List, [], ◌∷◌, ◌++◌}
use cdc_pipeline.Json.{Value, num, str, arr, obj, Items, nil, ◌▹◌, end, ◌⦂◌⨾◌, field?, elements}
use cdc_pipeline.Json.Print.{dumps}
use cdc_pipeline.Json.Print.Loads.{loads-dumps}
use cdc_pipeline.Exec.{ok}
use cdc_pipeline.Http.{Request, reply, Server, World}
use cdc_pipeline.Soak.Report.{AreBuckets, buckets_of}
use cdc_pipeline.Charts.{Bucket, timeline}
use cdc_pipeline.Charts.Fetch.{fetch_throughput, first_line}
use cdc_pipeline.Charts.Fetch.Answers.{
  Answers, intervals, api_search, redis_search, es_search, fetch_throughput-timeline,
}
use cdc_pipeline.Charts.Tests.{bucket}

abbrev sample : List Bucket
sample = bucket "10:00:00" 5000 ∷ bucket "10:00:10" 3 ∷ []

abbrev bucket_value : String → ℕ → Value
bucket_value key count = obj ("key_as_string" ⦂ str key ⨾ "doc_count" ⦂ num count ⨾ end)

abbrev sample_items : Items
sample_items = bucket_value "10:00:00" 5000 ▹ bucket_value "10:00:10" 3 ▹ nil

abbrev answer : Value
answer =
    obj
      ("aggregations" ⦂ obj ("rate_per_10s" ⦂ obj ("buckets" ⦂ arr sample_items ⨾ end) ⨾ end) ⨾ end)

-- Its state counts the requests.
abbrev elastic : Server
elastic = record { State = ℕ; respond = λ req n. (reply 200 (dumps answer), suc n) }

found : buckets_of answer ≡ some (arr sample_items)
unfolding field?
found = refl

are : AreBuckets (elements sample_items) (intervals sample)
unfolding elements field?
are = ((refl, refl), ((refl, refl), tt))

answers : (req : Request) (n : ℕ) → Answers elastic req n (suc n) sample
answers req n = record {
  status = 200;
  text = dumps answer;
  res = answer;
  vs = sample_items;
  answers = refl;
  fine = refl;
  parses = loads-dumps answer;
  found = found;
  are = are;
}

abbrev start : World ℕ
start = record { server = 0; out = []; sent = [] }

fetch_throughput-timeline_example : fetch_throughput elastic start ≡ (
  ok (timeline sample sample sample),
  record {
    server = 3;
    out = [] ++ first_line ∷ [];
    sent = [] ++ api_search ∷ redis_search ∷ es_search ∷ [];
  },
)
fetch_throughput-timeline_example =
    fetch_throughput-timeline elastic start 1 2 3 sample sample sample (answers api_search 0)
      (answers redis_search 1) (answers es_search 2)
