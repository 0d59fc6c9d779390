-- ===== src/Soak/Tests.antt =====
-- An Elasticsearch with two intervals, and the theorem of scripts/check_soak_status.py at it.
use cdc_pipeline.Base.{ℕ, String, ◌<>◌, ◌≡◌, refl, some, List, [], ◌∷◌, ◌++◌, length}
use cdc_pipeline.Base.Int.{pos}
use cdc_pipeline.Base.Text.{show, show_ℤ}
use cdc_pipeline.Json.{Value, num, str, arr, obj, Items, nil, ◌▹◌, end, ◌⦂◌⨾◌, field?, elements}
use cdc_pipeline.Json.Print.{dumps}
use cdc_pipeline.Json.Print.Loads.{loads-dumps}
use cdc_pipeline.Exec.{ok}
use cdc_pipeline.Http.{reply, Server, World}
use cdc_pipeline.Soak.{last_eight, main, line}
use cdc_pipeline.Soak.Report.{Interval, AreBuckets, buckets_of, lines, search, main-reports}

abbrev bucket : String → ℕ → Value
bucket key count = obj ("key_as_string" ⦂ str key ⨾ "key" ⦂ num 17 ⨾ "doc_count" ⦂ num count ⨾ end)

abbrev buckets : Items
buckets = bucket "10:00:00" 1004 ▹ bucket "10:00:10" 7 ▹ nil

abbrev answer : Value
answer = obj (
    "took"
    ⦂ num 3 ⨾ "aggregations"
    ⦂ obj ("rate_per_10s" ⦂ obj ("buckets" ⦂ arr buckets ⨾ end) ⨾ end) ⨾ end)

abbrev elastic : Server
elastic = record { State = ℕ; respond = λ req n. (reply 200 (dumps answer), n) }

abbrev start : World ℕ
start = record { server = 0; out = []; sent = [] }

abbrev intervals : List Interval
intervals = ("10:00:00", pos 1004) ∷ ("10:00:10", pos 7) ∷ []

found : buckets_of answer ≡ some (arr buckets)
unfolding field?
found = refl

are : AreBuckets (elements buckets) intervals
unfolding elements field?
are = ((refl, refl), ((refl, refl), tt))

main-reports_example : main elastic start ≡ (
  ok tt,
  record {
    server = 0;
    out =
        []
        ++ ("Total time buckets: " <> show (length intervals))
          ∷ "Recent 10s intervals:"
          ∷ lines (last_eight intervals);
    sent = [] ++ search ∷ [];
  },
)
main-reports_example =
    main-reports elastic 200 (dumps answer) 0 answer buckets intervals start refl refl
      (loads-dumps answer) found are

line_text : line "10:00:00" (pos 1004) ≡ "  10:00:00: 1004 requests (100.4 req/sec)"
unfolding show show_ℤ
line_text = refl
