-- ===== src/Charts/Tests.antt =====
-- A soak test with an idle bucket between two active ones.
mod Fetched
use cdc_pipeline.Base.{none, some, ℕ, String, ◌≡◌, refl, List, [], ◌∷◌, map}
use cdc_pipeline.Json.{str, obj, Fields, end, ◌⦂◌⨾◌, find_field}
use cdc_pipeline.Routing.{flatten, index_of}
use cdc_pipeline.Charts.{Bucket, timeline}
use cdc_pipeline.Charts.Queries.{queries_find}
use cdc_pipeline.Charts.Timeline.{active, spaced, timeline-spaced}

abbrev bucket : String → ℕ → Bucket
bucket t n = record { key_as_string = t; doc_count = n }

abbrev buckets : List Bucket
buckets = bucket "10:00:00" 5000 ∷ bucket "10:00:10" 3 ∷ bucket "10:00:20" 6000 ∷ []

abbrev redis : List Bucket
redis = bucket "10:00:00" 4000 ∷ bucket "10:00:20" 7000 ∷ []

timeline-spaced_example : timeline redis [] buckets ≡ spaced redis [] 0 (active buckets)
timeline-spaced_example = timeline-spaced redis [] buckets

-- The second point, twenty seconds into the test, is drawn at ten.
drawn_at : map (λ p. p.time) (timeline redis [] buckets) ≡ 0 ∷ 10 ∷ []
unfolding timeline
drawn_at = refl

abbrev updated_line : Fields
updated_line = "level" ⦂ str "info" ⨾ "message" ⦂ obj ("event" ⦂ str "redis_updated" ⨾ end) ⨾ end

updated_unclassified : find_field "log_type" (flatten updated_line) ≡ none
unfolding flatten
updated_unclassified = refl

updated_event : find_field "event" (flatten updated_line) ≡ some (str "redis_updated")
unfolding flatten
updated_event = refl

queries_find_example : index_of updated_line ≡ "cdc-consumer-logs"
queries_find_example =
    queries_find 1 (record { index = "cdc-consumer-logs"; event = "redis_updated" }) updated_line
      refl updated_unclassified updated_event
