-- ===== src/Charts/Queries.antt =====
-- The queries of the charts, and where the log lines that they ask for go.
use mathlib.Core.Path.{subst}
use mathlib.Core.Option.{some-injective}
use cdc_pipeline.Base.{
  ℕ, zero, suc, get_elem?, [], ◌∷◌, ◌≡◌, refl, ap, ◌∙◌, none, some, List, ◌++◌, All,
}
use cdc_pipeline.Json.{str, Fields, find_field}
use cdc_pipeline.Routing.{flatten, log_type_of, index_for, index_of}
use cdc_pipeline.Routing.Cards.{index_of_lem}
use cdc_pipeline.Charts.{Query, throughput_queries, percentile_queries}

-- A log line with the query's event, and without a `log_type` of its own, is in the query's index.
abbrev pub Finds : Query → Type 0
Finds q =
    (event : Fields)
    → find_field "log_type" (flatten event) ≡ none
    → find_field "event" (flatten event) ≡ some (str q.event)
    → index_of event ≡ q.index

goes_to :
    (q : Query) → index_for (some (str (log_type_of (some (str q.event))))) ≡ q.index → Finds q
goes_to q e event h is_event =
    index_of_lem event h ∙ (ap (λ o. index_for (some (str (log_type_of o)))) is_event ∙ e)

queries-Finds : All Finds (throughput_queries ++ percentile_queries)
queries-Finds = (
  goes_to _ refl,
  (
    goes_to _ refl,
    (goes_to _ refl, (goes_to _ refl, (goes_to _ refl, (goes_to _ refl, (goes_to _ refl, tt))))),
  ),
)

All-get_elem? :
    (qs : List Query) (i : ℕ) (q : Query) → All Finds qs → get_elem? qs i ≡ some q → Finds q
All-get_elem? [] i q h e = cc
All-get_elem? (p ∷ qs) zero q h e = subst Finds (some-injective p q e) h.0
All-get_elem? (p ∷ qs) (suc i) q h e = All-get_elem? qs i q h.1 e

-- A log line with the event of one of the seven queries of the two charts, and without a `log_type` of
-- its own, is in the index that the query searches.
pub queries_find :
    (i : ℕ) (q : Query) (event : Fields)
    → get_elem? (throughput_queries ++ percentile_queries) i ≡ some q
    → find_field "log_type" (flatten event) ≡ none
    → find_field "event" (flatten event) ≡ some (str q.event)
    → index_of event ≡ q.index
queries_find i q event there h is_event =
    All-get_elem? (throughput_queries ++ percentile_queries) i q queries-Finds there event h
      is_event
