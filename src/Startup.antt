-- ===== src/Startup.antt =====
-- The readiness loops of api/src/main.cpp and of consumers/src/main.cpp: services are constructed in order,
-- up to 20 times, and whatever exception comes is waited for.
pub mod Told
mod Tests
use cdc_pipeline.Base.{
  ℕ, zero, suc, String, Option, none, some, List, [], ◌∷◌, ◌++◌, ◌==◌, if◌then◌else◌,
}

-- A constructor: in each attempt, the text of what it throws, or none where it returns.
abbrev pub Service : Type 0
Service = ℕ → Option String

-- A line "waiting_for_services" or "waiting_for_db_or_redis", with its attempt and its error.
pub record Waiting : Type 0 where
  pub attempt : ℕ
  pub error : String

-- The services whose pointer is still null, the lines logged, the seconds slept, and what `main` ends with
-- where the loop throws.
pub record Startup : Type 0 where
  pub missing : List Service
  pub logs : List Waiting
  pub slept : List ℕ
  pub fatal : Option String

-- The body of the `try`: the first exception, and the services that are still null.
unfoldable pub construct_all : ℕ → List Service → Option String × List Service
construct_all n [] = (none, [])
construct_all n (s ∷ ss) = elim (s n) [
  | none ↦ construct_all n ss
  | some error ↦ (some error, s ∷ ss)
]

abbrev pub wait : ℕ → String → List Service → Startup → Startup
wait n error missing w = record w {
  missing = missing;
  logs = w.logs ++ record { attempt = n; error = error } ∷ [];
  slept = w.slept ++ 2 ∷ [];
}

-- What follows the `try`; `rest` is the loop's further rounds.
abbrev pub after_attempt :
    ℕ → (Startup → Startup) → Option String × List Service → Startup → Startup
after_attempt n rest (none, missing) w = record w { missing = missing }
after_attempt n rest (some error, missing) w =
    if n == 20
    then record w { missing = missing; fatal = some error }
    else rest (wait n error missing w)

-- `for (int attempt = n; attempt <= 20; ++attempt)` with `left` values to go.
unfoldable pub attempts : ℕ → ℕ → Startup → Startup
unfolding construct_all
attempts zero n w = w
attempts (suc left) n w = after_attempt n (attempts left (suc n)) (construct_all n w.missing) w

unfoldable pub startup : List Service → Startup
unfolding attempts
startup services =
    attempts 20 1 (record { missing = services; logs = []; slept = []; fatal = none })

-- `main` of api/src/main.cpp.
abbrev pub api_services : Service → Service → List Service
api_services db redis = db ∷ redis ∷ []

-- `main` of consumers/src/main.cpp.
abbrev pub consumer_services : Service → Service → Service → Service → List Service
consumer_services deserializer es_indexer redis_updater notifier =
    deserializer ∷ es_indexer ∷ redis_updater ∷ notifier ∷ []
