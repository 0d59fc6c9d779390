-- ===== src/Startup/Tests.antt =====
-- A Postgres that is up from the third attempt on with a Redis that is up from the second, and services
-- that never come.
use cdc_pipeline.Base.{ℕ, String, ◌≡◌, refl, none, some, [], ◌∷◌, length, ltb, if◌then◌else◌}
use cdc_pipeline.Startup.{
  Service, Startup, construct_all, attempts, startup, api_services, consumer_services,
}
use cdc_pipeline.Startup.Told.{Ended, Told, startup-Told}

abbrev up_from : ℕ → String → Service
up_from first error n = if ltb n first then some error else none

abbrev slow : Startup
slow = startup (api_services (up_from 3 "no Postgres") (up_from 2 "no Redis"))

slow_starts : slow ≡ record {
  missing = [];
  logs =
      record { attempt = 1; error = "no Postgres" }
      ∷ record { attempt = 2; error = "no Postgres" }
      ∷ [];
  slept = 2 ∷ 2 ∷ [];
  fatal = none;
}
unfolding startup attempts construct_all
slow_starts = refl

-- The schema registry and Redis are there, the brokers are not.
abbrev never : Startup
never =
    startup
      (consumer_services (up_from 1 "") (up_from 30 "no broker") (up_from 1 "") (up_from 1 ""))

never_starts : never.fatal ≡ some "no broker"
unfolding startup attempts construct_all
never_starts = refl

never_missing : length never.missing ≡ 3
unfolding startup attempts construct_all
never_missing = refl

startup-Told_example :
    Told (api_services (up_from 3 "no Postgres") (up_from 2 "no Redis")) slow
    × Ended (api_services (up_from 3 "no Postgres") (up_from 2 "no Redis")) slow slow.fatal
startup-Told_example = startup-Told (api_services (up_from 3 "no Postgres") (up_from 2 "no Redis"))
