-- ===== src/Views/Tests.antt =====
-- A Kibana that cannot be reached after a number of requests, and an answer that the script takes for an error.
use cdc_pipeline.Base.{ℕ, zero, suc, ◌≡◌, refl, false, [], ◌∷◌}
use cdc_pipeline.Http.{reply, unreachable, Server, World}
use cdc_pipeline.Views.{is_present, heading, views, main}
use cdc_pipeline.Views.Runs.{Ends, main-Ends}

-- It answers so many requests with 500.
abbrev failing : Server
failing = record {
  State = ℕ;
  respond = λ q n. elim n [ zero ↦ (unreachable "timed out", zero) | suc k ↦ (reply 500 "no", k) ];
}

abbrev fresh : {S : Type 0} → S → World S
fresh s = record { server = s; out = []; sent = [] }

main-Ends_example :
    Ends failing views
      (record (fresh (suc (suc zero))) { out = heading ∷ [] })
      (main failing (fresh (suc (suc zero))))
main-Ends_example = main-Ends failing (fresh (suc (suc zero)))

-- Kibana's answer for a view whose name is taken has a capital letter, which the script's test misses.
duplicate_missed :
    is_present 400
      "{\"statusCode\":400,\"error\":\"Bad Request\",\"message\":\"Duplicate data view: orders\"}"
    ≡ false
duplicate_missed = refl
