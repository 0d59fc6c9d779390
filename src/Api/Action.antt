-- ===== src/Api/Action.antt =====
-- What a handler of api/src/api_server.cpp changes, and the exceptions of the C++ code.
use cdc_pipeline.Base.{String, Bool, List, [], ◌∷◌, ◌++◌}

-- The lines that `spdlog` writes, without the times that they measure.
pub data Log : Type 0 where
  api_order_created api_db_hit api_cache_hit api_cache_miss order_created_db : String → Log
  api_order_status_updated order_status_updated_db api_redis_fallback db_update_failed :
      String → String → Log
  api_bad_request api_server_error db_insert_failed db_read_failed : String → Log

-- `connected` is false from when `context_` of the `RedisClient` is null.
pub record Service (S : Type 0) : Type 0 where
  pub database : S
  pub connected : Bool
  pub logs : List Log

-- `nlohmann::json::exception`, and any other `std::exception`, with `what()`.
pub data Exception : Type 0 where
  json_exception other_exception : String → Exception

abbrev pub what : Exception → String
what (json_exception why) = why
what (other_exception why) = why

pub data Outcome (A : Type 0) : Type 0 where
  returned : A → Outcome A
  thrown : Exception → Outcome A

abbrev pub Action : Type 0 → Type 0 → Type 0
Action S A = Service S → Outcome A × Service S

module _ {S A : Type 0} where
  abbrev pub pure : A → Action S A
  pure a w = (returned a, w)

  abbrev pub throw : Exception → Action S A
  throw e w = (thrown e, w)

  -- `try { … } catch (const std::exception& e) { … }`
  abbrev pub rescue : (Exception → Action S A) → Outcome A × Service S → Outcome A × Service S
  rescue handler (returned a, w) = (returned a, w)
  rescue handler (thrown e, w) = handler e w

abbrev pub write_log : {S : Type 0} → Log → Service S → Service S
write_log l w = record w { logs = w.logs ++ l ∷ [] }

abbrev pub log : {S : Type 0} → Log → Action S (Unit {0})
log l w = (returned tt, write_log l w)

module _ {S A B : Type 0} where
  abbrev pub continue : (A → Action S B) → Outcome A × Service S → Outcome B × Service S
  continue f (returned a, w) = f a w
  continue f (thrown e, w) = (thrown e, w)

  infixl 5 ◌>>=◌ ◌>>◌
  abbrev pub ◌>>=◌ : Action S A → (A → Action S B) → Action S B
  ◌>>=◌ m f w = continue f (m w)

  abbrev pub ◌>>◌ : Action S A → Action S B → Action S B
  m >> k = m >>= λ _. k
