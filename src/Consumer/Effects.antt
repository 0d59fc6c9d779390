-- ===== src/Consumer/Effects.antt =====
-- What the consumers share with the outside: the log, exceptions, and a Redis that may fail.
use cdc_pipeline.Base.{ℕ, String, ◌<>◌, Bool, true, false, List, [], ◌∷◌, ◌++◌, if◌then◌else◌}
use cdc_pipeline.Base.Int.{ℤ}
use cdc_pipeline.Consumer.Redis.{Keys}

-- `ProcessRecord` returns, or throws a `std::exception` with a message.
pub data Result : Type 0 where
  done : Result
  throws : String → Result

-- The lines of the log, by their event, with the fields that tell them apart.
pub data Log : Type 0 where
  redis_updated redis_stale_event_ignored redis_deleted : String → ℤ → Log
  redis_updater_skip_no_id es_indexer_skip_no_id : Log
  email_notification_sent : String → String → String → Log
  email_notification_skipped_duplicate : String → String → Log
  es_indexed es_deleted : String → ℕ → Log

-- How the outside answers a command: with a reply; no connection can be made; no reply comes back in
-- time, after or before the command ran; or with an error reply, which leaves the keys alone.
pub data Link : Type 0 where
  up : Link
  refused : String → Link
  silent : Bool → Link
  rejected : String → Link

-- Redis, the consumer's connection to it, and the consumer's log.
pub record Sink : Type 0 where
  pub keys : Keys
  pub connected : Bool
  pub log : List Log

abbrev pub write_log : Log → Sink → Sink
write_log l w = record w { log = w.log ++ l ∷ [] }

-- The reply of a command, or the exception of the code around it.
pub data Answer (A : Type 0) : Type 0 where
  answered : A → Answer A
  failed : String → Answer A

abbrev pub has_failed : {A : Type 0} → Answer A → Bool
has_failed (answered a) = false
has_failed (failed why) = true

abbrev pub has_thrown : Result → Bool
has_thrown done = false
has_thrown (throws why) = true

module _ {A : Type 0} (connect_prefix command_prefix : String) (script : Keys → A × Keys) where
  answer : Sink → Answer A × Sink
  answer w =
      let (r, keys) = script w.keys in (answered r, record w { keys = keys; connected = true })

  -- `EnsureConnected()` and one command. The connection is made anew where there is none, or where
  -- the last command got no reply.
  unfoldable pub command : Link → Sink → Answer A × Sink
  unfolding answer
  command up w = answer w
  command (refused why) w = if w.connected then answer w else (failed (connect_prefix <> why), w)
  command (silent ran) w =
      let (r, keys) = script w.keys in
      (
        failed (command_prefix <> "Null reply / connection error"),
        record w { keys = if ran then keys else w.keys; connected = false },
      )
  command (rejected why) w = (failed (command_prefix <> why), record w { connected = true })
