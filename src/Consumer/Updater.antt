-- ===== src/Consumer/Updater.antt =====
-- `RedisUpdater::ProcessRecord` of consumers/src/redis_updater.cpp.
pub mod Once
pub mod Reliable
use cdc_pipeline.Base.{
  ℕ, zero, suc, String, ◌<>◌, Bool, true, false, Option, none, some, if◌then◌else◌,
}
use cdc_pipeline.Base.Int.{ℤ}
use cdc_pipeline.Base.Text.{show_ℤ}
use cdc_pipeline.Json.{Value, null, bool, int, tenths, str, arr, obj, Fields, find_field}
use cdc_pipeline.Consumer.Change.{Nlohmann, Change, upsert, remove, skip_no_id, ignore, change}
use cdc_pipeline.Consumer.Lsn.{extract_lsn}
use cdc_pipeline.Consumer.Redis.{Lua, Keys, Write, run_script}
use cdc_pipeline.Consumer.Effects.{
  Result, done, throws, Log, redis_updated, redis_stale_event_ignored, redis_deleted,
  redis_updater_skip_no_id, Link, Sink, write_log, Answer, answered, failed, command,
}

-- `v.value(k, default)` of nlohmann throws where `v` is no object, or has a `k` that is no text.
abbrev pub value : Nlohmann → Value → String → String → Answer String
value J (obj fs) k default = elim (find_field k fs) [
  | none ↦ answered default
  | some v ↦ elim v [ str s ↦ answered s | _ ↦ failed (J.value_error (obj fs) k) ]
]
value J v k default = failed (J.value_error v k)

abbrev pub order_key : String → String
order_key id = "order:" <> id

module _ (J : Nlohmann) (L : Lua) where
  abbrev pub write_of : String → ℤ → Option Value → Write
  write_of id lsn none = record { key = order_key id; lsn = lsn; value = none }
  write_of id lsn (some data_) = record {
    key = order_key id;
    lsn = lsn;
    value = some (J.dump data_);
  }

  abbrev pub script_for : ℤ → Change → Option Write
  script_for lsn (upsert id data_) = some (write_of id lsn (some data_))
  script_for lsn (remove id) = some (write_of id lsn none)
  script_for lsn skip_no_id = none
  script_for lsn ignore = none

  -- The script that the consumer runs for a record, if it runs one.
  unfoldable pub script_of : Value → String → Option Write
  unfolding change extract_lsn
  script_of record_ key = script_for (extract_lsn record_) (change J record_ key)

  -- What follows an upsert that Redis has answered.
  pub report_upsert : String → Value → ℤ → Answer ℕ × Sink → Result × Sink
  report_upsert id data_ lsn (failed why, w) = (throws why, w)
  report_upsert id data_ lsn (answered zero, w) =
      (done, write_log (redis_stale_event_ignored id lsn) w)
  report_upsert id data_ lsn (answered (suc n), w) = elim (value J data_ "status" "UNKNOWN") [
    | answered status ↦ (done, write_log (redis_updated id lsn) w)
    | failed why ↦ (throws why, w)
  ]

  -- The reply of a delete is not looked at.
  pub report_delete : String → ℤ → Answer ℕ × Sink → Result × Sink
  report_delete id lsn (failed why, w) = (throws why, w)
  report_delete id lsn (answered n, w) = (done, write_log (redis_deleted id lsn) w)

  abbrev pub connect_prefix : String
  connect_prefix = "RedisUpdater failed to connect to Redis: "

  pub perform : Link → ℤ → Change → Sink → Result × Sink
  unfolding report_upsert report_delete
  perform link lsn (upsert id data_) w = report_upsert id data_ lsn (
      command connect_prefix "Redis upsert failed: " (run_script L (write_of id lsn (some data_)))
        link w)
  perform link lsn (remove id) w =
      report_delete id lsn (
        command connect_prefix "Redis delete failed: " (run_script L (write_of id lsn none)) link w)
  perform link lsn skip_no_id w = (done, write_log redis_updater_skip_no_id w)
  perform link lsn ignore w = (done, w)

  unfoldable pub process_record : Link → Value → String → Sink → Result × Sink
  unfolding perform extract_lsn change
  process_record link record_ key w = perform link (extract_lsn record_) (change J record_ key) w
