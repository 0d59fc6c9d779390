-- ===== src/Consumer/Notifier.antt =====
-- `Notifier::ProcessRecord` of consumers/src/notifier.cpp.
pub mod Mails
pub mod Forgets
use cdc_pipeline.Base.{
  ℕ, zero, suc, String, ◌<>◌, Bool, true, false, ◌||◌, Option, none, some, str_eq, if◌then◌else◌,
}
use cdc_pipeline.Json.{Value, field?}
use cdc_pipeline.Consumer.Change.{
  Nlohmann, present, text_of, is_empty, order_source, unwrap, order_id,
}
use cdc_pipeline.Consumer.Redis.{Keys, update}
use cdc_pipeline.Consumer.Updater.{value}
use cdc_pipeline.Consumer.Effects.{
  Result, done, throws, Log, email_notification_sent, email_notification_skipped_duplicate, Link,
  Sink, write_log, Answer, answered, failed, command,
}

abbrev pub idempotency_key : String → String → String
idempotency_key id status = "email_sent:" <> (id <> (":" <> status))

-- `SET key 1 EX 86400 NX`: true for the reply "OK", false for nil, which leaves the key alone.
unfoldable pub set_nx : String → Keys → Bool × Keys
unfolding update
set_nx key keys = elim (keys key) [
  | none ↦ (true, update keys key (some "1"))
  | some v ↦ (false, keys)
]

module _ (J : Nlohmann) where
  unfoldable pub customer_id : Value → String
  unfolding field?
  customer_id data_ = elim (present (field? "user_id" data_)) [
    | some v ↦ text_of J v
    | none ↦ elim (present (field? "customer_id" data_)) [ some v ↦ text_of J v | none ↦ "guest" ]
  ]

  abbrev pub announces : String → Bool
  announces status = str_eq status "SHIPPED" || str_eq status "DELIVERED"

  -- Redis' answer decides between the mail, which is a line of the log, and a duplicate.
  dispatch : String → String → String → Answer Bool × Sink → Result × Sink
  dispatch customer id status (failed why, w) = (throws why, w)
  dispatch customer id status (answered true, w) =
      (done, write_log (email_notification_sent customer id status) w)
  dispatch customer id status (answered false, w) =
      (done, write_log (email_notification_skipped_duplicate id status) w)

  unfoldable pub notify : Link → String → String → String → Sink → Result × Sink
  unfolding dispatch
  notify link customer id status w = dispatch customer id status (
      command "Notifier failed to connect to Redis: " "Notifier Redis command failed: "
        (set_nx (idempotency_key id status)) link w)

  process_order : Link → Value → String → Sink → Result × Sink
  unfolding order_id customer_id notify
  process_order link data_ key w =
      let id = order_id J data_ key in
      if is_empty id then (done, w) else elim (value J data_ "status" "") [
        | failed why ↦ (throws why, w)
        | answered status ↦
            if announces status then notify link (customer_id data_) id status w else (done, w)
      ]

  unfoldable pub process_record : Link → Value → String → Sink → Result × Sink
  unfolding order_source unwrap process_order
  process_record link record_ key w = elim (order_source record_) [
    | some data_ ↦ process_order link (unwrap data_) key w
    | none ↦ (done, w)
  ]
