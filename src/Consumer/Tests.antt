-- ===== src/Consumer/Tests.antt =====
-- Concrete parameters for the consumers, and the theorems at them.
mod Served
use cdc_pipeline.Base.{
  ℕ, ◌+◌, ◌≤◌, String, ◌≡◌, refl, inl, inr, true, false, none, some, [], ◌∷◌, arith, ◌==◌,
  if◌then◌else◌,
}
use cdc_pipeline.Base.Int.{ℤ, pos, leb_ℤ, ◌≤ℤ◌, ◌<ℤ◌}
use cdc_pipeline.Base.Text.{show_ℤ}
use cdc_pipeline.Base.Decimal.{stoll, stoll-show_ℤ}
use cdc_pipeline.Json.{Value, num, str, obj, end, ◌⦂◌⨾◌}
use cdc_pipeline.Json.Print.{dumps}
use cdc_pipeline.Consumer.Change.{Nlohmann}
use cdc_pipeline.Consumer.Lsn.{wrap64}
use cdc_pipeline.Consumer.Redis.{Keys, Lua, Write, run_script, run_scripts}
use cdc_pipeline.Consumer.Redis.Latest.{IsLua, Holds, run_scripts-Holds}
use cdc_pipeline.Consumer.Effects.{
  Result, done, throws, has_thrown, Link, up, silent, Sink, command,
  email_notification_skipped_duplicate,
}
use cdc_pipeline.Consumer.Updater.{order_key, script_of}
use cdc_pipeline.Consumer.Updater as Updater
use cdc_pipeline.Consumer.Updater.Once.{Fits, RunsOnce, process_record-RunsOnce}
use cdc_pipeline.Consumer.Updater.Reliable.{scripts, run_applies}
use cdc_pipeline.Consumer.Notifier as Notifier
use cdc_pipeline.Consumer.Notifier.Forgets.{notify_forgets}
use cdc_pipeline.Consumer.Notifier.Mails.{AtMostOnce, mails, run-AtMostOnce}
use cdc_pipeline.Consumer.Loop.{
  Settings, settings, Delivery, Consumer, accepts, missing, ill_formed, handle, run,
}
use cdc_pipeline.Consumer.Loop.Settles.{Settled, handle-Settled}
use cdc_pipeline.Consumer.Loop.Progress.{offsets, run_commits}
use cdc_pipeline.Consumer.Loop.Poison.{run_crashes}
use cdc_pipeline.Consumer.Loop.Backoff.{pauses, handle-pauses}
use cdc_pipeline.Consumer.Loop.Loss.{handle_loses}
use cdc_pipeline.Consumer.Inbox.{Message, delivery, polls}

-- Numbers that lose nothing.
abbrev lua : Lua
lua = record { Number = ℤ; tonumber = stoll; le = leb_ℤ }

le_of_≤ℤ : (a b : ℤ) → a ≤ℤ b → leb_ℤ a b ≡ true
le_of_≤ℤ a b h = ground arith

le_of_<ℤ : (a b : ℤ) → b <ℤ a → leb_ℤ a b ≡ false
le_of_<ℤ a b h = ground arith

abbrev lua-IsLua : IsLua lua
lua-IsLua = record {
  double = λ n. n;
  tonumber-show = stoll-show_ℤ;
  le_mono = le_of_≤ℤ;
  le_exact = λ a b e e' h. le_of_<ℤ a b h;
}

abbrev write : ℕ → String → Write
write lsn text = record { key = "order:1"; lsn = pos lsn; value = some text }

abbrev no_keys : Keys
no_keys k = none

-- LSN 7 arrives before 5, and once more after it.
run_scripts-Holds_example :
    Holds lua lua-IsLua
      (write 7 "b")
      (omega arith)
      (omega arith)
      (run_scripts lua (write 5 "a" ∷ write 7 "b" ∷ write 6 "c" ∷ write 7 "b" ∷ []) no_keys)
run_scripts-Holds_example =
    run_scripts-Holds lua lua-IsLua (write 7 "b") (omega arith) (omega arith) (write 5 "a" ∷ [])
      (write 6 "c" ∷ write 7 "b" ∷ []) no_keys (inl refl)
      (inr (refl, omega arith, omega arith, omega arith), tt)
      (inr (refl, omega arith, omega arith), (inr (refl, omega arith, omega arith), tt))

abbrev json : Nlohmann
json = record { dump = dumps; value_error = λ v k. "type must be string" }

-- The order with this status, as Debezium delivers it.
abbrev order : String → ℕ → Value
order status lsn = obj (
    "after"
    ⦂ obj ("id" ⦂ str "1" ⨾ "status" ⦂ str status ⨾ end) ⨾ "source"
    ⦂ obj ("lsn" ⦂ num lsn ⨾ end) ⨾ end)

-- In the first attempt the reply is lost after the command ran.
abbrev flaky : ℕ → Link
flaky n = if n == 1 then silent true else up

abbrev shipped : ℕ → Message Link
shipped offset = record {
  offset = offset;
  raw = "";
  key = "1";
  document = some (order "SHIPPED" (offset + 10));
  links = flaky;
  producer = accepts;
}

abbrev sink : Sink
sink = record { keys = no_keys; connected = false; log = [] }

abbrev S : Settings
S = settings "redis-updater" "cdc.public.orders"

abbrev started : ℕ → Consumer Sink
started reads = record {
  sink = sink;
  reads = reads;
  committed = [];
  letters = [];
  slept = [];
  events = [];
  crashed = none;
}

abbrev updater : Link → Value → String → Sink → Result × Sink
updater = Updater.process_record json lua

process_record-RunsOnce_example :
    RunsOnce json lua
      (script_of json lua (order "SHIPPED" 11) "1")
      sink
      (updater (silent true) (order "SHIPPED" 11) "1" sink)
process_record-RunsOnce_example =
    process_record-RunsOnce json lua (silent true) (order "SHIPPED" 11) "1" sink

handle-Settled_example :
    Settled S
      (delivery updater (shipped 1))
      (started 20)
      (handle S (delivery updater (shipped 1)) (started 20))
handle-Settled_example =
    handle-Settled S (delivery updater (shipped 1)) refl (started 20) (omega arith)

run_commits_example :
    (run S (polls updater (shipped 1 ∷ shipped 2 ∷ [])) (started 24)).committed
    ≡ offsets (polls updater (shipped 1 ∷ shipped 2 ∷ []))
run_commits_example =
    run_commits S (polls updater (shipped 1 ∷ shipped 2 ∷ [])) (started 24) (tt, (tt, tt))
      (omega arith)

-- A payload that is neither JSON nor UTF-8.
abbrev unreadable : Message Link
unreadable = record (shipped 9) {
  document = none;
  producer = ill_formed "[json.exception.type_error.316] invalid UTF-8 byte at index 0: 0xFF";
}

run_crashes_example :
    ((run S (polls updater (shipped 1 ∷ unreadable ∷ shipped 2 ∷ [])) (started 24)).crashed
      ≡ some "[json.exception.type_error.316] invalid UTF-8 byte at index 0: 0xFF")
    × ((run S (polls updater (shipped 1 ∷ unreadable ∷ shipped 2 ∷ [])) (started 24)).committed
        ≡ offsets (polls updater (shipped 1 ∷ [])))
run_crashes_example =
    run_crashes S (delivery updater unreadable)
      "[json.exception.type_error.316] invalid UTF-8 byte at index 0: 0xFF"
      (polls updater (shipped 1 ∷ [])) (polls updater (shipped 2 ∷ [])) (started 24) (tt, tt) refl
      refl (omega arith)

handle-pauses_example :
    (n : ℕ) × (n ≤ 4)
    × ((handle S (delivery updater (shipped 1)) (started 20)).slept ≡ pauses S n 0)
handle-pauses_example = handle-pauses S (delivery updater (shipped 1)) (started 20) (omega arith)

-- The four pauses of the default settings.
pauses_default : pauses S 4 0 ≡ 100 ∷ 200 ∷ 400 ∷ 800 ∷ []
unfolding pauses
pauses_default = refl

-- A message whose attempts throw, and no dead letter producer.
abbrev broken : Delivery Sink
broken = record {
  offset = 3;
  raw = "{}";
  document = some (order "PLACED" 3);
  attempt = λ n w. (throws "down", w);
  producer = missing;
}

handle_loses_example :
    ((handle S broken (started 20)).committed ≡ 3 ∷ [])
    × ((handle S broken (started 20)).letters ≡ [])
handle_loses_example = handle_loses S broken tt (started 20) (omega arith)

shipped_fit :
    Fits (script_of json lua (order "SHIPPED" 11) "1")
    × Fits (script_of json lua (order "SHIPPED" 12) "1")
unfolding script_of wrap64
shipped_fit = (omega arith, omega arith)

no_letters : (run S (polls updater (shipped 1 ∷ shipped 2 ∷ [])) (started 24)).letters ≡ []
unfolding run handle Updater.process_record command run_script stoll show_ℤ wrap64
no_letters = refl

run_applies_example :
    (run S (polls updater (shipped 1 ∷ shipped 2 ∷ [])) (started 24)).sink.keys
    ≡ run_scripts lua (scripts json lua (shipped 1 ∷ shipped 2 ∷ [])) no_keys
run_applies_example =
    run_applies json lua lua-IsLua S (shipped 1 ∷ shipped 2 ∷ []) (started 24)
      ((refl, shipped_fit.0), ((refl, shipped_fit.1), tt)) (omega arith) no_letters

no_mail_yet : AtMostOnce "1" "SHIPPED" sink
unfolding mails
no_mail_yet = record { once = omega arith; key_first = λ h. refl }

abbrev notifier : Link → Value → String → Sink → Result × Sink
notifier = Notifier.process_record json

run-AtMostOnce_example :
    AtMostOnce "1" "SHIPPED" (run S (polls notifier (shipped 1 ∷ shipped 2 ∷ [])) (started 24)).sink
run-AtMostOnce_example =
    run-AtMostOnce json "1" "SHIPPED" S (shipped 1 ∷ shipped 2 ∷ []) (started 24) no_mail_yet

notify_forgets_example :
    (let (r, w1) = Notifier.notify json (silent true) "7" "1" "SHIPPED" sink in
      let (r2, w2) = Notifier.notify json up "7" "1" "SHIPPED" w1 in
      (has_thrown r ≡ true)
      × (r2 ≡ done)
      × (w2.log ≡ email_notification_skipped_duplicate "1" "SHIPPED" ∷ []))
notify_forgets_example = notify_forgets json "1" "SHIPPED" "7" sink refl
