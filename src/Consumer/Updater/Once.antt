-- ===== src/Consumer/Updater/Once.antt =====
-- Retries of `RedisUpdater::ProcessRecord`: the script of a record takes effect once.
use cdc_pipeline.Base.{
  ℕ, zero, suc, String, ◌≡◌, refl, ap, ◌∙◌, ◌⊎◌, inl, inr, true, Option, none, some, arith,
  Bool-cases,
}
use cdc_pipeline.Base.Int.{ℤ}
use cdc_pipeline.Base.Text.{show_ℤ}
use cdc_pipeline.Base.Decimal.{IsInt64}
use cdc_pipeline.Json.{Value}
use cdc_pipeline.Consumer.Change.{Nlohmann, Change, upsert, remove, skip_no_id, ignore, change}
use cdc_pipeline.Consumer.Lsn.{extract_lsn}
use cdc_pipeline.Consumer.Redis.{Lua, Keys, Write, is_stale, run_script}
use cdc_pipeline.Consumer.Redis.Latest.{IsLua, run_script_stale, run_script_fresh, is_stale_of_le}
use cdc_pipeline.Consumer.Effects.{
  Result, Link, Sink, Answer, answered, failed, command, has_failed, has_thrown,
}
use cdc_pipeline.Consumer.Updater.{
  write_of, script_for, script_of, report_upsert, report_delete, perform, connect_prefix,
  process_record,
}

-- The keys after the script of a record, if it has one.
abbrev pub applied : Lua → Option Write → Keys → Keys
applied L none keys = keys
applied L (some e) keys = (run_script L e keys).1

abbrev pub Fits : Option Write → Type 0
Fits none = Unit
Fits (some e) = IsInt64 e.lsn

-- A script that is run again changes nothing.
pub run_script_twice :
    (L : Lua) (I : IsLua L) (e : Write) (keys : Keys)
    → IsInt64 e.lsn
    → (run_script L e (run_script L e keys).1).1 ≡ (run_script L e keys).1
run_script_twice L I e keys fits = elim (Bool-cases (is_stale L keys e.key (show_ℤ e.lsn))) [
  | inl stale ↦
      rw (run_script_stale L e keys stale) (ap (λ r. r.1) (run_script_stale L e keys stale))
  | inr fresh ↦
      ap (λ r. r.1)
        (run_script_stale L e (run_script L e keys).1 (
          is_stale_of_le L I (run_script L e keys).1 e.key e.lsn e.lsn fits fits
            (run_script_fresh L e keys fresh).1 (omega arith)))
]

-- A command runs its script once or not at all, and once if it is answered.
module _ {A : Type 0} (p q : String) (script : Keys → A × Keys) where
  command_keys :
      (link : Link) (w : Sink)
      → ((command p q script link w).1.keys ≡ (script w.keys).1)
        ⊎ (((command p q script link w).1.keys ≡ w.keys)
            × (has_failed (command p q script link w).0 ≡ true))
  unfolding command
  command_keys link w = ground arith

module _ (J : Nlohmann) (L : Lua) where
  -- Ran, or failed and left the keys alone.
  abbrev pub RunsOnce : Option Write → Sink → Result × Sink → Type 0
  RunsOnce s w r = (r.1.keys ≡ applied L s w.keys) ⊎ ((r.1.keys ≡ w.keys) × (has_thrown r.0 ≡ true))

  report_upsert-keys :
      (id : String) (data_ : Value) (lsn : ℤ) (r : Answer ℕ × Sink)
      → ((report_upsert J L id data_ lsn r).1.keys ≡ r.1.keys)
        × (has_failed r.0 ≡ true → has_thrown (report_upsert J L id data_ lsn r).0 ≡ true)
  unfolding report_upsert
  report_upsert-keys id data_ lsn (failed why, w) = (refl, λ h. refl)
  report_upsert-keys id data_ lsn (answered zero, w) = (refl, λ h. cc)
  report_upsert-keys id data_ lsn (answered (suc n), w) = ground arith

  report_delete-keys :
      (id : String) (lsn : ℤ) (r : Answer ℕ × Sink)
      → ((report_delete J L id lsn r).1.keys ≡ r.1.keys)
        × (has_failed r.0 ≡ true → has_thrown (report_delete J L id lsn r).0 ≡ true)
  unfolding report_delete
  report_delete-keys id lsn (failed why, w) = (refl, λ h. refl)
  report_delete-keys id lsn (answered n, w) = (refl, λ h. cc)

  carry :
      (e : Write) (w : Sink) (r : Answer ℕ × Sink) (t : Result × Sink)
      → (r.1.keys ≡ (run_script L e w.keys).1) ⊎ ((r.1.keys ≡ w.keys) × (has_failed r.0 ≡ true))
      → (t.1.keys ≡ r.1.keys) × (has_failed r.0 ≡ true → has_thrown t.0 ≡ true)
      → RunsOnce (some e) w t
  carry e w r t (inl ran) (same, thrown) = inl (same ∙ ran)
  carry e w r t (inr (kept, fails)) (same, thrown) = inr (same ∙ kept, thrown fails)

  perform-RunsOnce :
      (link : Link) (lsn : ℤ) (c : Change) (w : Sink)
      → RunsOnce (script_for J L lsn c) w (perform J L link lsn c w)
  unfolding perform
  perform-RunsOnce link lsn (upsert id data_) w =
      let e = write_of J L id lsn (some data_) in
      let r = command (connect_prefix J L) "Redis upsert failed: " (run_script L e) link w in
      carry e w r (report_upsert J L id data_ lsn r)
        (command_keys (connect_prefix J L) "Redis upsert failed: " (run_script L e) link w)
        (report_upsert-keys id data_ lsn r)
  perform-RunsOnce link lsn (remove id) w =
      let e = write_of J L id lsn none in
      let r = command (connect_prefix J L) "Redis delete failed: " (run_script L e) link w in
      carry e w r (report_delete J L id lsn r)
        (command_keys (connect_prefix J L) "Redis delete failed: " (run_script L e) link w)
        (report_delete-keys id lsn r)
  perform-RunsOnce link lsn skip_no_id w = inl refl
  perform-RunsOnce link lsn ignore w = inl refl

  -- A call of `ProcessRecord` has run the record's script if it returns; if it throws, it has run it
  -- or has left the keys alone.
  pub process_record-RunsOnce :
      (link : Link) (record_ : Value) (key : String) (w : Sink)
      → RunsOnce (script_of J L record_ key) w (process_record J L link record_ key w)
  unfolding process_record script_of
  process_record-RunsOnce link record_ key w =
      perform-RunsOnce link (extract_lsn record_) (change J record_ key) w
