-- ===== src/Consumer/Updater/Reliable.antt =====
-- The Redis updater on Kafka's messages: retries leave no trace in the keys.
use cdc_pipeline.Base.{
  ℕ, ◌*◌, ◌≤◌, ◌≡◌, refl, sym, ◌∙◌, inl, Option, none, some, List, [], ◌∷◌, length, All,
}
use cdc_pipeline.Json.{Value}
use cdc_pipeline.Consumer.Change.{Nlohmann}
use cdc_pipeline.Consumer.Redis.{Lua, Keys, Write, run_scripts}
use cdc_pipeline.Consumer.Redis.Latest.{IsLua}
use cdc_pipeline.Consumer.Effects.{Link, Sink}
use cdc_pipeline.Consumer.Updater.{script_of, process_record}
use cdc_pipeline.Consumer.Updater.Once.{
  applied, Fits, RunsOnce, run_script_twice, process_record-RunsOnce,
}
use cdc_pipeline.Consumer.Loop.Refines.{IsRepeatable, effects, run-effects}
use cdc_pipeline.Consumer.Loop.{Settings, Consumer, accepts, run}
use cdc_pipeline.Consumer.Loop.Progress.{reads_per_round}
use cdc_pipeline.Consumer.Inbox.{Message, attempt, delivery, polls}

module _ (J : Nlohmann) (L : Lua) where
  -- The script for a message, if there is one.
  abbrev pub script : Message Link → Option Value → Option Write
  script m none = none
  script m (some document) = script_of J L document m.key

  pub with_script : Option Write → List Write → List Write
  with_script none es = es
  with_script (some e) es = e ∷ es

  -- The scripts for a sequence of messages, each once.
  unfoldable pub scripts : List (Message Link) → List Write
  unfolding with_script
  scripts [] = []
  scripts (m ∷ ms) = with_script (script m m.document) (scripts ms)

  run_scripts-with_script :
      (s : Option Write) (es : List Write) (keys : Keys)
      → run_scripts L (with_script s es) keys ≡ run_scripts L es (applied L s keys)
  unfolding with_script run_scripts
  run_scripts-with_script none es keys = refl
  run_scripts-with_script (some e) es keys = refl

  applied_twice :
      (I : IsLua L) (s : Option Write) (keys : Keys)
      → Fits s
      → applied L s (applied L s keys) ≡ applied L s keys
  applied_twice I none keys fits = refl
  applied_twice I (some e) keys fits = run_script_twice L I e keys fits

  attempt-RunsOnce :
      (m : Message Link) (document : Option Value) (n : ℕ) (w : Sink)
      → RunsOnce J L (script m document) w (attempt (process_record J L) m document n w)
  attempt-RunsOnce m none n w = inl refl
  attempt-RunsOnce m (some document) n w = process_record-RunsOnce J L (m.links n) document m.key w

  effects-scripts :
      (ms : List (Message Link)) (keys : Keys)
      → effects (λ m. applied L (script m m.document)) ms keys ≡ run_scripts L (scripts ms) keys
  unfolding effects scripts run_scripts
  effects-scripts [] keys = refl
  effects-scripts (m ∷ ms) keys =
      let s = script m m.document in
      effects-scripts ms (applied L s keys) ∙ sym (run_scripts-with_script s (scripts ms) keys)

  module _ (I : IsLua L) (S : Settings) where
    -- A message that the broker delivers and that the dead letter producer takes, if need be.
    abbrev pub IsFit : Message Link → Type 0
    IsFit m = (m.producer ≡ accepts) × Fits (script m m.document)

    All-IsRepeatable :
        (ms : List (Message Link))
        → All IsFit ms
        → All
            (IsRepeatable
              (λ (w : Sink). w.keys)
              (λ m. applied L (script m m.document))
              (delivery (process_record J L)))
            ms
    All-IsRepeatable [] fit = tt
    All-IsRepeatable (m ∷ ms) fit = (
      record {
        takes = fit.0.0;
        once = attempt-RunsOnce m m.document;
        twice = λ keys. applied_twice I (script m m.document) keys fit.0.1;
      },
      All-IsRepeatable ms fit.1,
    )

    -- However often Redis loses a reply, refuses a connection or answers with an error, and however
    -- often a message is tried again: if the consumer was not stopped in between and wrote no dead
    -- letter, the keys are as if each message's script had run once, in the order of the messages.
    pub run_applies :
        (ms : List (Message Link)) (c : Consumer Sink)
        → All IsFit ms
        → length ms * reads_per_round S ≤ c.reads
        → (run S (polls (process_record J L) ms) c).letters ≡ c.letters
        → (run S (polls (process_record J L) ms) c).sink.keys
          ≡ run_scripts L (scripts ms) c.sink.keys
    run_applies ms c fit h none_lettered =
        run-effects (λ (w : Sink). w.keys) (λ m. applied L (script m m.document))
          (delivery (process_record J L)) S ms c (All-IsRepeatable ms fit) h none_lettered
        ∙ effects-scripts ms c.sink.keys
