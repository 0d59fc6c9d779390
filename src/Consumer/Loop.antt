-- ===== src/Consumer/Loop.antt =====
-- `KafkaConsumerBase` of consumers/src/kafka_consumer_base.cpp: one message after another, with
-- retries, a dead letter queue, and a commit of the offset.
pub mod Attempts
pub mod Settles
pub mod Backoff
pub mod Progress
pub mod Once
pub mod Loss
pub mod Refines
pub mod First
pub mod Poison
use cdc_pipeline.Base.{
  ℕ, zero, suc, ◌+◌, ◌-◌, ◌*◌, ◌<◌, min, String, ◌≡◌, refl, Bool, true, false, ◌&&◌, Option, none,
  some, List, [], ◌∷◌, ◌++◌, ltb, leb, ◌==◌, if◌then◌else◌, arith,
}
use cdc_pipeline.Json.{Value, null, bool, int, tenths, str, arr, obj}
use cdc_pipeline.Consumer.Effects.{Result, done, throws, Answer, answered, failed}

-- The constructor's arguments. The pauses are an `int`, and so are their doubles.
pub record Settings : Type 0 where
  pub consumer_name : String
  pub topic : String
  pub max_retries : ℕ
  pub initial_backoff_ms : ℕ
  pub max_backoff_ms : ℕ
  pub initial_fits : initial_backoff_ms * 2 < 2147483648
  pub max_fits : max_backoff_ms * 2 < 2147483648

-- The defaults of consumers/src/kafka_consumer_base.h, which every consumer takes.
abbrev pub settings : String → String → Settings
settings name topic = record {
  consumer_name = name;
  topic = topic;
  max_retries = 5;
  initial_backoff_ms = 100;
  max_backoff_ms = 3000;
  initial_fits = omega arith;
  max_fits = omega arith;
}

-- A dead letter, without its time stamp, partition and key.
pub record Envelope : Type 0 where
  pub topic : String
  pub consumer : String
  pub original_offset : ℕ
  pub error : String
  pub payload : Value

-- Whether the dead letter producer exists, whether `dump()` of the envelope throws (where the payload or
-- the error is not UTF-8), and whether the producer takes the letter.
pub data Producer : Type 0 where
  missing : Producer
  ill_formed : String → Producer
  refuses : String → Producer
  accepts : Producer

pub data Event : Type 0 where
  record_processed : ℕ → Event
  record_processing_failed : ℕ → ℕ → String → Event
  unparseable_payload_routing_dlq : ℕ → Event
  retries_exhausted_routing_dlq : ℕ → String → Event
  dlq_producer_unavailable : Event
  dlq_produce_failed : String → Event
  routed_to_dlq : ℕ → String → Event
  kafka_consumer_warning : String → Event
  consumer_stopped : Event

-- A message as it arrives: its offset, its payload as text, the document that the deserializer makes
-- of it, what `ProcessRecord` does to the sink `W` in each attempt, and the state of the producer.
pub record Delivery (W : Type 0) : Type 0 where
  pub offset : ℕ
  pub raw : String
  pub document : Option Value
  pub attempt : ℕ → W → Result × W
  pub producer : Producer

-- The consumer. `reads` is how many more reads of `running_` come before another thread's `Stop()`, and
-- `crashed` the exception that has left `Run()`.
pub record Consumer (W : Type 0) : Type 0 where
  pub sink : W
  pub reads : ℕ
  pub committed : List ℕ
  pub letters : List Envelope
  pub slept : List ℕ
  pub events : List Event
  pub crashed : Option String

-- What `consume(1000)` returns.
pub data Poll (W : Type 0) : Type 0 where
  nothing timed_out partition_eof : Poll W
  message : Delivery W → Poll W
  other_error : String → Poll W

module _ {W : Type 0} where
  -- `running_`
  abbrev pub is_running : Consumer W → Bool
  is_running c = ltb 0 c.reads

  abbrev pub read : Consumer W → Consumer W
  read c = record c { reads = c.reads - 1 }

  abbrev pub note : Event → Consumer W → Consumer W
  note e c = record c { events = c.events ++ e ∷ [] }

  abbrev pub commit_sync : Delivery W → Consumer W → Consumer W
  commit_sync m c = record c { committed = c.committed ++ m.offset ∷ [] }

  module _ (S : Settings) where
    unfoldable pub dlq_envelope : Delivery W → String → Value → Envelope
    dlq_envelope m error null = record {
      topic = S.topic;
      consumer = S.consumer_name;
      original_offset = m.offset;
      error = error;
      payload = str m.raw;
    }
    dlq_envelope m error payload = record {
      topic = S.topic;
      consumer = S.consumer_name;
      original_offset = m.offset;
      error = error;
      payload = payload;
    }

    -- The exception of `dump()` comes before `produce`, and nothing in `RouteToDLQ` catches it.
    pub route : Producer → Delivery W → String → Value → Consumer W → Answer Bool × Consumer W
    unfolding dlq_envelope
    route missing m error payload c = (answered false, note dlq_producer_unavailable c)
    route (ill_formed why) m error payload c = (failed why, c)
    route (refuses why) m error payload c = (answered false, note (dlq_produce_failed why) c)
    route accepts m error payload c = (
      answered true,
      note (routed_to_dlq m.offset error)
          (record c { letters = c.letters ++ dlq_envelope m error payload ∷ [] }),
    )

    unfoldable pub route_to_dlq :
        Delivery W → String → Value → Consumer W → Answer Bool × Consumer W
    unfolding route
    route_to_dlq m error payload c = route m.producer m error payload c

    -- The commit that follows `RouteToDLQ`, unless its exception leaves `Run()`.
    abbrev pub commit_routed : Delivery W → Answer Bool × Consumer W → Consumer W
    commit_routed m (answered taken, c) = commit_sync m c
    commit_routed m (failed why, c) = record c { crashed = some why }

    -- The pause after a failed attempt; the next pause is twice as long, up to the limit.
    abbrev pause : ℕ → ℕ → Consumer W → ℕ × Consumer W
    pause attempt backoff c =
        if ltb attempt S.max_retries && is_running c
        then (
          min (backoff * 2) S.max_backoff_ms,
          record (read c) { slept = c.slept ++ backoff ∷ [] },
        )
        else (backoff, if ltb attempt S.max_retries then read c else c)

    -- `left` attempts of the loop are left; the result is `success`, and `last_error` if there is none.
    unfoldable pub retry : Delivery W → ℕ → ℕ → ℕ → String → Consumer W → Result × Consumer W
    retry m zero attempt backoff last c = (throws last, c)
    retry m (suc left) attempt backoff last c = elim (is_running c) [
      | false ↦ (throws last, c)
      | true ↦
          let (r, sink) = m.attempt attempt c.sink in
          elim r [
            | done ↦ (done, note (record_processed m.offset) (record (read c) { sink = sink }))
            | throws why ↦
                let (backoff', c') = pause attempt backoff (
                  note (record_processing_failed attempt m.offset why)
                    (record (read c) { sink = sink })) in
                retry m left (attempt + 1) backoff' why c'
          ]
    ]

    -- What follows the loop.
    pub settle : Delivery W → Value → Result × Consumer W → Consumer W
    settle m document (done, c) = commit_sync m c
    settle m document (throws last, c) =
        if is_running c
        then commit_routed m (
            route_to_dlq m last document
              (note (retries_exhausted_routing_dlq m.offset last) (read c)))
        else c

    pub handle_document : Delivery W → Option Value → Consumer W → Consumer W
    unfolding retry settle route_to_dlq
    handle_document m none c = commit_routed m (
        route_to_dlq m "Payload deserialization failed" null
          (note (unparseable_payload_routing_dlq m.offset) c))
    handle_document m (some document) c =
        settle m document (retry m S.max_retries 1 S.initial_backoff_ms "" c)

    unfoldable pub handle : Delivery W → Consumer W → Consumer W
    unfolding handle_document
    handle m c = handle_document m m.document c

    unfoldable pub receive : Poll W → Consumer W → Consumer W
    unfolding handle
    receive nothing c = c
    receive timed_out c = c
    receive partition_eof c = c
    receive (message m) c = handle m c
    receive (other_error why) c = note (kafka_consumer_warning why) c

    -- One poll a round while `running_` holds and no exception leaves the loop.
    unfoldable pub rounds : List (Poll W) → Consumer W → Consumer W
    unfolding receive
    rounds [] c = c
    rounds (p ∷ ps) c = elim (is_running c) [
      | true ↦ let d = receive p (read c) in elim d.crashed [ none ↦ rounds ps d | some why ↦ d ]
      | false ↦ note consumer_stopped c
    ]

    -- `Run()`. The polls are what the broker delivers until `Stop()`, or until this run of the process
    -- ends.
    unfoldable pub run : List (Poll W) → Consumer W → Consumer W
    unfolding rounds
    run ps c = rounds ps (record c { crashed = none })
