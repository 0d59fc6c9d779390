-- ===== src/Consumer/Loop/Attempts.antt =====
-- The retry loop of `KafkaConsumerBase::Run`, step by step, and what every round of it keeps.
use cdc_pipeline.Base.{
  ℕ, zero, suc, ◌+◌, ◌<◌, ◌≤◌, ◌≤◌, String, ◌≡◌, refl, sym, ◌⊎◌, inl, inr, true, false, ltb→lt,
  Bool-cases, arith,
}
use mathlib.Core.Path.{subst}
use cdc_pipeline.Consumer.Effects.{Result, done, throws}
use cdc_pipeline.Consumer.Loop.{
  Settings, Delivery, Consumer, Event, record_processed, record_processing_failed, is_running, read,
  note, pause, retry,
}

pub Result-cases : (r : Result) → (r ≡ done) ⊎ ((why : String) × (r ≡ throws why))
Result-cases done = inl refl
Result-cases (throws why) = inr (why, refl)

module _ {W : Type 0} where
  -- The consumer after an attempt.
  abbrev pub tried : Event → W → Consumer W → Consumer W
  tried e w c = note e (record (read c) { sink = w })

  module _ (S : Settings) (m : Delivery W) (attempt backoff : ℕ) (last : String)
      (c : Consumer W) where
    pub retry_stopped :
        (left : ℕ) → is_running c ≡ false → retry S m left attempt backoff last c ≡ (throws last, c)
    unfolding retry
    retry_stopped zero h = refl
    retry_stopped (suc left) h = rw (h, retry) refl

    pub retry_done :
        (left : ℕ)
        → is_running c ≡ true
        → (m.attempt attempt c.sink).0 ≡ done
        → retry S m (suc left) attempt backoff last c
          ≡ (done, tried (record_processed m.offset) (m.attempt attempt c.sink).1 c)
    unfolding retry
    retry_done left h e = rw (h, retry) (rw (e, retry) refl)

    pub retry_throws :
        (left : ℕ) (why : String)
        → is_running c ≡ true
        → (m.attempt attempt c.sink).0 ≡ throws why
        → retry S m (suc left) attempt backoff last c ≡ (
            let (backoff', c') = pause S attempt backoff (
              tried
                (record_processing_failed attempt m.offset why)
                (m.attempt attempt c.sink).1
                c) in
            retry S m left (attempt + 1) backoff' why c')
    unfolding retry
    retry_throws left why h e = rw (h, retry) (rw (e, retry) refl)

  module _ (S : Settings) (m : Delivery W) where
    -- The next round, after a failure.
    abbrev pub again : ℕ → ℕ → String → Consumer W → ℕ × Consumer W
    again attempt backoff why c =
        pause S attempt backoff
          (tried (record_processing_failed attempt m.offset why) (m.attempt attempt c.sink).1 c)

    -- To show a property of the loop's result, show it where the loop ends and after a success, and
    -- carry it over a failure.
    pub retry-induction {ℓ} :
        (P : ℕ → ℕ → ℕ → String → Consumer W → Result × Consumer W → Type ℓ)
        → ((left attempt backoff : ℕ) (last : String) (c : Consumer W)
            → (left ≡ 0) ⊎ (c.reads ≡ 0)
            → P left attempt backoff last c (throws last, c))
        → ((left attempt backoff : ℕ) (last : String) (c : Consumer W)
            → 0 < c.reads
            → (m.attempt attempt c.sink).0 ≡ done
            → P
                (suc left)
                attempt
                backoff
                last
                c
                (done, tried (record_processed m.offset) (m.attempt attempt c.sink).1 c))
        → ((left attempt backoff : ℕ) (last why : String) (c : Consumer W) (r : Result × Consumer W)
            → 0 < c.reads
            → (m.attempt attempt c.sink).0 ≡ throws why
            → P left
                (attempt + 1)
                (again attempt backoff why c).0
                why
                (again attempt backoff why c).1
                r
            → P (suc left) attempt backoff last c r)
        → (left attempt backoff : ℕ) (last : String) (c : Consumer W)
        → P left attempt backoff last c (retry S m left attempt backoff last c)
    retry-induction P ends succeeds fails zero attempt backoff last c =
        unfold retry in ends zero attempt backoff last c (inl refl)
    retry-induction P ends succeeds fails (suc left) attempt backoff last c =
        elim (Bool-cases (is_running c)) [
          | inl running ↦ elim (Result-cases (m.attempt attempt c.sink).0) [
            | inl e ↦
                subst (P (suc left) attempt backoff last c)
                  (sym (retry_done S m attempt backoff last c left running e))
                  (succeeds left attempt backoff last c (ltb→lt 0 c.reads running) e)
            | inr (why, e) ↦
                subst (P (suc left) attempt backoff last c)
                  (sym (retry_throws S m attempt backoff last c left why running e))
                  (fails left attempt backoff last why c
                    (retry S m left (attempt + 1) (again attempt backoff why c).0 why
                      (again attempt backoff why c).1)
                    (ltb→lt 0 c.reads running) e
                    (retry-induction P ends succeeds fails left (attempt + 1)
                      (again attempt backoff why c).0 why (again attempt backoff why c).1))
          ]
          | inr stopped ↦
              subst (P (suc left) attempt backoff last c)
                (sym (retry_stopped S m attempt backoff last c (suc left) stopped))
                (ends (suc left) attempt backoff last c (inr (ground arith)))
        ]

    -- Between two rounds the consumer only waits.
    pub record Waited (attempt backoff : ℕ) (why : String) (c : Consumer W) : Type 0 where
      pub committed : (again attempt backoff why c).1.committed ≡ c.committed
      pub letters : (again attempt backoff why c).1.letters ≡ c.letters
      pub sink : (again attempt backoff why c).1.sink ≡ (m.attempt attempt c.sink).1
      pub reads : c.reads ≤ (again attempt backoff why c).1.reads + 2
      pub crashed : (again attempt backoff why c).1.crashed ≡ c.crashed
      pub fewer : (again attempt backoff why c).1.reads ≤ c.reads

    pub again-Waited :
        (attempt backoff : ℕ) (why : String) (c : Consumer W) → Waited attempt backoff why c
    again-Waited attempt backoff why c = record {
      committed = ground arith;
      letters = ground arith;
      sink = ground arith;
      reads = ground arith;
      crashed = ground arith;
      fewer = ground arith;
    }
