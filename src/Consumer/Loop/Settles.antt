-- ===== src/Consumer/Loop/Settles.antt =====
-- What becomes of one message: when its offset is committed.
use cdc_pipeline.Base.{
  ℕ, suc, ◌-◌, ◌<◌, String, ◌≡◌, refl, sym, ap, ◌∙◌, ◌⊎◌, inl, inr, true, Option, none, some, [],
  ◌∷◌, ◌++◌, Bool-cases, arith,
}
use mathlib.Core.Path.{subst}
use cdc_pipeline.Json.{Value, null}
use cdc_pipeline.Consumer.Effects.{Result, done, throws}
use cdc_pipeline.Consumer.Loop.{
  Settings, Delivery, Consumer, accepts, is_running, read, note, retry, settle, handle_document,
  handle, dlq_envelope, route, route_to_dlq, commit_routed, unparseable_payload_routing_dlq,
  retries_exhausted_routing_dlq,
}
use cdc_pipeline.Consumer.Loop.Attempts.{retry-induction, again-Waited}

module _ {W : Type 0} (S : Settings) (m : Delivery W) where
  -- An attempt that ended so.
  abbrev pub Threw : String → Type 0
  Threw why = (n : ℕ) × (w : W) × ((m.attempt n w).0 ≡ throws why)

  -- The loop leaves the offset and the dead letters alone. If it ends in success, so did an attempt;
  -- if not, the consumer was stopped, or the error is the last attempt's.
  record Tried (left : ℕ) (last : String) (c : Consumer W) (r : Result × Consumer W) : Type 0 where
    committed : r.1.committed ≡ c.committed
    letters : r.1.letters ≡ c.letters
    success :
        r.0 ≡ done → (n : ℕ) × (w : W) × ((m.attempt n w).0 ≡ done) × ((m.attempt n w).1 ≡ r.1.sink)
    failure :
        (e : String) → r.0 ≡ throws e → (r.1.reads ≡ 0) ⊎ (((left ≡ 0) × (e ≡ last)) ⊎ Threw e)

  ends :
      (left : ℕ) (last : String) (c : Consumer W)
      → (left ≡ 0) ⊎ (c.reads ≡ 0)
      → (e : String) → throws last ≡ throws e
      → (c.reads ≡ 0) ⊎ (((left ≡ 0) × (e ≡ last)) ⊎ Threw e)
  ends left last c (inl h) e p = inr (inl (h, cc))
  ends left last c (inr h) e p = inl h

  thrown :
      (left attempt : ℕ) (last why : String) (w : W) (r : Result × Consumer W)
      → (m.attempt attempt w).0 ≡ throws why
      → (e : String) → (r.1.reads ≡ 0) ⊎ (((left ≡ 0) × (e ≡ why)) ⊎ Threw e)
      → (r.1.reads ≡ 0) ⊎ (((suc left ≡ 0) × (e ≡ last)) ⊎ Threw e)
  thrown left attempt last why w r threw e (inl h) = inl h
  thrown left attempt last why w r threw e (inr (inl (h, p))) =
      inr (inr (attempt, w, threw ∙ ap throws (sym p)))
  thrown left attempt last why w r threw e (inr (inr t)) = inr (inr t)

  retry-Tried :
      (left attempt backoff : ℕ) (last : String) (c : Consumer W)
      → Tried left last c (retry S m left attempt backoff last c)
  retry-Tried =
      retry-induction S m (λ left attempt backoff last c r. Tried left last c r)
        (λ left attempt backoff last c h. record {
          committed = refl;
          letters = refl;
          success = λ e. cc;
          failure = λ e p. ends left last c h e p;
        })
        (λ left attempt backoff last c running e. record {
          committed = refl;
          letters = refl;
          success = λ d. (attempt, c.sink, e, refl);
          failure = λ e p. cc;
        })
        (λ left attempt backoff last why c r running e ih. record {
          committed = ih.committed ∙ (again-Waited S m attempt backoff why c).committed;
          letters = ih.letters ∙ (again-Waited S m attempt backoff why c).letters;
          success = ih.success;
          failure = λ e' p. thrown left attempt last why c.sink r e e' (ih.failure e' p);
        })

  -- What became of the message: an attempt returned, and what it left in the sink is there; it is a
  -- dead letter; or another thread stopped the consumer.
  pub data Settled (c c' : Consumer W) : Type 0 where
    processed :
        (n : ℕ) (w : W)
        → (m.attempt n w).0 ≡ done
        → (m.attempt n w).1 ≡ c'.sink
        → c'.letters ≡ c.letters
        → c'.committed ≡ c.committed ++ m.offset ∷ []
        → Settled c c'
    dead_lettered :
        (error : String) (payload : Value)
        → ((m.document ≡ none) × (error ≡ "Payload deserialization failed") × (payload ≡ null))
          ⊎ ((m.document ≡ some payload) × Threw error)
        → c'.letters ≡ c.letters ++ dlq_envelope S m error payload ∷ []
        → c'.committed ≡ c.committed ++ m.offset ∷ []
        → Settled c c'
    stopped : c'.letters ≡ c.letters → c'.committed ≡ c.committed → c'.reads ≡ 0 → Settled c c'

  module _ (takes : m.producer ≡ accepts) where
    route_to_dlq_lem :
        (error : String) (payload : Value) (c : Consumer W)
        → ((commit_routed S m (route_to_dlq S m error payload c)).letters
            ≡ c.letters ++ dlq_envelope S m error payload ∷ [])
          × ((commit_routed S m (route_to_dlq S m error payload c)).committed
              ≡ c.committed ++ m.offset ∷ [])
    unfolding route_to_dlq route
    route_to_dlq_lem error payload c = rw takes (refl, refl)

    cause :
        (n : ℕ) (last : String) (d : Consumer W)
        → is_running d ≡ true
        → (d.reads ≡ 0) ⊎ (((suc n ≡ 0) × (last ≡ "")) ⊎ Threw last)
        → Threw last
    cause n last d running (inl h) = ground arith
    cause n last d running (inr (inl (h, e))) = ground arith
    cause n last d running (inr (inr t)) = t

    settle-Settled :
        (document : Value) (c : Consumer W) (r : Result × Consumer W) (n : ℕ)
        → m.document ≡ some document
        → Tried (suc n) "" c r
        → Settled c (settle S m document r)
    unfolding settle
    settle-Settled document c (done, d) n there t =
        let (k, w, ok, sink) = t.success refl in
        processed k w ok sink t.letters (ap (λ l. l ++ m.offset ∷ []) t.committed)
    settle-Settled document c (throws last, d) n there t = elim (Bool-cases (is_running d)) [
      | inl running ↦
          let d' = note (retries_exhausted_routing_dlq m.offset last) (read d) in
          let (letters, committed) = route_to_dlq_lem last document d' in
          rw running (
            dead_lettered last document (inr (there, cause n last d running (t.failure last refl)))
              (letters ∙ ap (λ l. l ++ dlq_envelope S m last document ∷ []) t.letters)
              (committed ∙ ap (λ l. l ++ m.offset ∷ []) t.committed))
      | inr halted ↦ rw halted (stopped t.letters t.committed (ground arith))
    ]

    handle_document-Settled :
        (document : Option Value) (c : Consumer W)
        → m.document ≡ document
        → 0 < S.max_retries
        → Settled c (handle_document S m document c)
    unfolding handle_document
    handle_document-Settled none c there tries =
        let d' = note (unparseable_payload_routing_dlq m.offset) c in
        let (letters, committed) = route_to_dlq_lem "Payload deserialization failed" null d' in
        dead_lettered "Payload deserialization failed" null (inl (there, refl, refl)) letters
          committed
    handle_document-Settled (some document) c there tries =
        let e : S.max_retries ≡ suc (S.max_retries - 1) = omega arith in
        let r = retry S m S.max_retries 1 S.initial_backoff_ms "" c in
        settle-Settled document c r (S.max_retries - 1) there
          (subst (λ n. Tried n "" c r) e (retry-Tried S.max_retries 1 S.initial_backoff_ms "" c))

    -- Where the dead letter producer takes letters, a message's offset is committed only after an
    -- attempt has returned, whose sink is then the consumer's, or with a dead letter that carries the
    -- error of an attempt (or the text that no document could be made of); otherwise the consumer was
    -- stopped, and neither the offset nor a letter was written.
    pub handle-Settled : (c : Consumer W) → 0 < S.max_retries → Settled c (handle S m c)
    unfolding handle
    handle-Settled c tries = handle_document-Settled m.document c refl tries
