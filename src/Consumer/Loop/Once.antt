-- ===== src/Consumer/Loop/Once.antt =====
-- Effects that happen once although a message is tried again, and invariants of the sink.
use cdc_pipeline.Base.{
  ℕ, ◌*◌, ◌<◌, String, ◌≡◌, refl, sym, ap, ◌∙◌, ◌⊎◌, inl, inr, true, Option, none, some, List, [],
  ◌∷◌, ◌++◌, Bool-cases, arith,
}
use mathlib.Core.Path.{subst}
use mathlib.Core.List.{append-nil}
use cdc_pipeline.Json.{Value, null}
use cdc_pipeline.Consumer.Effects.{Result, done, throws, has_thrown}
use cdc_pipeline.Consumer.Loop.{
  Settings, Envelope, Delivery, Consumer, accepts, is_running, read, note, retry, settle,
  handle_document, handle, dlq_envelope, route, route_to_dlq, commit_routed,
  unparseable_payload_routing_dlq, retries_exhausted_routing_dlq,
}
use cdc_pipeline.Consumer.Loop.Attempts.{retry-induction, again-Waited}
use cdc_pipeline.Consumer.Loop.Progress.{Used, retry-Used}

module _ {W : Type 0} (S : Settings) (m : Delivery W) where
  module _ (Before After : W → Type 0)
      (first : (n : ℕ) (w : W)
        → Before w
        → After (m.attempt n w).1
          ⊎ (Before (m.attempt n w).1 × (has_thrown (m.attempt n w).0 ≡ true)))
      (later : (n : ℕ) (w : W) → After w → After (m.attempt n w).1) where
    attempt-Once :
        (n : ℕ) (w : W)
        → After w ⊎ Before w
        → After (m.attempt n w).1
          ⊎ (Before (m.attempt n w).1 × (has_thrown (m.attempt n w).0 ≡ true))
    attempt-Once n w (inl a) = inl (later n w a)
    attempt-Once n w (inr b) = first n w b

    forget : (w : W) {P : Type 0} → After w ⊎ (Before w × P) → After w ⊎ Before w
    forget w (inl a) = inl a
    forget w (inr (b, p)) = inr b

    -- Where an attempt has the effect, or has none and throws, and trying again after the effect has
    -- no other, the loop has had the effect if it ends in success.
    retry-Once :
        (left attempt backoff : ℕ) (last : String) (c : Consumer W)
        → After c.sink ⊎ Before c.sink
        → (let r = retry S m left attempt backoff last c in
            After r.1.sink ⊎ (Before r.1.sink × (has_thrown r.0 ≡ true)))
    retry-Once =
        retry-induction S m
          (λ left attempt backoff last c r.
            After c.sink ⊎ Before c.sink
            → After r.1.sink ⊎ (Before r.1.sink × (has_thrown r.0 ≡ true)))
          (λ left attempt backoff last c h s. elim s [ inl a ↦ inl a | inr b ↦ inr (b, refl) ])
          (λ left attempt backoff last c running e s.
            subst
              (λ t.
                After (m.attempt attempt c.sink).1
                ⊎ (Before (m.attempt attempt c.sink).1 × (has_thrown t ≡ true)))
              e (attempt-Once attempt c.sink s))
          (λ left attempt backoff last why c r running e ih s. ih (
            subst (λ w. After w ⊎ Before w) (sym (again-Waited S m attempt backoff why c).sink)
              (forget (m.attempt attempt c.sink).1 (attempt-Once attempt c.sink s))))

    module _ (takes : m.producer ≡ accepts) where
      -- A dead letter, or the effect.
      abbrev Done : Consumer W → Consumer W → Type 0
      Done c c' = (l : List Envelope) × (c'.letters ≡ c.letters ++ l) × (l ≡ [] → After c'.sink)

      route_to_dlq-Done :
          (error : String) (payload : Value) (c d : Consumer W)
          → d.letters ≡ c.letters
          → Done c (commit_routed S m (route_to_dlq S m error payload d))
      unfolding route_to_dlq route
      route_to_dlq-Done error payload c d same = rw takes (
        dlq_envelope S m error payload ∷ [],
        ap (λ l. l ++ dlq_envelope S m error payload ∷ []) same,
        λ h. cc,
      )

      settle-Done :
          (document : Value) (left : ℕ) (c : Consumer W) (r : Result × Consumer W)
          → Used S m left c r
          → left * 2 < c.reads
          → After r.1.sink ⊎ (Before r.1.sink × (has_thrown r.0 ≡ true))
          → Done c (settle S m document r)
      unfolding settle
      settle-Done document left c (done, d) used h (inl a) =
          ([], used.letters ∙ sym (append-nil c.letters), λ e. a)
      settle-Done document left c (done, d) used h (inr (b, e)) =
          ([], used.letters ∙ sym (append-nil c.letters), λ e'. cc)
      settle-Done document left c (throws last, d) used h a =
          let running : is_running d ≡ true = ground (arith, used.reads) in
          rw running (
            route_to_dlq-Done last document c
              (note (retries_exhausted_routing_dlq m.offset last) (read d)) used.letters)

      handle_document-Done :
          (document : Option Value) (c : Consumer W)
          → S.max_retries * 2 < c.reads
          → Before c.sink
          → Done c (handle_document S m document c)
      unfolding handle_document
      handle_document-Done none c h b =
          route_to_dlq-Done "Payload deserialization failed" null c
            (note (unparseable_payload_routing_dlq m.offset) c) refl
      handle_document-Done (some document) c h b =
          settle-Done document S.max_retries c (retry S m S.max_retries 1 S.initial_backoff_ms "" c)
            (retry-Used S m S.max_retries 1 S.initial_backoff_ms "" c) h
            (retry-Once S.max_retries 1 S.initial_backoff_ms "" c (inr b))

      pub handle-Done :
          (c : Consumer W) → S.max_retries * 2 < c.reads → Before c.sink → Done c (handle S m c)
      unfolding handle
      handle-Done c h b = handle_document-Done m.document c h b

  -- What every attempt keeps, the handling of a message keeps.
  module _ (P : W → Type 0) (keep : (n : ℕ) (w : W) → P w → P (m.attempt n w).1) where
    retry-keeps :
        (left attempt backoff : ℕ) (last : String) (c : Consumer W)
        → P c.sink
        → P (retry S m left attempt backoff last c).1.sink
    retry-keeps =
        retry-induction S m (λ left attempt backoff last c r. P c.sink → P r.1.sink)
          (λ left attempt backoff last c h p. p)
          (λ left attempt backoff last c running e p. keep attempt c.sink p)
          (λ left attempt backoff last why c r running e ih p.
            ih
              (subst P (sym (again-Waited S m attempt backoff why c).sink) (keep attempt c.sink p)))

    route_to_dlq-sink :
        (error : String) (payload : Value) (c : Consumer W)
        → (commit_routed S m (route_to_dlq S m error payload c)).sink ≡ c.sink
    unfolding route_to_dlq route
    route_to_dlq-sink error payload c = ground arith

    settle-keeps :
        (document : Value) (r : Result × Consumer W) → P r.1.sink → P (settle S m document r).sink
    unfolding settle
    settle-keeps document (done, c) p = p
    settle-keeps document (throws last, c) p = elim (Bool-cases (is_running c)) [
      | inl running ↦ rw running (
          subst P
            (sym (
              route_to_dlq-sink last document
                (note (retries_exhausted_routing_dlq m.offset last) (read c))))
            p)
      | inr halted ↦ rw halted p
    ]

    handle_document-keeps :
        (document : Option Value) (c : Consumer W)
        → P c.sink
        → P (handle_document S m document c).sink
    unfolding handle_document
    handle_document-keeps none c p =
        subst P
          (sym (
            route_to_dlq-sink "Payload deserialization failed" null
              (note (unparseable_payload_routing_dlq m.offset) c)))
          p
    handle_document-keeps (some document) c p =
        settle-keeps document (retry S m S.max_retries 1 S.initial_backoff_ms "" c)
          (retry-keeps S.max_retries 1 S.initial_backoff_ms "" c p)

    pub handle-keeps : (c : Consumer W) → P c.sink → P (handle S m c).sink
    unfolding handle
    handle-keeps c p = handle_document-keeps m.document c p
