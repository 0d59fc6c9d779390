-- ===== src/Consumer/Loop/Progress.antt =====
-- No message holds up the ones behind it: while the consumer runs, every offset is committed.
use cdc_pipeline.Base.{
  ℕ, ◌+◌, ◌*◌, ◌<◌, ◌≤◌, String, ◌≡◌, refl, sym, ap, ◌∙◌, true, Option, none, some, List, [], ◌∷◌,
  ◌++◌, length, All, arith,
}
use mathlib.Core.List.{append_assoc, append-nil}
use cdc_pipeline.Json.{Value, null}
use cdc_pipeline.Consumer.Effects.{Result, done, throws}
use cdc_pipeline.Consumer.Loop.{
  Settings, Delivery, Consumer, Producer, missing, ill_formed, refuses, accepts, commit_routed,
  rounds, is_running, read, note, retry, settle, handle_document, handle, route, route_to_dlq,
  unparseable_payload_routing_dlq, retries_exhausted_routing_dlq, Poll, nothing, timed_out,
  partition_eof, message, other_error, receive, run,
}
use cdc_pipeline.Consumer.Loop.Attempts.{retry-induction, again-Waited}

-- The offsets of the messages, in their order.
pub offset_of : {W : Type 0} → Poll W → List ℕ
offset_of (message m) = m.offset ∷ []
offset_of nothing = []
offset_of timed_out = []
offset_of partition_eof = []
offset_of (other_error why) = []

unfoldable pub offsets : {W : Type 0} → List (Poll W) → List ℕ
unfolding offset_of
offsets [] = []
offsets (p ∷ ps) = offset_of p ++ offsets ps

-- The producer is missing, or can print the letter: `dump()` of it does not throw.
abbrev pub Prints : Producer → Type 0
Prints (ill_formed why) = ⊥
Prints p = Unit {0}

abbrev pub PollPrints : {W : Type 0} → Poll W → Type 0
PollPrints (message m) = Prints m.producer
PollPrints p = Unit {0}

-- A round of the consumer takes at most so many reads of `running_`.
abbrev pub reads_per_round : Settings → ℕ
reads_per_round S = S.max_retries * 2 + 2

module _ {W : Type 0} (S : Settings) where
  module _ (m : Delivery W) where
    -- The loop reads `running_` at most twice a round.
    pub record Used (left : ℕ) (c : Consumer W) (r : Result × Consumer W) : Type 0 where
      pub reads : c.reads ≤ r.1.reads + left * 2
      pub committed : r.1.committed ≡ c.committed
      pub letters : r.1.letters ≡ c.letters
      pub crashed : r.1.crashed ≡ c.crashed

    pub retry-Used :
        (left attempt backoff : ℕ) (last : String) (c : Consumer W)
        → Used left c (retry S m left attempt backoff last c)
    retry-Used =
        retry-induction S m (λ left attempt backoff last c r. Used left c r)
          (λ left attempt backoff last c h. record {
            reads = omega arith;
            committed = refl;
            letters = refl;
            crashed = refl;
          })
          (λ left attempt backoff last c running e. record {
            reads = omega arith;
            committed = refl;
            letters = refl;
            crashed = refl;
          })
          (λ left attempt backoff last why c r running e ih.
            let waited = again-Waited S m attempt backoff why c in
            record {
              reads = omega (arith, waited.reads, ih.reads);
              committed = ih.committed ∙ waited.committed;
              letters = ih.letters ∙ waited.letters;
              crashed = ih.crashed ∙ waited.crashed;
            })

    -- What a message that is committed leaves.
    abbrev pub Committed : Consumer W → Consumer W → Type 0
    Committed c d =
        (d.committed ≡ c.committed ++ m.offset ∷ []) × (d.reads ≡ c.reads) × (d.crashed ≡ c.crashed)

    route_commits :
        (p : Producer) (error : String) (payload : Value) (c : Consumer W)
        → Prints p
        → Committed c (commit_routed S m (route S p m error payload c))
    unfolding route
    route_commits missing error payload c prints = (refl, refl, refl)
    route_commits (ill_formed why) error payload c prints = elim prints [ ]
    route_commits (refuses why) error payload c prints = (refl, refl, refl)
    route_commits accepts error payload c prints = (refl, refl, refl)

    route_to_dlq_commits :
        (error : String) (payload : Value) (c : Consumer W)
        → Prints m.producer
        → Committed c (commit_routed S m (route_to_dlq S m error payload c))
    unfolding route_to_dlq
    route_to_dlq_commits error payload c prints = route_commits m.producer error payload c prints

    -- Its offset is committed, within so many reads, and nothing is thrown.
    abbrev pub Goes : ℕ → Consumer W → Consumer W → Type 0
    Goes n c d =
        (d.committed ≡ c.committed ++ m.offset ∷ [])
        × (c.reads ≤ d.reads + n)
        × (d.crashed ≡ c.crashed)

    settle_commits :
        (document : Value) (left : ℕ) (c : Consumer W) (r : Result × Consumer W)
        → Prints m.producer
        → Used left c r
        → left * 2 < c.reads
        → Goes (left * 2 + 1) c (settle S m document r)
    unfolding settle
    settle_commits document left c (done, d) prints used h =
        (ap (λ l. l ++ m.offset ∷ []) used.committed, omega (arith, used.reads), used.crashed)
    settle_commits document left c (throws last, d) prints used h =
        let running : is_running d ≡ true = ground (arith, used.reads) in
        let d' = note (retries_exhausted_routing_dlq m.offset last) (read d) in
        let (committed, reads, crashed) = route_to_dlq_commits last document d' prints in
        rw running (
          committed ∙ ap (λ l. l ++ m.offset ∷ []) used.committed,
          omega (arith, used.reads, reads),
          crashed ∙ used.crashed,
        )

    handle_document_commits :
        (document : Option Value) (c : Consumer W)
        → Prints m.producer
        → S.max_retries * 2 < c.reads
        → Goes (S.max_retries * 2 + 1) c (handle_document S m document c)
    unfolding handle_document
    handle_document_commits none c prints h =
        let d' = note (unparseable_payload_routing_dlq m.offset) c in
        let (committed, reads, crashed) =
          route_to_dlq_commits "Payload deserialization failed" null d' prints in
        (committed, omega (arith, reads), crashed)
    handle_document_commits (some document) c prints h =
        settle_commits document S.max_retries c
          (retry S m S.max_retries 1 S.initial_backoff_ms "" c) prints
          (retry-Used S.max_retries 1 S.initial_backoff_ms "" c) h

    pub handle_commits :
        (c : Consumer W)
        → Prints m.producer
        → S.max_retries * 2 < c.reads
        → Goes (S.max_retries * 2 + 1) c (handle S m c)
    unfolding handle
    handle_commits c prints h = handle_document_commits m.document c prints h

  receive_commits :
      (p : Poll W) (c : Consumer W)
      → PollPrints p
      → S.max_retries * 2 < c.reads
      → ((receive S p c).committed ≡ c.committed ++ offset_of p)
        × (c.reads ≤ (receive S p c).reads + (S.max_retries * 2 + 1))
        × ((receive S p c).crashed ≡ c.crashed)
  unfolding receive offset_of
  receive_commits (message m) c prints h = handle_commits m c prints h
  receive_commits nothing c prints h = (sym (append-nil c.committed), omega arith, refl)
  receive_commits timed_out c prints h = (sym (append-nil c.committed), omega arith, refl)
  receive_commits partition_eof c prints h = (sym (append-nil c.committed), omega arith, refl)
  receive_commits (other_error why) c prints h = (sym (append-nil c.committed), omega arith, refl)

  -- The rounds for some polls that go well come before those for the rest.
  pub rounds_go_on :
      (ps qs : List (Poll W)) (c : Consumer W)
      → c.crashed ≡ none
      → All PollPrints ps
      → length ps * reads_per_round S ≤ c.reads
      → (d : Consumer W) × (rounds S (ps ++ qs) c ≡ rounds S qs d)
        × (d.committed ≡ c.committed ++ offsets ps)
        × (c.reads ≤ d.reads + length ps * reads_per_round S)
        × (d.crashed ≡ none)
  unfolding rounds offsets
  rounds_go_on [] qs c fine prints h = (c, refl, sym (append-nil c.committed), omega arith, fine)
  rounds_go_on (p ∷ ps) qs c fine prints h =
      let (committed, reads, crashed) = receive_commits p (read c) prints.0 (omega arith) in
      let running : is_running c ≡ true = ground arith in
      let c1 = receive S p (read c) in
      let (d, same, commits, left, quiet) =
        rounds_go_on ps qs c1 (crashed ∙ fine) prints.1 (omega (arith, reads)) in
      (
        d,
        rw (running, rounds) (rw (crashed ∙ fine) same),
        commits
            ∙ (ap (λ l. l ++ offsets ps) committed
                ∙ append_assoc c.committed (offset_of p) (offsets ps)),
        omega (arith, reads, left),
        quiet,
      )

  -- Where every dead letter that may be needed can be printed, the consumer commits the offset of every
  -- message that the broker delivers, in their order, whatever the attempts do and whether or not the
  -- producer takes letters, unless it is stopped before it has read `running_` so often for each poll.
  pub run_commits :
      (ps : List (Poll W)) (c : Consumer W)
      → All PollPrints ps
      → length ps * reads_per_round S ≤ c.reads
      → (run S ps c).committed ≡ c.committed ++ offsets ps
  unfolding run rounds
  run_commits ps c prints h =
      let (d, same, commits, left, quiet) =
        rounds_go_on ps [] (record c { crashed = none }) refl prints h in
      ap (λ qs. (rounds S qs (record c { crashed = none })).committed) (sym (append-nil ps))
      ∙ (ap (λ d'. d'.committed) same ∙ commits)
