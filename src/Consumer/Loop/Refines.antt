-- ===== src/Consumer/Loop/Refines.antt =====
-- A consumer over a sink whose effects may be repeated: what a run leaves is each message's effect,
-- once and in order.
use mathlib.Core.List.{append_assoc, append-nil}
use cdc_pipeline.Base.{
  ℕ, ◌*◌, ◌<◌, ◌≤◌, ◌≡◌, refl, sym, ap, ◌∙◌, ◌⊎◌, inl, inr, true, none, List, [], ◌∷◌, ◌++◌, length,
  length-append, All, arith,
}
use cdc_pipeline.Consumer.Effects.{has_thrown}
use cdc_pipeline.Consumer.Loop.{
  Settings, Envelope, Delivery, Consumer, Poll, message, Producer, missing, ill_formed, refuses,
  accepts, is_running, read, handle, receive, rounds, run,
}
use cdc_pipeline.Consumer.Loop.Progress.{Prints, reads_per_round, handle_commits}
use cdc_pipeline.Consumer.Loop.Once.{handle-Done}

append_is_nil : {A : Type 0} (k l : List A) → k ++ l ≡ [] → (k ≡ []) × (l ≡ [])
append_is_nil [] l e = (refl, e)
append_is_nil (x ∷ k) l e = cc

is_nil_of_append : {A : Type 0} (k l : List A) → k ≡ k ++ l → l ≡ []
is_nil_of_append k [] e = refl
is_nil_of_append k (x ∷ l) e =
    let n = ap length e in let s = length-append k (x ∷ l) in ground (arith, n, s)

accepts-Prints : (p : Producer) → p ≡ accepts → Prints p
accepts-Prints missing e = tt
accepts-Prints (ill_formed why) e = cc
accepts-Prints (refuses why) e = tt
accepts-Prints accepts e = tt

-- The messages, one a poll.
abbrev pub deliveries : {D W : Type 0} → (D → Delivery W) → List D → List (Poll W)
deliveries deliver [] = []
deliveries deliver (d ∷ ds) = message (deliver d) ∷ deliveries deliver ds

-- The effects, one after another.
unfoldable pub effects : {D E : Type 0} → (D → E → E) → List D → E → E
effects apply [] e = e
effects apply (d ∷ ds) e = effects apply ds (apply d e)

module _ {D W E : Type 0} (view : W → E) (apply : D → E → E) (deliver : D → Delivery W) where
  -- An attempt has the message's effect, or throws and has none; the effect a second time is none;
  -- and the dead letter producer takes the message if need be.
  pub record IsRepeatable (d : D) : Type 0 where
    pub takes : (deliver d).producer ≡ accepts
    pub once :
        (n : ℕ) (w : W)
        → (view ((deliver d).attempt n w).1 ≡ apply d (view w))
          ⊎ ((view ((deliver d).attempt n w).1 ≡ view w)
              × (has_thrown ((deliver d).attempt n w).0 ≡ true))
    pub twice : (e : E) → apply d (apply d e) ≡ apply d e

  module _ (S : Settings) where
    first_attempt :
        (d : D) (e : E)
        → IsRepeatable d
        → (n : ℕ) (w : W) → view w ≡ e
        → (view ((deliver d).attempt n w).1 ≡ apply d e)
          ⊎ ((view ((deliver d).attempt n w).1 ≡ e)
              × (has_thrown ((deliver d).attempt n w).0 ≡ true))
    first_attempt d e r n w before = elim (r.once n w) [
      | inl ran ↦ inl (ran ∙ ap (apply d) before)
      | inr (kept, threw) ↦ inr (kept ∙ before, threw)
    ]

    later_attempt :
        (d : D) (e : E)
        → IsRepeatable d
        → (n : ℕ) (w : W) → view w ≡ apply d e
        → view ((deliver d).attempt n w).1 ≡ apply d e
    later_attempt d e r n w after = elim (r.once n w) [
      | inl ran ↦ ran ∙ (ap (apply d) after ∙ r.twice e)
      | inr (kept, threw) ↦ kept ∙ after
    ]

    -- One message: no dead letter, then its effect.
    handle_applies :
        (d : D) (c : Consumer W)
        → IsRepeatable d
        → S.max_retries * 2 < c.reads
        → (let c' = handle S (deliver d) c in
            (l : List Envelope) × (c'.letters ≡ c.letters ++ l)
            × (l ≡ [] → view c'.sink ≡ apply d (view c.sink)))
    handle_applies d c r h =
        handle-Done S (deliver d) (λ w. view w ≡ view c.sink) (λ w. view w ≡ apply d (view c.sink))
          (first_attempt d (view c.sink) r) (later_attempt d (view c.sink) r) r.takes c h refl

    rounds_letters :
        (ds : List D) (c : Consumer W)
        → c.crashed ≡ none
        → All IsRepeatable ds
        → length ds * reads_per_round S ≤ c.reads
        → (let c' = rounds S (deliveries deliver ds) c in
            (l : List Envelope) × (c'.letters ≡ c.letters ++ l)
            × (l ≡ [] → view c'.sink ≡ effects apply ds (view c.sink)))
    unfolding rounds receive effects
    rounds_letters [] c fine r h = ([], sym (append-nil c.letters), λ e. refl)
    rounds_letters (d ∷ ds) c fine r h =
        let running : is_running c ≡ true = ground arith in
        let (committed, reads, crashed) =
          handle_commits S (deliver d) (read c) (accepts-Prints (deliver d).producer r.0.takes)
            (omega arith) in
        let c1 = handle S (deliver d) (read c) in
        let (k, letters, effect) = handle_applies d (read c) r.0 (omega arith) in
        let (l, letters', effect') =
          rounds_letters ds c1 (crashed ∙ fine) r.1 (omega (arith, reads)) in
        rw (running, rounds)
          (rw (crashed ∙ fine) (
            k ++ l,
            letters' ∙ (ap (λ t. t ++ l) letters ∙ append_assoc c.letters k l),
            λ none_left.
                let (k_nil, l_nil) = append_is_nil k l none_left in
                effect' l_nil ∙ ap (effects apply ds) (effect k_nil),
          ))

    -- A run that writes no dead letter has had each message's effect once, in their order.
    pub run-effects :
        (ds : List D) (c : Consumer W)
        → All IsRepeatable ds
        → length ds * reads_per_round S ≤ c.reads
        → (run S (deliveries deliver ds) c).letters ≡ c.letters
        → view (run S (deliveries deliver ds) c).sink ≡ effects apply ds (view c.sink)
    unfolding run
    run-effects ds c r h none_lettered =
        let (l, letters, effect) = rounds_letters ds (record c { crashed = none }) refl r h in
        effect (is_nil_of_append c.letters l (sym none_lettered ∙ letters))
