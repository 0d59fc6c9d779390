-- ===== src/Consumer/Loop/Backoff.antt =====
-- The pauses between the attempts: exponential, up to the limit, and one fewer than the attempts.
use mathlib.Core.List.{append_assoc, append-nil}
use native.Mathlib.Nat.{pow-suc, mul_assoc}
use cdc_pipeline.Base.{
  ℕ, zero, suc, ◌+◌, ◌-◌, ◌*◌, ◌^◌, ◌<◌, ◌≤◌, min, String, ◌≡◌, refl, sym, ap, ◌∙◌, inl, inr, Bool,
  true, false, ◌&&◌, Option, none, some, List, [], ◌∷◌, ◌++◌, ltb, ltb→lt, &&-true, Bool-cases,
  arith,
}
use cdc_pipeline.Json.{Value, null}
use cdc_pipeline.Consumer.Effects.{Result, done, throws}
use cdc_pipeline.Consumer.Loop.{
  Settings, Delivery, Consumer, record_processed, is_running, retry, settle, handle_document,
  handle, route, route_to_dlq, commit_routed,
}
use cdc_pipeline.Consumer.Loop.Attempts.{retry-induction, tried, again}

-- The pause after failure k, counted from 0, and n pauses from there on.
abbrev pub pause_ms : Settings → ℕ → ℕ
pause_ms S k = min (S.initial_backoff_ms * 2 ^ k) S.max_backoff_ms

unfoldable pub pauses : Settings → ℕ → ℕ → List ℕ
pauses S zero k = []
pauses S (suc n) k = pause_ms S k ∷ pauses S n (suc k)

pause_ms-suc : (S : Settings) (k : ℕ) → min (pause_ms S k * 2) S.max_backoff_ms ≡ pause_ms S (suc k)
pause_ms-suc S k =
    let e : S.initial_backoff_ms * 2 ^ suc k ≡ (S.initial_backoff_ms * 2 ^ k) * 2 =
      ap (λ (p : ℕ). S.initial_backoff_ms * p) (pow-suc 2 k)
      ∙ sym (mul_assoc S.initial_backoff_ms (2 ^ k) 2) in
    omega (arith, e)

pauses-append :
    (S : Settings) (n k : ℕ) (l : List ℕ)
    → (l ++ pause_ms S k ∷ []) ++ pauses S n (suc k) ≡ l ++ pauses S (suc n) k
unfolding pauses
pauses-append S n k l = append_assoc l (pause_ms S k ∷ []) (pauses S n (suc k))

nothing_due :
    (attempt limit reads x y : ℕ)
    → (attempt < limit → reads ≡ 0)
    → 0 < reads
    → attempt + 1 ≤ limit
    → x ≡ y
nothing_due attempt limit reads x y halted g l = let z = halted (omega arith) in omega arith

none_left_of :
    (attempt limit reads n : ℕ)
    → (attempt < limit → reads ≡ 0)
    → n ≤ limit - (attempt + 1)
    → (reads ≡ 0 → n ≡ 0)
    → n ≡ 0
none_left_of attempt limit reads n halted le z = ground arith

module _ {W : Type 0} (S : Settings) (m : Delivery W) where
  -- Where the next pause would be that of failure k, the loop takes the pauses from there on, as many
  -- as there are attempts before the last one, or fewer. A consumer that was stopped takes none.
  abbrev Paused : ℕ → ℕ → Consumer W → Result × Consumer W → Type 0
  Paused attempt backoff c r =
      (k : ℕ)
      → attempt ≡ suc k
      → (0 < c.reads → attempt ≤ S.max_retries → backoff ≡ pause_ms S k)
      → (n : ℕ) × (n ≤ S.max_retries - attempt)
        × (r.1.slept ≡ c.slept ++ pauses S n k)
        × (c.reads ≡ 0 → n ≡ 0)

  Paused-none :
      (attempt backoff : ℕ) (c : Consumer W) (r : Result × Consumer W)
      → r.1.slept ≡ c.slept
      → Paused attempt backoff c r
  unfolding pauses
  Paused-none attempt backoff c r same k first b =
      (0, omega arith, same ∙ sym (append-nil c.slept), λ h. refl)

  -- Whether a pause follows the failure.
  abbrev waits : ℕ → Consumer W → Bool
  waits attempt c = ltb attempt S.max_retries && ltb 0 (c.reads - 1)

  module _ (attempt backoff : ℕ) (why : String) (c : Consumer W) where
    again-waits :
        waits attempt c ≡ true
        → ((again S m attempt backoff why c).0 ≡ min (backoff * 2) S.max_backoff_ms)
          × ((again S m attempt backoff why c).1.slept ≡ c.slept ++ backoff ∷ [])
    again-waits h = rw h (refl, refl)

    again_goes_on :
        waits attempt c ≡ false
        → ((again S m attempt backoff why c).1.slept ≡ c.slept)
          × ((attempt < S.max_retries) → (again S m attempt backoff why c).1.reads ≡ 0)
    again_goes_on h = (ground arith, λ lt. ground arith)

    again-Paused :
        (r : Result × Consumer W)
        → 0 < c.reads
        → Paused
            (attempt + 1)
            (again S m attempt backoff why c).0
            (again S m attempt backoff why c).1
            r
        → Paused attempt backoff c r
    again-Paused r running ih k first b = elim (Bool-cases (waits attempt c)) [
      | inl h ↦
          let (next, slept) = again-waits h in
          let inside : attempt < S.max_retries = ltb→lt attempt S.max_retries (&&-true _ _ h).0 in
          let now : backoff ≡ pause_ms S k = b running (omega (arith, inside)) in
          let (n, le, e, z) =
            ih (suc k) (omega (arith, first))
              (λ g l. next ∙ ap (λ t. min (t * 2) S.max_backoff_ms) now ∙ pause_ms-suc S k) in
          (
            suc n,
            omega (arith, inside, le),
            e
                ∙ ap (λ l. l ++ pauses S n (suc k)) (slept ∙ ap (λ t. c.slept ++ t ∷ []) now)
                ∙ pauses-append S n k c.slept,
            λ zero_reads. omega (arith, running),
          )
      | inr h ↦
          let (slept, halted) = again_goes_on h in
          let (n, le, e, z) = ih (suc k) (omega (arith, first)) (λ g l.
            nothing_due attempt S.max_retries (again S m attempt backoff why c).1.reads
              (again S m attempt backoff why c).0 (pause_ms S (suc k)) halted g l) in
          let none_left : n ≡ 0 =
            none_left_of attempt S.max_retries (again S m attempt backoff why c).1.reads n halted le
              z in
          (
            0,
            omega arith,
            e
                ∙ ap (λ j. (again S m attempt backoff why c).1.slept ++ pauses S j (suc k))
                    none_left
                ∙ unfold pauses in ap (λ l. l ++ []) slept,
            λ zero_reads. refl,
          )
    ]

  retry-Paused :
      (left attempt backoff : ℕ) (last : String) (c : Consumer W)
      → Paused attempt backoff c (retry S m left attempt backoff last c)
  retry-Paused =
      retry-induction S m (λ left attempt backoff last c r. Paused attempt backoff c r)
        (λ left attempt backoff last c h. Paused-none attempt backoff c (throws last, c) refl)
        (λ left attempt backoff last c running e.
          Paused-none attempt backoff c
            (done, tried (record_processed m.offset) (m.attempt attempt c.sink).1 c) refl)
        (λ left attempt backoff last why c r running e ih.
          again-Paused attempt backoff why c r running ih)

  route_to_dlq-slept :
      (error : String) (payload : Value) (c : Consumer W)
      → (commit_routed S m (route_to_dlq S m error payload c)).slept ≡ c.slept
  unfolding route_to_dlq route
  route_to_dlq-slept error payload c = ground arith

  settle-slept :
      (document : Value) (r : Result × Consumer W) → (settle S m document r).slept ≡ r.1.slept
  unfolding settle
  settle-slept document (done, c) = refl
  settle-slept document (throws last, c) = elim (Bool-cases (is_running c)) [
    | inl running ↦ rw running (route_to_dlq-slept last document _)
    | inr halted ↦ rw halted refl
  ]

  handle_document-pauses :
      (document : Option Value) (c : Consumer W)
      → S.initial_backoff_ms ≤ S.max_backoff_ms
      → (n : ℕ) × (n ≤ S.max_retries - 1)
        × ((handle_document S m document c).slept ≡ c.slept ++ pauses S n 0)
  unfolding handle_document pauses
  handle_document-pauses none c fits = (
    0,
    omega arith,
    route_to_dlq-slept "Payload deserialization failed" null _ ∙ sym (append-nil c.slept),
  )
  handle_document-pauses (some document) c fits =
      let r = retry S m S.max_retries 1 S.initial_backoff_ms "" c in
      let (n, le, e, z) =
        retry-Paused S.max_retries 1 S.initial_backoff_ms "" c 0 refl (λ g l. omega arith) in
      (n, le, settle-slept document r ∙ e)

  -- While a message is retried the consumer takes fewer pauses than `max_retries`, the first ones of
  -- the series `initial_backoff_ms * 2 ^ k`, each cut off at `max_backoff_ms`.
  pub handle-pauses :
      (c : Consumer W)
      → S.initial_backoff_ms ≤ S.max_backoff_ms
      → (n : ℕ) × (n ≤ S.max_retries - 1) × ((handle S m c).slept ≡ c.slept ++ pauses S n 0)
  unfolding handle
  handle-pauses c fits = handle_document-pauses m.document c fits
