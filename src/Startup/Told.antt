-- ===== src/Startup/Told.antt =====
-- A start leaves no service out, and each line it logs tells the truth.
use mathlib.Core.Path.{subst}
use mathlib.Core.List.{map-append}
use cdc_pipeline.Base.{
  ℕ, zero, suc, ◌+◌, ◌≤◌, String, ◌≡◌, refl, sym, ap, ◌∙◌, ◌⊎◌, Bool, true, false, Option, none,
  some, List, [], ◌∷◌, ◌==◌, ◌++◌, map, length, length-append, All, All-append, arith,
  if◌then◌else◌,
}
use cdc_pipeline.Startup.{
  Service, Waiting, Startup, construct_all, wait, after_attempt, attempts, startup,
}

-- One of the services throws this error in this attempt.
pub Refuses : ℕ → String → List Service → Type 0
Refuses n error [] = ⊥
Refuses n error (s ∷ ss) = (s n ≡ some error) ⊎ Refuses n error ss

-- Either no service is missing, after at most 19 pauses, or each of 20 attempts has met a service that
-- refused: the last with the error that `main` ends with.
abbrev pub Ended : List Service → Startup → Option String → Type 0
Ended services w none = (w.missing ≡ []) × (length w.slept ≤ 19)
Ended services w (some error) = Refuses 20 error services × (length w.slept ≡ 19)

-- 1, 2, and so on to `k`.
pub up_to : ℕ → List ℕ
up_to zero = []
up_to (suc k) = up_to k ++ suc k ∷ []

-- The lines tell the attempts 1, 2, and so on, one for each pause, and each an error that a service threw in it.
abbrev pub Told : List Service → Startup → Type 0
Told services w =
    (map (λ (l : Waiting). l.attempt) w.logs ≡ up_to (length w.slept))
    × All (λ (l : Waiting). Refuses l.attempt l.error services) w.logs

-- What an attempt comes to.
abbrev Constructed : ℕ → Option String × List Service → Type 0
Constructed n (none, missing) = missing ≡ []
Constructed n (some error, missing) = Refuses n error missing

-- A refusal among the services that are left is one among all of them.
abbrev Left : List Service → List Service → Type 0
Left services missing =
    (n : ℕ) (error : String) → Refuses n error missing → Refuses n error services

construct_all-Constructed : (n : ℕ) (ss : List Service) → Constructed n (construct_all n ss)
unfolding construct_all Refuses
construct_all-Constructed n [] = refl
construct_all-Constructed n (s ∷ ss) = let rest = construct_all-Constructed n ss in ground arith

construct_all-Left : (n : ℕ) (ss : List Service) → Left ss (construct_all n ss).1
unfolding construct_all Refuses
construct_all-Left n [] m error h = h
construct_all-Left n (s ∷ ss) m error h = let rest = construct_all-Left n ss m error in ground arith

-- What holds before attempt `n`, with `left` attempts to go.
abbrev Waits : List Service → ℕ → ℕ → Startup → Type 0
Waits services left n w =
    (n + left ≡ 21)
    × (n ≤ 20)
    × (suc (length w.slept) ≡ n)
    × (w.fatal ≡ none)
    × Told services w
    × Left services w.missing

counted :
    (n : ℕ) (error : String) (w : Startup)
    → suc (length w.slept) ≡ n
    → map (λ (l : Waiting). l.attempt) w.logs ≡ up_to (length w.slept)
    → map (λ (l : Waiting). l.attempt) (w.logs ++ record { attempt = n; error = error } ∷ [])
      ≡ up_to (length (w.slept ++ 2 ∷ []))
unfolding up_to
counted n error w pauses told =
    let more : length (w.slept ++ 2 ∷ []) ≡ suc (length w.slept) =
      length-append w.slept (2 ∷ []) ∙ omega arith in
    map-append (λ (l : Waiting). l.attempt) w.logs (record { attempt = n; error = error } ∷ [])
    ∙ (ap (λ ns. ns ++ n ∷ []) told
        ∙ (ap (λ m. up_to (length w.slept) ++ m ∷ []) (sym pauses) ∙ ap up_to (sym more)))

abbrev Good : List Service → Startup → Type 0
Good services w = Told services w × Ended services w w.fatal

module _ (services : List Service) where
  if_Good :
      (b : Bool) (x y : Startup)
      → (b ≡ true → Good services x)
      → (b ≡ false → Good services y)
      → Good services (if b then x else y)
  if_Good true x y met unmet = met refl
  if_Good false x y met unmet = unmet refl

  wait-Waits :
      (left n : ℕ) (error : String) (missing : List Service) (w : Startup)
      → (n ≡ 20 → ⊥)
      → Waits services (suc left) n w
      → Refuses n error missing
      → Left services missing
      → Waits services left (suc n) (wait n error missing w)
  wait-Waits left n error missing w more (sum, most, pauses, fine, told, kept) refuses within = (
    omega arith,
    omega arith,
    ap suc (length-append w.slept (2 ∷ [])) ∙ omega arith,
    fine,
    (
      counted n error w pauses told.0,
      All-append (λ (l : Waiting). Refuses l.attempt l.error services) w.logs _ told.1
          (within n error refuses, tt),
    ),
    within,
  )

  after_attempt-Good :
      (left n : ℕ) (rest : Startup → Startup) (r : Option String × List Service) (w : Startup)
      → ((v : Startup) → Waits services left (suc n) v → Good services (rest v))
      → Waits services (suc left) n w
      → Constructed n r
      → Left services r.1
      → Good services (after_attempt n rest r w)
  after_attempt-Good left n rest (none, missing) w good (sum, most, pauses, fine, told, kept) all
        within =
      (told, rw fine (all, omega arith))
  after_attempt-Good left n rest (some error, missing) w good h refuses within =
      let (sum, most, pauses, fine, told, kept) = h in
      if_Good (n == 20) (record w { missing = missing; fatal = some error })
        (rest (wait n error missing w))
        (λ e.
          let last : n ≡ 20 = ground arith in
          (
            told,
            (subst (λ m. Refuses m error services) last (within n error refuses), omega arith),
          ))
        (λ e.
          good (wait n error missing w)
            (wait-Waits left n error missing w (λ last. absurd (ground arith)) h refuses within))

  attempts-Good :
      (left n : ℕ) (w : Startup) → Waits services left n w → Good services (attempts left n w)
  unfolding attempts
  attempts-Good zero n w (sum, most, pauses, fine, told, kept) = absurd (omega arith)
  attempts-Good (suc left) n w h =
      let (sum, most, pauses, fine, told, kept) = h in
      after_attempt-Good left n (attempts left (suc n)) (construct_all n w.missing) w
        (attempts-Good left (suc n)) h (construct_all-Constructed n w.missing)
        (λ m error r. kept m error (construct_all-Left n w.missing m error r))

  -- Whatever the constructors throw, the loop ends with no service missing after at most 19 pauses, or
  -- after 19 pauses with the error that a service threw in the twentieth attempt. It has logged one line a
  -- pause, for the attempts 1, 2 and so on, each with an error that a service threw in that attempt.
  pub startup-Told :
      Told services (startup services) × Ended services (startup services) (startup services).fatal
  unfolding startup up_to
  startup-Told = attempts-Good 20 1 _ (refl, omega arith, refl, refl, (refl, tt), λ n error h. h)
