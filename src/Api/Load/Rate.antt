-- ===== src/Api/Load/Rate.antt =====
-- The rate that the workers of the load generator aim at together.
use cdc_pipeline.Base.{
  ℕ, zero, suc, ◌≡◌, refl, ap, ◌⊎◌, inl, inr, ◌+◌, ◌*◌, ◌/◌, ◌≤◌, ◌<◌, max, arith,
}
use cdc_pipeline.Api.Load.{thread_rps, sleep_duration}

max-one : (q : ℕ) → ((q ≡ 0) × (max 1 q ≡ 1)) ⊎ ((0 < q) × (max 1 q ≡ q))
max-one zero = inl (refl, refl)
max-one (suc q) = inr (omega arith, omega arith)

times_div : (n d : ℕ) → 0 < d → (n / d) * d ≤ n
times_div n zero h = elim h [ ]
times_div n (suc d) h = grind arith

module _ (rps threads : ℕ) (some_threads : 0 < threads) where
  thread_rps-pos : 1 ≤ thread_rps rps threads
  unfolding thread_rps
  thread_rps-pos = omega arith

  quotient : (rps / threads) * threads ≤ rps
  quotient = times_div rps threads some_threads

  quotient_above : rps < (rps / threads) * threads + threads
  quotient_above = grind arith

  rate_le : thread_rps rps threads * threads ≤ max rps threads
  unfolding thread_rps
  rate_le = elim (max-one (rps / threads)) [
    | inl (none_each, one) ↦ rw one (omega arith)
    | inr (some_each, same) ↦ rw same (omega (arith, quotient))
  ]

  rate_above : rps < thread_rps rps threads * threads + threads
  unfolding thread_rps
  rate_above = elim (max-one (rps / threads)) [
    | inl (none_each, one) ↦
        let small : (rps / threads) * threads ≡ 0 * threads = ap (λ q. q * threads) none_each in
        rw one (omega (arith, quotient_above, small))
    | inr (some_each, same) ↦ rw same quotient_above
  ]

  pause_le : sleep_duration rps threads * thread_rps rps threads ≤ 1000000
  unfolding sleep_duration
  pause_le = times_div 1000000 (thread_rps rps threads) thread_rps-pos

  -- A worker pauses at most so long that it makes its share, every worker makes at least one request a
  -- second, and together they aim at the configured rate to within one request a worker, or at the
  -- number of the workers where that is more.
  pub thread_rps_bounds :
      (1 ≤ thread_rps rps threads)
      × (thread_rps rps threads * threads ≤ max rps threads)
      × (rps < thread_rps rps threads * threads + threads)
      × (sleep_duration rps threads * thread_rps rps threads ≤ 1000000)
  thread_rps_bounds = (thread_rps-pos, rate_le, rate_above, pause_le)
