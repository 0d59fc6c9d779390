-- ===== src/Charts/Timeline.antt =====
-- The points of the throughput chart: one for each active bucket, ten seconds apart.
use mathlib.Core.List.{append_assoc, append-nil}
use cdc_pipeline.Base.{
  ℕ, suc, ◌*◌, ◌≡◌, sym, ap, ◌∙◌, inl, inr, List, [], ◌∷◌, ◌++◌, length, length-append, Bool-cases,
  if◌then◌else◌, arith,
}
use cdc_pipeline.Charts.{Bucket, Point, is_active, point, collect, timeline}

-- The active buckets, in their order.
unfoldable pub active : List Bucket → List Bucket
active [] = []
active (b ∷ bs) = let rest = active bs in if is_active b then b ∷ rest else rest

-- One point for each bucket, ten seconds apart from the first on.
unfoldable pub spaced : List Bucket → List Bucket → ℕ → List Bucket → List Point
spaced redis es n [] = []
spaced redis es n (b ∷ bs) = point redis es (n * 10) b ∷ spaced redis es (suc n) bs

module _ (redis es : List Bucket) where
  collect-spaced :
      (bs : List Bucket) (points : List Point)
      → collect redis es bs points ≡ points ++ spaced redis es (length points) (active bs)
  unfolding collect active spaced
  collect-spaced [] points = sym (append-nil points)
  collect-spaced (b ∷ bs) points = elim (Bool-cases (is_active b)) [
    | inl counted ↦
        let p = point redis es (length points * 10) b in
        let n : length (points ++ p ∷ []) ≡ suc (length points) =
          omega (arith, length-append points (p ∷ [])) in
        rw counted (
          collect-spaced bs (points ++ p ∷ [])
          ∙ (ap (λ k. (points ++ p ∷ []) ++ spaced redis es k (active bs)) n
              ∙ append_assoc points (p ∷ []) (spaced redis es (suc (length points)) (active bs))))
    | inr idle ↦ rw idle (collect-spaced bs points)
  ]

  -- The chart has a point for each bucket with more than 100 requests, and no other, in their order;
  -- its time is ten seconds for each point before it, also where buckets were left out between them.
  pub timeline-spaced : (bs : List Bucket) → timeline redis es bs ≡ spaced redis es 0 (active bs)
  unfolding timeline
  timeline-spaced bs = collect-spaced bs []
