-- ===== src/Dashboard/Layout.antt =====
-- The grid of the dashboard: 48 columns, which the panels tile.
use cdc_pipeline.Base.{
  String, ℕ, zero, suc, ◌+◌, ◌≤◌, ◌<◌, ◌≡◌, refl, Bool, true, false, ◌&&◌, Option, none, some, List,
  [], ◌∷◌, map, arith, ltb, leb, ltb→lt, Bool-cases, inl, inr, ◌==◌, ==_iff, &&-true, if◌then◌else◌,
}
use cdc_pipeline.Base.Int.{pos}
use cdc_pipeline.Json.{Value, int, field?, elements}
use cdc_pipeline.Dashboard.Panels.{panels}

pub record Rect : Type 0 where
  pub x : ℕ
  pub y : ℕ
  pub w : ℕ
  pub h : ℕ

abbrev number : Option Value → ℕ
number (some (int (pos n))) = n
number _ = 0

-- A field of `gridData`; 0 where it is missing.
unfoldable pub grid : String → Value → ℕ
grid k p = elim (field? "gridData" p) [ none ↦ 0 | some g ↦ number (field? k g) ]

unfoldable pub rect : Value → Rect
unfolding grid
rect p = record { x = grid "x" p; y = grid "y" p; w = grid "w" p; h = grid "h" p }

unfoldable pub rects : List Rect
unfolding rect
rects = map rect (elements panels)

abbrev pub covers : ℕ → ℕ → Rect → Bool
covers i j r = leb r.x i && ltb i (r.x + r.w) && leb r.y j && ltb j (r.y + r.h)

-- How many panels cover the cell.
unfoldable pub covering : ℕ → ℕ → List Rect → ℕ
covering i j [] = 0
covering i j (r ∷ rs) = let n = covering i j rs in if covers i j r then suc n else n

all_below : ℕ → (ℕ → Bool) → Bool
all_below zero p = true
all_below (suc n) p = p n && all_below n p

all_below_sound : (n : ℕ) (p : ℕ → Bool) (i : ℕ) → all_below n p ≡ true → i < n → p i ≡ true
unfolding all_below
all_below_sound zero p i h lt = absurd (omega arith)
all_below_sound (suc n) p i h lt = ground (arith, all_below_sound n p i)

-- Whether every cell of the grid is covered once.
unfoldable pub is_tiled : ℕ → ℕ → List Rect → Bool
unfolding all_below covering
is_tiled width height rs = all_below height (λ j. all_below width (λ i. covering i j rs == 1))

abbrev pub Inside : ℕ → ℕ → List Rect → Type 0
Inside width height [] = Unit
Inside width height (r ∷ rs) = (r.x + r.w ≤ width) × (r.y + r.h ≤ height) × Inside width height rs

module _ (width height : ℕ) where
  covering_outside :
      (i j : ℕ) (rs : List Rect)
      → Inside width height rs
      → (ltb i width && ltb j height) ≡ false
      → covering i j rs ≡ 0
  unfolding covering
  covering_outside i j [] b h = refl
  covering_outside i j (r ∷ rs) b h = ground (arith, covering_outside i j rs b.2)

  covering_inside :
      (i j : ℕ) (rs : List Rect)
      → is_tiled width height rs ≡ true
      → (ltb i width && ltb j height) ≡ true
      → covering i j rs ≡ 1
  unfolding is_tiled
  covering_inside i j rs tiled h =
      let (a, b) = &&-true (ltb i width) (ltb j height) h in
      (==_iff (covering i j rs) 1).0 (
        all_below_sound width (λ i. covering i j rs == 1) i
          (all_below_sound height (λ j. all_below width (λ i. covering i j rs == 1)) j tiled
            (ltb→lt j height b))
          (ltb→lt i width a))

  pub covering_lem :
      (i j : ℕ) (rs : List Rect)
      → is_tiled width height rs ≡ true
      → Inside width height rs
      → covering i j rs ≡ (if ltb i width && ltb j height then 1 else 0)
  covering_lem i j rs tiled inside = elim (Bool-cases (ltb i width && ltb j height)) [
    | inl h ↦ rw h (covering_inside i j rs tiled h)
    | inr h ↦ rw h (covering_outside i j rs inside h)
  ]

rects-tiled : is_tiled 48 95 rects ≡ true
unfolding is_tiled rects field? elements
rects-tiled = refl

rects-Inside : Inside 48 95 rects
unfolding rects field? elements
rects-Inside = omega arith

-- Every cell of the grid of 48 columns and 95 rows is covered by exactly one panel, and no panel
-- reaches outside it.
pub covering-rects : (i j : ℕ) → covering i j rects ≡ (if ltb i 48 && ltb j 95 then 1 else 0)
covering-rects i j = covering_lem 48 95 i j rects rects-tiled rects-Inside
