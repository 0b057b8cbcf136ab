-- ===== src/Grid/Rect/Overlap.antt =====
-- `overlaps` of internal/server/web/static/widgets.js against the cells of rectangles.
use certguard.Base.{ℕ, ◌+◌, ◌≤◌, ◌<◌, ◌≡◌, ◌↔◌, true, false, List, arith, All, AllPairs, max}
use certguard.Grid.Rect.{Rect, overlaps, IsFitted}

abbrev pub Covers : Rect → ℕ → ℕ → Type 0
Covers a x y = (a.c ≤ x) × (x < a.c + a.w) × (a.r ≤ y) × (y < a.r + a.h)

-- Two fitted rectangles overlap exactly when there is a cell that both cover.
pub overlaps_iff :
    (a b : Rect)
    → IsFitted a
    → IsFitted b
    → (overlaps a b ≡ true) ↔ ((x y : ℕ) × Covers a x y × Covers b x y)
overlaps_iff a b va vb = (there, back)
  where
    there : overlaps a b ≡ true → (x y : ℕ) × Covers a x y × Covers b x y
    there h = (max a.c b.c, max a.r b.r, ground arith, ground arith)

    back : ((x y : ℕ) × Covers a x y × Covers b x y) → overlaps a b ≡ true
    back (x, y, p, q) = ground arith

pub overlaps_comm : (a b : Rect) → overlaps a b ≡ overlaps b a
overlaps_comm a b = ground arith

abbrev pub IsClear : Rect → List Rect → Type 0
IsClear a = All (λ b. overlaps a b ≡ false)

-- No two rectangles of the list overlap.
abbrev pub IsDisjoint : List Rect → Type 0
IsDisjoint = AllPairs (λ a b. overlaps a b ≡ false)
