-- ===== src/Grid/Layout/Boxes.antt =====
-- The pixel boxes that `layout` of internal/server/web/static/widgets.js gives to rectangles.
use certguard.Base.{ℕ, ◌+◌, ◌*◌, ◌≤◌, ◌≡◌, ◌⊎◌, inl, inr, false, arith, Bool-cases, leb}
use certguard.Grid.Rect.{Rect, overlaps, IsFitted, gap}
use certguard.Grid.Layout.{left_px, width_px, top_px, height_px, pitch4, round4}

round4_add : (m n : ℕ) → round4 m + round4 n ≤ round4 (m + n) + 1
round4_add m n = omega arith

round4_mono : (m n : ℕ) → m ≤ n → round4 m ≤ round4 n
round4_mono m n h = omega arith

columns_mono : (x y p : ℕ) → x ≤ y → x * p ≤ y * p
columns_mono x y p h = grind arith

add_columns : (x y p : ℕ) → x * p + y * p ≡ (x + y) * p
add_columns x y p = omega arith

-- A card is at least one pitch wide.
wide_enough : (w p : ℕ) → 1 ≤ w → 660 ≤ p → gap ≤ round4 (w * p)
wide_enough w p h k = omega (arith, columns_mono 1 w p h)

-- The right edge of a card, measured with the gutter behind it.
pub right_edge :
    (cw : ℕ) (a : Rect)
    → 640 ≤ cw
    → 1 ≤ a.w
    → left_px cw a + width_px cw a + gap ≤ round4 ((a.c + a.w) * pitch4 cw) + 1
unfolding left_px width_px
right_edge cw a h w = omega (
  arith,
  round4_add (a.c * pitch4 cw) (a.w * pitch4 cw),
  add_columns a.c a.w (pitch4 cw),
  wide_enough a.w (pitch4 cw) w (omega arith),
)

-- In four columns a fitted card ends at most one pixel behind the grid's right edge, by rounding.
pub right_edge-le :
    (cw : ℕ) (a : Rect) → 640 ≤ cw → IsFitted a → left_px cw a + width_px cw a ≤ cw + 1
right_edge-le cw a h v = omega (
  arith,
  right_edge cw a h v.wide,
  round4_mono ((a.c + a.w) * pitch4 cw) (4 * pitch4 cw)
      (columns_mono (a.c + a.w) 4 (pitch4 cw) v.inside),
)

-- One stands beside the other with 19 pixels between them, or above it with 20.
abbrev pub AreApart : ℕ → Rect → Rect → Type 0
AreApart cw a b =
    (left_px cw a + width_px cw a + 19 ≤ left_px cw b)
    ⊎ (left_px cw b + width_px cw b + 19 ≤ left_px cw a)
    ⊎ (top_px a + height_px a + gap ≤ top_px b)
    ⊎ (top_px b + height_px b + gap ≤ top_px a)

beside :
    (cw : ℕ) (a b : Rect)
    → 640 ≤ cw
    → 1 ≤ a.w
    → a.c + a.w ≤ b.c
    → left_px cw a + width_px cw a + 19 ≤ left_px cw b
unfolding left_px
beside cw a b h w k = omega (
  arith,
  right_edge cw a h w,
  round4_mono ((a.c + a.w) * pitch4 cw) (b.c * pitch4 cw)
      (columns_mono (a.c + a.w) b.c (pitch4 cw) k),
)

above : (a b : Rect) → 5 ≤ a.h → a.r + a.h ≤ b.r → top_px a + height_px a + gap ≤ top_px b
unfolding top_px height_px
above a b h k = omega arith

-- In four columns, fitted cards whose rectangles do not overlap are drawn at least 19 pixels apart
-- beside each other, or 20 above each other.
pub overlaps-AreApart :
    (cw : ℕ) (a b : Rect)
    → 640 ≤ cw
    → IsFitted a
    → IsFitted b
    → overlaps a b ≡ false
    → AreApart cw a b
overlaps-AreApart cw a b h va vb e = elim (Bool-cases (leb (a.c + a.w) b.c)) [
  | inl p ↦ inl (beside cw a b h va.wide (ground arith))
  | inr p ↦ elim (Bool-cases (leb (b.c + b.w) a.c)) [
    | inl q ↦ inr (inl (beside cw b a h vb.wide (ground arith)))
    | inr q ↦ elim (Bool-cases (leb (a.r + a.h) b.r)) [
      | inl r ↦ inr (inr (inl (above a b va.tall (ground arith))))
      | inr r ↦ inr (inr (inr (above b a vb.tall (ground arith))))
    ]
  ]
]
