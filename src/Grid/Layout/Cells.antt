-- ===== src/Grid/Layout/Cells.antt =====
-- Pixels back to cells in internal/server/web/static/widgets.js: a drag that ends where it began.
use certguard.Base.{ℕ, ap, ◌+◌, ◌*◌, ◌/◌, ◌≤◌, ◌<◌, ◌≡◌, ◌∙◌, arith, max}
use certguard.Base.Int.{pos, pos_part, ◌+ℤ◌, round_div}
use certguard.Grid.Rect.{Rect, IsFitted, row_pitch, min_h}
use certguard.Grid.Layout.{
  left_px, top_px, pitch4, round4, times4, col_at, row_at, span_at, cell_at, width_after,
  height_after,
}

-- The quotient is determined by its bounds.
div_between : (n d q : ℕ) → 0 < d → q * d ≤ n → n < q * d + d → n / d ≡ q
div_between n d q h lo hi = grind arith

round_near : (n p c : ℕ) → 640 ≤ p → c * p ≤ n + 2 → n ≤ c * p + 2 → round_div (pos n) p ≡ pos c
round_near n p c h lo hi =
    round_pos n p
    ∙ ap pos (div_between (n + n + p) (p + p) c (omega arith) (omega arith) (omega arith))
  where
    round_pos : (m d : ℕ) → round_div (pos m) d ≡ pos ((m + m + d) / (d + d))
    round_pos m d = ground arith

times4_pos : (n : ℕ) → times4 (pos n) ≡ pos (4 * n)
times4_pos n = ground arith

col_at_own : (cw : ℕ) (a : Rect) → 640 ≤ cw → col_at cw (pos (left_px cw a)) ≡ pos a.c
unfolding col_at left_px
col_at_own cw a h = rw (times4_pos (round4 (a.c * pitch4 cw))) (
    round_near (4 * round4 (a.c * pitch4 cw)) (pitch4 cw) a.c (omega arith) (omega arith)
      (omega arith))

row_at_own : (n : ℕ) → row_at (pos (n * row_pitch)) ≡ pos n
unfolding row_at
row_at_own n = ground arith

span_at_own : (cw : ℕ) (a : Rect) → 640 ≤ cw → span_at cw a (pos 0) ≡ pos a.w
unfolding span_at
span_at_own cw a h =
    rw (plus_zero (a.w * pitch4 cw))
      (round_near (a.w * pitch4 cw) (pitch4 cw) a.w (omega arith) (omega arith) (omega arith))
  where
    plus_zero : (n : ℕ) → pos n +ℤ times4 (pos 0) ≡ pos n
    plus_zero n = ground arith

-- In four columns, the cell of a fitted card's own corner is the card's own cell, and a resize by
-- nothing keeps its width and its height.
pub cell_at_own :
    (cw : ℕ) (a : Rect)
    → 640 ≤ cw
    → IsFitted a
    → (cell_at cw (pos (left_px cw a)) (pos (top_px a)) a ≡ a)
      × (width_after cw a (pos 0) ≡ a.w)
      × (height_after a (pos 0) ≡ a.h)
unfolding cell_at top_px width_after height_after
cell_at_own cw a h v = (
  rw (col_at_own cw a h, row_at_own a.r) (ground arith),
  rw (span_at_own cw a h) (ground arith),
  ap (λ z. max min_h (pos_part (row_at z))) (plus_none (a.h * row_pitch))
      ∙ rw (row_at_own a.h) (ground arith),
)
  where
    plus_none : (n : ℕ) → pos n +ℤ pos 0 ≡ pos n
    plus_none n = ground arith
