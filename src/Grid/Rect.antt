-- ===== src/Grid/Rect.antt =====
-- Rectangles of the grid: internal/server/web/static/widgets.js, from `COLS` to `overlaps`.
-- Columns and rows are counted from 0; a height is in row units.
pub mod Bounds
pub mod Overlap
use certguard.Base.{ℕ, ◌+◌, ◌-◌, ◌≤◌, ◌<◌, min, max, Bool, ◌&&◌, ltb}
use certguard.Base.Int.{ℤ, pos, pos_part}

abbrev pub cols : ℕ
cols = 4

abbrev pub gap : ℕ
gap = 20

abbrev pub row_pitch : ℕ
row_pitch = 20

abbrev pub min_h : ℕ
min_h = 5

-- What `rectOf` returns.
pub record Rect : Type 0 where
  pub c : ℕ
  pub r : ℕ
  pub w : ℕ
  pub h : ℕ

-- What `setRect` is given: a drag or a stored layout may name any whole numbers.
pub record RawRect : Type 0 where
  pub c : ℤ
  pub r : ℤ
  pub w : ℤ
  pub h : ℤ

abbrev pub raw : Rect → RawRect
raw a = record { c = pos a.c; r = pos a.r; w = pos a.w; h = pos a.h }

-- `Math.max(lo, Math.min(hi, z))`; a negative `z` may be cut to 0 first, since 0 ≤ lo.
abbrev pub clamp : ℕ → ℕ → ℤ → ℕ
clamp lo hi z = max lo (min hi (pos_part z))

-- The four numbers that `setRect` stores.
unfoldable pub normalise : RawRect → Rect
normalise a = record {
  c = clamp 0 (cols - clamp 1 cols a.w) a.c;
  r = pos_part a.r;
  w = clamp 1 cols a.w;
  h = max min_h (pos_part a.h);
}

abbrev pub overlaps : Rect → Rect → Bool
overlaps a b =
    ltb a.c (b.c + b.w) && (ltb b.c (a.c + a.w) && (ltb a.r (b.r + b.h) && ltb b.r (a.r + a.h)))

-- A rectangle within the four columns, of the least height at least.
pub record IsFitted (a : Rect) : Type 0 where
  pub wide : 1 ≤ a.w
  pub inside : a.c + a.w ≤ cols
  pub tall : min_h ≤ a.h
