-- ===== src/Grid/Layout.antt =====
-- `metrics`, `layout` and `cellAt` of internal/server/web/static/widgets.js: rectangles to pixels and
-- back. `cw` is `grid.clientWidth`. In four columns the pitch of a column, `colW + GAP`, is
-- (cw + GAP) / 4 pixels; the model keeps four times the pitch, so that every quotient is exact where
-- the source has a float.
pub mod Boxes
pub mod Cells
use certguard.Base.{
  ℕ, ◌+◌, ◌-◌, ◌*◌, ◌/◌, min, max, String, Bool, ◌&&◌, ◌||◌, Option, none, some, List, [], ◌∷◌, map,
  ltb, ◌==◌, if◌then◌else◌,
}
use certguard.Base.Int.{ℤ, pos, ◌+ℤ◌, pos_part, round_div}
use certguard.Base.Sort.{sort}
use certguard.Grid.Rect.{Rect, cols, gap, row_pitch, min_h, clamp}
use certguard.Grid.Card.{Card, visible, rect_of}
use certguard.Grid.Compact.{reads_after}

abbrev pub column_count : ℕ → ℕ
column_count cw = if ltb cw 640 then 1 else cols

abbrev pub pitch4 : ℕ → ℕ
pitch4 cw = cw + gap

-- A style without a height is `height: ''`.
pub record Box : Type 0 where
  pub id : String
  pub left : ℕ
  pub top : ℕ
  pub width : ℕ
  pub height : Option ℕ

pub record View : Type 0 where
  pub boxes : List Box
  pub grid_height : ℕ

-- `Math.round(n / 4)`
abbrev pub round4 : ℕ → ℕ
round4 n = (n + 2) / 4

unfoldable pub left_px : ℕ → Rect → ℕ
left_px cw a = round4 (a.c * pitch4 cw)

-- `w * colW + (w - 1) * GAP` is `w` pitches less one gap.
unfoldable pub width_px : ℕ → Rect → ℕ
width_px cw a = round4 (a.w * pitch4 cw) - gap

unfoldable pub top_px : Rect → ℕ
top_px a = a.r * row_pitch

unfoldable pub height_px : Rect → ℕ
height_px a = a.h * row_pitch - gap

unfoldable pub box_of : ℕ → Card → Box
unfolding left_px width_px top_px height_px
box_of cw c =
    let a = rect_of c in
    record {
      id = c.id;
      left = left_px cw a;
      top = top_px a;
      width = width_px cw a;
      height = some (height_px a);
    }

-- `bottom`, from 0
unfoldable pub bottom_px : List Card → ℕ
bottom_px [] = 0
bottom_px (c ∷ cs) = max (((rect_of c).r + (rect_of c).h) * row_pitch) (bottom_px cs)

-- One column: in reading order, each at its natural height.
unfoldable pub stack_from : ℕ → ℕ → List Card → View
stack_from cw top [] = record { boxes = []; grid_height = top - gap }
stack_from cw top (c ∷ cs) =
    let rest = stack_from cw (top + c.natural_height + gap) cs in
    record {
      boxes = record { id = c.id; left = 0; top = top; width = cw; height = none } ∷ rest.boxes;
      grid_height = rest.grid_height;
    }

unfoldable pub layout : ℕ → List Card → View
layout cw g =
    if column_count cw == 1
    then stack_from cw 0 (sort reads_after (visible g))
    else record { boxes = map (box_of cw) (visible g); grid_height = bottom_px (visible g) - gap }

abbrev pub times4 : ℤ → ℤ
times4 z = z +ℤ z +ℤ (z +ℤ z)

-- `Math.round(x / (colW + GAP))` and `Math.round(y / ROW)`
unfoldable pub col_at : ℕ → ℤ → ℤ
col_at cw x = round_div (times4 x) (pitch4 cw)

unfoldable pub row_at : ℤ → ℤ
row_at y = round_div y row_pitch

-- The cell for a card's top left corner, given in pixels from the corner of the grid.
unfoldable pub cell_at : ℕ → ℤ → ℤ → Rect → Rect
cell_at cw x y a = record {
  c = clamp 0 (cols - a.w) (col_at cw x);
  r = pos_part (row_at y);
  w = a.w;
  h = a.h;
}

-- `Math.round((px + GAP) / (colW + GAP))`, where `px + GAP` is `start.w` pitches and `dx`
unfoldable pub span_at : ℕ → Rect → ℤ → ℤ
span_at cw start dx = round_div (pos (start.w * pitch4 cw) +ℤ times4 dx) (pitch4 cw)

-- The width after the right edge was dragged by `dx`.
unfoldable pub width_after : ℕ → Rect → ℤ → ℕ
width_after cw start dx = clamp 1 (cols - start.c) (span_at cw start dx)

-- The height after the bottom edge was dragged by `dy`, the scrolling of the page included.
unfoldable pub height_after : Rect → ℤ → ℕ
height_after start dy = max min_h (pos_part (row_at (pos (start.h * row_pitch) +ℤ dy)))
