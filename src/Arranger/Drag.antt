-- ===== src/Arranger/Drag.antt =====
-- Where the drags and the keys of internal/server/web/static/layout-editor.js may put a tile.
use certguard.Base.{◌+◌, ◌≤◌, Bool, Option, none, some, List, arith}
use certguard.Base.Int.{ℤ}
use certguard.Grid.Rect.{cols}
use certguard.Arranger.{
  Tile, Key, arrow_left, arrow_right, arrow_up, arrow_down, other_key, drag_corner, drag_tile,
  on_key, min_rows, snap_height,
}

-- A tile within the four columns, of the least height at least.
pub record IsInMap (c : Tile) : Type 0 where
  pub wide : 1 ≤ c.span
  pub inside : c.col + c.span ≤ cols
  pub tall : min_rows ≤ c.rows

-- Wherever the pointer goes, a tile that is in the map stays in it, moved or resized.
pub drag-IsInMap :
    (tiles : List Tile) (c : Tile) (x y : ℤ)
    → IsInMap c
    → IsInMap (drag_tile tiles c x y) × IsInMap (drag_corner tiles c x y)
unfolding drag_tile drag_corner snap_height
drag-IsInMap tiles c x y v = (ground arith, ground arith)

-- What a key makes of the tile, where it makes anything.
abbrev pub KeyIsInMap : Option Tile → Type 0
KeyIsInMap none = Unit
KeyIsInMap (some c) = IsInMap c

-- A tile that is in the map stays in it when an arrow key moves it, with Shift or without.
pub on_key-IsInMap : (shift : Bool) (k : Key) (c : Tile) → IsInMap c → KeyIsInMap (on_key shift k c)
unfolding on_key
on_key-IsInMap shift arrow_left c v = ground arith
on_key-IsInMap shift arrow_right c v = ground arith
on_key-IsInMap shift arrow_up c v = ground arith
on_key-IsInMap shift arrow_down c v = ground arith
on_key-IsInMap shift other_key c v = tt
