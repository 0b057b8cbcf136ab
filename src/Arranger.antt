-- ===== src/Arranger.antt =====
-- internal/server/web/static/layout-editor.js: the miniature of the grid on which cards are placed.
-- It drives the grid through the handle that `initWidgetGrid` returns. The pointer's position is
-- given in cells of the map, as the rounded quotients that `onMove` computes.
pub mod Snapping
pub mod Drag
mod Tests
use certguard.Base.{
  ℕ, ◌+◌, ◌-◌, ◌≤◌, min, max, String, Bool, true, false, not, ◌&&◌, Option, none, some, List, [],
  ◌∷◌, map, filter, find, str_eq, ltb, leb, if◌then◌else◌,
}
use certguard.Base.Int.{ℤ, pos, pos_part, sub_ℕ}
use certguard.Grid.Rect.{cols, raw, Rect, RawRect}
use certguard.Grid.Card.{Card, rect_of}
use certguard.Grid.Actions.{Window, Page, place, set_hidden, commit}

abbrev pub min_rows : ℕ
min_rows = 5

-- What the handle's `cards()` returns for a card.
pub record Tile : Type 0 where
  pub id : String
  pub title : String
  pub col : ℕ
  pub row : ℕ
  pub span : ℕ
  pub rows : ℕ
  pub hidden : Bool

unfoldable pub tile_of : Card → Tile
unfolding rect_of
tile_of c =
    let r = rect_of c in
    record {
      id = c.id;
      title = if str_eq c.title "" then c.id else c.title;
      col = r.c;
      row = r.r;
      span = r.w;
      rows = r.h;
      hidden = c.off;
    }

-- `cards.filter((o) => !o.hidden && o.id !== c.id)`
abbrev pub others : Tile → List Tile → List Tile
others c tiles = filter (λ o. not o.hidden && not (str_eq o.id c.id)) tiles

-- The top and the bottom edge of each of the others, in the order of the two loops.
unfoldable pub lines_of : List Tile → List ℕ
lines_of [] = []
lines_of (o ∷ os) = o.row ∷ (o.row + o.rows) ∷ lines_of os

-- `best` and `bestDist`
pub record Snap : Type 0 where
  pub best : ℤ
  pub dist : ℕ

-- `Math.abs(a - b)`
abbrev pub distance : ℕ → ℕ → ℕ
distance a b = (a - b) + (b - a)

-- `if (d < bestDist) { bestDist = d; best = … }`
unfoldable pub consider : ℕ → ℤ → Snap → Snap
consider d z s = if ltb d s.dist then record { best = z; dist = d } else s

unfoldable pub snap_lines : Tile → ℕ → Snap → List ℕ → Snap
unfolding consider
snap_lines c row s [] = s
snap_lines c row s (ln ∷ lns) =
    snap_lines c row
      (consider (distance (row + c.rows) ln) (sub_ℕ ln c.rows)
        (consider (distance row ln) (pos ln) s))
      lns

unfoldable pub snap_row : List Tile → Tile → ℕ → ℕ
unfolding snap_lines lines_of
snap_row tiles c row =
    pos_part
      (snap_lines c row (record { best = pos row; dist = 4 }) (lines_of (others c tiles))).best

-- `snapHeight`: the bottom edge only, and never to less than the least height.
pub record SnapHeight : Type 0 where
  pub best : ℕ
  pub dist : ℕ

unfoldable pub snap_bottoms : Tile → ℕ → SnapHeight → List ℕ → SnapHeight
snap_bottoms c bottom s [] = s
snap_bottoms c bottom s (ln ∷ lns) =
    snap_bottoms c bottom
      (if ltb (distance bottom ln) s.dist && leb (c.row + min_rows) ln
        then record { best = ln - c.row; dist = distance bottom ln }
        else s)
      lns

unfoldable pub snap_height : List Tile → Tile → ℕ → ℕ
unfolding snap_bottoms lines_of
snap_height tiles c rows =
    max min_rows
      (snap_bottoms c (c.row + rows) (record { best = rows; dist = 4 })
        (lines_of (others c tiles))).best

-- `onMove` at the corner: `x` and `y` are the edge's column and row, from the corner of the map.
unfoldable pub drag_corner : List Tile → Tile → ℤ → ℤ → Tile
unfolding snap_height
drag_corner tiles c x y =
    let rows = max min_rows (pos_part y - c.row) in
    record c {
      span = max 1 (min (cols - c.col) (pos_part x - c.col));
      rows = snap_height tiles c rows;
    }

-- `onMove` anywhere else: `x` and `y` are those of the tile's own corner.
unfoldable pub drag_tile : List Tile → Tile → ℤ → ℤ → Tile
unfolding snap_row
drag_tile tiles c x y = record c {
  col = max 0 (min (cols - c.span) (pos_part x));
  row = snap_row tiles c (pos_part y);
}

pub data Key : Type 0 where
  arrow_left : Key
  arrow_right : Key
  arrow_up : Key
  arrow_down : Key
  other_key : Key

-- `onKey` up to `commit`: `none` for a key that is not handled.
unfoldable pub on_key : Bool → Key → Tile → Option Tile
on_key shift arrow_left c = some (record c { col = c.col - 1 })
on_key shift arrow_right c = some (record c { col = min (cols - c.span) (c.col + 1) })
on_key shift arrow_up c = some (record c { row = c.row - (if shift then 4 else 1) })
on_key shift arrow_down c = some (record c { row = c.row + (if shift then 4 else 1) })
on_key shift other_key c = none

-- The editor's copy of the cards, and the page behind it.
pub record Editor : Type 0 where
  pub cards : List Tile
  pub page : Page

unfoldable pub re_read : Page → Editor
unfolding tile_of
re_read p = record { cards = map tile_of p.cards; page = p }

unfoldable pub commit_tile : Window → Tile → Editor → Editor
unfolding re_read commit
commit_tile win c e =
    let rect = raw (record { c = c.col; r = c.row; w = c.span; h = c.rows }) in
    re_read (commit win (record e.page { cards = place c.id rect e.page.cards }))

unfoldable pub toggle_vis : Window → String → Editor → Editor
unfolding re_read commit
toggle_vis win id e = elim (find (λ (c : Tile). str_eq c.id id) e.cards) [
  | none ↦ e
  | some c ↦
      re_read (commit win (record e.page { cards = set_hidden win id (not c.hidden) e.page.cards }))
]
