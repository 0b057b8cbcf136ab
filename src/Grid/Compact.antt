-- ===== src/Grid/Compact.antt =====
-- `compact` of internal/server/web/static/widgets.js, the Tidy button: every card rises until it
-- rests on what is above it in its own columns.
pub mod Stack
pub mod Rise
pub mod Cards
use certguard.Base.{
  ℕ, ◌+◌, String, Bool, ◌&&◌, ◌||◌, Option, none, some, List, [], ◌∷◌, map, filter, ltb, ◌==◌,
  str_eq, if◌then◌else◌,
}
use certguard.Base.Sort.{sort}
use certguard.Grid.Rect.{Rect, raw}
use certguard.Grid.Card.{Card, is_visible, is_placed, row_of, col_of, rect_of, set_rect}
use certguard.Grid.Columns.{Columns, empty_columns, top_over, fill_over}

-- The comparator `rowOf(a) - rowOf(b) || colOf(a) - colOf(b)` is positive.
unfoldable pub reads_after : Card → Card → Bool
reads_after a b = ltb (row_of b) (row_of a) || (row_of a == row_of b && ltb (col_of b) (col_of a))

abbrev pub is_packed : Card → Bool
is_packed c = is_visible c && is_placed c

-- The row where a rectangle comes to rest, and the columns below it.
unfoldable pub rest_at : Columns → Rect → Rect
unfolding top_over
rest_at bottoms a = record a { r = top_over bottoms 0 a.c a.w }

unfoldable pub fill_below : Columns → Rect → Columns
unfolding fill_over
fill_below bottoms a = fill_over bottoms (a.r + a.h) a.c a.w

-- The loop over the cards in reading order: the rectangle that each is set to.
unfoldable pub settle_all : Columns → List Rect → List Rect
unfolding rest_at fill_below
settle_all bottoms [] = []
settle_all bottoms (a ∷ rest) =
    let a' = rest_at bottoms a in a' ∷ settle_all (fill_below bottoms a') rest

-- The same with the cards, which the source changes in place: each is read before it is set.
abbrev pub Placements : Type 0
Placements = List (String × Rect)

unfoldable pub placements : Columns → List Card → Placements
unfolding rest_at fill_below rect_of
placements bottoms [] = []
placements bottoms (c ∷ cs) =
    let a' = rest_at bottoms (rect_of c) in (c.id, a') ∷ placements (fill_below bottoms a') cs

unfoldable pub placement_of : String → Placements → Option Rect
placement_of id [] = none
placement_of id ((k, a) ∷ ps) = if str_eq k id then some a else placement_of id ps

unfoldable pub put_back : Placements → Card → Card
unfolding placement_of set_rect
put_back ps c =
    if is_packed c
    then (elim (placement_of c.id ps) [ none ↦ c | some a ↦ set_rect c (raw a) ])
    else c

abbrev pub packed : List Card → List Card
packed g = filter is_packed g

unfoldable pub compact : List Card → List Card
unfolding placements put_back reads_after sort row_of col_of
compact g = map (put_back (placements empty_columns (sort reads_after (packed g)))) g
