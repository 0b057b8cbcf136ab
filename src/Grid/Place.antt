-- ===== src/Grid/Place.antt =====
-- `placeUnplaced` and `placeIntoFreeSpace` of internal/server/web/static/widgets.js: where a card
-- goes that has no position, or whose position has been taken. `ih` is `window.innerHeight`.
pub mod Below
pub mod Free
use certguard.Base.{
  ℕ, ◌+◌, min, max, String, Bool, true, not, ◌&&◌, ◌||◌, List, [], ◌∷◌, filter, any, str_eq,
  if◌then◌else◌,
}
use certguard.Base.Int.{pos}
use certguard.Grid.Rect.{RawRect, cols, overlaps}
use certguard.Grid.Card.{
  Card, visible, is_visible, is_placed, span_of, row_of, h_of, rect_of, set_rect, content_rows,
  update_card,
}

-- `reduce((m, c) => Math.max(m, rowOf(c) + hOf(c)), 0)`
unfoldable pub bottom_of : List Card → ℕ
unfolding row_of h_of
bottom_of [] = 0
bottom_of (c ∷ cs) = max (row_of c + h_of c) (bottom_of cs)

-- The rectangle at the left edge, below row `bottom`, sized to the card's own content.
unfoldable pub below_all : ℕ → ℕ → Card → RawRect
unfolding span_of content_rows
below_all ih bottom c = record {
  c = pos 0;
  r = pos bottom;
  w = pos (max 1 (min cols (span_of c)));
  h = pos (content_rows ih c true);
}

abbrev pub is_unplaced : Card → Bool
is_unplaced c = is_visible c && not (is_placed c)

-- The body of the loop: the card after it, and the bottom after it.
unfoldable pub place_one : ℕ → ℕ → Card → Card
unfolding below_all set_rect
place_one ih bottom c = if is_unplaced c then set_rect c (below_all ih bottom c) else c

unfoldable pub bottom_after : ℕ → ℕ → Card → ℕ
unfolding place_one h_of
bottom_after ih bottom c = if is_unplaced c then bottom + h_of (place_one ih bottom c) else bottom

unfoldable pub place_loop : ℕ → ℕ → List Card → List Card
place_loop ih bottom [] = []
place_loop ih bottom (c ∷ cs) = place_one ih bottom c ∷ place_loop ih (bottom_after ih bottom c) cs

unfoldable pub place_unplaced : ℕ → List Card → List Card
unfolding bottom_of place_loop
place_unplaced ih g = place_loop ih (bottom_of (filter is_placed (visible g))) g

-- `visible().filter((x) => x !== card)`
abbrev pub others_of : String → List Card → List Card
others_of id g = filter (λ c. not (str_eq c.id id)) (visible g)

unfoldable pub clashes : List Card → Card → Bool
unfolding rect_of
clashes others card =
    not (is_placed card) || any (λ x. is_placed x && overlaps (rect_of card) (rect_of x)) others

unfoldable pub free_space : ℕ → List Card → Card → Card
unfolding clashes bottom_of below_all set_rect
free_space ih others card =
    if clashes others card
    then set_rect card (below_all ih (bottom_of (filter is_placed others)) card)
    else card

unfoldable pub place_into_free_space : ℕ → String → List Card → List Card
unfolding free_space
place_into_free_space ih id g = update_card id (free_space ih (others_of id g)) g
