-- ===== src/Grid/Actions.antt =====
-- The handlers of internal/server/web/static/widgets.js, and the handle that `initWidgetGrid`
-- returns: what each does to the cards, to the browser's storage and to the styles.
pub mod Drop
use certguard.Base.{
  ℕ, String, Bool, true, false, not, ◌&&◌, Option, none, some, List, [], ◌∷◌, map, filter, str_eq,
  if◌then◌else◌,
}
use certguard.Base.Int.{ℤ, pos}
use certguard.Grid.Rect.{Rect, RawRect, raw}
use certguard.Grid.Card.{Card, is_visible, rect_of, set_rect, content_rows, by_id, update_card}
use certguard.Grid.Resolve.{resolve_rects}
use certguard.Grid.Compact.{compact}
use certguard.Grid.Place.{place_into_free_space}
use certguard.Grid.Storage.{Stored, save}
use certguard.Grid.Layout.{View, layout, cell_at, width_after, height_after}

-- `grid.clientWidth` and `window.innerHeight`
pub record Window : Type 0 where
  pub cw : ℕ
  pub ih : ℕ

pub record Page : Type 0 where
  pub cards : List Card
  pub stored : Option Stored
  pub view : View

abbrev pub do_save : Page → Page
do_save p = record p { stored = some (save p.cards) }

abbrev pub do_layout : Window → Page → Page
do_layout win p = record p { view = layout win.cw p.cards }

-- `visible().filter((c) => c !== moved)`
abbrev pub is_other : String → Card → Bool
is_other id c = is_visible c && not (str_eq c.id id)

-- `others.forEach((c) => setRect(c, rects.get(c)))`
unfoldable pub write_back : String → List Rect → List Card → List Card
write_back id rects [] = []
write_back id [] (c ∷ cs) = c ∷ cs
write_back id (a ∷ rects) (c ∷ cs) =
    let set = set_rect c (raw a) ∷ write_back id rects cs in
    let kept = c ∷ write_back id (a ∷ rects) cs in if is_other id c then set else kept

-- `resolve(moved)`, on the cards themselves.
unfoldable pub resolve : String → Rect → List Card → List Card
resolve id moved g =
    write_back id (resolve_rects moved (map rect_of (filter (is_other id) g))).rects g

unfoldable pub put_at : String → RawRect → List Card → List Card
put_at id a g = update_card id (λ c. set_rect c a) g

-- `setRect(card, target); resolve(card)`: the handle's `place`, and the end of every drag. The
-- moved card's rectangle is read back from the card.
unfoldable pub place : String → RawRect → List Card → List Card
place id a g = elim (by_id id g) [
  | none ↦ g
  | some c ↦ resolve id (rect_of (set_rect c a)) (put_at id a g)
]

-- `up` at the end of a drag or of a resize, with the target that the moves have computed.
unfoldable pub drop : Window → String → Rect → Page → Page
drop win id target p = do_layout win (do_save (record p { cards = place id (raw target) p.cards }))

-- The targets of the four drags: by the handle, by the right edge, by the bottom edge and by the
-- corner. The distances are those of the last pointer event.
unfoldable pub drag_target : Window → ℤ → ℤ → Rect → Rect
drag_target win x y start = cell_at win.cw x y start

unfoldable pub right_target : Window → ℤ → Rect → Rect
right_target win dx start = record start { w = width_after win.cw start dx }

unfoldable pub bottom_target : ℤ → Rect → Rect
bottom_target dy start = record start { h = height_after start dy }

unfoldable pub corner_target : Window → ℤ → ℤ → Rect → Rect
corner_target win dx dy start = record start {
  w = width_after win.cw start dx;
  h = height_after start dy;
}

-- A double click on the bottom edge: the height of the content, without the cap.
unfoldable pub fit_content : Window → String → Page → Page
fit_content win id p = elim (by_id id p.cards) [
  | none ↦ p
  | some c ↦
      let target = record (rect_of c) { h = content_rows win.ih c false } in
      do_save (do_layout win (record p { cards = place id (raw target) p.cards }))
]

-- `widget-hide`: the card keeps its position.
unfoldable pub hide : Window → String → Page → Page
hide win id p =
    do_layout win
      (do_save (record p { cards = update_card id (λ c. record c { off = true }) p.cards }))

-- What the picker's `add` and the handle's `setHidden(id, false)` do to the cards.
unfoldable pub show_card : Window → String → List Card → List Card
show_card win id g =
    place_into_free_space win.ih id (update_card id (λ c. record c { off = false }) g)

unfoldable pub add : Window → String → Page → Page
add win id p = do_layout win (do_save (record p { cards = show_card win id p.cards }))

unfoldable pub tidy : Window → Page → Page
tidy win p = do_layout win (do_save (record p { cards = compact p.cards }))

-- The handle's `setHidden` and `commit`.
unfoldable pub set_hidden : Window → String → Bool → List Card → List Card
set_hidden win id off g =
    if off then update_card id (λ c. record c { off = true }) g else show_card win id g

unfoldable pub commit : Window → Page → Page
commit win p = do_save (do_layout win p)
