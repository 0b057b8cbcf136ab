-- ===== src/Nav.antt =====
-- internal/server/web/static/nav.js: the links of the top bar and the menu that holds them.
pub mod Phases
pub mod Links
mod Tests
use certguard.Base.{ℕ, Bool, true, false, not, ◌&&◌, List, [], ◌∷◌, ◌++◌, any, if◌then◌else◌}
use certguard.Base.Text.{Text, same, starts}

-- The class and the attribute that `setOpen` writes, `pinned`, whether the timer of `closeTimer` is
-- running, and whether the trigger was given the focus.
pub record Menu : Type 0 where
  pub is_open : Bool
  pub expanded : Bool
  pub pinned : Bool
  pub closing : Bool
  pub refocused : Bool

-- What the page reports. The pointer enters and leaves the whole menu, and a click or a new focus
-- is `inside` when the menu contains it.
pub data Event : Type 0 where
  click_trigger : Event
  enter : Event
  leave : Event
  time_out : Event
  click_page : Bool → Event
  escape : Event
  focus_out : Bool → Event
  click_link : Event

abbrev pub fresh : Menu
fresh = record {
  is_open = false;
  expanded = false;
  pinned = false;
  closing = false;
  refocused = false;
}

unfoldable pub set_open : Bool → Menu → Menu
set_open b m = record m { is_open = b; expanded = b }

unfoldable pub open_menu : Menu → Menu
unfolding set_open
open_menu m = set_open true (record m { closing = false })

unfoldable pub close_menu : Menu → Menu
unfolding set_open
close_menu m = set_open false (record m { closing = false; pinned = false })

-- The listeners. Those of the pointer are there only where hovering is real.
module _ (can_hover : Bool) where
  unfoldable pub handle : Event → Menu → Menu
  unfolding open_menu close_menu
  handle click_trigger m = if m.pinned then close_menu m else open_menu (record m { pinned = true })
  handle enter m = if can_hover then open_menu m else m
  handle leave m = if can_hover && not m.pinned then record m { closing = true } else m
  handle time_out m = if m.closing then close_menu m else m
  handle (click_page inside) m = if inside then m else close_menu m
  handle escape m = if m.is_open then record (close_menu m) { refocused = true } else m
  handle (focus_out inside) m = if inside then m else close_menu m
  handle click_link m = close_menu m

  unfoldable pub run : List Event → Menu → Menu
  unfolding handle
  run [] m = m
  run (e ∷ es) m = run es (handle e m)

-- `itemHtml`: "/" is current only when exact.
unfoldable pub is_current : Text → Text → Bool
is_current href path = if same href (47 ∷ []) then same path (47 ∷ []) else starts href path

-- The links of the panel, in order.
unfoldable pub nav_add_item : Text → List Text → List Text
nav_add_item href links = if any (same href) links then links else links ++ (href ∷ [])
