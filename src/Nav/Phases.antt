-- ===== src/Nav/Phases.antt =====
-- The menu of internal/server/web/static/nav.js as a machine of four phases.
use certguard.Base.{
  ◌≡◌, refl, Bool, true, false, not, ◌&&◌, List, [], ◌∷◌, All, if◌then◌else◌, arith,
}
use certguard.Nav.{
  Menu, Event, click_trigger, enter, leave, time_out, click_page, escape, focus_out, click_link,
  open_menu, close_menu, set_open, handle, run,
}

pub data Phase : Type 0 where
  shut : Phase
  hovered : Phase
  leaving : Phase
  held : Phase

-- What the menu promises: a click holds it open until another click, Escape or a step away, and
-- hovering alone opens it only for as long as the pointer stays.
abbrev pub next : Bool → Event → Phase → Phase
next can_hover click_trigger held = shut
next can_hover click_trigger _ = held
next can_hover enter held = held
next can_hover enter p = if can_hover then hovered else p
next can_hover leave hovered = if can_hover then leaving else hovered
next can_hover leave p = p
next can_hover time_out leaving = shut
next can_hover time_out p = p
next can_hover (click_page inside) p = if inside then p else shut
next can_hover escape p = shut
next can_hover (focus_out inside) p = if inside then p else shut
next can_hover click_link p = shut

abbrev pub follow : Bool → List Event → Phase → Phase
follow can_hover [] p = p
follow can_hover (e ∷ es) p = follow can_hover es (next can_hover e p)

abbrev pub phase : Menu → Phase
phase m =
    if m.pinned
    then held
    else if not m.is_open
    then shut
    else if m.closing
    then leaving
    else hovered

-- The attribute tells whether the menu is open, and a pinned menu is open and no timer runs.
pub record IsSteady (m : Menu) : Type 0 where
  pub told : m.expanded ≡ m.is_open
  pub up : m.pinned ≡ true → m.is_open ≡ true
  pub calm : m.pinned ≡ true → m.closing ≡ false

handle-IsSteady :
    (can_hover : Bool) (e : Event) (m : Menu) → IsSteady m → IsSteady (handle can_hover e m)
unfolding handle open_menu close_menu set_open
handle-IsSteady can_hover e m h = record {
  told = ground (arith, h.told);
  up = ground (arith, h.up);
  calm = ground (arith, h.calm);
}

handle-phase :
    (can_hover : Bool) (e : Event) (m : Menu)
    → IsSteady m
    → phase (handle can_hover e m) ≡ next can_hover e (phase m)
unfolding handle open_menu close_menu set_open
handle-phase can_hover e m h = ground arith

run-IsSteady :
    (can_hover : Bool) (es : List Event) (m : Menu) → IsSteady m → IsSteady (run can_hover es m)
unfolding run
run-IsSteady can_hover [] m h = h
run-IsSteady can_hover (e ∷ es) m h =
    run-IsSteady can_hover es (handle can_hover e m) (handle-IsSteady can_hover e m h)

-- Whatever the listeners are called with, in any order, from a steady menu, the menu is in the
-- phase to which its contract leads, and again steady.
pub run-follow :
    (can_hover : Bool) (es : List Event) (m : Menu)
    → IsSteady m
    → (phase (run can_hover es m) ≡ follow can_hover es (phase m)) × IsSteady (run can_hover es m)
unfolding run
run-follow can_hover [] m h = (refl, h)
run-follow can_hover (e ∷ es) m h =
    let rest = run-follow can_hover es (handle can_hover e m) (handle-IsSteady can_hover e m h) in
    (rw (← handle-phase can_hover e m h) rest.0, rest.1)

-- The pointer does not come back and the trigger is not clicked.
abbrev pub IsAway : Event → Type 0
IsAway enter = ⊥
IsAway click_trigger = ⊥
IsAway _ = Unit

-- An unpinned menu that the pointer has left: shut, or with the timer running.
abbrev Ebbs : Menu → Type 0
Ebbs m = (m.pinned ≡ false) × (m.is_open && not m.closing ≡ false)

handle-Ebbs :
    (can_hover : Bool) (e : Event) (m : Menu) → IsAway e → Ebbs m → Ebbs (handle can_hover e m)
unfolding handle close_menu set_open
handle-Ebbs can_hover e m away h = (ground (arith, h.0, h.1), ground (arith, h.0, h.1))

run-Ebbs :
    (can_hover : Bool) (es : List Event) (m : Menu)
    → All IsAway es
    → Ebbs m
    → Ebbs (run can_hover es m)
unfolding run
run-Ebbs can_hover [] m away h = h
run-Ebbs can_hover (e ∷ es) m away h =
    run-Ebbs can_hover es (handle can_hover e m) away.1 (handle-Ebbs can_hover e m away.0 h)

time_out-shuts :
    (can_hover : Bool) (m : Menu) → Ebbs m → (handle can_hover time_out m).is_open ≡ false
unfolding handle close_menu set_open
time_out-shuts can_hover m h = ground (arith, h.0, h.1)

left_behind : (m : Menu) → m.pinned ≡ false → Ebbs (handle true leave m)
unfolding handle
left_behind m u = (ground (arith, u), ground (arith, u))

-- Where hovering is real, an unpinned menu that the pointer leaves is shut once the timer has run, whatever
-- else happens before, unless the pointer comes back or the trigger is clicked.
pub leave-shuts :
    (es : List Event) (m : Menu)
    → m.pinned ≡ false
    → All IsAway es
    → (handle true time_out (run true es (handle true leave m))).is_open ≡ false
unfolding handle
leave-shuts es m u away =
    time_out-shuts true (run true es (handle true leave m))
      (run-Ebbs true es (handle true leave m) away (left_behind m u))
