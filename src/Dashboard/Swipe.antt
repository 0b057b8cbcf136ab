-- ===== src/Dashboard/Swipe.antt =====
-- Swiping a row of the list of internal/server/web/static/dashboard.js aside to reach its actions.
-- Rows are numbers; how wide a row's actions are is the function `reveal`, 0 where there are none.
pub mod Bounds
pub mod Steps
mod Tests
use certguard.Base.{
  ℕ, ◌+◌, Bool, true, false, not, ◌&&◌, ◌||◌, ◌==◌, Option, none, some, if◌then◌else◌, ltb,
}
use certguard.Base.Int.{ℤ, pos, negsuc, ◌+ℤ◌, ◌-ℤ◌, ltb_ℤ, abs}

-- The variables of a row's `attachSwipe`; the distances of later events are from where its last press
-- was.
pub record Gesture : Type 0 where
  pub base : ℤ
  pub active : Bool
  pub decided : Bool
  pub horiz : Bool

-- The rows' classes and offsets, `openRow`, the rows that ignore the next click, the row whose popup
-- a click has asked for, and each row's gesture.
pub record Rows : Type 0 where
  pub is_open : ℕ → Bool
  pub offset : ℕ → ℤ
  pub open_row : Option ℕ
  pub swiped : ℕ → Bool
  pub detail : Option ℕ
  pub gesture : ℕ → Gesture

abbrev pub put {ℓ} : {A : Type ℓ} → ℕ → A → (ℕ → A) → ℕ → A
put r v f q = if q == r then v else f q

abbrev pub is_row : ℕ → Option ℕ → Bool
is_row r none = false
is_row r (some o) = o == r

abbrev pub minus : ℕ → ℤ
minus n = pos 0 -ℤ pos n

unfoldable pub close_swipe : ℕ → Rows → Rows
close_swipe r p = record p {
  is_open = put r false p.is_open;
  offset = put r (pos 0) p.offset;
  open_row = if is_row r p.open_row then none else p.open_row;
}

abbrev pub close_other : ℕ → Option ℕ → Rows → Rows
close_other r none p = p
close_other r (some o) p = if o == r then p else close_swipe o p

module _ (reveal : ℕ → ℕ) where
  unfoldable pub open_swipe : ℕ → Rows → Rows
  unfolding close_swipe
  open_swipe r p =
      let q = close_other r p.open_row p in
      if reveal r == 0 then p else record q {
        is_open = put r true q.is_open;
        offset = put r (minus (reveal r)) q.offset;
        open_row = some r;
      }

  -- `enabled`: the actions are there, and a mouse presses its first button.
  unfoldable pub pointer_down : Bool → ℕ → Rows → Rows
  pointer_down enabled r p = if not enabled then p else record p {
    gesture =
        put r
          (record {
            base = if p.is_open r then minus (reveal r) else pos 0;
            active = true;
            decided = false;
            horiz = false;
          })
          p.gesture;
  }

  -- `Math.max(-reveal, Math.min(0, x))`
  abbrev pub clamp : ℕ → ℤ → ℤ
  clamp r x =
      if ltb_ℤ (pos 0) x then pos 0 else if ltb_ℤ x (minus (reveal r)) then minus (reveal r) else x

  -- The rest of a move, with the row's gesture.
  abbrev pub slide : ℕ → ℤ → Gesture → Rows → Rows
  slide r dx g p =
      if not g.horiz then p else record p { offset = put r (clamp r (g.base +ℤ dx)) p.offset }

  unfoldable pub pointer_move : ℕ → ℤ → ℤ → Rows → Rows
  pointer_move r dx dy p =
      let g = p.gesture r in
      let decided = record g { decided = true; horiz = ltb (abs dy) (abs dx) } in
      if not g.active
      then p
      else if g.decided
      then slide r dx g p
      else if ltb (abs dx) 8 && ltb (abs dy) 8
      then p
      else slide r dx decided (record p { gesture = put r decided p.gesture })

  unfoldable pub finish : ℕ → ℤ → Rows → Rows
  unfolding open_swipe
  finish r dx p =
      let g = p.gesture r in
      let ended = record p { gesture = put r (record g { active = false }) p.gesture } in
      let flagged = record ended { swiped = put r true p.swiped } in
      let t = g.base +ℤ dx in
      if not g.active
      then p
      else if not g.horiz
      then ended
      else if ltb_ℤ (t +ℤ t) (minus (reveal r))
      then open_swipe r flagged
      else close_swipe r flagged

-- The flag goes after a moment.
unfoldable pub forget_swiped : ℕ → Rows → Rows
forget_swiped r p = record p { swiped = put r false p.swiped }

-- A press anywhere: `inside` tells whether it is in the open row.
abbrev pub close_open : Option ℕ → Rows → Rows
close_open none p = p
close_open (some o) p = close_swipe o p

unfoldable pub press : Bool → Rows → Rows
unfolding close_swipe
press inside p = if inside then p else close_open p.open_row p

-- A click on a row outside its controls.
unfoldable pub click_row : ℕ → Rows → Rows
unfolding close_swipe
click_row r p =
    if p.swiped r then p else if p.is_open r then close_swipe r p else record p { detail = some r }
