-- ===== src/Dashboard/Swipe/Steps.antt =====
-- Any sequence of pointer events on the rows of internal/server/web/static/dashboard.js.
use certguard.Base.{ℕ, Bool, not, ◌&&◌, Option, none, some, if-intro, ltb, true}
use certguard.Base.Int.{ℤ, ◌+ℤ◌, ltb_ℤ, abs}
use certguard.Dashboard.Swipe.{
  Rows, minus, pointer_down, pointer_move, finish, forget_swiped, close_open, press, click_row,
}
use certguard.Dashboard.Swipe.Bounds.{
  IsInPlace, close_swipe-IsInPlace, open_swipe-IsInPlace, slide-IsInPlace,
}

pub data Step (reveal : ℕ → ℕ) : Rows → Rows → Type 0 where
  down : {p : Rows} (enabled : Bool) (r : ℕ) → Step reveal p (pointer_down reveal enabled r p)
  move : {p : Rows} (r : ℕ) (dx dy : ℤ) → Step reveal p (pointer_move reveal r dx dy p)
  up : {p : Rows} (r : ℕ) (dx : ℤ) → Step reveal p (finish reveal r dx p)
  forget : {p : Rows} (r : ℕ) → Step reveal p (forget_swiped r p)
  outside : {p : Rows} (inside : Bool) → Step reveal p (press inside p)
  click : {p : Rows} (r : ℕ) → Step reveal p (click_row r p)

pub data Reach (reveal : ℕ → ℕ) (p : Rows) : Rows → Type 0 where
  here : Reach reveal p p
  step : {q r : Rows} → Reach reveal p q → Step reveal q r → Reach reveal p r

module _ (reveal : ℕ → ℕ) where
  In : Rows → Type 0
  In = IsInPlace reveal

  move-IsInPlace : (r : ℕ) (dx dy : ℤ) (p : Rows) → In p → In (pointer_move reveal r dx dy p)
  unfolding pointer_move In
  move-IsInPlace r dx dy p h =
      if-intro In (not (p.gesture r).active) (λ _. h)
        (λ _.
          if-intro In (p.gesture r).decided (λ _. slide-IsInPlace reveal r dx (p.gesture r) p h)
            (λ _.
              if-intro In (ltb (abs dx) 8 && ltb (abs dy) 8) (λ _. h)
                (λ _.
                  slide-IsInPlace reveal r dx
                    (record (p.gesture r) { decided = true; horiz = ltb (abs dy) (abs dx) }) _
                    (record { known = h.known; left = h.left; right = h.right }))))

  finish-IsInPlace : (r : ℕ) (dx : ℤ) (p : Rows) → In p → In (finish reveal r dx p)
  unfolding finish In
  finish-IsInPlace r dx p h =
      let g = p.gesture r in
      let t = g.base +ℤ dx in
      if-intro In (not g.active) (λ _. h)
        (λ _.
          if-intro In (not g.horiz)
            (λ _. record { known = h.known; left = h.left; right = h.right })
            (λ _.
              if-intro In (ltb_ℤ (t +ℤ t) (minus (reveal r)))
                (λ _.
                  open_swipe-IsInPlace reveal r _
                    (record { known = h.known; left = h.left; right = h.right }))
                (λ _.
                  close_swipe-IsInPlace reveal r _
                    (record { known = h.known; left = h.left; right = h.right }))))

  close_open-IsInPlace : (o : Option ℕ) (p : Rows) → In p → In (close_open o p)
  unfolding In
  close_open-IsInPlace none p h = h
  close_open-IsInPlace (some o) p h = close_swipe-IsInPlace reveal o p h

  step-IsInPlace : {p q : Rows} → Step reveal p q → In p → In q
  unfolding pointer_down forget_swiped press click_row In
  step-IsInPlace {p} (down enabled r) h =
      if-intro In (not enabled) (λ _. h)
        (λ _. record { known = h.known; left = h.left; right = h.right })
  step-IsInPlace {p} (move r dx dy) h = move-IsInPlace r dx dy p h
  step-IsInPlace {p} (up r dx) h = finish-IsInPlace r dx p h
  step-IsInPlace (forget r) h = record { known = h.known; left = h.left; right = h.right }
  step-IsInPlace {p} (outside inside) h =
      if-intro In inside (λ _. h) (λ _. close_open-IsInPlace p.open_row p h)
  step-IsInPlace {p} (click r) h =
      if-intro In (p.swiped r) (λ _. h)
        (λ _.
          if-intro In (p.is_open r) (λ _. close_swipe-IsInPlace reveal r p h)
            (λ _. record { known = h.known; left = h.left; right = h.right }))

  -- After any sequence of pointer events on any rows, also with several pointers at once, from a page
  -- of which it holds, at most one row is open, the one
  -- that the page knows of, and every row stands between its place and as far aside as its actions
  -- are wide.
  pub reach-IsInPlace : {p q : Rows} → Reach reveal p q → IsInPlace reveal p → IsInPlace reveal q
  unfolding In
  reach-IsInPlace here h = h
  reach-IsInPlace (step r s) h = step-IsInPlace s (reach-IsInPlace r h)
