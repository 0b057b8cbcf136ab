-- ===== src/Dashboard/Swipe/Tests.antt =====
-- A run of swipes on two rows.
use certguard.Base.{ℕ, ◌≡◌, refl, true, false, none, some, arith}
use certguard.Base.Int.{pos, negsuc}
use certguard.Dashboard.Swipe.{Rows, pointer_down, pointer_move, finish}
use certguard.Dashboard.Swipe.Bounds.{IsInPlace}
use certguard.Dashboard.Swipe.Steps.{here, step, down, move, up, reach-IsInPlace}

abbrev width : ℕ → ℕ
width r = 100

abbrev still : Rows
still = record {
  is_open = λ r. false;
  offset = λ r. pos 0;
  open_row = none;
  swiped = λ r. false;
  detail = none;
  gesture = λ r. record { base = pos 0; active = false; decided = false; horiz = false };
}

still-IsInPlace : IsInPlace width still
still-IsInPlace = record {
  known = λ r o. absurd cc;
  left = λ r. omega arith;
  right = λ r. omega arith;
}

abbrev swiped : Rows
swiped = finish width 7 (negsuc 79) (
    pointer_down width true 4
      (pointer_move width 7 (negsuc 79) (pos 3) (pointer_down width true 7 still)))

now_open : swiped.open_row ≡ some 7
unfolding finish pointer_move pointer_down
now_open = refl

reach-IsInPlace_example : IsInPlace width swiped
reach-IsInPlace_example =
    reach-IsInPlace width
      (step (step (step (step here (down true 7)) (move 7 (negsuc 79) (pos 3))) (down true 4))
        (up 7 (negsuc 79)))
      still-IsInPlace
