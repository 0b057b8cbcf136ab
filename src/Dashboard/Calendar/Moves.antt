-- ===== src/Dashboard/Calendar/Moves.antt =====
-- Moving through the calendar of internal/server/web/static/dashboard.js.
use certguard.Base.{ℕ, zero, suc, ◌-◌, ◌≤◌, ◌<◌, ◌≡◌, refl, ap, ◌∙◌, ◌==◌, if-intro, ltb, arith}
use certguard.Base.Int.{ℤ, pos, negsuc, ◌+ℤ◌, ◌-ℤ◌, ◌≤ℤ◌}
use certguard.Dashboard.Calendar.{
  Day, Dates, View, by_year, by_month, by_day, Calendar, shift_day, move_back, move_on, prev, next,
}

-- Years that `Date.UTC` takes as they are: below 100 it adds 1900 to those from 0 on, and times far
-- beyond the last of these are none.
abbrev pub IsPlain : ℤ → Type 0
IsPlain y = (pos 100 ≤ℤ y) × (y ≤ℤ pos 200000)

-- What the browser documents of `Date.UTC`, in plain years: a shift of a shifted day is the shift by
-- the sum, a day that it has made or that a month has is itself, and a month is one of twelve.
pub record DatesLaws (dates : Dates) : Type 0 where
  pub shift :
      (y : ℤ) (m : ℕ) (d : ℤ) (delta : ℤ)
      → IsPlain (dates.utc y m d).year
      → let day = dates.utc y m d in
        dates.utc day.year day.month (day.date +ℤ delta) ≡ dates.utc y m (d +ℤ delta)
  pub same :
      (y : ℤ) (m : ℕ) (d : ℤ)
      → IsPlain (dates.utc y m d).year
      → let day = dates.utc y m d in dates.utc day.year day.month day.date ≡ day
  pub days :
      (y : ℤ) (m k : ℕ)
      → IsPlain y
      → m < 12
      → 1 ≤ k
      → k ≤ dates.days_in_month y m
      → dates.utc y m (pos k) ≡ record { year = y; month = m; date = pos k }
  pub twelve :
      (y : ℤ) (m : ℕ) (d : ℤ) → IsPlain (dates.utc y m d).year → (dates.utc y m d).month < 12

succ : ℤ → ℤ
succ (pos n) = pos (suc n)
succ (negsuc zero) = pos 0
succ (negsuc (suc n)) = negsuc n

pred : ℤ → ℤ
pred (pos zero) = negsuc 0
pred (pos (suc n)) = pos n
pred (negsuc n) = negsuc (suc n)

plus_one : (a : ℤ) → a +ℤ pos 1 ≡ succ a
unfolding succ
plus_one (pos n) = ground arith
plus_one (negsuc zero) = refl
plus_one (negsuc (suc n)) = ground arith

minus_one : (a : ℤ) → a -ℤ pos 1 ≡ pred a
unfolding pred
minus_one (pos zero) = refl
minus_one (pos (suc n)) = ground arith
minus_one (negsuc n) = ground arith

minus_neg : (a : ℤ) → a +ℤ negsuc 0 ≡ pred a
unfolding pred
minus_neg (pos zero) = refl
minus_neg (pos (suc n)) = ground arith
minus_neg (negsuc n) = ground arith

pred-succ : (a : ℤ) → pred (succ a) ≡ a
unfolding pred succ
pred-succ (pos n) = refl
pred-succ (negsuc zero) = refl
pred-succ (negsuc (suc n)) = refl

succ-pred : (a : ℤ) → succ (pred a) ≡ a
unfolding pred succ
succ-pred (pos zero) = refl
succ-pred (pos (suc n)) = refl
succ-pred (negsuc n) = refl

pub plus_minus : (a : ℤ) → (a +ℤ pos 1) -ℤ pos 1 ≡ a
plus_minus a = minus_one (a +ℤ pos 1) ∙ ap pred (plus_one a) ∙ pred-succ a

pub minus_plus : (a : ℤ) → (a -ℤ pos 1) +ℤ pos 1 ≡ a
minus_plus a = plus_one (a -ℤ pos 1) ∙ ap succ (minus_one a) ∙ succ-pred a

plus_neg : (a : ℤ) → (a +ℤ pos 1) +ℤ negsuc 0 ≡ a
plus_neg a = minus_neg (a +ℤ pos 1) ∙ ap pred (plus_one a) ∙ pred-succ a

neg_plus : (a : ℤ) → (a +ℤ negsuc 0) +ℤ pos 1 ≡ a
neg_plus a = plus_one (a +ℤ negsuc 0) ∙ ap succ (minus_neg a) ∙ succ-pred a

-- The month is one of twelve, and what the day's view shows is a day of the calendar.
pub record IsFocused (dates : Dates) (c : Calendar) : Type 0 where
  pub month : c.focus.month < 12
  pub real : c.view ≡ by_day → dates.utc c.focus.year c.focus.month c.focus.date ≡ c.focus

module _ (dates : Dates) (laws : DatesLaws dates) where
  -- There and back, for two shifts that undo each other.
  shift-shift :
      (there back : ℤ) (d : Day)
      → ((a : ℤ) → (a +ℤ there) +ℤ back ≡ a)
      → dates.utc d.year d.month d.date ≡ d
      → IsPlain (shift_day dates there d).year
      → shift_day dates back (shift_day dates there d) ≡ d
  unfolding shift_day
  shift-shift there back d undo real plain =
      laws.shift d.year d.month (d.date +ℤ there) back plain
      ∙ ap (λ z. dates.utc d.year d.month z) (undo d.date)
      ∙ real

  IsAt : Day → Day → Type 0
  IsAt d e =
      ◌≡◌ {A = Calendar} (record { view = by_month; focus = e })
        (record { view = by_month; focus = d })

  IsAt-month :
      (d : Day) (y : ℤ) (m : ℕ)
      → y ≡ d.year
      → m ≡ d.month
      → IsAt d (record { year = y; month = m; date = d.date })
  unfolding IsAt
  IsAt-month d y m p q =
      ap (λ y. record { view = by_month; focus = record { year = y; month = m; date = d.date } }) p
      ∙ ap
          (λ m. record {
            view = by_month;
            focus = record { year = d.year; month = m; date = d.date };
          })
          q

  view-prev-next :
      (v : View) (d : Day)
      → IsFocused dates (record { view = v; focus = d })
      → IsPlain (move_on dates v d).year
      → IsPlain (move_back dates v d).year
      → let c : Calendar = record { view = v; focus = d } in
        ((prev dates (next dates c) ≡ c) × (next dates (prev dates c) ≡ c))
  unfolding prev next IsAt
  view-prev-next by_year d h on back = (
    ap (λ y. record { view = by_year; focus = record d { year = y } }) (plus_minus d.year),
    ap (λ y. record { view = by_year; focus = record d { year = y } }) (minus_plus d.year),
  )
  view-prev-next by_day d h on back = (
    ap (λ e. record { view = by_day; focus = e })
        (shift-shift (pos 1) (negsuc 0) d plus_neg (h.real refl) on),
    ap (λ e. record { view = by_day; focus = e })
        (shift-shift (negsuc 0) (pos 1) d neg_plus (h.real refl) back),
  )
  view-prev-next by_month d h on back = (
    if-intro (λ e. IsAt d (move_back dates by_month e)) (ltb 11 (suc d.month))
        (λ e.
          IsAt-month d (d.year +ℤ pos 1 -ℤ pos 1) 11 (plus_minus d.year) (ground (arith, last, e)))
        (λ _.
          if-intro (IsAt d) (suc d.month == 0) (λ e. absurd (ground (arith, e)))
            (λ _. IsAt-month d d.year (suc d.month - 1) refl (omega arith))),
    if-intro (λ e. IsAt d (move_on dates by_month e)) (d.month == 0)
        (λ e. IsAt-month d (d.year -ℤ pos 1 +ℤ pos 1) 0 (minus_plus d.year) (ground (arith, e)))
        (λ e.
          if-intro (IsAt d) (ltb 11 (suc (d.month - 1))) (λ f. absurd (ground (arith, last, f, e)))
            (λ _. IsAt-month d d.year (suc (d.month - 1)) refl (ground (arith, e)))),
  )
    where
      last : d.month < 12
      last = h.month

  -- Under what the browser documents of its dates, from a focused calendar, in each view, going on
  -- and then back, or back and then on, leads to where it was, where the years between are plain,
  -- from 100 to 200000.
  pub prev-next :
      (c : Calendar)
      → IsFocused dates c
      → IsPlain (next dates c).focus.year
      → IsPlain (prev dates c).focus.year
      → (prev dates (next dates c) ≡ c) × (next dates (prev dates c) ≡ c)
  unfolding prev next
  prev-next c h on back = view-prev-next c.view c.focus h on back
