-- ===== src/Dashboard/Calendar/Steps.antt =====
-- Any sequence of clicks on the calendar of internal/server/web/static/dashboard.js.
use certguard.Base.{ℕ, suc, ◌≤◌, ◌<◌, ◌≡◌, ◌==◌, if-intro, ltb, arith}
use certguard.Base.Int.{ℤ, pos, negsuc, ◌+ℤ◌}
use certguard.Dashboard.Calendar.{
  Day, Dates, View, by_year, by_month, by_day, Calendar, shift_day, prev, next, open_month,
  open_day, zoom_out, wider, move_back, move_on,
}
use certguard.Dashboard.Calendar.Moves.{DatesLaws, IsFocused, IsPlain}

-- One click: the year's view shows the twelve months, and the month's view its days.
pub data Step (dates : Dates) : Calendar → Calendar → Type 0 where
  back : {c : Calendar} → Step dates c (prev dates c)
  on : {c : Calendar} → Step dates c (next dates c)
  month : {c : Calendar} (m : ℕ) → m < 12 → Step dates c (open_month m c)
  day :
      {c : Calendar} (k : ℕ)
      → 1 ≤ k
      → k ≤ dates.days_in_month c.focus.year c.focus.month
      → Step dates c (open_day k c)
  out : {c : Calendar} → Step dates c (zoom_out c)

-- Any sequence of clicks through plain years.
pub data Reach (dates : Dates) (c : Calendar) : Calendar → Type 0 where
  here : Reach dates c c
  step :
      {d e : Calendar} → Reach dates c d → Step dates d e → IsPlain e.focus.year → Reach dates c e

module _ (dates : Dates) (laws : DatesLaws dates) where
  At : View → Day → Type 0
  At v d = IsFocused dates (record { view = v; focus = d })

  shifted :
      (delta : ℤ) (d : Day)
      → IsPlain (shift_day dates delta d).year
      → dates.utc
          (shift_day dates delta d).year
          (shift_day dates delta d).month
          (shift_day dates delta d).date
        ≡ shift_day dates delta d
  unfolding shift_day
  shifted delta d plain = laws.same d.year d.month (d.date +ℤ delta) plain

  back-At :
      (v : View) (d : Day)
      → At v d
      → IsPlain (move_back dates v d).year
      → At v (move_back dates v d)
  unfolding At shift_day
  back-At by_year d h plain = record { month = h.month; real = λ e. absurd cc }
  back-At by_day d h plain = record {
    month = laws.twelve d.year d.month (d.date +ℤ negsuc 0) plain;
    real = λ e. shifted (negsuc 0) d plain;
  }
  back-At by_month d h plain =
      if-intro (At by_month) (d.month == 0)
        (λ e. record { month = ground arith; real = λ k. absurd cc })
        (λ e. record { month = ground (arith, h.month); real = λ k. absurd cc })

  on-At :
      (v : View) (d : Day) → At v d → IsPlain (move_on dates v d).year → At v (move_on dates v d)
  unfolding At shift_day
  on-At by_year d h plain = record { month = h.month; real = λ e. absurd cc }
  on-At by_day d h plain = record {
    month = laws.twelve d.year d.month (d.date +ℤ pos 1) plain;
    real = λ e. shifted (pos 1) d plain;
  }
  on-At by_month d h plain =
      if-intro (At by_month) (ltb 11 (suc d.month))
        (λ e. record { month = ground arith; real = λ k. absurd cc })
        (λ e. record { month = ground (arith, e); real = λ k. absurd cc })

  day-At :
      (d : Day) (k : ℕ)
      → IsPlain d.year
      → d.month < 12
      → 1 ≤ k
      → k ≤ dates.days_in_month d.year d.month
      → At by_day (record d { date = pos k })
  unfolding At
  day-At d k plain m low high = record {
    month = m;
    real = λ e. laws.days d.year d.month k plain m low high;
  }

  wider-At : (v : View) (d : Day) → At v d → At (wider v) d
  unfolding At
  wider-At by_year d h = record { month = h.month; real = λ e. absurd cc }
  wider-At by_month d h = record { month = h.month; real = λ e. absurd cc }
  wider-At by_day d h = record { month = h.month; real = λ e. absurd cc }

  step-IsFocused :
      {c d : Calendar}
      → Step dates c d
      → IsPlain d.focus.year
      → IsFocused dates c
      → IsFocused dates d
  unfolding prev next open_month open_day zoom_out At
  step-IsFocused {c} back plain h = back-At c.view c.focus h plain
  step-IsFocused {c} on plain h = on-At c.view c.focus h plain
  step-IsFocused (month m low) plain h = record { month = low; real = λ e. absurd cc }
  step-IsFocused {c} (day k low high) plain h = day-At c.focus k plain h.month low high
  step-IsFocused {c} out plain h = wider-At c.view c.focus h

  -- Under what the browser documents of its dates, after any sequence of clicks on a focused
  -- calendar through plain years, from 100 to 200000, the month in focus is one of twelve, and a
  -- day's view shows a day that the calendar has.
  pub reach-IsFocused : {c d : Calendar} → Reach dates c d → IsFocused dates c → IsFocused dates d
  reach-IsFocused here h = h
  reach-IsFocused (step before click plain) h =
      step-IsFocused click plain (reach-IsFocused before h)
