-- ===== src/Timeline/Months.antt =====
-- Turning the pages of the timeline of internal/server/web/static/timeline.js.
use certguard.Base.{ℕ, suc, ◌+◌, ◌-◌, ◌/◌, ◌%◌, ◌<◌, ◌≡◌, refl, ap, sym, ◌∙◌, arith}
use certguard.Base.Int.{ℤ, pos, negsuc, ◌+ℤ◌, ◌-ℤ◌}
use certguard.Dashboard.Calendar.{Dates}
use certguard.Dashboard.Calendar.Moves.{plus_minus, minus_plus}
use certguard.Timeline.{Month, utc_month, Timeline, render_detail, render, shift_months}

month_from :
    (y z : ℤ) (m n : ℕ)
    → y ≡ z
    → m ≡ n
    → ◌≡◌ {A = Month} (record { year = y; month = m }) (record { year = z; month = n })
month_from y z m n p q = cc

year_ago : (m : ℕ) → m < 12 → pos m +ℤ negsuc 11 ≡ negsuc (11 - m)
year_ago m h = ground (arith, h)

year_on : (m : ℕ) → pos m +ℤ pos 12 ≡ pos (m + 12)
year_on m = ground arith

-- A year later and a year earlier in the same month.
later :
    (y : ℤ) (m : ℕ)
    → m < 12
    → utc_month y (pos m +ℤ pos 12) ≡ record { year = y +ℤ pos 1; month = m }
later y m h =
    ap (utc_month y) (year_on m)
    ∙ month_from (y +ℤ pos ((m + 12) / 12)) (y +ℤ pos 1) ((m + 12) % 12) m
        (ap (λ q. y +ℤ pos q) (omega (arith, h))) (omega (arith, h))

earlier :
    (y : ℤ) (m : ℕ)
    → m < 12
    → utc_month y (pos m +ℤ negsuc 11) ≡ record { year = y -ℤ pos 1; month = m }
earlier y m h =
    ap (utc_month y) (year_ago m h)
    ∙ month_from (y -ℤ pos (suc ((11 - m) / 12))) (y -ℤ pos 1) (11 - (11 - m) % 12) m
        (ap (λ q. y -ℤ pos q) (omega (arith, h))) (omega (arith, h))

-- The month is one of twelve, and the card is as the last rendering has left it.
pub record IsRendered (dates : Dates) (t : Timeline) : Type 0 where
  pub month : t.anchor.month < 12
  pub detail : t.detail ≡ render_detail dates t.items t.selected

pub utc_month-lt : (y z : ℤ) → (utc_month y z).month < 12
utc_month-lt y (pos m) = omega arith
utc_month-lt y (negsuc k) = omega arith

-- The page with another first month.
at : Timeline → Month → Timeline
at t m = record t { anchor = m }

module _ (dates : Dates) (t : Timeline) where
  there :
      (n : ℤ)
      → IsRendered dates t
      → shift_months dates n t ≡ at t (utc_month t.anchor.year (pos t.anchor.month +ℤ n))
  unfolding shift_months render at
  there n h =
      ap (λ d. record t { anchor = utc_month t.anchor.year (pos t.anchor.month +ℤ n); detail = d })
        (sym h.detail)

  there-back :
      (n k : ℤ) (y : ℤ)
      → IsRendered dates t
      → utc_month t.anchor.year (pos t.anchor.month +ℤ n)
        ≡ record { year = y; month = t.anchor.month }
      → utc_month y (pos t.anchor.month +ℤ k) ≡ t.anchor
      → shift_months dates k (shift_months dates n t) ≡ t
  unfolding shift_months render at
  there-back n k y h p q =
      ap (shift_months dates k) (there n h ∙ ap (at t) p)
      ∙ ap (λ m. record t { anchor = m; detail = render_detail dates t.items t.selected }) q
      ∙ ap (λ d. record t { detail = d }) (sym h.detail)

  -- The arrows undo each other: once the page has been rendered, twelve months on and back, or back
  -- and on, leads to the same months, the same day and the same card.
  pub shift_months-shift_months :
      IsRendered dates t
      → (shift_months dates (negsuc 11) (shift_months dates (pos 12) t) ≡ t)
        × (shift_months dates (pos 12) (shift_months dates (negsuc 11) t) ≡ t)
  shift_months-shift_months h =
      let y = t.anchor.year in
      let m = t.anchor.month in
      (
        there-back (pos 12) (negsuc 11) (y +ℤ pos 1) h (later y m h.month) (
            earlier (y +ℤ pos 1) m h.month
            ∙ month_from (y +ℤ pos 1 -ℤ pos 1) y m m (plus_minus y) refl),
        there-back (negsuc 11) (pos 12) (y -ℤ pos 1) h (earlier y m h.month) (
            later (y -ℤ pos 1) m h.month
            ∙ month_from (y -ℤ pos 1 +ℤ pos 1) y m m (minus_plus y) refl),
      )
