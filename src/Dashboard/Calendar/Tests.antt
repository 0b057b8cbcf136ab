-- ===== src/Dashboard/Calendar/Tests.antt =====
-- Runs of the calendar, with a browser whose months have no end.
use certguard.Base.{ℕ, ◌≡◌, refl, Option, some, [], ◌∷◌, length, if◌then◌else◌, ltb, arith}
use mathlib.Core.Path.{subst}
use certguard.Base.Int.{ℤ, pos, ◌+ℤ◌}
use certguard.Base.Text.{Text}
use certguard.Inventory.Items.{Item}
use certguard.Inventory.Tests.{entry}
use certguard.Dashboard.Calendar.{
  Day, Dates, by_month, Calendar, prev, next, open_day, open_month, year_counts,
}
use certguard.Dashboard.Calendar.Moves.{DatesLaws, IsFocused, prev-next}
use certguard.Dashboard.Calendar.Steps.{here, step, month, day, on, reach-IsFocused}
use certguard.Dashboard.Calendar.Counts.{IsReal, in_year, year_counts-in_year}

abbrev twelve_of : ℕ → ℕ
twelve_of m = if ltb m 12 then m else 0

abbrev pub the_day : Day
the_day = record { year = pos 2026; month = 3; date = pos 5 }

abbrev day_of : Text → Option Day
day_of t = some the_day

abbrev pub endless : Dates
endless = record {
  utc = λ y m d. record { year = y; month = twelve_of m; date = d };
  first_weekday = λ y m. 0;
  days_in_month = λ y m. 31;
  day_of = day_of;
}

twelve_of-twelve_of : (m : ℕ) → twelve_of (twelve_of m) ≡ twelve_of m
twelve_of-twelve_of m = ground arith

-- A day is equal to another with an equal month.
same_month :
    (y : ℤ) (m n : ℕ) (d : ℤ)
    → m ≡ n
    → ◌≡◌ {A = Day}
        (record { year = y; month = m; date = d })
        (record { year = y; month = n; date = d })
same_month y m n d e = cc

endless-DatesLaws : DatesLaws endless
endless-DatesLaws = record {
  shift = λ y m d delta plain.
      same_month y (twelve_of (twelve_of m)) (twelve_of m) (d +ℤ delta) (twelve_of-twelve_of m);
  same =
      λ y m d plain. same_month y (twelve_of (twelve_of m)) (twelve_of m) d (twelve_of-twelve_of m);
  days = λ y m k plain h low high. same_month y (twelve_of m) m (pos k) (ground (arith, h));
  twelve = λ y m d plain. ground arith;
}

abbrev december : Calendar
december = record { view = by_month; focus = record { year = pos 2026; month = 11; date = pos 5 } }

december-IsFocused : IsFocused endless december
december-IsFocused = record { month = omega arith; real = λ e. absurd cc }

over_the_year : (next endless december).focus ≡ record { year = pos 2027; month = 0; date = pos 5 }
unfolding next
over_the_year = refl

prev-next_example :
    (prev endless (next endless december) ≡ december)
    × (next endless (prev endless december) ≡ december)
unfolding next prev
prev-next_example =
    prev-next endless endless-DatesLaws december december-IsFocused (omega arith, omega arith)
      (omega arith, omega arith)

reach-IsFocused_example : IsFocused endless (next endless (open_day 31 (open_month 1 december)))
unfolding open_month open_day next
reach-IsFocused_example =
    reach-IsFocused endless endless-DatesLaws
      (step
        (step (step here (month 1 (omega arith)) (omega arith, omega arith))
          (day 31 (omega arith) (omega arith)) (omega arith, omega arith))
        on (omega arith, omega arith))
      december-IsFocused

pub endless-IsReal : (t : Text) (d : Day) → endless.day_of t ≡ some d → IsReal endless d
endless-IsReal t d e =
    let e' : the_day ≡ d = cc in
    subst (IsReal endless) e' (omega arith, (5, refl, omega arith, omega arith))

abbrev pub dated : Item
dated = record (entry (97 ∷ []) (pos 9)) {
  cert = record (entry (97 ∷ []) (pos 9)).cert { expires_at = 50 ∷ [] };
}

year_counts-in_year_example :
    year_counts endless (dated ∷ []) (pos 2026) 12
    ≡ length (in_year endless (pos 2026) (dated ∷ []))
year_counts-in_year_example = year_counts-in_year endless (pos 2026) (dated ∷ []) endless-IsReal
