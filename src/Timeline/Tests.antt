-- ===== src/Timeline/Tests.antt =====
-- Runs of the timeline, with a browser whose months have 31 days.
use certguard.Base.{◌≡◌, refl, none, some, [], ◌∷◌, arith}
use certguard.Base.Int.{pos, negsuc}
use certguard.Base.Sort.{insert, sort}
use certguard.Inventory.Items.{Item}
use certguard.Dashboard.Calendar.Tests.{endless, endless-IsReal, the_day, dated}
use certguard.Timeline.{
  Month, utc_month, Timeline, bucket, month_number, month_view, render_detail, select_day,
  shift_months, load, next_item, opened, render,
}
use certguard.Timeline.Months.{IsRendered, shift_months-shift_months}
use certguard.Timeline.Numbers.{count_of, month_view-count_of}
use certguard.Timeline.Shown.{IsShown, here, step, day, answer, next, reach-IsShown}

abbrev april : Month
april = record { year = pos 2026; month = 3 }

a_year_ago : utc_month (pos 2026) (negsuc 8) ≡ record { year = pos 2025; month = 3 }
a_year_ago = refl

before_christ : utc_month (pos 0) (negsuc 12) ≡ record { year = negsuc 1; month = 11 }
before_christ = refl

abbrev sooner : Item
sooner = record dated { days_remaining = pos 2 }

-- Two entries on the day that is open.
abbrev loaded : Timeline
loaded = record {
  items = dated ∷ sooner ∷ [];
  anchor = april;
  selected = some the_day;
  detail = some (record { key = the_day; rows = sooner ∷ dated ∷ [] });
}

it_loads : select_day endless the_day (load endless (dated ∷ sooner ∷ []) (opened april)) ≡ loaded
unfolding select_day load render render_detail bucket sort insert
it_loads = refl

it_closes : (select_day endless the_day loaded).detail ≡ none
unfolding select_day render render_detail
it_closes = refl

the_next : next_item loaded.items ≡ some sooner
unfolding next_item sort insert
the_next = refl

its_number : (month_view endless the_day loaded 0).number ≡ 2
unfolding month_view month_number
its_number = refl

loaded-IsRendered : IsRendered endless loaded
unfolding render_detail bucket sort insert
loaded-IsRendered = record { month = omega arith; detail = refl }

there_and_back :
    (shift_months endless (negsuc 11) (shift_months endless (pos 12) loaded) ≡ loaded)
    × (shift_months endless (pos 12) (shift_months endless (negsuc 11) loaded) ≡ loaded)
there_and_back = shift_months-shift_months endless loaded loaded-IsRendered

month_view-count_of_example :
    (month_view endless the_day loaded 0).number
    ≡ count_of (month_view endless the_day loaded 0).cells
month_view-count_of_example = month_view-count_of endless the_day loaded 0 endless-IsReal

reach-IsShown_example : IsShown endless (
    shift_months endless
      (pos 12)
      (select_day endless the_day (load endless (dated ∷ sooner ∷ []) (opened april))))
reach-IsShown_example =
    reach-IsShown endless april
      (shift_months endless (pos 12)
        (select_day endless the_day (load endless (dated ∷ sooner ∷ []) (opened april))))
      (omega arith) (step (step (step here (answer (dated ∷ sooner ∷ []))) (day the_day)) next)
