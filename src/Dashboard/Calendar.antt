-- ===== src/Dashboard/Calendar.antt =====
-- The calendar of internal/server/web/static/dashboard.js: what is focused, moving and zooming, and
-- which entries stand in which cell. The browser's dates are a record of functions.
pub mod Moves
pub mod Steps
pub mod Counts
pub mod Tests
use certguard.Base.{
  ℕ, zero, suc, ◌+◌, ◌-◌, Bool, true, false, not, ◌&&◌, ◌==◌, Option, none, some, List, [], ◌∷◌,
  map, filter, any, take, length, if◌then◌else◌, ltb,
}
use certguard.Base.Int.{ℤ, pos, negsuc, ◌+ℤ◌, ◌-ℤ◌, leb_ℤ}
use certguard.Base.Text.{Text, same, is_set}
use certguard.Inventory.Items.{Item}

-- A day in UTC; months count from 0.
pub record Day : Type 0 where
  pub year : ℤ
  pub month : ℕ
  pub date : ℤ

-- `Date.UTC` with the getters of the result, which roll over, the weekday of the first of a month,
-- the last date of a month, and the day of a time in text, `none` where that is NaN.
pub record Dates : Type 0 where
  pub utc : ℤ → ℕ → ℤ → Day
  pub first_weekday : ℤ → ℕ → ℕ
  pub days_in_month : ℤ → ℕ → ℕ
  pub day_of : Text → Option Day

pub data View : Type 0 where
  by_year : View
  by_month : View
  by_day : View

pub record Calendar : Type 0 where
  pub view : View
  pub focus : Day

abbrev pub eqb_ℤ : ℤ → ℤ → Bool
eqb_ℤ (pos a) (pos b) = a == b
eqb_ℤ (negsuc a) (negsuc b) = a == b
eqb_ℤ _ _ = false

-- Equality of the keys that `utcKey` makes of days
abbrev pub same_day : Day → Day → Bool
same_day x y = eqb_ℤ x.year y.year && ((x.month == y.month) && eqb_ℤ x.date y.date)

abbrev falls_on : Day → Option Day → Bool
falls_on k none = false
falls_on k (some d) = same_day d k

-- A click on a month, a click on a day, and zooming back out.
unfoldable pub open_month : ℕ → Calendar → Calendar
open_month m c = record { view = by_month; focus = record c.focus { month = m } }

unfoldable pub open_day : ℕ → Calendar → Calendar
open_day d c = record { view = by_day; focus = record c.focus { date = pos d } }

abbrev pub wider : View → View
wider by_day = by_month
wider _ = by_year

unfoldable pub zoom_out : Calendar → Calendar
zoom_out c = record c { view = wider c.view }

module _ (dates : Dates) where
  unfoldable pub shift_day : ℤ → Day → Day
  shift_day delta d = dates.utc d.year d.month (d.date +ℤ delta)

  -- `bucketByDay()[key]`, empty where there is no such key
  unfoldable pub bucket_by_day : List Item → Day → List Item
  bucket_by_day items key =
      filter
        (λ (it : Item). is_set it.cert.expires_at && falls_on key (dates.day_of it.cert.expires_at))
        items

  abbrev pub move_back : View → Day → Day
  move_back by_year d = record d { year = d.year -ℤ pos 1 }
  move_back by_day d = shift_day (negsuc 0) d
  move_back by_month d =
      if d.month == 0
      then record d { month = 11; year = d.year -ℤ pos 1 }
      else record d { month = d.month - 1 }

  abbrev pub move_on : View → Day → Day
  move_on by_year d = record d { year = d.year +ℤ pos 1 }
  move_on by_day d = shift_day (pos 1) d
  move_on by_month d =
      if ltb 11 (suc d.month)
      then record d { month = 0; year = d.year +ℤ pos 1 }
      else record d { month = suc d.month }

  -- The listeners of the two arrows.
  unfoldable pub prev : Calendar → Calendar
  unfolding shift_day
  prev c = record c { focus = move_back c.view c.focus }

  unfoldable pub next : Calendar → Calendar
  unfolding shift_day
  next c = record c { focus = move_on c.view c.focus }

  abbrev pub on_day : ℤ → ℕ → ℕ → Day
  on_day y m d = record { year = y; month = m; date = pos d }

  -- The sum of `list.length` over the first `n` days of a month.
  unfoldable pub count_days : List Item → ℤ → ℕ → ℕ → ℕ
  unfolding bucket_by_day
  count_days items y m zero = 0
  count_days items y m (suc n) =
      count_days items y m n + length (bucket_by_day items (on_day y m (suc n)))

  -- The count in the title of a month, and those of the first `n` months of the year.
  unfoldable pub month_count : List Item → ℤ → ℕ → ℕ
  unfolding count_days
  month_count items y m = count_days items y m (dates.days_in_month y m)

  unfoldable pub year_counts : List Item → ℤ → ℕ → ℕ
  unfolding month_count
  year_counts items y zero = 0
  year_counts items y (suc n) = year_counts items y n + month_count items y n

-- The categories of a day, each once, in the order of their first entry.
abbrev pub categories_from : List Text → List Item → List Text
categories_from seen [] = []
categories_from seen (it ∷ items) =
    let rest = categories_from seen items in
    let more = it.cert.category ∷ categories_from (it.cert.category ∷ seen) items in
    if any (same it.cert.category) seen then rest else more

-- A cell of the month: at most four dots, at most three bars, and how many more there are.
pub record Cell : Type 0 where
  pub day : ℕ
  pub today : Bool
  pub dots : List Text
  pub events : List Item
  pub more : ℕ

module _ (dates : Dates) (today : Day) where
  unfoldable pub month_cell : List Item → ℤ → ℕ → ℕ → Cell
  unfolding bucket_by_day
  month_cell items y m d =
      let list = bucket_by_day dates items (on_day dates y m d) in
      record {
        day = d;
        today = same_day (on_day dates y m d) today;
        dots = take 4 (categories_from [] list);
        events = take 3 list;
        more = if ltb 3 (length list) then length list - 3 else 0;
      }
