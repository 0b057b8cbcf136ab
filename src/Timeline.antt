-- ===== src/Timeline.antt =====
-- The timeline of internal/server/web/static/timeline.js: twelve months, the entries of each day,
-- and the card of the day that is open. The browser's dates are the record of functions of the
-- dashboard's calendar; `Date.UTC` of the first of a month is written out, for years from 100 on.
pub mod Months
pub mod Numbers
pub mod Shown
mod Tests
use certguard.Base.{
  ℕ, zero, suc, ◌+◌, ◌-◌, ◌/◌, ◌%◌, Bool, true, false, ◌&&◌, ◌==◌, Option, none, some, List, [],
  ◌∷◌, ◌++◌, map, filter, take, length, if◌then◌else◌, ltb,
}
use certguard.Base.Int.{ℤ, pos, negsuc, ◌+ℤ◌, ◌-ℤ◌, leb_ℤ, ltb_ℤ}
use certguard.Base.Sort.{sort}
use certguard.Base.Text.{Text}
use certguard.Inventory.Items.{Item}
use certguard.Common.Expiry.{Level, expiry_level}
use certguard.Dashboard.Calendar.{Day, Dates, eqb_ℤ, same_day, on_day}

-- What is read of a date that stands for a month; months count from 0.
pub record Month : Type 0 where
  pub year : ℤ
  pub month : ℕ

-- `new Date(Date.UTC(y, m, 1))`, where the month runs over into other years
abbrev pub utc_month : ℤ → ℤ → Month
utc_month y (pos m) = record { year = y +ℤ pos (m / 12); month = m % 12 }
utc_month y (negsuc k) = record { year = y -ℤ pos (suc (k / 12)); month = 11 - k % 12 }

-- The card below the months: the day in its title and its rows.
pub record Detail : Type 0 where
  pub key : Day
  pub rows : List Item

-- `detail` is what the last rendering has left, `none` where the card is hidden.
pub record Timeline : Type 0 where
  pub items : List Item
  pub anchor : Month
  pub selected : Option Day
  pub detail : Option Detail

abbrev pub falls_on : Day → Option Day → Bool
falls_on k none = false
falls_on k (some d) = same_day d k

abbrev pub falls_in : Month → Option Day → Bool
falls_in m none = false
falls_in m (some d) = eqb_ℤ d.year m.year && (d.month == m.month)

abbrev pub expires_after : Item → Item → Bool
expires_after x y = ltb_ℤ y.days_remaining x.days_remaining

-- A day of a month: the worst of its entries colours it, and at most three of them have a dot.
pub record Cell : Type 0 where
  pub key : Day
  pub today : Bool
  pub selected : Bool
  pub level : Option Level
  pub count : ℕ
  pub dots : List Text
  pub more : ℕ

-- The number in a month's head, the empty cells before the first day, and the days.
pub record MonthView : Type 0 where
  pub month : Month
  pub number : ℕ
  pub lead : ℕ
  pub cells : List Cell

abbrev min_ℤ : ℤ → ℤ → ℤ
min_ℤ a b = if leb_ℤ a b then a else b

-- The reduction from `Infinity`, `none` where the list is empty.
abbrev pub worst_of : List Item → Option ℤ
worst_of [] = none
worst_of (it ∷ items) = elim (worst_of items) [
  | none ↦ some it.days_remaining
  | some w ↦ some (min_ℤ it.days_remaining w)
]

abbrev level_of : Option ℤ → Option Level
level_of none = none
level_of (some w) = some (expiry_level w)

abbrev is_open : Option Day → Day → Bool
is_open none k = false
is_open (some s) k = same_day k s

module _ (dates : Dates) where
  -- `bucket().get(key)`, empty where there is no such key
  unfoldable pub bucket : List Item → Day → List Item
  bucket items key = filter (λ (it : Item). falls_on key (dates.day_of it.cert.expires_at)) items

  -- The sum of the lengths of the buckets whose key starts with the month.
  unfoldable pub month_number : List Item → Month → ℕ
  month_number items m =
      length (filter (λ (it : Item). falls_in m (dates.day_of it.cert.expires_at)) items)

  unfoldable pub cell : Day → Timeline → Month → ℕ → Cell
  unfolding bucket
  cell today t m d =
      let key = on_day dates m.year m.month d in
      let on = bucket t.items key in
      record {
        key = key;
        today = same_day key today;
        selected = is_open t.selected key;
        level = level_of (worst_of on);
        count = length on;
        dots = map (λ (it : Item). it.cert.category) (take 3 on);
        more = if ltb 3 (length on) then length on - 3 else 0;
      }

  -- The cells of the first `n` days.
  unfoldable pub cells : Day → Timeline → Month → ℕ → List Cell
  unfolding cell
  cells today t m zero = []
  cells today t m (suc n) = cells today t m n ++ (cell today t m (suc n) ∷ [])

  -- The month that is `i` months after the first that is shown.
  unfoldable pub month_view : Day → Timeline → ℕ → MonthView
  unfolding month_number cells
  month_view today t i =
      let m = utc_month t.anchor.year (pos t.anchor.month +ℤ pos i) in
      record {
        month = m;
        number = month_number t.items m;
        lead = (dates.first_weekday m.year m.month + 6) % 7;
        cells = cells today t m (dates.days_in_month m.year m.month);
      }

  abbrev pub detail_rows : Day → List Item → Option Detail
  detail_rows k [] = none
  detail_rows k (it ∷ items) = some (record { key = k; rows = it ∷ items })

  unfoldable pub render_detail : List Item → Option Day → Option Detail
  unfolding bucket
  render_detail items none = none
  render_detail items (some k) = detail_rows k (sort expires_after (bucket items k))

  -- The end of `render`; the months are computed anew from the state (`month_view`).
  unfoldable pub render : Timeline → Timeline
  unfolding render_detail
  render t = record t { detail = render_detail t.items t.selected }

  abbrev pub toggle : Option Day → Day → Option Day
  toggle none k = some k
  toggle (some s) k = if same_day s k then none else some k

  unfoldable pub select_day : Day → Timeline → Timeline
  unfolding render
  select_day k t = render (record t { selected = toggle t.selected k })

  unfoldable pub shift_months : ℤ → Timeline → Timeline
  unfolding render
  shift_months n t =
      render (record t { anchor = utc_month t.anchor.year (pos t.anchor.month +ℤ n) })

  -- The listener of the button back to today; `now` is the month of the clock.
  unfoldable pub go_today : Month → Timeline → Timeline
  unfolding render
  go_today now t = render (record t { anchor = now; selected = none })

  -- The end of `load`, with the entries of the answer.
  unfoldable pub load : List Item → Timeline → Timeline
  unfolding render
  load items t = render (record t { items = items })

abbrev first_of : List Item → Option Item
first_of [] = none
first_of (it ∷ items) = some it

-- The entry that the line below the title calls the next.
unfoldable pub next_item : List Item → Option Item
next_item items =
    first_of (sort expires_after (filter (λ (it : Item). leb_ℤ (pos 0) it.days_remaining) items))

-- The page before anything is loaded.
abbrev pub opened : Month → Timeline
opened now = record { items = []; anchor = now; selected = none; detail = none }
