-- ===== src/Dashboard/Alerts.antt =====
-- The preview of the alerts in internal/server/web/static/dashboard.js.
pub mod Due
mod Tests
use certguard.Base.{
  ℕ, ◌-◌, Bool, true, false, not, ◌==◌, Option, none, some, List, [], ◌∷◌, map, filter, any, find,
  if◌then◌else◌, ltb,
}
use certguard.Base.Int.{ℤ, pos, negsuc}
use certguard.Base.Sort.{sort}
use certguard.Base.Text.{Text, same, is_set}
use certguard.Inventory.Items.{Item}
use certguard.Inventory.Filter.{trim}
use certguard.Dashboard.Found.{split}

-- An alert channel; `thresholds` are days, separated by commas.
pub record Channel : Type 0 where
  pub kind : Text
  pub thresholds : Text

-- A row of the preview; `kinds` are the types of the channels, each once.
pub record Upcoming : Type 0 where
  pub name : Text
  pub in_days : ℕ
  pub threshold : ℕ
  pub kinds : List Text

-- `THR` and `WINDOW`
abbrev pub thresholds : List ℕ
thresholds = 30 ∷ 7 ∷ 3 ∷ []

abbrev pub window : ℕ
window = 14

-- `[...new Set(xs)]`
abbrev pub distinct_from : List Text → List Text → List Text
distinct_from seen [] = []
distinct_from seen (x ∷ xs) =
    let rest = distinct_from seen xs in
    let more = x ∷ distinct_from (x ∷ seen) xs in if any (same x) seen then rest else more

abbrev pub announce : Text → ℕ → ℕ → List Text → Option Upcoming
announce name in_days t [] = none
announce name in_days t (k ∷ ks) =
    some (record { name = name; in_days = in_days; threshold = t; kinds = k ∷ ks })

abbrev pub add_upcoming : Option Upcoming → List Upcoming → List Upcoming
add_upcoming none us = us
add_upcoming (some u) us = u ∷ us

abbrev pub later : Upcoming → Upcoming → Bool
later x y = ltb y.in_days x.in_days

abbrev is_number : ℕ → Option ℕ → Bool
is_number t none = false
is_number t (some n) = n == t

-- The browser's `parseInt`, `none` for NaN.
module _ (parse_int : Text → Option ℕ) where
  unfoldable pub channel_wants_threshold : ℕ → Channel → Bool
  channel_wants_threshold t ch =
      let s = trim ch.thresholds in
      if not (is_set s) then true else any (λ x. is_number t (parse_int (trim x))) (split 44 s)

  unfoldable pub kinds_for : List Channel → ℕ → List Text
  unfolding channel_wants_threshold
  kinds_for channels t =
      distinct_from []
        (map (λ (ch : Channel). ch.kind) (filter (channel_wants_threshold t) channels))

  -- `t` is the threshold that the days have not reached yet, if any.
  abbrev pub announce_at : List Channel → Text → ℕ → Option ℕ → Option Upcoming
  announce_at channels name days none = none
  announce_at channels name days (some t) =
      if ltb window (days - t) then none else announce name (days - t) t (kinds_for channels t)

  abbrev pub announce_in : List Channel → Text → ℤ → Option Upcoming
  announce_in channels name (negsuc _) = none
  announce_in channels name (pos days) =
      if days == 0 then none else announce_at channels name days (find (λ t. ltb t days) thresholds)

  unfoldable pub upcoming_of : List Channel → Item → Option Upcoming
  unfolding kinds_for
  upcoming_of channels it = announce_in channels it.cert.name it.days_remaining

  unfoldable pub collect : List Channel → List Item → List Upcoming
  unfolding upcoming_of
  collect channels [] = []
  collect channels (it ∷ items) = add_upcoming (upcoming_of channels it) (collect channels items)

  unfoldable pub alert_preview : List Channel → List Item → List Upcoming
  unfolding collect
  alert_preview channels items = sort later (collect channels items)

-- What the pill says of a row: whether 'today', and whether it is urgent.
unfoldable pub says_today : Upcoming → Bool
says_today u = u.in_days == 0

unfoldable pub is_urgent : Upcoming → Bool
is_urgent u = not (ltb 1 u.in_days)
