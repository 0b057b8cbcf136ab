-- ===== src/Dashboard/Health.antt =====
-- The cards of internal/server/web/static/dashboard.js on what comes next and on the scheduler: what
-- expires soon, which endpoints are not healthy, and the durations that they show.
pub mod Durations
mod Tests
use certguard.Base.{
  ℕ, zero, suc, ◌+◌, ◌-◌, ◌*◌, ◌/◌, ◌%◌, Bool, true, false, not, ◌==◌, Option, none, some, List, [],
  ◌∷◌, filter, if◌then◌else◌, leb, ltb,
}
use certguard.Base.Int.{ℤ, pos, negsuc, ◌-ℤ◌, leb_ℤ, ltb_ℤ}
use certguard.Base.Sort.{sort}
use certguard.Base.Text.{Text, is_set}
use certguard.Inventory.Items.{Item, Cert, Browser, is_checked}
use certguard.Dashboard.Cards.{short_err}

-- A duration in the largest unit that divides it.
pub data Duration : Type 0 where
  hours : ℕ → Duration
  minutes : ℕ → Duration
  seconds : ℕ → Duration

unfoldable pub human_duration : ℕ → Duration
human_duration sec =
    if sec % 3600 == 0
    then hours (sec / 3600)
    else if sec % 60 == 0
    then minutes (sec / 60)
    else seconds sec

-- `relFuture`, from the milliseconds that are left; `none` for 'due now'.
unfoldable pub rel_future : ℤ → Option Duration
rel_future (negsuc _) = none
rel_future (pos ms) =
    let h = ms / 3600000 in
    let m = ms / 60000 in
    if ms == 0
    then none
    else if leb 1 h
    then some (hours h)
    else some (minutes (if ltb m 1 then 1 else m))

abbrev pub sooner_first : Item → Item → Bool
sooner_first x y = ltb_ℤ y.days_remaining x.days_remaining

unfoldable pub soon_items : List Item → List Item
soon_items items =
    sort sooner_first (filter (λ (it : Item). leb_ℤ it.days_remaining (pos 30)) items)

abbrev first : List Item → Option Item
first [] = none
first (it ∷ _) = some it

unfoldable pub next_up : List Item → Option Item
next_up items = first (sort sooner_first items)

-- Why an endpoint is not healthy.
pub data Sick : Type 0 where
  failing : Text → Sick
  never_checked : Sick
  stale : Text → Sick

-- `schedStatus`
pub record Scheduler : Type 0 where
  pub enabled : Bool
  pub interval_seconds : ℕ

abbrev pub stale_ms : Option Scheduler → ℕ
stale_ms none = 24 * 3600 * 1000
stale_ms (some s) = if s.interval_seconds == 0 then 24 * 3600 * 1000 else s.interval_seconds * 2500

abbrev is_older : ℤ → ℕ → Option ℤ → Bool
is_older now limit none = false
is_older now limit (some at) = ltb_ℤ (pos limit) (now -ℤ at)

module _ (b : Browser) (now : ℤ) (scheduler : Option Scheduler) where
  unfoldable pub sick_of : Cert → Option Sick
  sick_of c =
      if is_set c.last_error
      then some (failing (short_err c.last_error))
      else if not (is_set c.last_scanned_at)
      then some never_checked
      else if is_older now (stale_ms scheduler) (b.time c.last_scanned_at)
      then some (stale c.last_scanned_at)
      else none

  abbrev add_sick : Cert → Option Sick → List (Cert × Sick) → List (Cert × Sick)
  add_sick c none rest = rest
  add_sick c (some s) rest = (c, s) ∷ rest

  unfoldable pub sick_endpoints : List Item → List (Cert × Sick)
  unfolding sick_of
  sick_endpoints [] = []
  sick_endpoints (it ∷ items) =
      let rest = sick_endpoints items in
      if is_checked it.cert then add_sick it.cert (sick_of it.cert) rest else rest
