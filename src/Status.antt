-- ===== src/Status.antt =====
-- internal/server/web/static/status.js: the public status page.
pub mod Worst
mod Tests
use certguard.Base.{
  ℕ, ◌+◌, ◌/◌, String, Bool, true, false, Option, none, some, List, [], ◌∷◌, ◌==◌, not,
  if◌then◌else◌, ltb,
}
use certguard.Base.Int.{ℤ, pos_part}
use certguard.Common.Expiry.{Level, urgent, warn, notice, ok}

-- What the endpoint answers.
pub record Counts : Type 0 where
  pub tracked : ℕ
  pub healthy : ℕ
  pub expiring : ℕ
  pub expired : ℕ
  pub problems : ℕ

pub data Headline : Type 0 where
  all_healthy : Headline
  expired_now : ℕ → Headline
  not_checking : ℕ → Headline
  expiring_soon : ℕ → Headline
  unavailable : Headline

-- A tile's label, its number, and its class where the number is not 0.
pub record Tile : Type 0 where
  pub label : String
  pub number : ℕ
  pub class : String

pub record Page : Type 0 where
  pub level : Level
  pub headline : Headline
  pub tracked : ℕ
  pub tiles : List Tile

-- `fmtAgo`, from the milliseconds that have passed
pub data Ago : Type 0 where
  just_now : Ago
  minutes : ℕ → Ago
  hours : ℕ → Ago
  days : ℕ → Ago

unfoldable pub fmt_ago : ℤ → Ago
fmt_ago elapsed =
    let ms = pos_part elapsed in
    let m = ms / 60000 in
    let h = m / 60 in
    if ltb ms 90000
    then just_now
    else if ltb m 60
    then minutes m
    else if ltb h 48
    then hours h
    else days (h / 24)

abbrev pub tile : String → ℕ → String → Tile
tile label n class = record { label = label; number = n; class = if n == 0 then "" else class }

unfoldable pub headline_of : Counts → Level × Headline
headline_of d =
    if ltb 0 d.expired
    then (urgent, expired_now d.expired)
    else if ltb 0 d.problems
    then (warn, not_checking d.problems)
    else if ltb 0 d.expiring
    then (notice, expiring_soon d.expiring)
    else (ok, all_healthy)

unfoldable pub render : Counts → Page → Page
unfolding headline_of
render d p = record {
  level = (headline_of d).0;
  headline = (headline_of d).1;
  tracked = d.tracked;
  tiles =
      tile "Healthy" d.healthy "ok"
      ∷ tile "Expiring" d.expiring "notice"
      ∷ tile "Expired" d.expired "urgent"
      ∷ tile "Problems" d.problems "untrusted"
      ∷ [];
}

-- `none` where the request fails or is refused. The tiles are left as they are.
unfoldable pub load : Option Counts → Page → Page
unfolding render
load none p = record p { level = urgent; headline = unavailable }
load (some d) p = render d p
