-- ===== src/Common/Ago.antt =====
-- `relTime` of internal/server/web/static/common.js, from the milliseconds that have passed.
use certguard.Base.{ℕ, ◌/◌, ◌*◌, ◌+◌, ◌≤◌, ◌<◌, ltb, if◌then◌else◌, arith}
use certguard.Base.Int.{ℤ, pos_part}

-- The unit that the label has, with its number.
pub data Ago : Type 0 where
  just_now : Ago
  minutes : ℕ → Ago
  hours : ℕ → Ago
  days : ℕ → Ago
  months : ℕ → Ago
  years : ℕ → Ago

abbrev pub of_days : ℕ → Ago
of_days d =
    if ltb d 30 then days d else if ltb (d / 30) 12 then months (d / 30) else years (d / 30 / 12)

-- `s` is `Math.max(0, elapsed / 1000)`.
unfoldable pub rel_time : ℤ → Ago
rel_time elapsed =
    let ms = pos_part elapsed in
    let m = ms / 60000 in
    let h = m / 60 in
    if ltb ms 45000
    then just_now
    else if ltb m 60
    then minutes m
    else if ltb h 24
    then hours h
    else of_days (h / 24)

-- The label's number is in the range of its unit, and the time that it names has passed: not more
-- than that for any unit, and less than one unit beyond it.
abbrev pub Tells : ℕ → Ago → Type 0
Tells ms just_now = ms < 45000
Tells ms (minutes m) = (m < 60) × (m * 60000 ≤ ms) × (ms < m * 60000 + 60000)
Tells ms (hours h) = (1 ≤ h) × (h < 24) × (h * 3600000 ≤ ms) × (ms < h * 3600000 + 3600000)
Tells ms (days d) = (1 ≤ d) × (d < 30) × (d * 86400000 ≤ ms) × (ms < d * 86400000 + 86400000)
Tells ms (months n) =
    (1 ≤ n) × (n < 12) × (n * 2592000000 ≤ ms) × (ms < n * 2592000000 + 2592000000)
Tells ms (years y) = (1 ≤ y) × (y * 31104000000 ≤ ms) × (ms < y * 31104000000 + 31104000000)

-- What the label says of the time is true, a year being twelve months of thirty days: its number is
-- in the range of its unit, at least one from hours on, and no more and less than one unit less
-- than the time that has passed.
pub rel_time-Tells : (elapsed : ℤ) → Tells (pos_part elapsed) (rel_time elapsed)
unfolding rel_time
rel_time-Tells elapsed = ground arith
