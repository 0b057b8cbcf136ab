-- ===== src/Dashboard/Health/Durations.antt =====
-- The durations of internal/server/web/static/dashboard.js.
use certguard.Base.{ℕ, ◌*◌, ◌%◌, ◌≡◌, refl, ◌==◌, if-intro, arith}
use certguard.Dashboard.Health.{Duration, hours, minutes, seconds, human_duration}

abbrev pub seconds_in : Duration → ℕ
seconds_in (hours n) = n * 3600
seconds_in (minutes n) = n * 60
seconds_in (seconds n) = n

-- What the label says of the scheduler's interval is exact.
pub seconds_in-human_duration : (sec : ℕ) → seconds_in (human_duration sec) ≡ sec
unfolding human_duration
seconds_in-human_duration sec =
    if-intro (λ d. seconds_in d ≡ sec) (sec % 3600 == 0) (λ e. ground (arith, e))
      (λ _. if-intro (λ d. seconds_in d ≡ sec) (sec % 60 == 0) (λ e. ground (arith, e)) (λ _. refl))
