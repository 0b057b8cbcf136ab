-- ===== src/Dashboard/Health/Tests.antt =====
-- Runs of the durations.
use certguard.Base.{◌≡◌, refl}
use certguard.Dashboard.Health.{minutes, human_duration}

an_hour_and_a_half : human_duration 5400 ≡ minutes 90
unfolding human_duration
an_hour_and_a_half = refl
