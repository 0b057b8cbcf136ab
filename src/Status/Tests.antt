-- ===== src/Status/Tests.antt =====
-- A run of the status page.
use certguard.Base.{◌≡◌, [], none, some}
use certguard.Common.Expiry.{urgent, ok}
use certguard.Status.{Counts, Page, all_healthy, unavailable, load}
use certguard.Status.Worst.{IsWorst, load-IsWorst}

abbrev counts : Counts
counts = record { tracked = 5; healthy = 2; expiring = 1; expired = 0; problems = 2 }

abbrev blank : Page
blank = record { level = ok; headline = all_healthy; tracked = 0; tiles = [] }

load-IsWorst_example :
    IsWorst counts ((load (some counts) blank).level, (load (some counts) blank).headline)
    × ((load none blank).level ≡ urgent)
    × ((load none blank).headline ≡ unavailable)
load-IsWorst_example = load-IsWorst counts blank
