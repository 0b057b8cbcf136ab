-- ===== src/Activity/Tests.antt =====
-- Runs of the activity page.
use certguard.Base.{◌≡◌, refl, none, List, [], ◌∷◌}
use certguard.Base.Text.{Text}
use certguard.Inventory.Tests.{browser}
use certguard.Activity.{Event, State, visible, feed, header, row, on, today_label}
use certguard.Activity.Feed.{IsDiary, rows_of, feed-IsDiary}

abbrev event : Text → Text → Event
event kind at = record { kind = kind; cert_name = []; actor = []; detail = []; at = at }

abbrev events : List Event
events = event (97 ∷ []) (50 ∷ []) ∷ event (98 ∷ []) (50 ∷ []) ∷ event (97 ∷ []) (49 ∷ []) ∷ []

abbrev everything : State
everything = record { q = []; kind = [] }

two_days :
    feed browser (50 ∷ []) (48 ∷ []) everything events
    ≡ header today_label
      ∷ row (event (97 ∷ []) (50 ∷ []))
      ∷ row (event (98 ∷ []) (50 ∷ []))
      ∷ header (on (49 ∷ []))
      ∷ row (event (97 ∷ []) (49 ∷ []))
      ∷ []
unfolding feed visible
two_days = refl

feed-IsDiary_example :
    IsDiary browser (50 ∷ []) (48 ∷ []) none (feed browser (50 ∷ []) (48 ∷ []) everything events)
    × (rows_of (feed browser (50 ∷ []) (48 ∷ []) everything events)
        ≡ visible browser everything events)
feed-IsDiary_example = feed-IsDiary browser (50 ∷ []) (48 ∷ []) everything events
