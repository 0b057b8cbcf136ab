-- ===== src/Dashboard/Alerts/Tests.antt =====
-- Runs of the alert preview.
use certguard.Base.{
  ℕ, ◌-◌, map, ◌≡◌, ◌≤◌, refl, false, Option, none, some, List, [], ◌∷◌, All, AllPairs,
}
use certguard.Base.Int.{pos}
use certguard.Base.Text.{Text}
use certguard.Base.Sort.{sort}
use certguard.Inventory.Items.{Item}
use certguard.Inventory.Tests.{entry}
use certguard.Dashboard.Alerts.{Channel, alert_preview, says_today, kinds_for}
use certguard.Dashboard.Alerts.Due.{HasCause, alert_preview-HasCause}

abbrev digit : Text → Option ℕ
digit [] = none
digit (c ∷ _) = some (c - 48)

-- One channel for every threshold, and one for 7 days only.
abbrev channels : List Channel
channels =
    record { kind = 109 ∷ []; thresholds = [] }
    ∷ record { kind = 119 ∷ []; thresholds = 55 ∷ [] }
    ∷ []

abbrev tracked : List Item
tracked =
    entry (97 ∷ []) (pos 7)
    ∷ entry (98 ∷ []) (pos 60)
    ∷ entry (99 ∷ []) (pos 8)
    ∷ entry (100 ∷ []) (pos 0)
    ∷ []

two_rows : map (λ u. u.in_days) (alert_preview digit channels tracked) ≡ 1 ∷ 4 ∷ []
unfolding alert_preview sort kinds_for
two_rows = refl

alert_preview-HasCause_example :
    All (λ u. HasCause tracked u × (says_today u ≡ false)) (alert_preview digit channels tracked)
    × AllPairs (λ u v. u.in_days ≤ v.in_days) (alert_preview digit channels tracked)
alert_preview-HasCause_example = alert_preview-HasCause digit channels tracked
