-- ===== src/Issuers/Tests.antt =====
-- Runs of the issuers' page.
use certguard.Base.{◌≡◌, ◌≤◌, refl, List, [], ◌∷◌, length, All, AllPairs}
use mathlib.Core.List.{Perm}
use certguard.Base.Int.{pos}
use certguard.Base.Text.{Text}
use certguard.Inventory.Items.{Item, Cert}
use certguard.Inventory.Tests.{browser, entry}
use certguard.Issuers.{issuer_group, summarise}
use certguard.Issuers.Groups.{items_of, IsKeyed, HaveDistinctKeys, summarise-IsKeyed}

-- "CN=a, O=b c"
abbrev dn : Text
dn = 67 ∷ 78 ∷ 61 ∷ 97 ∷ 44 ∷ 32 ∷ 79 ∷ 61 ∷ 98 ∷ 32 ∷ 99 ∷ []

the_organisation : issuer_group dn ≡ 98 ∷ 32 ∷ 99 ∷ []
unfolding issuer_group
the_organisation = refl

abbrev name_of : Cert → Text
name_of c = c.name

abbrev no_sub : Cert → Text
no_sub c = []

abbrev tracked : List Item
tracked =
    entry (97 ∷ []) (pos 9)
    ∷ entry (98 ∷ []) (pos 3)
    ∷ entry (97 ∷ []) (pos 1)
    ∷ entry [] (pos 1)
    ∷ []

summarise-IsKeyed_example :
    Perm (items_of (summarise browser name_of no_sub tracked)) tracked
    × All (IsKeyed name_of no_sub) (summarise browser name_of no_sub tracked)
    × HaveDistinctKeys (summarise browser name_of no_sub tracked)
    × AllPairs (λ g h. length h.items ≤ length g.items) (summarise browser name_of no_sub tracked)
summarise-IsKeyed_example = summarise-IsKeyed name_of no_sub browser tracked
