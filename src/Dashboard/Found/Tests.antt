-- ===== src/Dashboard/Found/Tests.antt =====
-- Runs of what a scan turns up.
use certguard.VaultUi.{Answer, Accepted, refused, answered}
use certguard.Base.{ℕ, zero, suc, All, ◌≡◌, refl, List, [], ◌∷◌, length, map}
use mathlib.Core.List.{Perm}
use certguard.Base.Bags.{IsPicked}
use certguard.Coverage.{different}
use certguard.Dashboard.Found.{Served, Group, Ask, dn_field, common_name, found, add_picked}
use certguard.Dashboard.Found.Groups.{aliases_of, AreDistinct, IsUntracked, found-AreDistinct}

-- "O=a,CN=b=c"
the_name :
    dn_field (79 ∷ 61 ∷ 97 ∷ 44 ∷ 67 ∷ 78 ∷ 61 ∷ 98 ∷ 61 ∷ 99 ∷ []) common_name ≡ 98 ∷ 61 ∷ 99 ∷ []
unfolding dn_field
the_name = refl

abbrev serves : ℕ → ℕ → Served
serves n s = record {
  name = n ∷ [];
  status = different;
  sha256 = s ∷ [];
  subject = 67 ∷ 78 ∷ 61 ∷ 122 ∷ [];
  dns_names = [];
}

abbrev checked : List Served
checked = serves 97 1 ∷ serves 98 2 ∷ serves 99 1 ∷ serves 100 3 ∷ []

two_groups : length (found ((3 ∷ []) ∷ []) checked) ≡ 2
unfolding found
two_groups = refl

found-AreDistinct_example :
    ((served : List Served) × IsPicked (IsUntracked ((3 ∷ []) ∷ [])) served checked
      × Perm (aliases_of (found ((3 ∷ []) ∷ []) checked)) (map (λ (n : Served). n.name) served))
    × AreDistinct (found ((3 ∷ []) ∷ []) checked)
    × All (λ (g : Group). IsUntracked ((3 ∷ []) ∷ []) g.served) (found ((3 ∷ []) ∷ []) checked)
found-AreDistinct_example = found-AreDistinct ((3 ∷ []) ∷ []) checked

abbrev first_fails : ℕ → Ask → Answer Accepted
first_fails zero a = refused 502 "bad gateway"
first_fails (suc n) a = answered tt

abbrev picked : List Group
picked = record { served = serves 97 1; alias = 97 ∷ []; others = [] } ∷ []

second_try : (add_picked first_fails picked []).added ≡ 1
unfolding add_picked
second_try = refl
