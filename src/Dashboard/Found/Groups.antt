-- ===== src/Dashboard/Found/Groups.antt =====
-- The groups that internal/server/web/static/dashboard.js makes of the names of a coverage check.
use certguard.Base.{
  ◌≡◌, ◌≢◌, refl, inl, inr, any, ◌||◌, arith, true, false, List, [], ◌∷◌, ◌++◌, map, filter, All,
  AllPairs, Bool-cases, if-intro, All-map,
}
use mathlib.Core.Path.{subst}
use mathlib.Core.List.{Perm}
use mathlib.Core.List.Perm
use certguard.Base.Bags.{
  IsPicked, filter-IsPicked, Perm-middle, Perm-append, append-snoc, append_empty,
}
use certguard.Base.Text.{Text, same, is_set, same_refl, same→≡}
use certguard.Coverage.{different}
use certguard.Dashboard.Found.{Served, Group, names_in, is_new, add_served, group_served, found}

-- The names of all groups.
unfoldable pub aliases_of : List Group → List Text
aliases_of [] = []
aliases_of (g ∷ gs) = names_in g ++ aliases_of gs

new_names : List Text → List Served → List Text
new_names known ns = map (λ (n : Served). n.name) (filter (is_new known) ns)

-- The name serves another certificate than the one that was scanned, with a fingerprint, and no
-- entry has that fingerprint.
pub record IsUntracked (shas : List Text) (n : Served) : Type 0 where
  pub other : n.status ≡ different
  pub known : is_set n.sha256 ≡ true
  pub fresh : All (λ s. n.sha256 ≢ s) shas

same-≢ : (s t : Text) → same s t ≡ false → s ≢ t
same-≢ s t h e = let k : same s t ≡ true = subst (λ z. same s z ≡ true) e (same_refl s) in absurd cc

≢-same : (s t : Text) → s ≢ t → same s t ≡ false
≢-same s t n = elim (Bool-cases (same s t)) [ inl e ↦ absurd (n (same→≡ s t e)) | inr e ↦ e ]

any-fresh :
    (s : Text) (shas : List Text)
    → is_set s ≡ true
    → any (same s) (filter is_set shas) ≡ false
    → All (λ t. s ≢ t) shas
any-fresh s [] k h = tt
any-fresh s (t ∷ ts) k h = elim (Bool-cases (is_set t)) [
  | inl e ↦
      let h' : same s t || any (same s) (filter is_set ts) ≡ false = rw e at h in
      (same-≢ s t (ground (arith, h')), any-fresh s ts k (ground (arith, h')))
  | inr e ↦
      let h' : any (same s) (filter is_set ts) ≡ false = rw e at h in
      (
        (λ q. let b : is_set t ≡ true = subst (λ z. is_set z ≡ true) q k in absurd cc),
        any-fresh s ts k h',
      )
]

fresh-any :
    (s : Text) (shas : List Text)
    → All (λ t. s ≢ t) shas
    → any (same s) (filter is_set shas) ≡ false
fresh-any s [] h = refl
fresh-any s (t ∷ ts) h = elim (Bool-cases (is_set t)) [
  | inl e ↦ rw e (ground (arith, ≢-same s t h.0, fresh-any s ts h.1))
  | inr e ↦ rw e (fresh-any s ts h.1)
]

is_new-IsUntracked :
    (shas : List Text) (n : Served) → is_new (filter is_set shas) n ≡ true → IsUntracked shas n
unfolding is_new
is_new-IsUntracked shas n h =
    let k : is_set n.sha256 ≡ true = ground (arith, h) in
    record {
      other = same→≡ n.status different (ground (arith, h));
      known = k;
      fresh = any-fresh n.sha256 shas k (ground (arith, h));
    }

is_new-tracked :
    (shas : List Text) (n : Served) → is_new (filter is_set shas) n ≡ false → IsUntracked shas n → ⊥
unfolding is_new
is_new-tracked shas n h k =
    let a : same n.status different ≡ true =
      subst (λ z. same n.status z ≡ true) k.other (same_refl n.status) in
    let b = fresh-any n.sha256 shas k.fresh in
    let c = k.known in absurd (ground (arith, h, a, b, c))

aliases_of-add_served :
    (n : Served) (gs : List Group) → Perm (aliases_of (add_served n gs)) (n.name ∷ aliases_of gs)
unfolding aliases_of add_served
aliases_of-add_served n [] = Perm.refl (n.name ∷ [])
aliases_of-add_served n (g ∷ gs) = elim (Bool-cases (same g.served.sha256 n.sha256)) [
  | inl e ↦
      rw (e, append-snoc g.others n.name (aliases_of gs))
        (Perm-middle (g.alias ∷ g.others) n.name (aliases_of gs))
  | inr e ↦ rw e (
      Perm.trans
        (Perm-append (names_in g) (aliases_of (add_served n gs)) (n.name ∷ aliases_of gs)
          (aliases_of-add_served n gs))
        (Perm-middle (names_in g) n.name (aliases_of gs)))
]

aliases_of-group_served :
    (known : List Text) (ns : List Served) (gs : List Group)
    → Perm (aliases_of (group_served known ns gs)) (new_names known ns ++ aliases_of gs)
unfolding group_served new_names
aliases_of-group_served known [] gs = Perm.refl (aliases_of gs)
aliases_of-group_served known (n ∷ ns) gs = elim (Bool-cases (is_new known n)) [
  | inr e ↦ rw e (aliases_of-group_served known ns gs)
  | inl e ↦
      let rest = new_names known ns in
      rw e (
        Perm.trans (aliases_of-group_served known ns (add_served n gs)) (
          Perm.trans
            (Perm-append rest (aliases_of (add_served n gs)) (n.name ∷ aliases_of gs)
              (aliases_of-add_served n gs))
            (Perm-middle rest n.name (aliases_of gs))))
]

IsNew : List Text → Group → Type 0
IsNew known g = is_new known g.served ≡ true

abbrev pub AreDistinct : List Group → Type 0
AreDistinct = AllPairs (λ g h. same g.served.sha256 h.served.sha256 ≡ false)

add_served-All :
    (P : Served → Type 0) (n : Served) (gs : List Group)
    → P n
    → All (λ (g : Group). P g.served) gs
    → All (λ (g : Group). P g.served) (add_served n gs)
unfolding add_served
add_served-All P n [] p h = (p, tt)
add_served-All P n (g ∷ gs) p h =
    if-intro (All (λ (g : Group). P g.served)) (same g.served.sha256 n.sha256) (λ _. h)
      (λ _. (h.0, add_served-All P n gs p h.1))

add_served-AreDistinct :
    (n : Served) (gs : List Group) → AreDistinct gs → AreDistinct (add_served n gs)
unfolding add_served
add_served-AreDistinct n [] d = (tt, tt)
add_served-AreDistinct n (g ∷ gs) d =
    if-intro AreDistinct (same g.served.sha256 n.sha256) (λ _. d)
      (λ e. (
        add_served-All (λ m. same g.served.sha256 m.sha256 ≡ false) n gs e d.0,
        add_served-AreDistinct n gs d.1,
      ))

group_served-All :
    (known : List Text) (ns : List Served) (gs : List Group)
    → All (IsNew known) gs
    → AreDistinct gs
    → All (IsNew known) (group_served known ns gs) × AreDistinct (group_served known ns gs)
unfolding group_served IsNew
group_served-All known [] gs h d = (h, d)
group_served-All known (n ∷ ns) gs h d =
    if-intro (λ hs. All (IsNew known) hs × AreDistinct hs) (is_new known n)
      (λ e.
        group_served-All known ns (add_served n gs)
          (add_served-All (λ m. is_new known m ≡ true) n gs e h) (add_served-AreDistinct n gs d))
      (λ _. group_served-All known ns gs h d)

-- The check's names that serve another certificate, one with a fingerprint that no entry has, stand
-- in the groups, each as often as the check reports it and no other name; no two groups are of one
-- certificate, and each group's certificate is such a one.
pub found-AreDistinct :
    (shas : List Text) (ns : List Served)
    → ((served : List Served) × IsPicked (IsUntracked shas) served ns
        × Perm (aliases_of (found shas ns)) (map (λ (n : Served). n.name) served))
      × AreDistinct (found shas ns)
      × All (λ (g : Group). IsUntracked shas g.served) (found shas ns)
unfolding found aliases_of new_names IsNew
found-AreDistinct shas ns =
    let known = filter is_set shas in
    let q = group_served-All known ns [] tt tt in
    (
      (
        filter (is_new known) ns,
        filter-IsPicked (IsUntracked shas) (is_new known) (is_new-IsUntracked shas)
            (is_new-tracked shas) ns,
        subst (λ l. Perm (aliases_of (group_served known ns [])) l)
            (append_empty (new_names known ns)) (aliases_of-group_served known ns []),
      ),
      q.1,
      All-map (group_served known ns []) (λ g h. is_new-IsUntracked shas g.served h) q.0,
    )
