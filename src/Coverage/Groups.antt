-- ===== src/Coverage/Groups.antt =====
-- What the grouping of internal/server/web/static/coverage.js keeps, and its order.
use certguard.Base.{
  ◌≤◌, ◌≡◌, inl, inr, Bool, true, false, List, [], ◌∷◌, ◌++◌, ◌==◌, arith, AllPairs, Bool-cases,
}
use mathlib.Core.Path.{subst}
use mathlib.Core.List.{Perm}
use mathlib.Core.List.Perm
use certguard.Base.Bags.{Perm-middle, Perm-append, Perm-exchange, append-snoc, append_empty}
use certguard.Base.Sort.{sort, insert, sort-AllPairs}
use certguard.Inventory.Items.{Item, Browser}
use certguard.Coverage.{
  Row, State, rows, visible, Group, add_row, group_from, worst, ranks_after, ordered,
}

-- All names of all groups.
unfoldable pub names_of : List Group → List Row
names_of [] = []
names_of (g ∷ gs) = g.names ++ names_of gs

names_of-add_row : (r : Row) (gs : List Group) → Perm (names_of (add_row r gs)) (r ∷ names_of gs)
unfolding names_of add_row
names_of-add_row r [] = Perm.refl (r ∷ [])
names_of-add_row r (g ∷ gs) = elim (Bool-cases (g.id == r.item.cert.id)) [
  | inl e ↦ rw (e, append-snoc g.names r (names_of gs)) (Perm-middle g.names r (names_of gs))
  | inr e ↦ rw e (
      Perm.trans
        (Perm-append g.names (names_of (add_row r gs)) (r ∷ names_of gs) (names_of-add_row r gs))
        (Perm-middle g.names r (names_of gs)))
]

names_of-group_from :
    (gs : List Group) (rs : List Row) → Perm (names_of (group_from gs rs)) (rs ++ names_of gs)
unfolding group_from
names_of-group_from gs [] = Perm.refl (names_of gs)
names_of-group_from gs (r ∷ rs) = Perm.trans (names_of-group_from (add_row r gs) rs) (
    Perm.trans (Perm-append rs (names_of (add_row r gs)) (r ∷ names_of gs) (names_of-add_row r gs))
      (Perm-middle rs r (names_of gs)))

names_of-insert :
    (after : Group → Group → Bool) (g : Group) (gs : List Group)
    → Perm (names_of (insert after g gs)) (g.names ++ names_of gs)
unfolding names_of insert
names_of-insert after g [] = Perm.refl (g.names ++ [])
names_of-insert after g (k ∷ gs) = elim (Bool-cases (after g k)) [
  | inl e ↦ rw e (
      Perm.trans
        (Perm-append k.names (names_of (insert after g gs)) (g.names ++ names_of gs)
          (names_of-insert after g gs))
        (Perm-exchange k.names g.names (names_of gs)))
  | inr e ↦ rw e (Perm.refl (g.names ++ (k.names ++ names_of gs)))
]

names_of-sort :
    (after : Group → Group → Bool) (gs : List Group) → Perm (names_of (sort after gs)) (names_of gs)
unfolding names_of sort
names_of-sort after [] = Perm.refl []
names_of-sort after (g ∷ gs) =
    Perm.trans (names_of-insert after g (sort after gs))
      (Perm-append g.names (names_of (sort after gs)) (names_of gs) (names_of-sort after gs))

-- The grouping neither loses nor repeats a name: the names of all sections are a permutation of the
-- rows that the filter shows.
pub names_of-ordered :
    (b : Browser) (st : State) (items : List Item)
    → Perm (names_of (ordered b st items)) (visible b st (rows items))
unfolding ordered names_of
names_of-ordered b st items =
    let shown = visible b st (rows items) in
    Perm.trans (names_of-sort (ranks_after b) (group_from [] shown)) (
      subst (λ all. Perm (names_of (group_from [] shown)) all) (append_empty shown)
        (names_of-group_from [] shown))

-- A certificate whose worst name ranks before that of another stands before it, however the browser
-- compares names.
pub ordered-worst :
    (b : Browser) (st : State) (items : List Item)
    → AllPairs (λ (x y : Group). worst x.names ≤ worst y.names) (ordered b st items)
unfolding ordered
ordered-worst b st items =
    sort-AllPairs (ranks_after b) (λ (x y : Group). worst x.names ≤ worst y.names) (after_le b)
      (other_le b) (λ x y z h k. omega arith) (group_from [] (visible b st (rows items)))
  where
    after_le :
        (b : Browser) (x y : Group) → ranks_after b x y ≡ true → worst y.names ≤ worst x.names
    after_le b x y h = unfold ranks_after in ground arith

    other_le :
        (b : Browser) (x y : Group) → ranks_after b x y ≡ false → worst x.names ≤ worst y.names
    other_le b x y h = unfold ranks_after in ground arith
