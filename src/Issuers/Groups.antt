-- ===== src/Issuers/Groups.antt =====
-- The groups of internal/server/web/static/issuers.js.
use certguard.Base.{
  ◌≤◌, ◌≡◌, ◌∙◌, inl, inr, true, false, List, [], ◌∷◌, ◌++◌, length, All, AllPairs, All-append,
  Bool-cases, if-intro, arith,
}
use mathlib.Core.Path.{subst}
use mathlib.Core.List.{Perm}
use mathlib.Core.List.Perm
use certguard.Base.Bags.{
  concat_of, concat_of-sort, Perm-append, Perm-middle, append-snoc, append_empty,
}
use certguard.Base.Sort.{All-sort, AllPairs-sort, sort-AllPairs}
use certguard.Base.Text.{Text, same, same_refl, same-sym}
use certguard.Inventory.Items.{Item, Cert, Browser}
use certguard.Issuers.{Group, group_key, add_item, group_items, smaller, summarise}

abbrev pub items_of : List Group → List Item
items_of gs = concat_of (λ (g : Group). g.items) gs

abbrev pub HaveDistinctKeys : List Group → Type 0
HaveDistinctKeys = AllPairs (λ g h. same g.key h.key ≡ false)

module _ (key_of sub_of : Cert → Text) where
  -- The entries of a group have its key.
  abbrev pub IsKeyed : Group → Type 0
  IsKeyed g = All (λ it. same g.key (group_key key_of sub_of it) ≡ true) g.items

  items_of-add_item :
      (it : Item) (gs : List Group)
      → Perm (items_of (add_item key_of sub_of it gs)) (it ∷ items_of gs)
  unfolding concat_of add_item
  items_of-add_item it [] = Perm.refl (it ∷ [])
  items_of-add_item it (g ∷ gs) = elim (Bool-cases (same g.key (group_key key_of sub_of it))) [
    | inl e ↦ rw (e, append-snoc g.items it (items_of gs)) (Perm-middle g.items it (items_of gs))
    | inr e ↦ rw e (
        Perm.trans
          (Perm-append g.items (items_of (add_item key_of sub_of it gs)) (it ∷ items_of gs)
            (items_of-add_item it gs))
          (Perm-middle g.items it (items_of gs)))
  ]

  items_of-group_items :
      (gs : List Group) (items : List Item)
      → Perm (items_of (group_items key_of sub_of gs items)) (items ++ items_of gs)
  unfolding group_items
  items_of-group_items gs [] = Perm.refl (items_of gs)
  items_of-group_items gs (it ∷ items) =
      let more = add_item key_of sub_of it gs in
      Perm.trans (items_of-group_items more items) (
        Perm.trans (Perm-append items (items_of more) (it ∷ items_of gs) (items_of-add_item it gs))
          (Perm-middle items it (items_of gs)))

  add_item-IsKeyed :
      (it : Item) (gs : List Group) → All IsKeyed gs → All IsKeyed (add_item key_of sub_of it gs)
  unfolding add_item
  add_item-IsKeyed it [] h = ((same_refl (group_key key_of sub_of it), tt), tt)
  add_item-IsKeyed it (g ∷ gs) h =
      if-intro (All IsKeyed) (same g.key (group_key key_of sub_of it))
        (λ e. (
          All-append (λ i. same g.key (group_key key_of sub_of i) ≡ true) g.items (it ∷ []) h.0
              (e, tt),
          h.1,
        ))
        (λ _. (h.0, add_item-IsKeyed it gs h.1))

  add_item-keys :
      (k : Text) (it : Item) (gs : List Group)
      → same k (group_key key_of sub_of it) ≡ false
      → All (λ g. same k g.key ≡ false) gs
      → All (λ g. same k g.key ≡ false) (add_item key_of sub_of it gs)
  unfolding add_item
  add_item-keys k it [] e h = (e, tt)
  add_item-keys k it (g ∷ gs) e h =
      if-intro (All (λ g. same k g.key ≡ false)) (same g.key (group_key key_of sub_of it))
        (λ _. (h.0, h.1)) (λ _. (h.0, add_item-keys k it gs e h.1))

  add_item-HaveDistinctKeys :
      (it : Item) (gs : List Group)
      → HaveDistinctKeys gs
      → HaveDistinctKeys (add_item key_of sub_of it gs)
  unfolding add_item
  add_item-HaveDistinctKeys it [] d = (tt, tt)
  add_item-HaveDistinctKeys it (g ∷ gs) d =
      if-intro HaveDistinctKeys (same g.key (group_key key_of sub_of it)) (λ _. (d.0, d.1))
        (λ e. (add_item-keys g.key it gs e d.0, add_item-HaveDistinctKeys it gs d.1))

  group_items-IsKeyed :
      (gs : List Group) (items : List Item)
      → All IsKeyed gs
      → HaveDistinctKeys gs
      → All IsKeyed (group_items key_of sub_of gs items)
        × HaveDistinctKeys (group_items key_of sub_of gs items)
  unfolding group_items
  group_items-IsKeyed gs [] h d = (h, d)
  group_items-IsKeyed gs (it ∷ items) h d =
      group_items-IsKeyed (add_item key_of sub_of it gs) items (add_item-IsKeyed it gs h)
        (add_item-HaveDistinctKeys it gs d)

  -- The groups are the entries: each entry stands in them as often as in the list, in a group of its
  -- own key; no two groups have one key; and no group stands before a larger one, however the
  -- browser compares names.
  pub summarise-IsKeyed :
      (b : Browser) (items : List Item)
      → Perm (items_of (summarise b key_of sub_of items)) items
        × All IsKeyed (summarise b key_of sub_of items)
        × HaveDistinctKeys (summarise b key_of sub_of items)
        × AllPairs (λ g h. length h.items ≤ length g.items) (summarise b key_of sub_of items)
  unfolding summarise smaller concat_of
  summarise-IsKeyed b items =
      let gs = group_items key_of sub_of [] items in
      let q = group_items-IsKeyed [] items tt tt in
      (
        Perm.trans (concat_of-sort (λ (g : Group). g.items) (smaller b) gs) (
            subst (λ l. Perm (items_of gs) l) (append_empty items) (items_of-group_items [] items)),
        All-sort (smaller b) IsKeyed gs q.0,
        AllPairs-sort (smaller b) (λ g h. same g.key h.key ≡ false)
            (λ g h e. same-sym h.key g.key ∙ e) gs q.1,
        sort-AllPairs (smaller b) (λ g h. length h.items ≤ length g.items)
            (λ g h e. ground (arith, e)) (λ g h e. ground (arith, e))
            (λ g h k e f. omega (arith, e, f)) gs,
      )
