-- ===== src/Grid/Place/Free.antt =====
-- Where `placeIntoFreeSpace` of internal/server/web/static/widgets.js puts a card.
use certguard.Base.{
  ℕ, ◌≤◌, ◌≡◌, refl, ◌∙◌, String, Bool, true, false, not, ◌&&◌, inl, inr, List, [], ◌∷◌, map,
  filter, any, str_eq, eq_iff, if◌then◌else◌, arith, All, AllPairs, Bool-cases, All-map,
  AllPairs-to-map, AllPairs-imp,
}
use certguard.Base.Pairs.{
  All-when_filter, AllPairs-when_filter, AllPairs-filter_when, AllPairs-and, AllPairs-of_All,
}
use certguard.Grid.Rect.{overlaps}
use certguard.Grid.Rect.Overlap.{overlaps_comm}
use certguard.Grid.Card.{
  Card, visible, is_visible, is_placed, rect_of, set_rect, IsSpread, HasUniqueIds,
}
use certguard.Grid.Compact.{is_packed, packed}
use certguard.Grid.Place.{
  bottom_of, below_all, others_of, clashes, free_space, place_into_free_space,
}
use certguard.Grid.Place.Below.{bottom, bottom_of-AllAbove, below_all-row, above-clear}

any-false {ℓ} :
    {A : Type ℓ} (p : A → Bool) (xs : List A) → any p xs ≡ false → All (λ x. p x ≡ false) xs
any-false p [] h = tt
any-false p (x ∷ xs) h = (ground arith, any-false p xs (ground arith))

abbrev MissesPlaced : Card → Card → Type 0
MissesPlaced c x = is_placed x ≡ true → overlaps (rect_of c) (rect_of x) ≡ false

-- Whether the card stays or goes below everything, it misses each of the others.
pub free_space-clear :
    (ih : ℕ) (others : List Card) (c : Card) → All (MissesPlaced (free_space ih others c)) others
unfolding free_space clashes
free_space-clear ih others c = elim (Bool-cases (clashes others c)) [
  | inl e ↦
      let top = bottom_of (filter is_placed others) in
      let moved = set_rect c (below_all ih top c) in
      let same : free_space ih others c ≡ moved = simp e in
      rw same (
        All-map others
          (λ x m p.
            overlaps_comm (rect_of moved) (rect_of x)
            ∙ above-clear (rect_of x) (rect_of moved) (omega (arith, m p, below_all-row ih top c)))
          (All-when_filter (λ x. bottom x ≤ top) is_placed others
            (bottom_of-AllAbove (filter is_placed others))))
  | inr e ↦
      let same : free_space ih others c ≡ c = simp e in
      rw same (
        All-map others (λ x m p. ground arith)
          (any-false (λ x. is_placed x && overlaps (rect_of c) (rect_of x)) others (ground arith)))
]

pub free_space-is_placed :
    (ih : ℕ) (others : List Card) (c : Card) → is_placed (free_space ih others c) ≡ true
unfolding free_space clashes set_rect
free_space-is_placed ih others c = ground arith

is_packed-free_space :
    (ih : ℕ) (others : List Card) (c : Card)
    → is_packed (free_space ih others c) ≡ true
    → is_visible c ≡ true
unfolding free_space set_rect
is_packed-free_space ih others c h = ground arith

module _ (ih : ℕ) (id : String) (g : List Card) where
  abbrev shown : Card → Card
  shown = free_space ih (others_of id g)

  abbrev after : Card → Card
  after c = if str_eq c.id id then shown c else c

  -- Of each card that is among the others: the shown card misses it.
  abbrev Missed : Card → Type 0
  Missed x =
      is_visible x ≡ true → not (str_eq x.id id) ≡ true → (c : Card) → MissesPlaced (shown c) x

  -- Of each two that are among the others: they miss each other.
  abbrev Apart : Card → Card → Type 0
  Apart x y =
      is_visible x ≡ true
      → is_visible y ≡ true
      → not (str_eq x.id id) ≡ true
      → not (str_eq y.id id) ≡ true
      → is_placed x ≡ true
      → is_placed y ≡ true
      → overlaps (rect_of x) (rect_of y) ≡ false

  pair-clear :
      (x y : Card)
      → (str_eq x.id y.id ≡ false) × Apart x y
      → Missed x × Missed y
      → is_packed (after x) ≡ true
      → is_packed (after y) ≡ true
      → overlaps (rect_of (after x)) (rect_of (after y)) ≡ false
  pair-clear x y (differ, apart) (mx, my) px py = elim (Bool-cases (str_eq x.id id)) [
    | inl ex ↦ elim (Bool-cases (str_eq y.id id)) [
      | inl ey ↦ absurd (ground (arith, eq_iff x.id id, eq_iff y.id id, eq_iff x.id y.id))
      | inr ey ↦
          let at_y : after y ≡ y = rw ey in
          let at_x : after x ≡ shown x = rw ex in
          let q : is_packed y ≡ true = rw at_y at py in
          rw (at_x, at_y) (my (ground arith) (rw ey refl) x (ground arith))
    ]
    | inr ex ↦ elim (Bool-cases (str_eq y.id id)) [
      | inl ey ↦
          let at_y : after y ≡ shown y = rw ey in
          let at_x : after x ≡ x = rw ex in
          let q : is_packed x ≡ true = rw at_x at px in
          rw (at_x, at_y)
            (overlaps_comm (rect_of x) (rect_of (shown y))
              ∙ mx (ground arith) (rw ex refl) y (ground arith))
      | inr ey ↦
          let at_y : after y ≡ y = rw ey in
          let at_x : after x ≡ x = rw ex in
          let qx : is_packed x ≡ true = rw at_x at px in
          let qy : is_packed y ≡ true = rw at_y at py in
          rw (at_x, at_y)
            (apart (ground arith) (ground arith) (rw ex refl) (rw ey refl) (ground arith)
              (ground arith))
    ]
  ]

  All-swap :
      (xs : List Card)
      → ((c : Card) → All (MissesPlaced (shown c)) xs)
      → All (λ x. (c : Card) → MissesPlaced (shown c) x) xs
  All-swap [] h = tt
  All-swap (x ∷ xs) h = (λ c. (h c).0, All-swap xs (λ c. (h c).1))

  All-Missed : All Missed g
  All-Missed =
      All-when_filter (λ x. not (str_eq x.id id) ≡ true → (c : Card) → MissesPlaced (shown c) x)
        is_visible g
        (All-when_filter (λ x. (c : Card) → MissesPlaced (shown c) x) (λ c. not (str_eq c.id id))
          (visible g) (All-swap (others_of id g) (free_space-clear ih (others_of id g))))

  all-Apart : IsSpread (filter is_placed (others_of id g)) → AllPairs Apart g
  all-Apart d =
      AllPairs-when_filter
        (λ x y.
          not (str_eq x.id id) ≡ true
          → not (str_eq y.id id) ≡ true
          → is_placed x ≡ true
          → is_placed y ≡ true
          → overlaps (rect_of x) (rect_of y) ≡ false)
        is_visible g
        (AllPairs-when_filter
          (λ x y.
            is_placed x ≡ true → is_placed y ≡ true → overlaps (rect_of x) (rect_of y) ≡ false)
          (λ c. not (str_eq c.id id)) (visible g)
          (AllPairs-when_filter (λ x y. overlaps (rect_of x) (rect_of y) ≡ false) is_placed
            (others_of id g) d))

  -- If ids are unique and the other placed visible cards did not overlap one another, then after
  -- `placeIntoFreeSpace` no two placed visible cards overlap, the shown card among them.
  pub place_into_free_space-IsSpread :
      HasUniqueIds g
      → IsSpread (filter is_placed (others_of id g))
      → IsSpread (packed (place_into_free_space ih id g))
  unfolding place_into_free_space
  place_into_free_space-IsSpread u d =
      AllPairs-filter_when (λ x y. overlaps (rect_of x) (rect_of y) ≡ false) is_packed (map after g)
        (AllPairs-to-map
          (λ x y.
            is_packed x ≡ true → is_packed y ≡ true → overlaps (rect_of x) (rect_of y) ≡ false)
          after g
          (AllPairs-imp g (λ x y h. pair-clear x y h.0 h.1)
            (AllPairs-and (λ x y. (str_eq x.id y.id ≡ false) × Apart x y)
              (λ x y. Missed x × Missed y) g
              (AllPairs-and (λ x y. str_eq x.id y.id ≡ false) Apart g u (all-Apart d))
              (AllPairs-of_All Missed g All-Missed))))
