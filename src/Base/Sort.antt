-- ===== src/Base/Sort.antt =====
-- `Array.prototype.sort`: a stable sort. `after x y` says that the comparator is positive.
use mathlib.Core.Path.{◌≡◌}
use mathlib.Core.Logic.{inl, inr}
use mathlib.Core.Bool.{Bool, true, false}
use mathlib.Core.List.{List, [], ◌∷◌, Perm}
use mathlib.Core.List.Perm
use certguard.Base.Tests.{if◌then◌else◌, Bool-cases}
use certguard.Base.Lists.{All, AllPairs}

module _ {ℓ} {A : Type ℓ} (after : A → A → Bool) where
  unfoldable pub insert : A → List A → List A
  insert x [] = x ∷ []
  insert x (y ∷ ys) = if after x y then y ∷ insert x ys else x ∷ y ∷ ys

  unfoldable pub sort : List A → List A
  unfolding insert
  sort [] = []
  sort (x ∷ xs) = insert x (sort xs)

  pub insert-perm : (x : A) (ys : List A) → Perm (insert x ys) (x ∷ ys)
  unfolding insert
  insert-perm x [] = Perm.refl (x ∷ [])
  insert-perm x (y ∷ ys) = elim (Bool-cases (after x y)) [
    | inl e ↦ rw e (Perm.trans (Perm.cons y (insert-perm x ys)) (Perm.swap x y ys))
    | inr e ↦ rw e (Perm.refl (x ∷ y ∷ ys))
  ]

  pub sort-perm : (xs : List A) → Perm (sort xs) xs
  unfolding sort
  sort-perm [] = Perm.refl []
  sort-perm (x ∷ xs) = Perm.trans (insert-perm x (sort xs)) (Perm.cons x (sort-perm xs))

  -- No element comes behind one that it should precede.
  abbrev pub IsSorted : List A → Type 0
  IsSorted = AllPairs (λ x y. after x y ≡ false)

  module _ (asym : (x y : A) → after x y ≡ true → after y x ≡ false)
      (trans : (x y z : A) → after x y ≡ false → after y z ≡ false → after x z ≡ false) where
    insert-All :
        (x z : A) (ys : List A)
        → after z x ≡ false
        → All (λ y. after z y ≡ false) ys
        → All (λ y. after z y ≡ false) (insert x ys)
    unfolding insert
    insert-All x z [] h k = (h, tt)
    insert-All x z (y ∷ ys) h k = elim (Bool-cases (after x y)) [
      | inl e ↦ rw e (k.0, insert-All x z ys h k.1)
      | inr e ↦ rw e (h, k)
    ]

    All-trans :
        (x y : A) (ys : List A)
        → after x y ≡ false
        → All (λ z. after y z ≡ false) ys
        → All (λ z. after x z ≡ false) ys
    All-trans x y [] h k = tt
    All-trans x y (z ∷ ys) h k = (trans x y z h k.0, All-trans x y ys h k.1)

    insert-IsSorted : (x : A) (ys : List A) → IsSorted ys → IsSorted (insert x ys)
    unfolding insert
    insert-IsSorted x [] s = (tt, tt)
    insert-IsSorted x (y ∷ ys) s = elim (Bool-cases (after x y)) [
      | inl e ↦ rw e (insert-All x y ys (asym x y e) s.0, insert-IsSorted x ys s.1)
      | inr e ↦ rw e ((e, All-trans x y ys e s.0), s)
    ]

    pub sort-IsSorted : (xs : List A) → IsSorted (sort xs)
    unfolding sort
    sort-IsSorted [] = tt
    sort-IsSorted (x ∷ xs) = insert-IsSorted x (sort xs) (sort-IsSorted xs)

  -- A predicate on all elements, or a symmetric one on all pairs, does not see the order.
  module _ {κ} (P : A → Type κ) where
    All-insert : (x : A) (ys : List A) → P x → All P ys → All P (insert x ys)
    unfolding insert
    All-insert x [] h k = (h, tt)
    All-insert x (y ∷ ys) h k = elim (Bool-cases (after x y)) [
      | inl e ↦ rw e (k.0, All-insert x ys h k.1)
      | inr e ↦ rw e (h, k)
    ]

    All-of_insert : (x : A) (ys : List A) → All P (insert x ys) → P x × All P ys
    unfolding insert
    All-of_insert x [] h = h
    All-of_insert x (y ∷ ys) h = elim (Bool-cases (after x y)) [
      | inl e ↦
          let h' : P y × All P (insert x ys) = rw (e, insert) at h in
          let q = All-of_insert x ys h'.1 in (q.0, (h'.0, q.1))
      | inr e ↦ rw (e, insert) at h
    ]

    pub All-sort : (xs : List A) → All P xs → All P (sort xs)
    unfolding sort
    All-sort [] h = tt
    All-sort (x ∷ xs) h = All-insert x (sort xs) h.0 (All-sort xs h.1)

    pub All-of_sort : (xs : List A) → All P (sort xs) → All P xs
    unfolding sort
    All-of_sort [] h = tt
    All-of_sort (x ∷ xs) h = let q = All-of_insert x (sort xs) h in (q.0, All-of_sort xs q.1)

  module _ {κ} (R : A → A → Type κ) (R_sym : (x y : A) → R x y → R y x) where
    AllPairs-insert :
        (x : A) (ys : List A) → All (R x) ys → AllPairs R ys → AllPairs R (insert x ys)
    unfolding insert
    AllPairs-insert x [] h k = (tt, tt)
    AllPairs-insert x (y ∷ ys) h k = elim (Bool-cases (after x y)) [
      | inl e ↦ rw e (All-insert (R y) x ys (R_sym x y h.0) k.0, AllPairs-insert x ys h.1 k.1)
      | inr e ↦ rw e (h, k)
    ]

    AllPairs-of_insert :
        (x : A) (ys : List A) → AllPairs R (insert x ys) → All (R x) ys × AllPairs R ys
    unfolding insert
    AllPairs-of_insert x [] h = (tt, tt)
    AllPairs-of_insert x (y ∷ ys) h = elim (Bool-cases (after x y)) [
      | inl e ↦
          let h' : All (R y) (insert x ys) × AllPairs R (insert x ys) = rw (e, insert) at h in
          let q = All-of_insert (R y) x ys h'.0 in
          let ih = AllPairs-of_insert x ys h'.1 in ((R_sym y x q.0, ih.0), (q.1, ih.1))
      | inr e ↦ rw (e, insert) at h
    ]

    pub AllPairs-sort : (xs : List A) → AllPairs R xs → AllPairs R (sort xs)
    unfolding sort
    AllPairs-sort [] h = tt
    AllPairs-sort (x ∷ xs) h =
        AllPairs-insert x (sort xs) (All-sort (R x) xs h.0) (AllPairs-sort xs h.1)

    pub AllPairs-of_sort : (xs : List A) → AllPairs R (sort xs) → AllPairs R xs
    unfolding sort
    AllPairs-of_sort [] h = tt
    AllPairs-of_sort (x ∷ xs) h =
        let q = AllPairs-of_insert x (sort xs) h in
        (All-of_sort (R x) xs q.0, AllPairs-of_sort xs q.1)

-- A transitive relation that the test decides between, either way, holds of every pair of the
-- sorted list. The test itself need not be transitive.
module _ {ℓ κ} {A : Type ℓ} (after : A → A → Bool) (R : A → A → Type κ)
    (yes : (x y : A) → after x y ≡ true → R y x) (other : (x y : A) → after x y ≡ false → R x y)
    (trans : (x y z : A) → R x y → R y z → R x z) where
  insert-below : (x z : A) (ys : List A) → R z x → All (R z) ys → All (R z) (insert after x ys)
  unfolding insert
  insert-below x z [] h k = (h, tt)
  insert-below x z (y ∷ ys) h k = elim (Bool-cases (after x y)) [
    | inl e ↦ rw e (k.0, insert-below x z ys h k.1)
    | inr e ↦ rw e (h, k)
  ]

  All-along : (x y : A) (ys : List A) → R x y → All (R y) ys → All (R x) ys
  All-along x y [] h k = tt
  All-along x y (z ∷ ys) h k = (trans x y z h k.0, All-along x y ys h k.1)

  insert-AllPairs : (x : A) (ys : List A) → AllPairs R ys → AllPairs R (insert after x ys)
  unfolding insert
  insert-AllPairs x [] s = (tt, tt)
  insert-AllPairs x (y ∷ ys) s = elim (Bool-cases (after x y)) [
    | inl e ↦ rw e (insert-below x y ys (yes x y e) s.0, insert-AllPairs x ys s.1)
    | inr e ↦ rw e ((other x y e, All-along x y ys (other x y e) s.0), s)
  ]

  pub sort-AllPairs : (xs : List A) → AllPairs R (sort after xs)
  unfolding sort
  sort-AllPairs [] = tt
  sort-AllPairs (x ∷ xs) = insert-AllPairs x (sort after xs) (sort-AllPairs xs)
