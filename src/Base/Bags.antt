-- ===== src/Base/Bags.antt =====
-- Lists in which only the order differs.
use mathlib.Core.Path.{◌≡◌, refl, sym, ap, subst}
use mathlib.Core.List.{List, [], ◌∷◌, ◌++◌, Perm}
use mathlib.Core.List.Perm
use mathlib.Core.Bool.{Bool, true, false}
use mathlib.Core.Logic.{inl, inr}
use certguard.Base.Tests.{Bool-cases}
use certguard.Base.Lists.{All, filter, All-of_filter}
use certguard.Base.Sort.{insert, sort, sort-perm, All-sort}

module _ {ℓ} {A : Type ℓ} where
  pub Perm-middle : (xs : List A) (r : A) (ys : List A) → Perm (xs ++ (r ∷ ys)) (r ∷ xs ++ ys)
  Perm-middle [] r ys = Perm.refl (r ∷ ys)
  Perm-middle (x ∷ xs) r ys =
      Perm.trans (Perm.cons x (Perm-middle xs r ys)) (Perm.swap r x (xs ++ ys))

  Perm-bubble : (r : A) (xs ys : List A) → Perm (r ∷ xs ++ ys) (xs ++ (r ∷ ys))
  Perm-bubble r [] ys = Perm.refl (r ∷ ys)
  Perm-bubble r (x ∷ xs) ys =
      Perm.trans (Perm.swap x r (xs ++ ys)) (Perm.cons x (Perm-bubble r xs ys))

  pub Perm-append : (xs ys zs : List A) → Perm ys zs → Perm (xs ++ ys) (xs ++ zs)
  Perm-append [] ys zs p = p
  Perm-append (x ∷ xs) ys zs p = Perm.cons x (Perm-append xs ys zs p)

  pub Perm-exchange : (xs ys zs : List A) → Perm (xs ++ (ys ++ zs)) (ys ++ (xs ++ zs))
  Perm-exchange [] ys zs = Perm.refl (ys ++ zs)
  Perm-exchange (x ∷ xs) ys zs =
      Perm.trans (Perm.cons x (Perm-exchange xs ys zs)) (Perm-bubble x ys (xs ++ zs))

  pub append-snoc : (xs : List A) (r : A) (ys : List A) → (xs ++ (r ∷ [])) ++ ys ≡ xs ++ (r ∷ ys)
  append-snoc [] r ys = refl
  append-snoc (x ∷ xs) r ys = ap (x ∷◌) (append-snoc xs r ys)

  pub append_empty : (xs : List A) → xs ++ [] ≡ xs
  append_empty [] = refl
  append_empty (x ∷ xs) = ap (x ∷◌) (append_empty xs)

  pub append-append : (xs ys zs : List A) → (xs ++ ys) ++ zs ≡ xs ++ (ys ++ zs)
  append-append [] ys zs = refl
  append-append (x ∷ xs) ys zs = ap (x ∷◌) (append-append xs ys zs)

-- The elements of the parts of a list.
unfoldable pub concat_of {ℓ κ} : {G : Type ℓ} {A : Type κ} → (G → List A) → List G → List A
concat_of parts [] = []
concat_of parts (g ∷ gs) = parts g ++ concat_of parts gs

module _ {ℓ κ} {G : Type ℓ} {A : Type κ} (parts : G → List A) (after : G → G → Bool) where
  concat_of-insert :
      (g : G) (gs : List G)
      → Perm (concat_of parts (insert after g gs)) (parts g ++ concat_of parts gs)
  unfolding concat_of insert
  concat_of-insert g [] = Perm.refl (parts g ++ [])
  concat_of-insert g (k ∷ gs) = elim (Bool-cases (after g k)) [
    | inl e ↦ rw e (
        Perm.trans
          (Perm-append (parts k) (concat_of parts (insert after g gs))
            (parts g ++ concat_of parts gs) (concat_of-insert g gs))
          (Perm-exchange (parts k) (parts g) (concat_of parts gs)))
    | inr e ↦ rw e (Perm.refl (parts g ++ (parts k ++ concat_of parts gs)))
  ]

  pub concat_of-sort : (gs : List G) → Perm (concat_of parts (sort after gs)) (concat_of parts gs)
  unfolding concat_of sort
  concat_of-sort [] = Perm.refl []
  concat_of-sort (g ∷ gs) = Perm.trans (concat_of-insert g (sort after gs)) (
      Perm-append (parts g) (concat_of parts (sort after gs)) (concat_of parts gs)
        (concat_of-sort gs))

-- The list `picked` has what satisfies the predicate in `all`, each as often, and nothing else.
abbrev pub IsPicked {ℓ κ} : {A : Type ℓ} → (A → Type κ) → List A → List A → Type (ℓ ⊔ κ)
IsPicked {A = A} P picked all =
    All P picked × ((rest : List A) × All (λ x. P x → ⊥) rest × Perm all (rest ++ picked))

module _ {ℓ κ} {A : Type ℓ} (P : A → Type κ) (p : A → Bool) (yes : (x : A) → p x ≡ true → P x)
    (no : (x : A) → p x ≡ false → P x → ⊥) where
  filter-yes : (xs : List A) → All P (filter p xs)
  filter-yes [] = tt
  filter-yes (x ∷ xs) = elim (Bool-cases (p x)) [
    | inl e ↦ rw e (yes x e, filter-yes xs)
    | inr e ↦ rw e (filter-yes xs)
  ]

  pub filter-IsPicked : (xs : List A) → IsPicked P (filter p xs) xs
  filter-IsPicked [] = (tt, ([], tt, Perm.refl []))
  filter-IsPicked (x ∷ xs) = elim (Bool-cases (p x)) [
    | inl e ↦
        let ih = filter-IsPicked xs in
        rw e (
          (yes x e, ih.0),
          (ih.1.0, ih.1.1, Perm.trans (Perm.cons x ih.1.2) (Perm-bubble x ih.1.0 (filter p xs))),
        )
    | inr e ↦
        let ih = filter-IsPicked xs in
        rw e (ih.0, (x ∷ ih.1.0, (no x e, ih.1.1), Perm.cons x ih.1.2))
  ]

  pub filter_none : (xs : List A) → filter p xs ≡ [] → All (λ x. P x → ⊥) xs
  filter_none xs e = All-of_filter (λ x. P x → ⊥) p xs no (subst (All (λ x. P x → ⊥)) (sym e) tt)

-- The order of what is picked does not matter.
pub IsPicked-sort {ℓ κ} :
    {A : Type ℓ} (P : A → Type κ) (after : A → A → Bool) (picked all : List A)
    → IsPicked P picked all
    → IsPicked P (sort after picked) all
IsPicked-sort P after picked all h = (
  All-sort after P picked h.0,
  (
    h.1.0,
    h.1.1,
    Perm.trans h.1.2
        (Perm-append h.1.0 picked (sort after picked) (Perm.symm (sort-perm after picked))),
  ),
)
