-- ===== src/Base/Pairs.antt =====
-- Filters and pairs: what holds of every pair that passes a test.
use mathlib.Core.Path.{◌≡◌}
use mathlib.Core.Logic.{inl, inr}
use mathlib.Core.Bool.{Bool, true, false}
use mathlib.Core.List.{List, [], ◌∷◌}
use certguard.Base.Tests.{Bool-cases}
use certguard.Base.Lists.{All, AllPairs, filter}

module _ {ℓ κ} {A : Type ℓ} (P : A → Type κ) (p : A → Bool) where
  pub All-filter_when : (xs : List A) → All (λ x. p x ≡ true → P x) xs → All P (filter p xs)
  All-filter_when [] h = tt
  All-filter_when (x ∷ xs) h = elim (Bool-cases (p x)) [
    | inl e ↦ rw e (h.0 e, All-filter_when xs h.1)
    | inr e ↦ rw e (All-filter_when xs h.1)
  ]

  pub All-when_filter : (xs : List A) → All P (filter p xs) → All (λ x. p x ≡ true → P x) xs
  All-when_filter [] h = tt
  All-when_filter (x ∷ xs) h = elim (Bool-cases (p x)) [
    | inl e ↦ let h' : P x × All P (filter p xs) = rw e at h in (λ _. h'.0, All-when_filter xs h'.1)
    | inr e ↦ (λ t. cc, All-when_filter xs (rw e at h))
  ]

module _ {ℓ κ} {A : Type ℓ} (R : A → A → Type κ) (p : A → Bool) where
  pub AllPairs-filter_when :
      (xs : List A)
      → AllPairs (λ x y. p x ≡ true → p y ≡ true → R x y) xs
      → AllPairs R (filter p xs)
  AllPairs-filter_when [] h = tt
  AllPairs-filter_when (x ∷ xs) h = elim (Bool-cases (p x)) [
    | inl e ↦ rw e (All-filter_when (R x) p xs (at_head e xs h.0), AllPairs-filter_when xs h.1)
    | inr e ↦ rw e (AllPairs-filter_when xs h.1)
  ]
    where
      at_head :
          p x ≡ true
          → (ys : List A) → All (λ y. p x ≡ true → p y ≡ true → R x y) ys
          → All (λ y. p y ≡ true → R x y) ys
      at_head e [] k = tt
      at_head e (y ∷ ys) k = (k.0 e, at_head e ys k.1)

  pub AllPairs-when_filter :
      (xs : List A)
      → AllPairs R (filter p xs)
      → AllPairs (λ x y. p x ≡ true → p y ≡ true → R x y) xs
  AllPairs-when_filter [] h = tt
  AllPairs-when_filter (x ∷ xs) h = elim (Bool-cases (p x)) [
    | inl e ↦
        let h' : All (R x) (filter p xs) × AllPairs R (filter p xs) = rw e at h in
        (with_head xs (All-when_filter (R x) p xs h'.0), AllPairs-when_filter xs h'.1)
    | inr e ↦ (no_head e xs, AllPairs-when_filter xs (rw e at h))
  ]
    where
      with_head :
          (ys : List A)
          → All (λ y. p y ≡ true → R x y) ys
          → All (λ y. p x ≡ true → p y ≡ true → R x y) ys
      with_head [] k = tt
      with_head (y ∷ ys) k = (λ _. k.0, with_head ys k.1)

      no_head : p x ≡ false → (ys : List A) → All (λ y. p x ≡ true → p y ≡ true → R x y) ys
      no_head e [] = tt
      no_head e (y ∷ ys) = (λ t. cc, no_head e ys)

module _ {ℓ κ μ} {A : Type ℓ} (R : A → A → Type κ) (S : A → A → Type μ) where
  All-and : (x : A) (ys : List A) → All (R x) ys → All (S x) ys → All (λ y. R x y × S x y) ys
  All-and x [] a b = tt
  All-and x (y ∷ ys) a b = ((a.0, b.0), All-and x ys a.1 b.1)

  pub AllPairs-and :
      (xs : List A) → AllPairs R xs → AllPairs S xs → AllPairs (λ x y. R x y × S x y) xs
  AllPairs-and [] h k = tt
  AllPairs-and (x ∷ xs) h k = (All-and x xs h.0 k.0, AllPairs-and xs h.1 k.1)

-- What holds of each element holds of both elements of each pair.
module _ {ℓ κ} {A : Type ℓ} (P : A → Type κ) where
  All-with : (x : A) (ys : List A) → P x → All P ys → All (λ y. P x × P y) ys
  All-with x [] h k = tt
  All-with x (y ∷ ys) h k = ((h, k.0), All-with x ys h k.1)

  pub AllPairs-of_All : (xs : List A) → All P xs → AllPairs (λ x y. P x × P y) xs
  AllPairs-of_All [] h = tt
  AllPairs-of_All (x ∷ xs) h = (All-with x xs h.0 h.1, AllPairs-of_All xs h.1)
