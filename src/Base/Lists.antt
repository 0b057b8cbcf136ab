-- ===== src/Base/Lists.antt =====
-- Arrays as lists with native lengths and indices, and their loops.
use Prim.Native.Nat.{ℕ, zero, suc, ◌+◌}
use mathlib.Core.Path.{◌≡◌, refl, ap}
use mathlib.Core.Logic.{inl, inr}
use mathlib.Core.Bool.{Bool, true, false, ◌||◌}
use mathlib.Core.Option.{Option, none, some}
use mathlib.Core.List.{List, [], ◌∷◌, ◌++◌, map}
use native.Mathlib.Omega.{arith}
use certguard.Base.Tests.{if◌then◌else◌, Bool-cases}

module _ {ℓ} {A : Type ℓ} where
  abbrev pub length : List A → ℕ
  length [] = 0
  length (x ∷ xs) = suc (length xs)

  abbrev pub get_elem? : List A → ℕ → Option A
  get_elem? [] i = none
  get_elem? (x ∷ xs) zero = some x
  get_elem? (x ∷ xs) (suc i) = get_elem? xs i

  -- `xs.filter(p)`
  abbrev pub filter : (A → Bool) → List A → List A
  filter p [] = []
  filter p (x ∷ xs) = if p x then x ∷ filter p xs else filter p xs

  -- `xs.some(p)`
  abbrev pub any : (A → Bool) → List A → Bool
  any p [] = false
  any p (x ∷ xs) = p x || any p xs

  -- `xs.find(p)`
  abbrev pub find : (A → Bool) → List A → Option A
  find p [] = none
  find p (x ∷ xs) = if p x then some x else find p xs

  -- `xs.slice(0, n)`
  abbrev pub take : ℕ → List A → List A
  take zero xs = []
  take (suc n) [] = []
  take (suc n) (x ∷ xs) = x ∷ take n xs

  abbrev pub drop : ℕ → List A → List A
  drop zero xs = xs
  drop (suc n) [] = []
  drop (suc n) (x ∷ xs) = drop n xs

  abbrev pub All {κ} : (A → Type κ) → List A → Type κ
  All P [] = Unit
  All P (x ∷ xs) = P x × All P xs

  pub length-append : (xs ys : List A) → length (xs ++ ys) ≡ length xs + length ys
  length-append [] ys = omega arith
  length-append (x ∷ xs) ys = omega (arith, length-append xs ys)

  pub All-append {κ} : (P : A → Type κ) (xs ys : List A) → All P xs → All P ys → All P (xs ++ ys)
  All-append P [] ys hx hy = hy
  All-append P (x ∷ xs) ys hx hy = (hx.0, All-append P xs ys hx.1 hy)

  pub All-map {κ μ} :
      {P : A → Type κ} {Q : A → Type μ} (xs : List A) → ((x : A) → P x → Q x) → All P xs → All Q xs
  All-map [] f h = tt
  All-map (x ∷ xs) f h = (f x h.0, All-map xs f h.1)

pub length-map {ℓ κ} :
    {A : Type ℓ} {B : Type κ} (f : A → B) (xs : List A) → length (map f xs) ≡ length xs
length-map f [] = refl
length-map f (x ∷ xs) = ap suc (length-map f xs)

-- Every element is related to each that stands behind it.
abbrev pub AllPairs {ℓ κ} : {A : Type ℓ} → (A → A → Type κ) → List A → Type κ
AllPairs R [] = Unit
AllPairs R (x ∷ xs) = All (R x) xs × AllPairs R xs

pub All-of-map {ℓ ℓ' κ} :
    {A : Type ℓ} {B : Type ℓ'} (P : B → Type κ) (f : A → B) (xs : List A)
    → All P (map f xs)
    → All (λ x. P (f x)) xs
All-of-map P f [] h = tt
All-of-map P f (x ∷ xs) h = (h.0, All-of-map P f xs h.1)

pub All-to-map {ℓ ℓ' κ} :
    {A : Type ℓ} {B : Type ℓ'} (P : B → Type κ) (f : A → B) (xs : List A)
    → All (λ x. P (f x)) xs
    → All P (map f xs)
All-to-map P f [] h = tt
All-to-map P f (x ∷ xs) h = (h.0, All-to-map P f xs h.1)

pub AllPairs-of-map {ℓ ℓ' κ} :
    {A : Type ℓ} {B : Type ℓ'} (R : B → B → Type κ) (f : A → B) (xs : List A)
    → AllPairs R (map f xs)
    → AllPairs (λ x y. R (f x) (f y)) xs
AllPairs-of-map R f [] h = tt
AllPairs-of-map R f (x ∷ xs) h = (All-of-map (λ y. R (f x) y) f xs h.0, AllPairs-of-map R f xs h.1)

pub AllPairs-to-map {ℓ ℓ' κ} :
    {A : Type ℓ} {B : Type ℓ'} (R : B → B → Type κ) (f : A → B) (xs : List A)
    → AllPairs (λ x y. R (f x) (f y)) xs
    → AllPairs R (map f xs)
AllPairs-to-map R f [] h = tt
AllPairs-to-map R f (x ∷ xs) h = (All-to-map (λ y. R (f x) y) f xs h.0, AllPairs-to-map R f xs h.1)

module _ {ℓ κ} {A : Type ℓ} (P : A → Type κ) (p : A → Bool) where
  pub All-filter : (xs : List A) → All P xs → All P (filter p xs)
  All-filter [] h = tt
  All-filter (x ∷ xs) h = elim (Bool-cases (p x)) [
    | inl e ↦ rw e (h.0, All-filter xs h.1)
    | inr e ↦ rw e (All-filter xs h.1)
  ]

pub AllPairs-filter {ℓ κ} :
    {A : Type ℓ} (R : A → A → Type κ) (p : A → Bool) (xs : List A)
    → AllPairs R xs
    → AllPairs R (filter p xs)
AllPairs-filter R p [] h = tt
AllPairs-filter R p (x ∷ xs) h = elim (Bool-cases (p x)) [
  | inl e ↦ rw e (All-filter (R x) p xs h.0, AllPairs-filter R p xs h.1)
  | inr e ↦ rw e (AllPairs-filter R p xs h.1)
]

-- What passed the filter satisfies its test.
pub filter-All {ℓ} : {A : Type ℓ} (p : A → Bool) (xs : List A) → All (λ x. p x ≡ true) (filter p xs)
filter-All p [] = tt
filter-All p (x ∷ xs) = elim (Bool-cases (p x)) [
  | inl e ↦ rw e (e, filter-All p xs)
  | inr e ↦ rw e (filter-All p xs)
]

pub All-of_filter {ℓ κ} :
    {A : Type ℓ} (P : A → Type κ) (p : A → Bool) (xs : List A)
    → ((x : A) → p x ≡ false → P x)
    → All P (filter p xs)
    → All P xs
All-of_filter P p [] out h = tt
All-of_filter P p (x ∷ xs) out h = elim (Bool-cases (p x)) [
  | inl e ↦ let h' : P x × All P (filter p xs) = rw e at h in (h'.0, All-of_filter P p xs out h'.1)
  | inr e ↦ (out x e, All-of_filter P p xs out (rw e at h))
]

pub AllPairs-imp {ℓ κ μ} :
    {A : Type ℓ} {R : A → A → Type κ} {S : A → A → Type μ} (xs : List A)
    → ((x y : A) → R x y → S x y)
    → AllPairs R xs
    → AllPairs S xs
AllPairs-imp [] f h = tt
AllPairs-imp (x ∷ xs) f h = (All-map xs (f x) h.0, AllPairs-imp xs f h.1)

-- A change that the test does not see may be made before or after the filter.
pub filter-map {ℓ} :
    {A : Type ℓ} (p : A → Bool) (f : A → A) (xs : List A)
    → ((x : A) → p (f x) ≡ p x)
    → filter p (map f xs) ≡ map f (filter p xs)
filter-map p f [] same = refl
filter-map p f (x ∷ xs) same = elim (Bool-cases (p x)) [
  | inl e ↦ rw (same x, e) (ap (f x ∷◌) (filter-map p f xs same))
  | inr e ↦ rw (same x, e) (filter-map p f xs same)
]

pub All-intro {ℓ κ} : {A : Type ℓ} {P : A → Type κ} (xs : List A) → ((x : A) → P x) → All P xs
All-intro [] f = tt
All-intro (x ∷ xs) f = (f x, All-intro xs f)
