-- ===== src/Grid/Resolve/Kept.antt =====
-- What a drop moves in `resolve` of internal/server/web/static/widgets.js.
use certguard.Base.{
  ℕ, zero, suc, ◌+◌, ◌*◌, ◌≤◌, ◌≡◌, refl, ◌⊎◌, inl, inr, true, false, some, List, [], ◌∷◌, arith,
  ◌∙◌, Option-cases, Bool-cases, get_elem?, length,
}
use certguard.Grid.Rect.{Rect, overlaps}
use certguard.Grid.Rect.Overlap.{IsClear, IsDisjoint, overlaps_comm}
use certguard.Grid.Resolve.Quiet.{IsClear-get}
use certguard.Grid.Resolve.{
  Sweep, push, push_all, push_others, stage, stages, sweep, settle, resolve_rects,
}

-- `b` is where `a` was, or not above the row `bottom`.
abbrev pub IsKept : ℕ → Rect → Rect → Type 0
IsKept bottom a b = (b ≡ a) ⊎ (bottom ≤ b.r)

abbrev pub AllKept : ℕ → List Rect → List Rect → Type 0
AllKept bottom [] [] = Unit
AllKept bottom [] (b ∷ bs) = ⊥
AllKept bottom (a ∷ xs) [] = ⊥
AllKept bottom (a ∷ xs) (b ∷ bs) = IsKept bottom a b × AllKept bottom xs bs

AllKept-refl : (bottom : ℕ) (xs : List Rect) → AllKept bottom xs xs
AllKept-refl bottom [] = tt
AllKept-refl bottom (a ∷ xs) = (inl refl, AllKept-refl bottom xs)

AllKept-get :
    (bottom : ℕ) (xs os : List Rect) (i : ℕ) {p : Rect}
    → get_elem? os i ≡ some p
    → AllKept bottom xs os
    → (p₀ : Rect) × (get_elem? xs i ≡ some p₀) × IsKept bottom p₀ p
AllKept-get bottom xs [] i e k = cc
AllKept-get bottom [] (_ ∷ _) i e k = absurd k
AllKept-get bottom (x ∷ xs) (o ∷ os) zero {p} e k = let same : p ≡ o = cc in (x, refl, rw same k.0)
AllKept-get bottom (x ∷ xs) (o ∷ os) (suc i) e k = AllKept-get bottom xs os i e k.1

push-IsKept :
    (bottom : ℕ) (p₀ p o₀ o : Rect)
    → IsKept bottom p₀ p
    → IsKept bottom o₀ o
    → overlaps p₀ o₀ ≡ false
    → IsKept bottom o₀ (push p o)
unfolding push
push-IsKept bottom p₀ p o₀ o (inl e) (inl f) h = inl (rw (e, f, h) refl)
push-IsKept bottom p₀ p o₀ o (inl e) (inr f) h = inr (ground arith)
push-IsKept bottom p₀ p o₀ o (inr e) (inl f) h = elim (Bool-cases (overlaps p o)) [
  | inl t ↦ inr (rw t (omega arith))
  | inr t ↦ inl (rw t f)
]
push-IsKept bottom p₀ p o₀ o (inr e) (inr f) h = inr (ground arith)

-- The moved card pushes to its own bottom row.
push_moved-IsKept :
    (moved o₀ o : Rect)
    → IsKept (moved.r + moved.h) o₀ o
    → IsKept (moved.r + moved.h) o₀ (push moved o)
unfolding push
push_moved-IsKept moved o₀ o k = elim (Bool-cases (overlaps moved o)) [
  | inl t ↦ inr (rw t (omega arith))
  | inr t ↦ rw t k
]

push_moved-AllKept :
    (moved : Rect) (xs os : List Rect)
    → AllKept (moved.r + moved.h) xs os
    → AllKept (moved.r + moved.h) xs (push_all moved os).rects
unfolding push_all
push_moved-AllKept moved [] [] k = tt
push_moved-AllKept moved [] (_ ∷ _) k = absurd k
push_moved-AllKept moved (_ ∷ _) [] k = absurd k
push_moved-AllKept moved (x ∷ xs) (o ∷ os) k =
    (push_moved-IsKept moved x o k.0, push_moved-AllKept moved xs os k.1)

push_all-AllKept :
    (bottom : ℕ) (p₀ p : Rect) (xs os : List Rect)
    → IsKept bottom p₀ p
    → IsClear p₀ xs
    → AllKept bottom xs os
    → AllKept bottom xs (push_all p os).rects
unfolding push_all
push_all-AllKept bottom p₀ p [] [] kp c k = tt
push_all-AllKept bottom p₀ p [] (_ ∷ _) kp c k = absurd k
push_all-AllKept bottom p₀ p (_ ∷ _) [] kp c k = absurd k
push_all-AllKept bottom p₀ p (x ∷ xs) (o ∷ os) kp c k =
    (push-IsKept bottom p₀ p x o kp k.0 c.0, push_all-AllKept bottom p₀ p xs os kp c.1 k.1)

push_others-AllKept :
    (bottom : ℕ) (p : Rect) (i : ℕ) (xs os : List Rect)
    → IsDisjoint xs
    → get_elem? os i ≡ some p
    → AllKept bottom xs os
    → AllKept bottom xs (push_others p i os).rects
unfolding push_others
push_others-AllKept bottom p i [] [] d e k = tt
push_others-AllKept bottom p i [] (_ ∷ _) d e k = absurd k
push_others-AllKept bottom p i (_ ∷ _) [] d e k = absurd k
push_others-AllKept bottom p zero (x ∷ xs) (o ∷ os) d e k =
    let same : p ≡ o = cc in (k.0, push_all-AllKept bottom x p xs os (rw same k.0) d.0 k.1)
push_others-AllKept bottom p (suc i) (x ∷ xs) (o ∷ os) d e k =
    let (p₀, f, kp) = AllKept-get bottom xs os i e k.1 in
    (
      push-IsKept bottom p₀ p x o kp k.0 (overlaps_comm p₀ x ∙ IsClear-get x xs i d.0 f),
      push_others-AllKept bottom p i xs os d.1 e k.1,
    )

module _ (bottom : ℕ) (xs : List Rect) (d : IsDisjoint xs) where
  stage-AllKept :
      (i : ℕ) (s : Sweep) → AllKept bottom xs s.rects → AllKept bottom xs (stage i s).rects
  unfolding stage
  stage-AllKept i s k = elim (Option-cases (get_elem? s.rects i)) [
    | inl e ↦ rw (e, stage) k
    | inr (p, e) ↦ rw (e, stage) (push_others-AllKept bottom p i xs s.rects d e k)
  ]

  stages-AllKept :
      (n i : ℕ) (s : Sweep) → AllKept bottom xs s.rects → AllKept bottom xs (stages n i s).rects
  unfolding stages
  stages-AllKept zero i s k = k
  stages-AllKept (suc n) i s k = stages-AllKept n (suc i) (stage i s) (stage-AllKept i s k)

module _ (moved : Rect) (xs : List Rect) (d : IsDisjoint xs) where
  settle-AllKept :
      (guard : ℕ) (s : Sweep)
      → AllKept (moved.r + moved.h) xs s.rects
      → AllKept (moved.r + moved.h) xs (settle guard moved s).rects
  unfolding settle sweep
  settle-AllKept zero s k = k
  settle-AllKept (suc guard) s k = elim (Bool-cases s.again) [
    | inl e ↦
        rw (e, settle)
          (settle-AllKept guard (sweep moved s.rects) (
            stages-AllKept (moved.r + moved.h) xs d (length s.rects) 0 (push_all moved s.rects)
              (push_moved-AllKept moved xs s.rects k)))
    | inr e ↦ rw (e, settle) k
  ]

  -- If the other cards did not overlap one another, each of them keeps its place or ends no
  -- higher than the bottom of the moved card.
  pub resolve_rects-AllKept : AllKept (moved.r + moved.h) xs (resolve_rects moved xs).rects
  unfolding resolve_rects
  resolve_rects-AllKept =
      settle-AllKept ((length xs + 1) * 4 + 16) (record { rects = xs; again = true })
        (AllKept-refl (moved.r + moved.h) xs)
