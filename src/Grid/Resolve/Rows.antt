-- ===== src/Grid/Resolve/Rows.antt =====
-- What `resolve` of internal/server/web/static/widgets.js changes of a rectangle.
use certguard.Base.{
  ℕ, zero, suc, ◌≤◌, ◌≡◌, true, inl, inr, List, [], ◌∷◌, arith, Option-cases, Bool-cases, get_elem?,
  length, ◌+◌, ◌*◌,
}
use certguard.Grid.Rect.{Rect}
use certguard.Grid.Resolve.{
  Sweep, push, push_all, push_others, stage, stages, sweep, settle, resolve_rects,
}

-- `b` is `a`, perhaps further down.
pub record IsLowered (a b : Rect) : Type 0 where
  pub same_c : b.c ≡ a.c
  pub same_w : b.w ≡ a.w
  pub same_h : b.h ≡ a.h
  pub down : a.r ≤ b.r

abbrev pub AllLowered : List Rect → List Rect → Type 0
AllLowered [] [] = Unit
AllLowered [] (b ∷ bs) = ⊥
AllLowered (a ∷ xs) [] = ⊥
AllLowered (a ∷ xs) (b ∷ bs) = IsLowered a b × AllLowered xs bs

IsLowered-refl : (a : Rect) → IsLowered a a
IsLowered-refl a = ground arith

pub AllLowered-refl : (xs : List Rect) → AllLowered xs xs
AllLowered-refl [] = tt
AllLowered-refl (a ∷ xs) = (IsLowered-refl a, AllLowered-refl xs)

IsLowered-trans : {a b d : Rect} → IsLowered a b → IsLowered b d → IsLowered a d
IsLowered-trans p q = ground arith

AllLowered-trans : (xs ys zs : List Rect) → AllLowered xs ys → AllLowered ys zs → AllLowered xs zs
AllLowered-trans [] [] [] p q = tt
AllLowered-trans [] [] (_ ∷ _) p q = q
AllLowered-trans [] (_ ∷ _) _ p q = absurd p
AllLowered-trans (_ ∷ _) [] _ p q = absurd p
AllLowered-trans (_ ∷ _) (_ ∷ _) [] p q = q
AllLowered-trans (x ∷ xs) (y ∷ ys) (z ∷ zs) p q =
    (IsLowered-trans p.0 q.0, AllLowered-trans xs ys zs p.1 q.1)

push-IsLowered : (p o : Rect) → IsLowered o (push p o)
unfolding push
push-IsLowered p o = ground arith

pub push_all-AllLowered : (p : Rect) (os : List Rect) → AllLowered os (push_all p os).rects
unfolding push_all
push_all-AllLowered p [] = tt
push_all-AllLowered p (o ∷ os) = (push-IsLowered p o, push_all-AllLowered p os)

push_others-AllLowered :
    (p : Rect) (i : ℕ) (os : List Rect) → AllLowered os (push_others p i os).rects
unfolding push_others
push_others-AllLowered p i [] = tt
push_others-AllLowered p zero (o ∷ os) = (IsLowered-refl o, push_all-AllLowered p os)
push_others-AllLowered p (suc i) (o ∷ os) = (push-IsLowered p o, push_others-AllLowered p i os)

pub stage-AllLowered : (i : ℕ) (s : Sweep) → AllLowered s.rects (stage i s).rects
unfolding stage
stage-AllLowered i s = elim (Option-cases (get_elem? s.rects i)) [
  | inl e ↦ rw (e, stage) (AllLowered-refl s.rects)
  | inr (p, e) ↦ rw (e, stage) (push_others-AllLowered p i s.rects)
]

stages-AllLowered : (n i : ℕ) (s : Sweep) → AllLowered s.rects (stages n i s).rects
unfolding stages
stages-AllLowered zero i s = AllLowered-refl s.rects
stages-AllLowered (suc n) i s =
    AllLowered-trans s.rects (stage i s).rects _ (stage-AllLowered i s)
      (stages-AllLowered n (suc i) (stage i s))

sweep-AllLowered : (moved : Rect) (os : List Rect) → AllLowered os (sweep moved os).rects
unfolding sweep
sweep-AllLowered moved os =
    AllLowered-trans os (push_all moved os).rects _ (push_all-AllLowered moved os)
      (stages-AllLowered (length os) 0 (push_all moved os))

settle-AllLowered :
    (guard : ℕ) (moved : Rect) (s : Sweep) → AllLowered s.rects (settle guard moved s).rects
unfolding settle
settle-AllLowered zero moved s = AllLowered-refl s.rects
settle-AllLowered (suc guard) moved s = elim (Bool-cases s.again) [
  | inl e ↦
      rw (e, settle)
        (AllLowered-trans s.rects (sweep moved s.rects).rects _ (sweep-AllLowered moved s.rects)
          (settle-AllLowered guard moved (sweep moved s.rects)))
  | inr e ↦ rw (e, settle) (AllLowered-refl s.rects)
]

-- Every other card keeps its column, its width and its height, and no card moves up.
pub resolve_rects-AllLowered :
    (moved : Rect) (os : List Rect) → AllLowered os (resolve_rects moved os).rects
unfolding resolve_rects
resolve_rects-AllLowered moved os =
    settle-AllLowered ((length os + 1) * 4 + 16) moved (record { rects = os; again = true })
