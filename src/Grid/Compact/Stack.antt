-- ===== src/Grid/Compact/Stack.antt =====
-- The cards that `compact` of internal/server/web/static/widgets.js has settled.
use certguard.Base.{
  ℕ, ◌+◌, ◌≤◌, ◌<◌, ◌≡◌, false, inl, inr, List, [], ◌∷◌, arith, max, All, All-map, Bool-cases,
}
use certguard.Grid.Rect.{Rect, overlaps, IsFitted}
use certguard.Grid.Rect.Overlap.{IsClear, IsDisjoint}
use certguard.Grid.Columns.{Columns, top_over-ge, fill_over-lem}
use certguard.Grid.Compact.{rest_at, fill_below, settle_all}

-- The columns of the rectangle are free from its row on.
abbrev pub IsFree : Columns → Rect → Type 0
IsFree b a = (x : ℕ) → a.c ≤ x → x < a.c + a.w → b x ≤ a.r

pub rest_at-IsFree : (b : Columns) (a : Rect) → IsFree b (rest_at b a)
unfolding rest_at
rest_at-IsFree b a x h k = top_over-ge b 0 a.c a.w x h k

pub fill_below_inside :
    (b : Columns) (a : Rect) (x : ℕ) → a.c ≤ x → x < a.c + a.w → fill_below b a x ≡ a.r + a.h
unfolding fill_below
fill_below_inside b a x h k = ground (arith, fill_over-lem b (a.r + a.h) a.c a.w x)

-- A column is never emptied.
pub fill_below-ge : (b : Columns) (a : Rect) (x : ℕ) → IsFree b a → b x ≤ fill_below b a x
unfolding fill_below
fill_below-ge b a x f = ground (arith, fill_over-lem b (a.r + a.h) a.c a.w x, f x)

-- What is free below a card does not overlap the card.
free-clear :
    (b : Columns) (a d : Rect)
    → 1 ≤ a.w
    → 1 ≤ d.w
    → IsFree (fill_below b a) d
    → overlaps a d ≡ false
free-clear b a d wide wide' f = elim (Bool-cases (overlaps a d)) [
  | inr e ↦ e
  | inl e ↦ let x : ℕ = max a.c d.c in ground (arith, f x, fill_below_inside b a x)
]

pub rest_at-IsFitted : (b : Columns) (a : Rect) → IsFitted a → IsFitted (rest_at b a)
unfolding rest_at
rest_at-IsFitted b a v = record { wide = v.wide; inside = v.inside; tall = v.tall }

pub settle_all-IsFitted :
    (b : Columns) (xs : List Rect) → All IsFitted xs → All IsFitted (settle_all b xs)
unfolding settle_all
settle_all-IsFitted b [] v = tt
settle_all-IsFitted b (a ∷ xs) v =
    (rest_at-IsFitted b a v.0, settle_all-IsFitted (fill_below b (rest_at b a)) xs v.1)

settle_all-IsFree : (b : Columns) (xs : List Rect) → All (IsFree b) (settle_all b xs)
unfolding settle_all
settle_all-IsFree b [] = tt
settle_all-IsFree b (a ∷ xs) =
    let a' = rest_at b a in
    let b' = fill_below b a' in
    (
      rest_at-IsFree b a,
      All-map (settle_all b' xs)
          (λ d f x h k. omega (arith, f x h k, fill_below-ge b a' x (rest_at-IsFree b a)))
          (settle_all-IsFree b' xs),
    )

All-IsClear :
    (b : Columns) (a : Rect) (ds : List Rect)
    → 1 ≤ a.w
    → All IsFitted ds
    → All (IsFree (fill_below b a)) ds
    → IsClear a ds
All-IsClear b a [] wide v f = tt
All-IsClear b a (d ∷ ds) wide v f =
    (free-clear b a d wide v.0.wide f.0, All-IsClear b a ds wide v.1 f.1)

pub settle_all-IsDisjoint :
    (b : Columns) (xs : List Rect) → All IsFitted xs → IsDisjoint (settle_all b xs)
unfolding settle_all
settle_all-IsDisjoint b [] v = tt
settle_all-IsDisjoint b (a ∷ xs) v =
    let a' = rest_at b a in
    let b' = fill_below b a' in
    (
      All-IsClear b a' (settle_all b' xs) (rest_at-IsFitted b a v.0).wide
          (settle_all-IsFitted b' xs v.1) (settle_all-IsFree b' xs),
      settle_all-IsDisjoint b' xs v.1,
    )
