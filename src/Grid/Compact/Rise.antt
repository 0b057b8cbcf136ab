-- ===== src/Grid/Compact/Rise.antt =====
-- How `compact` of internal/server/web/static/widgets.js changes a card's row.
use certguard.Base.{◌+◌, ◌≤◌, ◌≡◌, refl, false, List, [], ◌∷◌, arith, All, AllPairs}
use certguard.Grid.Rect.{Rect, overlaps, IsFitted}
use certguard.Grid.Rect.Overlap.{IsClear, IsDisjoint}
use certguard.Grid.Columns.{Columns, top_over-le, fill_over-lem}
use certguard.Grid.Compact.{rest_at, fill_below, settle_all}
use certguard.Grid.Compact.Stack.{IsFree}

-- The same card, no lower.
pub record IsRisen (a b : Rect) : Type 0 where
  pub same_c : b.c ≡ a.c
  pub same_w : b.w ≡ a.w
  pub same_h : b.h ≡ a.h
  pub up : b.r ≤ a.r

abbrev pub AllRisen : List Rect → List Rect → Type 0
AllRisen [] [] = Unit
AllRisen [] (b ∷ bs) = ⊥
AllRisen (a ∷ xs) [] = ⊥
AllRisen (a ∷ xs) (b ∷ bs) = IsRisen a b × AllRisen xs bs

rest_at-IsRisen : (b : Columns) (a : Rect) → IsFree b a → IsRisen a (rest_at b a)
unfolding rest_at
rest_at-IsRisen b a f = record {
  same_c = refl;
  same_w = refl;
  same_h = refl;
  up = top_over-le b 0 a.c a.w a.r (omega arith) f;
}

-- A later card that did not overlap is still free below the card that has risen.
later-IsFree :
    (b : Columns) (a d : Rect)
    → IsFitted a
    → IsFitted d
    → IsFree b a
    → IsFree b d
    → a.r ≤ d.r
    → overlaps a d ≡ false
    → IsFree (fill_below b (rest_at b a)) d
unfolding fill_below
later-IsFree b a d va vd fa fd le c x h k =
    let e = rest_at-IsRisen b a fa in
    ground (
      arith,
      fill_over-lem b ((rest_at b a).r + (rest_at b a).h) (rest_at b a).c (rest_at b a).w x,
      fd x,
    )

later-All :
    (b : Columns) (a : Rect) (ds : List Rect)
    → IsFitted a
    → All IsFitted ds
    → IsFree b a
    → All (IsFree b) ds
    → All (λ d. a.r ≤ d.r) ds
    → IsClear a ds
    → All (IsFree (fill_below b (rest_at b a))) ds
later-All b a [] va vs fa fs le c = tt
later-All b a (d ∷ ds) va vs fa fs le c =
    (later-IsFree b a d va vs.0 fa fs.0 le.0 c.0, later-All b a ds va vs.1 fa fs.1 le.1 c.1)

pub settle_all-AllRisen :
    (b : Columns) (xs : List Rect)
    → All IsFitted xs
    → All (IsFree b) xs
    → AllPairs (λ a d. a.r ≤ d.r) xs
    → IsDisjoint xs
    → AllRisen xs (settle_all b xs)
unfolding settle_all
settle_all-AllRisen b [] v f le d = tt
settle_all-AllRisen b (a ∷ xs) v f le d = (
  rest_at-IsRisen b a f.0,
  settle_all-AllRisen (fill_below b (rest_at b a)) xs v.1
      (later-All b a xs v.0 v.1 f.0 f.1 le.0 d.0) le.1 d.1,
)
