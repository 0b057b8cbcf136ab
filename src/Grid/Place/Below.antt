-- ===== src/Grid/Place/Below.antt =====
-- Where `placeUnplaced` of internal/server/web/static/widgets.js puts cards.
use certguard.Base.{
  ℕ, ◌+◌, ◌≤◌, ◌≡◌, refl, ◌∙◌, ap, Bool, true, false, inl, inr, List, [], ◌∷◌, filter, arith, max,
  All, AllPairs, Bool-cases, All-map,
}
use mathlib.Core.Path.{subst}
use certguard.Base.Pairs.{All-when_filter, AllPairs-when_filter}
use certguard.Grid.Rect.{Rect, overlaps, normalise}
use certguard.Grid.Rect.Overlap.{overlaps_comm}
use certguard.Grid.Card.{
  Card, visible, is_visible, is_placed, row_of, h_of, rect_of, set_rect, IsSpread,
}
use certguard.Grid.Card.Laws.{rect_of-set_rect, set_rect-is_placed}
use certguard.Grid.Compact.{is_packed, packed}
use certguard.Grid.Place.{
  bottom_of, below_all, is_unplaced, place_one, bottom_after, place_loop, place_unplaced,
}

abbrev pub bottom : Card → ℕ
bottom c = (rect_of c).r + (rect_of c).h

-- No card of the list reaches below the row.
abbrev pub AllAbove : ℕ → List Card → Type 0
AllAbove b = All (λ c. bottom c ≤ b)

AllAbove-mono : (a b : ℕ) (cs : List Card) → a ≤ b → AllAbove a cs → AllAbove b cs
AllAbove-mono a b [] h k = tt
AllAbove-mono a b (c ∷ cs) h k = (omega (arith, k.0), AllAbove-mono a b cs h k.1)

pub bottom_of-AllAbove : (cs : List Card) → AllAbove (bottom_of cs) cs
unfolding bottom_of rect_of
bottom_of-AllAbove [] = tt
bottom_of-AllAbove (c ∷ cs) = (
  omega arith,
  AllAbove-mono (bottom_of cs) (max (row_of c + h_of c) (bottom_of cs)) cs (omega arith)
      (bottom_of-AllAbove cs),
)

pub below_all-row : (ih b : ℕ) (c : Card) → (rect_of (set_rect c (below_all ih b c))).r ≡ b
below_all-row ih b c = ap (λ (a : Rect). a.r) (rect_of-set_rect c (below_all ih b c)) ∙ at_row
  where
    at_row : (normalise (below_all ih b c)).r ≡ b
    at_row = unfold normalise below_all in refl

-- A rectangle that ends above another's first row does not overlap it.
pub above-clear : (a b : Rect) → a.r + a.h ≤ b.r → overlaps a b ≡ false
above-clear a b h = ground arith

-- What one round of the loop does with a card.
data Round (ih b : ℕ) (c : Card) : Type 0 where
  hidden : is_visible c ≡ false → place_one ih b c ≡ c → bottom_after ih b c ≡ b → Round ih b c
  placed :
      is_packed c ≡ true
      → is_visible c ≡ true
      → place_one ih b c ≡ c
      → bottom_after ih b c ≡ b
      → Round ih b c
  unplaced :
      is_visible (place_one ih b c) ≡ true
      → is_placed (place_one ih b c) ≡ true
      → (rect_of (place_one ih b c)).r ≡ b
      → bottom_after ih b c ≡ b + (rect_of (place_one ih b c)).h
      → Round ih b c

round : (ih b : ℕ) (c : Card) → Round ih b c
unfolding place_one bottom_after rect_of
round ih b c = elim (Bool-cases (is_visible c)) [
  | inr h ↦ hidden h (ground arith) (ground arith)
  | inl h ↦ elim (Bool-cases (is_placed c)) [
    | inl p ↦ placed (ground arith) h (ground arith) (ground arith)
    | inr p ↦
        let u : is_unplaced c ≡ true = ground arith in
        let same : place_one ih b c ≡ set_rect c (below_all ih b c) = simp u in
        let seen : is_visible (set_rect c (below_all ih b c)) ≡ true = unfold set_rect in h in
        unplaced (rw same seen) (rw same (set_rect-is_placed c (below_all ih b c)))
          (rw same (below_all-row ih b c)) (ground arith)
  ]
]

abbrev Avoids : Rect → Card → Type 0
Avoids a e = overlaps a (rect_of e) ≡ false

filter-cons {ℓ} :
    {A : Type ℓ} (p : A → Bool) (x : A) (xs : List A)
    → p x ≡ true
    → filter p (x ∷ xs) ≡ x ∷ filter p xs
filter-cons p x xs h = rw h

filter-skip {ℓ} :
    {A : Type ℓ} (p : A → Bool) (x : A) (xs : List A)
    → p x ≡ false
    → filter p (x ∷ xs) ≡ filter p xs
filter-skip p x xs h = rw h

-- A card that ends above the bottom is clear of the cards placed from there on.
place_loop-clear :
    (a : Rect) (ih b : ℕ) (cs : List Card)
    → a.r + a.h ≤ b
    → All (λ e. is_packed e ≡ true → Avoids a e) cs
    → All (Avoids a) (visible (place_loop ih b cs))
unfolding place_loop
place_loop-clear a ih b [] h k = tt
place_loop-clear a ih b (c ∷ cs) h k = elim (round ih b c) [
  | hidden v e f ↦
      rw (e, f, filter-skip is_visible c (place_loop ih b cs) v) (place_loop-clear a ih b cs h k.1)
  | placed p v e f ↦
      rw (e, f, filter-cons is_visible c (place_loop ih b cs) v)
        (k.0 p, place_loop-clear a ih b cs h k.1)
  | unplaced v p e f ↦
      rw (filter-cons is_visible (place_one ih b c) (place_loop ih (bottom_after ih b c) cs) v) (
        above-clear a (rect_of (place_one ih b c)) (omega arith),
        place_loop-clear a ih (bottom_after ih b c) cs (omega arith) k.1,
      )
]

place_loop-IsSpread :
    (ih top b : ℕ) (cs : List Card)
    → top ≤ b
    → All (λ e. is_packed e ≡ true → bottom e ≤ top) cs
    → AllPairs (λ c e. is_packed c ≡ true → is_packed e ≡ true → Avoids (rect_of c) e) cs
    → IsSpread (visible (place_loop ih b cs))
unfolding place_loop
place_loop-IsSpread ih top b [] h k d = tt
place_loop-IsSpread ih top b (c ∷ cs) h k d = elim (round ih b c) [
  | hidden v e f ↦
      rw (e, f, filter-skip is_visible c (place_loop ih b cs) v)
        (place_loop-IsSpread ih top b cs h k.1 d.1)
  | placed p v e f ↦
      rw (e, f, filter-cons is_visible c (place_loop ih b cs) v)
        (
          place_loop-clear (rect_of c) ih b cs (omega (arith, k.0 p)) (All-map cs (λ x m. m p) d.0),
          place_loop-IsSpread ih top b cs h k.1 d.1,
        )
  | unplaced v p e f ↦
      rw (filter-cons is_visible (place_one ih b c) (place_loop ih (bottom_after ih b c) cs) v) (
        place_loop-clear (rect_of (place_one ih b c)) ih (bottom_after ih b c) cs (omega arith) (
            All-map cs
              (λ x m q.
                overlaps_comm (rect_of (place_one ih b c)) (rect_of x)
                ∙ above-clear (rect_of x) (rect_of (place_one ih b c)) (omega (arith, m q)))
              k.1),
        place_loop-IsSpread ih top (bottom_after ih b c) cs (omega arith) k.1 d.1,
      )
]

filter-is_placed-visible : (g : List Card) → filter is_placed (visible g) ≡ packed g
filter-is_placed-visible [] = refl
filter-is_placed-visible (c ∷ cs) = ground (arith, filter-is_placed-visible cs)

-- If no two cards that had a position overlapped, then after `placeUnplaced` no two visible cards
-- overlap.
pub place_unplaced-IsSpread :
    (ih : ℕ) (g : List Card) → IsSpread (packed g) → IsSpread (visible (place_unplaced ih g))
unfolding place_unplaced
place_unplaced-IsSpread ih g d =
    let top = bottom_of (filter is_placed (visible g)) in
    place_loop-IsSpread ih top top g (omega arith)
      (All-when_filter (λ e. bottom e ≤ top) is_packed g
        (subst (AllAbove top) (filter-is_placed-visible g)
          (bottom_of-AllAbove (filter is_placed (visible g)))))
      (AllPairs-when_filter (λ c e. Avoids (rect_of c) e) is_packed g d)
