-- ===== src/Grid/Storage/Positions.antt =====
-- What the loop of `apply` over the stored positions does to each card.
use certguard.Base.{
  ◌≡◌, refl, ◌∙◌, ap, String, true, false, List, [], ◌∷◌, map, filter, str_eq, eq_iff, arith, All,
}
use mathlib.Core.Path.{ap₂}
use certguard.Grid.Rect.{RawRect, raw}
use certguard.Grid.Card.{Card, rect_of, set_rect, is_placed, HasUniqueIds}
use certguard.Grid.Card.Laws.{rect_of-set_raw, rect_of-IsFitted, set_rect-is_placed, str_eq_sym}
use certguard.Grid.Storage.{set_at, set_positions}

-- One card through the whole loop.
pub set_one : List (String × RawRect) → Card → Card
set_one [] c = c
set_one (p ∷ ps) c = set_one ps (set_at p c)

pub set_positions-eq-map :
    (ps : List (String × RawRect)) (g : List Card) → set_positions ps g ≡ map (set_one ps) g
unfolding set_positions set_one
set_positions-eq-map [] [] = refl
set_positions-eq-map [] (c ∷ g) = ap (c ∷◌) (set_positions-eq-map [] g)
set_positions-eq-map (p ∷ ps) g = set_positions-eq-map ps (map (set_at p) g) ∙ map_twice g
  where
    map_twice :
        (h : List Card) → map (set_one ps) (map (set_at p) h) ≡ map (λ c. set_one ps (set_at p c)) h
    map_twice [] = refl
    map_twice (c ∷ h) = ap (set_one ps (set_at p c) ∷◌) (map_twice h)

abbrev pub entries : List Card → List (String × RawRect)
entries = map (λ c. (c.id, raw (rect_of c)))

set_at_other : (p : String × RawRect) (c : Card) → str_eq c.id p.0 ≡ false → set_at p c ≡ c
unfolding set_at
set_at_other p c h = simp h

set_at_own : (a : RawRect) (c d : Card) → c.id ≡ d.id → set_at (d.id, a) c ≡ set_rect c a
unfolding set_at
set_at_own a c d e =
    let same : str_eq c.id d.id ≡ true = ground (arith, eq_iff c.id d.id) in simp same

set_at-id : (p : String × RawRect) (c : Card) → (set_at p c).id ≡ c.id
unfolding set_at set_rect
set_at-id p c = ground arith

set_at-off : (p : String × RawRect) (c : Card) → (set_at p c).off ≡ c.off
unfolding set_at set_rect
set_at-off p c = ground arith

pub set_one-id : (ps : List (String × RawRect)) (c : Card) → (set_one ps c).id ≡ c.id
unfolding set_one
set_one-id [] c = refl
set_one-id (p ∷ ps) c = set_one-id ps (set_at p c) ∙ set_at-id p c

-- A card that no entry names is left as it is.
set_one_other :
    (g : List Card) (c : Card) → All (λ d. str_eq c.id d.id ≡ false) g → set_one (entries g) c ≡ c
unfolding set_one
set_one_other [] c h = refl
set_one_other (d ∷ g) c h =
    ap (set_one (entries g)) (set_at_other (d.id, raw (rect_of d)) c h.0) ∙ set_one_other g c h.1

-- Two pages hold the same cards, in the same order.
abbrev pub SameCards : List Card → List Card → Type 0
SameCards [] [] = Unit
SameCards [] (_ ∷ _) = ⊥
SameCards (_ ∷ _) [] = ⊥
SameCards (c ∷ cs) (d ∷ ds) = (c.id ≡ d.id) × SameCards cs ds

-- Each card stands where its counterpart does, and is hidden if that is.
abbrev pub SameLayout : List Card → List Card → Type 0
SameLayout [] [] = Unit
SameLayout [] (_ ∷ _) = ⊥
SameLayout (_ ∷ _) [] = ⊥
SameLayout (c ∷ cs) (d ∷ ds) = (rect_of c ≡ rect_of d) × (c.off ≡ d.off) × SameLayout cs ds

pub All-other :
    (c d : Card) (ds : List Card)
    → c.id ≡ d.id
    → All (λ e. str_eq d.id e.id ≡ false) ds
    → All (λ e. str_eq c.id e.id ≡ false) ds
All-other c d [] e h = tt
All-other c d (x ∷ ds) e h = (rw e h.0, All-other c d ds e h.1)

-- The whole loop sets a card to the entry of its counterpart.
set_one_own :
    (c d : Card) (ds : List Card)
    → c.id ≡ d.id
    → All (λ e. str_eq d.id e.id ≡ false) ds
    → set_one (entries (d ∷ ds)) c ≡ set_rect c (raw (rect_of d))
unfolding set_one
set_one_own c d ds e h =
    ap (set_one (entries ds)) (set_at_own (raw (rect_of d)) c d e)
    ∙ set_one_other ds (set_rect c (raw (rect_of d))) (unfold set_rect in All-other c d ds e h)

-- Every card of the page is placed as its counterpart: by induction with the loop on all of it.
pub record IsPlacedAs (c d : Card) : Type 0 where
  pub same : rect_of c ≡ rect_of d
  pub placed : is_placed c ≡ true

abbrev pub AllPlacedAs : List Card → List Card → Type 0
AllPlacedAs [] [] = Unit
AllPlacedAs [] (_ ∷ _) = ⊥
AllPlacedAs (_ ∷ _) [] = ⊥
AllPlacedAs (c ∷ cs) (d ∷ ds) = IsPlacedAs c d × AllPlacedAs cs ds

skip_first :
    (d : Card) (ps : List (String × RawRect)) (cs ds : List Card)
    → SameCards cs ds
    → All (λ e. str_eq d.id e.id ≡ false) ds
    → map (set_one ((d.id, raw (rect_of d)) ∷ ps)) cs ≡ map (set_one ps) cs
unfolding set_one
skip_first d ps [] [] s h = refl
skip_first d ps [] (_ ∷ _) s h = absurd s
skip_first d ps (_ ∷ _) [] s h = absurd s
skip_first d ps (c ∷ cs) (e ∷ ds) s h =
    let other : str_eq c.id d.id ≡ false = rw s.0 (str_eq_sym d.id e.id h.0) in
    ap₂ (λ (x : Card) (xs : List Card). x ∷ xs)
      (ap (set_one ps) (set_at_other (d.id, raw (rect_of d)) c other))
      (skip_first d ps cs ds s.1 h.1)

pub set_positions-AllPlacedAs :
    (cs ds : List Card)
    → SameCards cs ds
    → HasUniqueIds ds
    → AllPlacedAs (map (set_one (entries ds)) cs) ds
set_positions-AllPlacedAs [] [] s u = tt
set_positions-AllPlacedAs [] (_ ∷ _) s u = absurd s
set_positions-AllPlacedAs (_ ∷ _) [] s u = absurd s
set_positions-AllPlacedAs (c ∷ cs) (d ∷ ds) s u =
    let own = set_one_own c d ds s.0 u.0 in
    (
      record {
        same = rw own (rect_of-set_raw c (rect_of d) (rect_of-IsFitted d));
        placed = rw own (set_rect-is_placed c (raw (rect_of d)));
      },
      rw (skip_first d (entries ds) cs ds s.1 u.0) (set_positions-AllPlacedAs cs ds s.1 u.1),
    )

abbrev pub hidden_ids : List Card → List String
hidden_ids g = map (λ c. c.id) (filter (λ c. c.off) g)
