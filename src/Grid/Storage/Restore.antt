-- ===== src/Grid/Storage/Restore.antt =====
-- `save` and then `apply` of internal/server/web/static/widgets.js.
use certguard.Base.{
  ℕ, ◌≡◌, refl, ◌∙◌, sym, ap, String, true, false, inl, inr, List, [], ◌∷◌, map, Option, some,
  str_eq, eq_iff, arith, All, Bool-cases,
}
use mathlib.Core.Path.{subst}
use certguard.Grid.Rect.{RawRect}
use certguard.Grid.Card.{Card, rect_of, is_placed, HasUniqueIds}
use certguard.Grid.Place.{place_one, bottom_after, place_loop, place_unplaced, is_unplaced}
use certguard.Grid.Storage.{save, has, show_or_hide, arrange, apply, Stored}
use certguard.Grid.Storage.Positions.{
  set_one, set_positions-eq-map, entries, set_one-id, SameCards, SameLayout, All-other, AllPlacedAs,
  set_positions-AllPlacedAs, hidden_ids,
}

-- What the two sets of `apply` say of a card.
abbrev IsKnown : List String → List String → Card → Card → Type 0
IsKnown known hidden c d = (has c.id known ≡ true) × (has c.id hidden ≡ d.off)

abbrev AllKnown : List String → List String → List Card → List Card → Type 0
AllKnown known hidden [] [] = Unit
AllKnown known hidden [] (_ ∷ _) = ⊥
AllKnown known hidden (_ ∷ _) [] = ⊥
AllKnown known hidden (c ∷ cs) (d ∷ ds) = IsKnown known hidden c d × AllKnown known hidden cs ds

has_other :
    (c : Card) (ds : List Card)
    → All (λ e. str_eq c.id e.id ≡ false) ds
    → has c.id (hidden_ids ds) ≡ false
has_other c [] h = refl
has_other c (d ∷ ds) h = ground (arith, eq_iff c.id d.id, eq_iff d.id c.id, has_other c ds h.1)

IsKnown-own :
    (c d : Card) (ds : List Card)
    → c.id ≡ d.id
    → All (λ e. str_eq d.id e.id ≡ false) ds
    → IsKnown (map (λ x. x.id) (d ∷ ds)) (hidden_ids (d ∷ ds)) c d
IsKnown-own c d ds e h = (
  ground (arith, eq_iff d.id c.id),
  ground (arith, eq_iff d.id c.id, has_other c ds (All-other c d ds e h)),
)

-- One more card, of another id, changes nothing.
AllKnown-more :
    (d : Card) (known : List String) (all : List Card) (cs ds : List Card)
    → SameCards cs ds
    → All (λ e. str_eq d.id e.id ≡ false) ds
    → AllKnown known (hidden_ids all) cs ds
    → AllKnown (d.id ∷ known) (hidden_ids (d ∷ all)) cs ds
AllKnown-more d known all [] [] s h k = tt
AllKnown-more d known all [] (_ ∷ _) s h k = absurd s
AllKnown-more d known all (_ ∷ _) [] s h k = absurd s
AllKnown-more d known all (c ∷ cs) (e ∷ ds) s h k =
    let other : str_eq d.id c.id ≡ false = rw s.0 h.0 in
    ((ground arith, ground arith), AllKnown-more d known all cs ds s.1 h.1 k.1)

save-AllKnown :
    (cs ds : List Card)
    → SameCards cs ds
    → HasUniqueIds ds
    → AllKnown (map (λ x. x.id) ds) (hidden_ids ds) cs ds
save-AllKnown [] [] s u = tt
save-AllKnown [] (_ ∷ _) s u = absurd s
save-AllKnown (_ ∷ _) [] s u = absurd s
save-AllKnown (c ∷ cs) (d ∷ ds) s u = (
  IsKnown-own c d ds s.0 u.0,
  AllKnown-more d (map (λ x. x.id) ds) ds cs ds s.1 u.0 (save-AllKnown cs ds s.1 u.1),
)

record IsShownAs (c d : Card) (e : Card) : Type 0 where
  rect : rect_of e ≡ rect_of c
  off : e.off ≡ d.off
  placed : is_placed e ≡ is_placed c

show_or_hide-IsShownAs :
    (known hidden : List String) (c d : Card)
    → IsKnown known hidden c d
    → IsShownAs c d (show_or_hide known hidden c)
unfolding show_or_hide rect_of
show_or_hide-IsShownAs known hidden c d k = elim (Bool-cases d.off) [
  | inl e ↦
      let h : has c.id hidden ≡ true = k.1 ∙ e in
      record { rect = simp h; off = simp h (sym e); placed = simp h }
  | inr e ↦
      let h : has c.id hidden ≡ false = k.1 ∙ e in
      record { rect = simp (h, k.0); off = simp (h, k.0) (sym e); placed = simp (h, k.0) }
]

restored :
    (known hidden : List String) (cs ds : List Card)
    → AllPlacedAs cs ds
    → AllKnown known hidden cs ds
    → SameLayout (map (show_or_hide known hidden) cs) ds
      × All (λ c. is_placed c ≡ true) (map (show_or_hide known hidden) cs)
restored known hidden [] [] p k = (tt, tt)
restored known hidden [] (_ ∷ _) p k = absurd p
restored known hidden (_ ∷ _) [] p k = absurd p
restored known hidden (c ∷ cs) (d ∷ ds) p k =
    let s = show_or_hide-IsShownAs known hidden c d k.0 in
    let ih = restored known hidden cs ds p.1 k.1 in
    ((s.rect ∙ p.0.same, s.off, ih.0), (s.placed ∙ p.0.placed, ih.1))

place_loop-placed :
    (ih b : ℕ) (cs : List Card) → All (λ c. is_placed c ≡ true) cs → place_loop ih b cs ≡ cs
unfolding place_loop place_one bottom_after
place_loop-placed ih b [] h = refl
place_loop-placed ih b (c ∷ cs) h =
    let done : is_unplaced c ≡ false = ground arith in
    simp done (ap (c ∷◌) (place_loop-placed ih b cs h.1))

SameCards-set_one :
    (ps : List (String × RawRect)) (cs ds : List Card)
    → SameCards cs ds
    → SameCards (map (set_one ps) cs) ds
SameCards-set_one ps [] [] s = tt
SameCards-set_one ps [] (_ ∷ _) s = absurd s
SameCards-set_one ps (_ ∷ _) [] s = absurd s
SameCards-set_one ps (c ∷ cs) (d ∷ ds) s = (set_one-id ps c ∙ s.0, SameCards-set_one ps cs ds s.1)

map-id-entries :
    (ds : List Card) → map (λ (p : String × RawRect). p.0) (entries ds) ≡ map (λ c. c.id) ds
map-id-entries [] = refl
map-id-entries (d ∷ ds) = ap (d.id ∷◌) (map-id-entries ds)

-- The page that `restore` speaks of.
abbrev restored_page : List Card → List Card → List Card
restored_page fresh saved =
    map (show_or_hide (map (λ p. p.0) (entries saved)) (hidden_ids saved))
      (map (set_one (entries saved)) fresh)

apply-save-eq :
    (ih : ℕ) (defaults : Option Stored) (fresh saved : List Card)
    → All (λ c. is_placed c ≡ true) (restored_page fresh saved)
    → apply ih (some (save saved)) defaults fresh ≡ restored_page fresh saved
unfolding apply arrange save place_unplaced
apply-save-eq ih defaults fresh saved h =
    rw (set_positions-eq-map (entries saved) fresh)
      (place_loop-placed ih _ (restored_page fresh saved) h)

-- If ids are unique, a page with the same cards, whatever their attributes and whatever the shipped defaults, takes
-- from what `save` stored the rectangle of every card and whether it is hidden.
pub apply-save :
    (ih : ℕ) (defaults : Option Stored) (fresh saved : List Card)
    → SameCards fresh saved
    → HasUniqueIds saved
    → SameLayout (apply ih (some (save saved)) defaults fresh) saved
apply-save ih defaults fresh saved s u =
    let ps = entries saved in
    let known = map (λ (p : String × RawRect). p.0) ps in
    let cs = map (set_one ps) fresh in
    let k =
      subst (λ ids. AllKnown ids (hidden_ids saved) cs saved) (sym (map-id-entries saved))
        (save-AllKnown cs saved (SameCards-set_one ps fresh saved s) u) in
    let r =
      restored known (hidden_ids saved) cs saved (set_positions-AllPlacedAs fresh saved s u) k in
    subst (λ page. SameLayout page saved) (sym (apply-save-eq ih defaults fresh saved r.1)) r.0
