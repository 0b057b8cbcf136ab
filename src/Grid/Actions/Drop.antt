-- ===== src/Grid/Actions/Drop.antt =====
-- A drop in internal/server/web/static/widgets.js: the moved card and the other visible cards.
use certguard.Base.{
  ◌≡◌, refl, ◌∙◌, sym, ap, String, true, false, inl, inr, some, List, [], ◌∷◌, map, filter, str_eq,
  if◌then◌else◌, arith, All, Bool-cases, All-to-map, All-intro,
}
use mathlib.Core.Path.{subst}
use certguard.Grid.Rect.{Rect, RawRect, raw, normalise, IsFitted}
use certguard.Grid.Rect.Overlap.{IsDisjoint}
use certguard.Grid.Card.{Card, rect_of, set_rect, by_id}
use certguard.Grid.Card.Laws.{rect_of-IsFitted, rect_of-set_rect, rect_of-set_raw}
use certguard.Grid.Resolve.{resolve_rects}
use certguard.Grid.Resolve.Rows.{IsLowered, AllLowered, resolve_rects-AllLowered}
use certguard.Grid.Resolve.Quiet.{resolve_rects-IsDisjoint}
use certguard.Grid.Actions.{is_other, write_back, resolve, put_at, place}

IsLowered-IsFitted : (a b : Rect) → IsLowered a b → IsFitted a → IsFitted b
IsLowered-IsFitted a b l v = ground arith

AllLowered-IsFitted : (xs ys : List Rect) → AllLowered xs ys → All IsFitted xs → All IsFitted ys
AllLowered-IsFitted [] [] l v = tt
AllLowered-IsFitted [] (_ ∷ _) l v = absurd l
AllLowered-IsFitted (_ ∷ _) [] l v = absurd l
AllLowered-IsFitted (x ∷ xs) (y ∷ ys) l v =
    (IsLowered-IsFitted x y l.0 v.0, AllLowered-IsFitted xs ys l.1 v.1)

abbrev pub others : String → List Card → List Rect
others id g = map rect_of (filter (is_other id) g)

is_other-set_rect :
    (id : String) (c : Card) (a : RawRect) → is_other id (set_rect c a) ≡ is_other id c
unfolding set_rect
is_other-set_rect id c a = refl

others_cons :
    (id : String) (c : Card) (g : List Card)
    → is_other id c ≡ true
    → others id (c ∷ g) ≡ rect_of c ∷ others id g
others_cons id c g e = rw e refl

others_skip :
    (id : String) (c : Card) (g : List Card)
    → is_other id c ≡ false
    → others id (c ∷ g) ≡ others id g
others_skip id c g e = rw e refl

write_back_set :
    (id : String) (a : Rect) (rs : List Rect) (c : Card) (g : List Card)
    → is_other id c ≡ true
    → write_back id (a ∷ rs) (c ∷ g) ≡ set_rect c (raw a) ∷ write_back id rs g
unfolding write_back
write_back_set id a rs c g e = rw e refl

write_back_skip :
    (id : String) (rs : List Rect) (c : Card) (g : List Card)
    → is_other id c ≡ false
    → write_back id rs (c ∷ g) ≡ c ∷ write_back id rs g
unfolding write_back
write_back_skip id [] c [] e = refl
write_back_skip id [] c (d ∷ g) e = refl
write_back_skip id (a ∷ rs) c g e = rw e refl

-- Writing the rectangles back gives each to its card.
others-write_back :
    (id : String) (g : List Card) (rs : List Rect)
    → AllLowered (others id g) rs
    → All IsFitted rs
    → others id (write_back id rs g) ≡ rs
unfolding write_back
others-write_back id [] [] l v = refl
others-write_back id [] (_ ∷ _) l v = absurd l
others-write_back id (c ∷ g) rs l v = elim (Bool-cases (is_other id c)) [
  | inl e ↦
      at_other (others-write_back id g) rs (subst (λ o. AllLowered o rs) (others_cons id c g e) l) v
        e
  | inr e ↦
      ap (others id) (write_back_skip id rs c g e)
      ∙ others_skip id c (write_back id rs g) e
      ∙ others-write_back id g rs (subst (λ o. AllLowered o rs) (others_skip id c g e) l) v
]
  where
    at_other :
        ((xs : List Rect)
          → AllLowered (others id g) xs
          → All IsFitted xs
          → others id (write_back id xs g) ≡ xs)
        → (xs : List Rect) → AllLowered (rect_of c ∷ others id g) xs
        → All IsFitted xs
        → is_other id c ≡ true
        → others id (write_back id xs (c ∷ g)) ≡ xs
    at_other ih [] k w e = absurd k
    at_other ih (a ∷ xs) k w e =
        ap (others id) (write_back_set id a xs c g e)
        ∙ others_cons id (set_rect c (raw a)) (write_back id xs g)
            (is_other-set_rect id c (raw a) ∙ e)
        ∙ ap (◌∷ others id (write_back id xs g)) (rect_of-set_raw c a w.0)
        ∙ ap (a ∷◌) (ih xs k.1 w.1)

update_other :
    (id : String) (f : Card → Card) (c : Card)
    → is_other id c ≡ true
    → (if str_eq c.id id then f c else c) ≡ c
update_other id f c e = elim (Bool-cases (str_eq c.id id)) [
  | inl h ↦ absurd (ground arith)
  | inr h ↦ rw h refl
]

-- Moving the card leaves the others where they are.
others-put_at :
    (id : String) (a : RawRect) (g : List Card) → others id (put_at id a g) ≡ others id g
unfolding put_at
others-put_at id a [] = refl
others-put_at id a (c ∷ g) = elim (Bool-cases (is_other id c)) [
  | inl e ↦
      let same = update_other id (λ d. set_rect d a) c e in
      ap (λ d. others id (d ∷ put_at id a g)) same
      ∙ others_cons id c (put_at id a g) e
      ∙ ap (rect_of c ∷◌) (others-put_at id a g)
      ∙ sym (others_cons id c g e)
  | inr e ↦
      others_skip id (if str_eq c.id id then set_rect c a else c) (put_at id a g) (still c e)
      ∙ others-put_at id a g
      ∙ sym (others_skip id c g e)
]
  where
    still :
        (d : Card)
        → is_other id d ≡ false
        → is_other id (if str_eq d.id id then set_rect d a else d) ≡ false
    still d e = elim (Bool-cases (str_eq d.id id)) [
      | inl h ↦ rw h (is_other-set_rect id d a ∙ e)
      | inr h ↦ rw h e
    ]

others-IsFitted : (id : String) (g : List Card) → All IsFitted (others id g)
others-IsFitted id g =
    All-to-map IsFitted rect_of (filter (is_other id) g)
      (All-intro (filter (is_other id) g) rect_of-IsFitted)

others-resolve :
    (id : String) (m : Rect) (g : List Card)
    → others id (resolve id m g) ≡ (resolve_rects m (others id g)).rects
unfolding resolve
others-resolve id m g =
    let low = resolve_rects-AllLowered m (others id g) in
    let rs = (resolve_rects m (others id g)).rects in
    others-write_back id g rs low (AllLowered-IsFitted (others id g) rs low (others-IsFitted id g))

place_found :
    (id : String) (a : RawRect) (g : List Card) (c : Card)
    → by_id id g ≡ some c
    → place id a g ≡ resolve id (rect_of (set_rect c a)) (put_at id a g)
unfolding place
place_found id a g c found = rw (found, place) refl

-- The other visible cards get what `resolve` has computed for them.
others-place :
    (id : String) (a : RawRect) (g : List Card) (c : Card)
    → by_id id g ≡ some c
    → others id (place id a g) ≡ (resolve_rects (normalise a) (others id g)).rects
others-place id a g c found =
    let moved = normalise a in
    ap (others id) (place_found id a g c found)
    ∙ ap (λ m. others id (resolve id m (put_at id a g))) (rect_of-set_rect c a)
    ∙ others-resolve id moved (put_at id a g)
    ∙ ap (λ o. (resolve_rects moved o).rects) (others-put_at id a g)

by_id_set :
    (id : String) (c : Card) (a : RawRect) (g : List Card)
    → str_eq c.id id ≡ true
    → by_id id (set_rect c a ∷ g) ≡ some (set_rect c a)
unfolding set_rect
by_id_set id c a g e = rw e refl

by_id_skip :
    (id : String) (c : Card) (g : List Card)
    → str_eq c.id id ≡ false
    → by_id id (c ∷ g) ≡ by_id id g
by_id_skip id c g e = rw e refl

by_id_first :
    (id : String) (c : Card) (g : List Card) → str_eq c.id id ≡ true → by_id id (c ∷ g) ≡ some c
by_id_first id c g e = rw e refl

-- The card that has been set is found with what it was set to.
by_id-put_at :
    (id : String) (a : RawRect) (g : List Card) (c : Card)
    → by_id id g ≡ some c
    → by_id id (put_at id a g) ≡ some (set_rect c a)
unfolding put_at
by_id-put_at id a [] c h = absurd cc
by_id-put_at id a (d ∷ g) c h = elim (Bool-cases (str_eq d.id id)) [
  | inl e ↦
      let same : d ≡ c = let k = by_id_first id d g e in cc in
      ap (λ x. by_id id (x ∷ put_at id a g)) (chosen e)
      ∙ by_id_set id d a (put_at id a g) e
      ∙ ap (λ x. some (set_rect x a)) same
  | inr e ↦
      ap (λ x. by_id id (x ∷ put_at id a g)) (passed e)
      ∙ by_id_skip id d (put_at id a g) e
      ∙ by_id-put_at id a g c (sym (by_id_skip id d g e) ∙ h)
]
  where
    chosen : str_eq d.id id ≡ true → (if str_eq d.id id then set_rect d a else d) ≡ set_rect d a
    chosen e = rw e refl

    passed : str_eq d.id id ≡ false → (if str_eq d.id id then set_rect d a else d) ≡ d
    passed e = rw e refl

-- Writing back touches the others only.
by_id-write_back :
    (id : String) (rs : List Rect) (g : List Card) → by_id id (write_back id rs g) ≡ by_id id g
unfolding write_back set_rect
by_id-write_back id rs [] = refl
by_id-write_back id [] (c ∷ g) = refl
by_id-write_back id (a ∷ rs) (c ∷ g) = elim (Bool-cases (is_other id c)) [
  | inl e ↦
      ap (by_id id) (write_back_set id a rs c g e)
      ∙ by_id_skip id (set_rect c (raw a)) (write_back id rs g) (other_set e)
      ∙ by_id-write_back id rs g
      ∙ sym (by_id_skip id c g (ground (arith, e)))
  | inr e ↦
      ap (by_id id) (write_back_skip id (a ∷ rs) c g e)
      ∙ by_id_cons (write_back id (a ∷ rs) g) g (by_id-write_back id (a ∷ rs) g)
]
  where
    other_set : is_other id c ≡ true → str_eq (set_rect c (raw a)).id id ≡ false
    other_set e = ground (arith, e)

    by_id_cons :
        (xs ys : List Card) → by_id id xs ≡ by_id id ys → by_id id (c ∷ xs) ≡ by_id id (c ∷ ys)
    by_id_cons xs ys h = elim (Bool-cases (str_eq c.id id)) [
      | inl e ↦ by_id_first id c xs e ∙ sym (by_id_first id c ys e)
      | inr e ↦ by_id_skip id c xs e ∙ h ∙ sym (by_id_skip id c ys e)
    ]

by_id-place :
    (id : String) (a : RawRect) (g : List Card) (c : Card)
    → by_id id g ≡ some c
    → by_id id (place id a g) ≡ some (set_rect c a)
unfolding resolve
by_id-place id a g c found =
    let m = rect_of (set_rect c a) in
    ap (by_id id) (place_found id a g c found)
    ∙ by_id-write_back id
        (resolve_rects m (map rect_of (filter (is_other id) (put_at id a g)))).rects (put_at id a g)
    ∙ by_id-put_at id a g c found

-- The card with the id stands at the rectangle, and no two of it and the other visible cards
-- overlap.
abbrev pub IsPlaced : String → Rect → List Card → Type 0
IsPlaced id m g =
    (d : Card) × (by_id id g ≡ some d) × (rect_of d ≡ m) × IsDisjoint (rect_of d ∷ others id g)

-- Placing a card, if a round of the pushing pushes nothing before the rounds run out, puts it
-- where it was to go, the rectangle made to fit the grid, and leaves no overlap between it and the
-- other visible cards or among those.
pub place-IsDisjoint :
    (id : String) (a : RawRect) (g : List Card) (c : Card)
    → by_id id g ≡ some c
    → (resolve_rects (normalise a) (others id g)).again ≡ false
    → IsPlaced id (normalise a) (place id a g)
place-IsDisjoint id a g c found rest = (
  set_rect c a,
  by_id-place id a g c found,
  rect_of-set_rect c a,
  subst (λ m. IsDisjoint (m ∷ others id (place id a g))) (sym (rect_of-set_rect c a))
      (subst (λ o. IsDisjoint (normalise a ∷ o)) (sym (others-place id a g c found))
        (resolve_rects-IsDisjoint (normalise a) (others id g) rest)),
)
