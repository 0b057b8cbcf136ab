-- ===== src/Grid/Compact/Cards.antt =====
-- `compact` of internal/server/web/static/widgets.js on the cards themselves, in whatever order the
-- document holds them.
use certguard.Base.{
  ℕ, ◌+◌, ◌<◌, ◌≤◌, ◌≡◌, refl, ◌∙◌, ap, true, false, some, List, [], ◌∷◌, map, arith, str_eq,
  eq_iff, All, AllPairs, All-to-map, AllPairs-of-map, AllPairs-to-map, AllPairs-imp, All-of_filter,
  All-intro, filter-All, filter-map, AllPairs-filter,
}
use certguard.Base.Sort.{
  sort, sort-IsSorted, All-sort, All-of_sort, AllPairs-sort, AllPairs-of_sort,
}
use certguard.Grid.Rect.{Rect, raw, overlaps, IsFitted}
use certguard.Grid.Rect.Overlap.{IsDisjoint, overlaps_comm}
use certguard.Grid.Card.{Card, rect_of, row_of, set_rect, HasUniqueIds, IsSpread}
use certguard.Grid.Card.Laws.{rect_of-IsFitted, rect_of-set_raw, str_eq_sym}
use certguard.Grid.Columns.{Columns, empty_columns}
use certguard.Grid.Compact.{
  reads_after, is_packed, packed, rest_at, fill_below, settle_all, Placements, placements,
  placement_of, put_back, compact,
}
use certguard.Grid.Compact.Stack.{settle_all-IsDisjoint, settle_all-IsFitted}
use certguard.Grid.Compact.Rise.{IsRisen, AllRisen, settle_all-AllRisen}

-- A placement of another id is passed over.
map-placement_of-cons :
    (c : Card) (a : Rect) (ps : Placements) (ds : List Card)
    → All (λ d. str_eq c.id d.id ≡ false) ds
    → map (λ d. placement_of d.id ((c.id, a) ∷ ps)) ds ≡ map (λ d. placement_of d.id ps) ds
unfolding placement_of
map-placement_of-cons c a ps [] h = refl
map-placement_of-cons c a ps (d ∷ ds) h =
    rw h.0 (ap (placement_of d.id ps ∷◌) (map-placement_of-cons c a ps ds h.1))

str_eq_self : (c : Card) → str_eq c.id c.id ≡ true
str_eq_self c = ground (arith, eq_iff c.id c.id)

-- Each card finds the rectangle that the loop gave to it.
map-placement_of :
    (b : Columns) (cs : List Card)
    → HasUniqueIds cs
    → map (λ c. placement_of c.id (placements b cs)) cs ≡ map some (settle_all b (map rect_of cs))
unfolding placements settle_all
map-placement_of b [] u = refl
map-placement_of b (c ∷ cs) u =
    let a = rest_at b (rect_of c) in
    let ps = placements (fill_below b a) cs in
    let own : placement_of c.id ((c.id, a) ∷ ps) ≡ some a =
      unfold placement_of in rw (str_eq_self c) in
    rw (own, map-placement_of-cons c a ps cs u.0)
      (ap (some a ∷◌) (map-placement_of (fill_below b a) cs u.1))

put_back_at :
    (ps : Placements) (c : Card) (a : Rect)
    → is_packed c ≡ true
    → placement_of c.id ps ≡ some a
    → IsFitted a
    → rect_of (put_back ps c) ≡ a
put_back_at ps c a k e v =
    let same : put_back ps c ≡ set_rect c (raw a) = unfold put_back in rw (k, e) in
    rw same (rect_of-set_raw c a v)

put_back_out : (ps : Placements) (c : Card) → is_packed c ≡ false → put_back ps c ≡ c
unfolding put_back
put_back_out ps c k = rw k

is_packed-put_back : (ps : Placements) (c : Card) → is_packed (put_back ps c) ≡ is_packed c
unfolding put_back set_rect
is_packed-put_back ps c = ground arith

map-rect_of-put_back :
    (ps : Placements) (cs : List Card) (xs : List Rect)
    → map (λ c. placement_of c.id ps) cs ≡ map some xs
    → All (λ c. is_packed c ≡ true) cs
    → All IsFitted xs
    → map (λ c. rect_of (put_back ps c)) cs ≡ xs
map-rect_of-put_back ps [] [] e k v = refl
map-rect_of-put_back ps [] (_ ∷ _) e k v = cc
map-rect_of-put_back ps (_ ∷ _) [] e k v = cc
map-rect_of-put_back ps (c ∷ cs) (a ∷ xs) e k v =
    let head : placement_of c.id ps ≡ some a = cc in
    let rest : map (λ d. placement_of d.id ps) cs ≡ map some xs = cc in
    cc (put_back_at ps c a k.0 head v.0, map-rect_of-put_back ps cs xs rest k.1 v.1)

reads_after_asym : (x y : Card) → reads_after x y ≡ true → reads_after y x ≡ false
unfolding reads_after
reads_after_asym x y h = ground arith

reads_after_trans :
    (x y z : Card) → reads_after x y ≡ false → reads_after y z ≡ false → reads_after x z ≡ false
unfolding reads_after
reads_after_trans x y z h k = ground arith

reads_after-row : (x y : Card) → reads_after x y ≡ false → row_of x ≤ row_of y
unfolding reads_after
reads_after-row x y h = ground arith

AllRisen-All :
    (f h : Card → Rect) (cs : List Card)
    → AllRisen (map f cs) (map h cs)
    → All (λ c. IsRisen (f c) (h c)) cs
AllRisen-All f h [] r = tt
AllRisen-All f h (c ∷ cs) r = (r.0, AllRisen-All f h cs r.1)

All-AllRisen :
    (f h : Card → Rect) (k : Card → Card) (cs : List Card)
    → All (λ c. IsRisen (f c) (h (k c))) cs
    → AllRisen (map f cs) (map h (map k cs))
All-AllRisen f h k [] r = tt
All-AllRisen f h k (c ∷ cs) r = (r.0, All-AllRisen f h k cs r.1)

IsRisen-refl : (a : Rect) → IsRisen a a
IsRisen-refl a = record { same_c = refl; same_w = refl; same_h = refl; up = omega arith }

no_bottom :
    (cs : List Card) → All (λ a. (x : ℕ) → a.c ≤ x → x < a.c + a.w → 0 ≤ a.r) (map rect_of cs)
no_bottom [] = tt
no_bottom (c ∷ cs) = (λ x h k. omega arith, no_bottom cs)

module _ (g : List Card) (u : HasUniqueIds g) where
  abbrev in_order : List Card
  in_order = sort reads_after (packed g)

  abbrev the_placements : Placements
  the_placements = placements empty_columns in_order

  fitted : All IsFitted (map rect_of in_order)
  fitted = All-to-map IsFitted rect_of in_order (All-intro in_order rect_of-IsFitted)

  in_order-rects :
      map (λ c. rect_of (put_back the_placements c)) in_order
      ≡ settle_all empty_columns (map rect_of in_order)
  in_order-rects =
      map-rect_of-put_back the_placements in_order (settle_all empty_columns (map rect_of in_order))
        (map-placement_of empty_columns in_order (
          AllPairs-sort reads_after (λ c d. str_eq c.id d.id ≡ false) (λ c d. str_eq_sym c.id d.id)
            (packed g) (AllPairs-filter (λ c d. str_eq c.id d.id ≡ false) is_packed g u)))
        (All-sort reads_after (λ c. is_packed c ≡ true) (packed g) (filter-All is_packed g))
        (settle_all-IsFitted empty_columns (map rect_of in_order) fitted)

  abbrev MovedClear : Card → Card → Type 0
  MovedClear c d =
      overlaps (rect_of (put_back the_placements c)) (rect_of (put_back the_placements d)) ≡ false

  -- If ids are unique, after Tidy no two placed visible cards overlap, whatever they did before.
  pub compact-IsSpread : IsSpread (packed (compact g))
  unfolding compact
  compact-IsSpread =
      rw (filter-map is_packed (put_back the_placements) g (is_packed-put_back the_placements)) (
        AllPairs-to-map (λ c d. overlaps (rect_of c) (rect_of d) ≡ false) (put_back the_placements)
          (packed g)
          (AllPairs-of_sort reads_after MovedClear
            (λ c d h.
              overlaps_comm (rect_of (put_back the_placements d))
                (rect_of (put_back the_placements c))
              ∙ h)
            (packed g)
            (AllPairs-of-map (λ a b. overlaps a b ≡ false)
              (λ c. rect_of (put_back the_placements c)) in_order
              (rw in_order-rects
                (settle_all-IsDisjoint empty_columns (map rect_of in_order) fitted)))))

  -- If ids are unique and no two placed visible cards overlapped before Tidy, every card keeps its column, its width
  -- and its height, and none moves down.
  pub compact-AllRisen : IsSpread (packed g) → AllRisen (map rect_of g) (map rect_of (compact g))
  unfolding compact
  compact-AllRisen d = All-AllRisen rect_of rect_of (put_back the_placements) g (
      All-of_filter risen is_packed g
        (λ c k. rw (put_back_out the_placements c k) (IsRisen-refl (rect_of c)))
        (All-of_sort reads_after risen (packed g) (
          AllRisen-All rect_of (λ c. rect_of (put_back the_placements c)) in_order
            (rw in_order-rects (
              settle_all-AllRisen empty_columns (map rect_of in_order) fitted (no_bottom in_order)
                rows disjoint)))))
    where
      risen : Card → Type 0
      risen c = IsRisen (rect_of c) (rect_of (put_back the_placements c))

      rows : AllPairs (λ a b. a.r ≤ b.r) (map rect_of in_order)
      rows =
          AllPairs-to-map (λ a b. a.r ≤ b.r) rect_of in_order
            (AllPairs-imp in_order (λ c e h. reads_after-row c e h)
              (sort-IsSorted reads_after reads_after_asym reads_after_trans (packed g)))

      disjoint : IsDisjoint (map rect_of in_order)
      disjoint =
          AllPairs-to-map (λ a b. overlaps a b ≡ false) rect_of in_order
            (AllPairs-sort reads_after (λ c e. overlaps (rect_of c) (rect_of e) ≡ false)
              (λ c e h. overlaps_comm (rect_of e) (rect_of c) ∙ h) (packed g) d)
