-- ===== src/Grid/Storage.antt =====
-- `save`, `apply` and `migrate` of internal/server/web/static/widgets.js. What the browser's storage
-- holds is the parsed object: of the present form, or of the form that the masonry packer saved.
pub mod Positions
pub mod Restore
use certguard.Base.{
  ℕ, zero, suc, ◌+◌, ◌-◌, ◌/◌, min, max, String, Bool, true, false, Option, none, some, List, [],
  ◌∷◌, map, filter, any, ltb, str_eq, if◌then◌else◌,
}
use certguard.Grid.Rect.{Rect, RawRect, raw, cols, gap, row_pitch, min_h}
use certguard.Grid.Card.{Card, span_of, rect_of, set_rect, content_rows, by_id, update_card}
use certguard.Grid.Columns.{Columns, empty_columns, top_over, fill_over}
use certguard.Grid.Place.{place_unplaced}

pub data Stored : Type 0 where
  positions : List (String × RawRect) → List String → Stored
  -- order, spans, pixel heights, hidden
  masonry : Option (List String) → List (String × ℕ) → List (String × ℕ) → List String → Stored

unfoldable pub save : List Card → Stored
save g = positions (map (λ c. (c.id, raw (rect_of c))) g) (map (λ c. c.id) (filter (λ c. c.off) g))

-- `if (el) setRect(el, data.pos[id])`
unfoldable pub set_at : String × RawRect → Card → Card
unfolding set_rect
set_at p c = if str_eq c.id p.0 then set_rect c p.1 else c

-- `for (const id in data.pos)`
unfoldable pub set_positions : List (String × RawRect) → List Card → List Card
unfolding set_at
set_positions [] g = g
set_positions (p ∷ ps) g = set_positions ps (map (set_at p) g)

-- `Set.has`
abbrev pub has : String → List String → Bool
has id ids = any (λ k. str_eq k id) ids

unfoldable pub show_or_hide : List String → List String → Card → Card
show_or_hide known hidden c =
    if has c.id hidden
    then record c { off = true }
    else if has c.id known
    then record c { off = false }
    else c

-- `object[key]`, and the numbers that are truthy
abbrev pub number_at : String → List (String × ℕ) → Option ℕ
number_at k [] = none
number_at k ((j, n) ∷ m) = if str_eq j k then some n else number_at k m

abbrev pub truthy : Option ℕ → Option ℕ
truthy none = none
truthy (some zero) = none
truthy (some (suc n)) = some (suc n)

-- The width and the height that `migrate` gives to a card.
pub record Wanted : Type 0 where
  pub id : String
  pub w : ℕ
  pub h : ℕ

unfoldable pub wanted : ℕ → List (String × ℕ) → List (String × ℕ) → Card → Wanted
unfolding span_of content_rows
wanted ih spans heights el = record {
  id = el.id;
  w = max 1 (min cols (elim (truthy (number_at el.id spans)) [ none ↦ span_of el | some n ↦ n ]));
  h = elim (truthy (number_at el.id heights)) [
    | none ↦ content_rows ih el true
    | some px ↦ max min_h ((px + gap + (row_pitch - 1)) / row_pitch)
  ];
}

unfoldable pub all_wanted :
    ℕ → List (String × ℕ) → List (String × ℕ) → List Card → List String → List Wanted
unfolding wanted
all_wanted ih spans heights g [] = []
all_wanted ih spans heights g (id ∷ ids) =
    let rest = all_wanted ih spans heights g ids in
    elim (by_id id g) [ none ↦ rest | some el ↦ wanted ih spans heights el ∷ rest ]

-- The loop that looks for the column with the lowest top; `none` is `Infinity`.
pub record Best : Type 0 where
  pub col : ℕ
  pub top : Option ℕ

abbrev pub beats : ℕ → Option ℕ → Bool
beats top none = true
beats top (some best) = ltb top best

unfoldable pub seek : Columns → ℕ → ℕ → ℕ → Best → Best
unfolding top_over
seek bottoms w zero c best = best
seek bottoms w (suc n) c best =
    let top = top_over bottoms 0 c w in
    seek bottoms w n (suc c)
      (if beats top best.top then record { col = c; top = some top } else best)

-- `for (c = 0; c + w <= COLS; c++)` runs COLS + 1 - w times.
unfoldable pub best_place : Columns → Wanted → Rect
unfolding seek
best_place bottoms m =
    let best = seek bottoms m.w (cols + 1 - m.w) 0 (record { col = 0; top = none }) in
    record { c = best.col; r = elim best.top [ none ↦ 0 | some top ↦ top ]; w = m.w; h = m.h }

unfoldable pub flow : Columns → List Wanted → List (String × Rect)
unfolding best_place fill_over
flow bottoms [] = []
flow bottoms (m ∷ ms) =
    let a = best_place bottoms m in (m.id, a) ∷ flow (fill_over bottoms (a.r + a.h) a.c a.w) ms

unfoldable pub migrate :
    ℕ → Option (List String) → List (String × ℕ) → List (String × ℕ) → List Card → List Card
unfolding flow all_wanted set_positions
migrate ih order spans heights g =
    let ids : List String = elim order [ none ↦ map (λ c. c.id) g | some ids ↦ ids ] in
    set_positions
      (map (λ p. (p.0, raw p.1)) (flow empty_columns (all_wanted ih spans heights g ids))) g

unfoldable pub arrange : ℕ → Stored → List Card → List Card
arrange ih (positions placed hidden) g =
    map (show_or_hide (map (λ p. p.0) placed) hidden) (set_positions placed g)
arrange ih (masonry order spans heights hidden) g =
    map (show_or_hide (elim order [ none ↦ [] | some ids ↦ ids ]) hidden)
      (migrate ih order spans heights g)

-- What is stored, or else the shipped defaults.
unfoldable pub apply : ℕ → Option Stored → Option Stored → List Card → List Card
apply ih stored defaults g =
    let chosen : Option Stored = elim stored [ none ↦ defaults | some s ↦ some s ] in
    place_unplaced ih (elim chosen [ none ↦ g | some s ↦ arrange ih s g ])
