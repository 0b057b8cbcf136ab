-- ===== src/Grid/Resolve.antt =====
-- `resolve` of internal/server/web/static/widgets.js: what a dropped card lands on is pushed down.
-- The rectangles of the other visible cards, which the source keeps in a map from card to
-- rectangle, are a list in the order of the cards; `moved` never yields, so it stands apart.
pub mod Rows
pub mod Quiet
pub mod Kept
use certguard.Base.{
  ℕ, zero, suc, ◌+◌, ◌*◌, Bool, true, false, ◌||◌, Option, none, some, List, [], ◌∷◌, length,
  get_elem?, if◌then◌else◌,
}
use certguard.Grid.Rect.{Rect, overlaps, cols}

-- The rectangles, and whether any was pushed: `again`.
pub record Sweep : Type 0 where
  pub rects : List Rect
  pub again : Bool

-- The body of the two inner loops.
unfoldable pub push : Rect → Rect → Rect
push p o = if overlaps p o then record o { r = p.r + p.h } else o

-- One `pair` against all the others.
unfoldable pub push_all : Rect → List Rect → Sweep
unfolding push
push_all p [] = record { rects = []; again = false }
push_all p (o ∷ os) =
    let rest = push_all p os in
    record { rects = push p o ∷ rest.rects; again = overlaps p o || rest.again }

-- The same where `pair` is itself the other at an index, which is passed over.
unfoldable pub push_others : Rect → ℕ → List Rect → Sweep
unfolding push_all
push_others p i [] = record { rects = []; again = false }
push_others p zero (o ∷ os) =
    let rest = push_all p os in record { rects = o ∷ rest.rects; again = rest.again }
push_others p (suc i) (o ∷ os) =
    let rest = push_others p i os in
    record { rects = push p o ∷ rest.rects; again = overlaps p o || rest.again }

-- `pair` is the other at index `i`, with the rectangle that it has by now.
unfoldable pub stage : ℕ → Sweep → Sweep
unfolding push_others
stage i s = elim (get_elem? s.rects i) [
  | none ↦ s
  | some p ↦
      let t = push_others p i s.rects in record { rects = t.rects; again = s.again || t.again }
]

unfoldable pub stages : ℕ → ℕ → Sweep → Sweep
unfolding stage
stages zero i s = s
stages (suc n) i s = stages n (suc i) (stage i s)

-- One round of the `while` loop.
unfoldable pub sweep : Rect → List Rect → Sweep
unfolding push_all stages
sweep moved os = stages (length os) 0 (push_all moved os)

unfoldable pub settle : ℕ → Rect → Sweep → Sweep
unfolding sweep
settle zero moved s = s
settle (suc guard) moved s = elim s.again [
  | true ↦ settle guard moved (sweep moved s.rects)
  | false ↦ s
]

unfoldable pub resolve_rects : Rect → List Rect → Sweep
unfolding settle
resolve_rects moved os =
    settle ((length os + 1) * cols + 16) moved (record { rects = os; again = true })
