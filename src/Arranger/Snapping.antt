-- ===== src/Arranger/Snapping.antt =====
-- What `snapRow` and `snapHeight` of internal/server/web/static/layout-editor.js do to a drag.
use certguard.Base.{
  ℕ, ◌+◌, ◌≤◌, ◌<◌, ◌≡◌, refl, sym, ap, ◌⊎◌, inl, inr, Bool, true, false, not, ◌&&◌, str_eq, List,
  [], ◌∷◌, arith, All, Bool-cases, ltb,
}
use mathlib.Core.Path.{subst}
use certguard.Base.Int.{ℤ, pos, pos_part, sub_ℕ, ◌≤ℤ◌, ◌+ℤ◌}
use certguard.Arranger.{Tile, Snap, distance, consider, others, lines_of, snap_lines, snap_row}

-- Some element of the list satisfies the predicate.
abbrev pub Some : (ℕ → Type 0) → List ℕ → Type 0
Some P [] = ⊥
Some P (x ∷ xs) = P x ⊎ Some P xs

-- No edge of the tile is within three rows of the line.
abbrev pub IsFar : Tile → ℕ → ℕ → Type 0
IsFar c row ln = (4 ≤ distance row ln) × (4 ≤ distance (row + c.rows) ln)

-- A row where the tile's top or bottom edge is on the line, no more than three rows away.
pub record IsSnapped (c : Tile) (row : ℕ) (z : ℤ) (ln : ℕ) : Type 0 where
  pub edge : (z ≡ pos ln) ⊎ (z ≡ sub_ℕ ln c.rows)
  pub up : z ≤ℤ pos (row + 3)
  pub down : pos row ≤ℤ (z +ℤ pos 3)

considered :
    (d : ℕ) (z : ℤ) (s : Snap)
    → ((consider d z s ≡ record { best = z; dist = d }) × (d < s.dist))
      ⊎ ((consider d z s ≡ s) × (s.dist ≤ d))
unfolding consider
considered d z s = elim (Bool-cases (ltb d s.dist)) [
  | inl e ↦ inl (rw e refl, ground arith)
  | inr e ↦ inr (rw e refl, ground arith)
]

-- One line: nothing near and nothing changed, or the new best is on it, or the old one is kept.
data Round (c : Tile) (row : ℕ) (s t : Snap) (ln : ℕ) : Type 0 where
  kept : t ≡ s → (s.dist ≡ 4 → IsFar c row ln) → Round c row s t ln
  taken : t.dist ≤ 3 → IsSnapped c row t.best ln → Round c row s t ln

top-IsSnapped : (c : Tile) (row ln : ℕ) → distance row ln ≤ 3 → IsSnapped c row (pos ln) ln
top-IsSnapped c row ln h = record { edge = inl refl; up = ground arith; down = ground arith }

bottom-IsSnapped :
    (c : Tile) (row ln : ℕ) → distance (row + c.rows) ln ≤ 3 → IsSnapped c row (sub_ℕ ln c.rows) ln
bottom-IsSnapped c row ln h = record { edge = inr refl; up = ground arith; down = ground arith }

round :
    (c : Tile) (row : ℕ) (s : Snap) (ln : ℕ)
    → s.dist ≤ 4
    → Round c row s
        (consider
          (distance (row + c.rows) ln)
          (sub_ℕ ln c.rows)
          (consider (distance row ln) (pos ln) s))
        ln
round c row s ln h =
    let top = distance row ln in
    let bottom = distance (row + c.rows) ln in
    elim (considered top (pos ln) s) [
      | inl (e, near) ↦
          rw e (elim (considered bottom (sub_ℕ ln c.rows) (record { best = pos ln; dist = top })) [
            | inl (k, nearer) ↦ rw k (taken (omega arith) (bottom-IsSnapped c row ln (omega arith)))
            | inr (k, _) ↦ rw k (taken (omega arith) (top-IsSnapped c row ln (omega arith)))
          ])
      | inr (e, far) ↦ rw e (elim (considered bottom (sub_ℕ ln c.rows) s) [
        | inl (k, near) ↦ rw k (taken (omega arith) (bottom-IsSnapped c row ln (omega arith)))
        | inr (k, far_too) ↦ rw k (kept refl (λ q. (omega arith, omega arith)))
      ])
    ]

abbrev Verdict : Tile → ℕ → Snap → List ℕ → Snap → Type 0
Verdict c row s lns t =
    ((t ≡ s) × (s.dist ≡ 4 → All (IsFar c row) lns))
    ⊎ ((t.dist ≤ 3) × Some (IsSnapped c row t.best) lns)

snap_lines-Verdict :
    (c : Tile) (row : ℕ) (s : Snap) (lns : List ℕ)
    → s.dist ≤ 4
    → Verdict c row s lns (snap_lines c row s lns)
unfolding snap_lines
snap_lines-Verdict c row s [] h = inl (refl, λ _. tt)
snap_lines-Verdict c row s (ln ∷ lns) h =
    let next =
      consider (distance (row + c.rows) ln) (sub_ℕ ln c.rows)
        (consider (distance row ln) (pos ln) s) in
    after next (round c row s ln h) (λ k. snap_lines-Verdict c row next lns k)
  where
    after :
        (next : Snap)
        → Round c row s next ln
        → (next.dist ≤ 4 → Verdict c row next lns (snap_lines c row next lns))
        → Verdict c row s (ln ∷ lns) (snap_lines c row next lns)
    after next (kept e far) ih =
        subst (λ t. Verdict c row s (ln ∷ lns) (snap_lines c row t lns)) (sym e)
          (elim (subst (λ t. Verdict c row t lns (snap_lines c row t lns)) e (ih (rw e h))) [
            | inl (same, all_far) ↦ inl (same, λ q. (far q, all_far q))
            | inr (near, found) ↦ inr (near, inr found)
          ])
    after next (taken near snapped) ih = elim (ih (omega arith)) [
      | inl (same, _) ↦ rw same (inr (near, inl snapped))
      | inr (nearer, found) ↦ inr (nearer, inr found)
    ]

-- Another visible tile.
abbrev pub IsOther : Tile → Tile → Type 0
IsOther c o = (o.hidden ≡ false) × (str_eq o.id c.id ≡ false)

-- The line is the top or the bottom edge of another visible tile.
abbrev pub IsEdge : Tile → List Tile → ℕ → Type 0
IsEdge c [] ln = ⊥
IsEdge c (o ∷ os) ln = (IsOther c o × ((ln ≡ o.row) ⊎ (ln ≡ o.row + o.rows))) ⊎ IsEdge c os ln

-- Both edges of every other visible tile are far.
abbrev pub AreFar : Tile → ℕ → List Tile → Type 0
AreFar c row = All (λ (o : Tile). IsOther c o → IsFar c row o.row × IsFar c row (o.row + o.rows))

is_other : Tile → Tile → Bool
is_other c o = not o.hidden && not (str_eq o.id c.id)

is_other→IsOther : (c o : Tile) → is_other c o ≡ true → IsOther c o
unfolding is_other
is_other→IsOther c o h = ground arith

lines_of-AreFar :
    (c : Tile) (row : ℕ) (tiles : List Tile)
    → All (IsFar c row) (lines_of (others c tiles))
    → AreFar c row tiles
unfolding lines_of is_other
lines_of-AreFar c row [] h = tt
lines_of-AreFar c row (o ∷ os) h = elim (Bool-cases (is_other c o)) [
  | inl e ↦
      let k : IsFar c row o.row
          × (IsFar c row (o.row + o.rows) × All (IsFar c row) (lines_of (others c os))) =
        rw (e, lines_of) at h in
      ((λ _. (k.0, k.1.0)), lines_of-AreFar c row os k.1.1)
  | inr e ↦
      let k : All (IsFar c row) (lines_of (others c os)) = rw e at h in
      ((λ i. absurd (ground (arith, e, i))), lines_of-AreFar c row os k)
]

lines_of-IsEdge :
    (P : ℕ → Type 0) (c : Tile) (tiles : List Tile)
    → Some P (lines_of (others c tiles))
    → (ln : ℕ) × IsEdge c tiles ln × P ln
unfolding lines_of is_other
lines_of-IsEdge P c [] h = absurd h
lines_of-IsEdge P c (o ∷ os) h = elim (Bool-cases (is_other c o)) [
  | inl e ↦
      let k : P o.row ⊎ (P (o.row + o.rows) ⊎ Some P (lines_of (others c os))) =
        rw (e, lines_of) at h in
      at_tile (is_other→IsOther c o e) (λ k. lines_of-IsEdge P c os k) k
  | inr e ↦ let k : Some P (lines_of (others c os)) = rw e at h in later (lines_of-IsEdge P c os k)
]
  where
    later : ((ln : ℕ) × IsEdge c os ln × P ln) → (ln : ℕ) × IsEdge c (o ∷ os) ln × P ln
    later (ln, edge, p) = (ln, inr edge, p)

    at_tile :
        IsOther c o
        → (Some P (lines_of (others c os)) → (ln : ℕ) × IsEdge c os ln × P ln)
        → P o.row ⊎ (P (o.row + o.rows) ⊎ Some P (lines_of (others c os)))
        → (ln : ℕ) × IsEdge c (o ∷ os) ln × P ln
    at_tile i ih (inl p) = (o.row, inl (i, inl refl), p)
    at_tile i ih (inr (inl p)) = (o.row + o.rows, inl (i, inr refl), p)
    at_tile i ih (inr (inr k)) = later (ih k)

-- `snapRow` leaves the row as it is when neither the top nor the bottom edge of another visible tile is within three rows of
-- either edge of this one. Otherwise there is such an edge for which the result, before it is cut at
-- the top of the map, puts an edge of the tile on its line, at most three rows from where it was.
pub snap_row-IsSnapped :
    (tiles : List Tile) (c : Tile) (row : ℕ)
    → ((snap_row tiles c row ≡ row) × AreFar c row tiles)
      ⊎ ((z : ℤ) × (ln : ℕ) × (snap_row tiles c row ≡ pos_part z)
          × IsEdge c tiles ln
          × IsSnapped c row z ln)
unfolding snap_row
snap_row-IsSnapped tiles c row =
    let start : Snap = record { best = pos row; dist = 4 } in
    let lns = lines_of (others c tiles) in
    elim (snap_lines-Verdict c row start lns (omega arith)) [
      | inl (same, all_far) ↦
          inl (ap (λ (s : Snap). pos_part s.best) same, lines_of-AreFar c row tiles (all_far refl))
      | inr (near, found) ↦
          let z = (snap_lines c row start lns).best in
          let at_edge = lines_of-IsEdge (IsSnapped c row z) c tiles found in
          inr (z, at_edge.0, refl, at_edge.1, at_edge.2)
    ]
