-- ===== src/Dashboard/Swipe/Bounds.antt =====
-- The rows of internal/server/web/static/dashboard.js while they are swiped.
use certguard.Base.{
  ℕ, ◌≡◌, refl, sym, ap, inl, inr, true, false, not, ◌==◌, Option, none, some, Bool-cases, if-intro,
  if◌then◌else◌, arith,
}
use mathlib.Core.Path.{subst}
use certguard.Base.Int.{ℤ, pos, ◌≤ℤ◌, ◌+ℤ◌}
use certguard.Dashboard.Swipe.{
  Rows, put, is_row, minus, close_swipe, close_other, open_swipe, clamp, slide, Gesture,
}

-- At most one row is open, the one that the page knows of, and no row stands further aside than its
-- actions are wide, or to the other side.
pub record IsInPlace (reveal : ℕ → ℕ) (p : Rows) : Type 0 where
  pub known : (r : ℕ) → p.is_open r ≡ true → p.open_row ≡ some r
  pub left : (r : ℕ) → minus (reveal r) ≤ℤ p.offset r
  pub right : (r : ℕ) → p.offset r ≤ℤ pos 0

module _ (reveal : ℕ → ℕ) where
  put-All :
      (P : ℕ → ℤ → Type 0) (r : ℕ) (v : ℤ) (f : ℕ → ℤ)
      → P r v
      → ((q : ℕ) → P q (f q))
      → (q : ℕ) → P q (put r v f q)
  put-All P r v f h k q =
      if-intro (P q) (q == r) (λ e. subst (λ z. P z v) (sym (equal q r e)) h) (λ _. k q)
    where
      equal : (q r : ℕ) → q == r ≡ true → q ≡ r
      equal q r e = ground (arith, e)

  pub close_swipe-IsInPlace :
      (r : ℕ) (p : Rows) → IsInPlace reveal p → IsInPlace reveal (close_swipe r p)
  unfolding close_swipe
  close_swipe-IsInPlace r p h = record {
    known = known_after;
    left = put-All (λ q z. minus (reveal q) ≤ℤ z) r (pos 0) p.offset (ground arith) h.left;
    right = put-All (λ q z. z ≤ℤ pos 0) r (pos 0) p.offset (ground arith) h.right;
  }
    where
      not_open : (q : ℕ) → q == r ≡ true → put r false p.is_open q ≡ true → ⊥
      not_open q e o = let k : false ≡ true = rw e at o in cc

      still : (q : ℕ) → q == r ≡ false → put r false p.is_open q ≡ true → p.is_open q ≡ true
      still q e o = rw e at o

      known_after :
          (q : ℕ)
          → put r false p.is_open q ≡ true
          → (if is_row r p.open_row then none else p.open_row) ≡ some q
      known_after q o = elim (Bool-cases (q == r)) [
        | inl e ↦ absurd (not_open q e o)
        | inr e ↦
            subst (λ w. (if is_row r w then none else w) ≡ some q) (sym (h.known q (still q e o)))
              (rw e refl)
      ]

  -- After another row has been closed, no row but `r` is open.
  close_other_lem :
      (r : ℕ) (p : Rows)
      → IsInPlace reveal p
      → IsInPlace reveal (close_other r p.open_row p)
        × ((q : ℕ) → q == r ≡ false → (close_other r p.open_row p).is_open q ≡ false)
  unfolding close_swipe
  close_other_lem r p h = by_row p.open_row refl
    where
      the_open : (o q : ℕ) → p.open_row ≡ some o → p.is_open q ≡ true → o ≡ q
      the_open o q e t = let k = h.known q t in cc

      shut_all :
          (o : ℕ)
          → p.open_row ≡ some o
          → (q : ℕ) → q == r ≡ false
          → (close_swipe o p).is_open q ≡ false
      shut_all o e q n = elim (Bool-cases (p.is_open q)) [
        | inl t ↦ let k = the_open o q e t in ground (arith, k)
        | inr t ↦ ground (arith, t)
      ]

      by_row :
          (o : Option ℕ)
          → p.open_row ≡ o
          → IsInPlace reveal (close_other r o p)
            × ((q : ℕ) → q == r ≡ false → (close_other r o p).is_open q ≡ false)
      by_row none e = (
        h,
        λ q n. elim (Bool-cases (p.is_open q)) [
          | inl t ↦ let k = h.known q t in absurd cc
          | inr t ↦ t
        ],
      )
      by_row (some o) e =
          if-intro (λ w. IsInPlace reveal w × ((q : ℕ) → q == r ≡ false → w.is_open q ≡ false))
            (o == r)
            (λ same. (
              h,
              λ q n. elim (Bool-cases (p.is_open q)) [
                | inl t ↦ let k = the_open o q e t in absurd (ground (arith, k, n, same))
                | inr t ↦ t
              ],
            ))
            (λ _. (close_swipe-IsInPlace o p h, shut_all o e))

  pub open_swipe-IsInPlace :
      (r : ℕ) (p : Rows) → IsInPlace reveal p → IsInPlace reveal (open_swipe reveal r p)
  unfolding open_swipe
  open_swipe-IsInPlace r p h =
      let q = close_other r p.open_row p in
      let c = close_other_lem r p h in
      if-intro (IsInPlace reveal) (reveal r == 0) (λ _. h)
        (λ _. record {
          known = known_after q c.1;
          left =
              put-All (λ q z. minus (reveal q) ≤ℤ z) r (minus (reveal r)) q.offset (ground arith)
                c.0.left;
          right =
              put-All (λ q z. z ≤ℤ pos 0) r (minus (reveal r)) q.offset (ground arith) c.0.right;
        })
    where
      known_after :
          (w : Rows)
          → ((q : ℕ) → q == r ≡ false → w.is_open q ≡ false)
          → (q : ℕ) → put r true w.is_open q ≡ true
          → ◌≡◌ {A = Option ℕ} (some r) (some q)
      known_after w shut q o = elim (Bool-cases (q == r)) [
        | inl e ↦ let k : r ≡ q = ground (arith, e) in ap some k
        | inr e ↦ let t : w.is_open q ≡ true = rw e at o in let f = shut q e in absurd cc
      ]

  pub slide-IsInPlace :
      (r : ℕ) (dx : ℤ) (g : Gesture) (p : Rows)
      → IsInPlace reveal p
      → IsInPlace reveal (slide reveal r dx g p)
  slide-IsInPlace r dx g p h =
      let x = clamp reveal r (g.base +ℤ dx) in
      if-intro (IsInPlace reveal) (not g.horiz) (λ _. h)
        (λ _. record {
          known = h.known;
          left =
              put-All (λ q z. minus (reveal q) ≤ℤ z) r x p.offset (clamp-left r (g.base +ℤ dx))
                h.left;
          right = put-All (λ q z. z ≤ℤ pos 0) r x p.offset (clamp-right r (g.base +ℤ dx)) h.right;
        })
    where
      clamp-left : (r : ℕ) (z : ℤ) → minus (reveal r) ≤ℤ clamp reveal r z
      clamp-left r z = ground arith

      clamp-right : (r : ℕ) (z : ℤ) → clamp reveal r z ≤ℤ pos 0
      clamp-right r z = ground arith
