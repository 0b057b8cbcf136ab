-- ===== src/Grid/Columns.antt =====
-- The array of column bottoms that `compact` and `migrate` of
-- internal/server/web/static/widgets.js keep, and the two loops over a card's columns.
use certguard.Base.{
  ℕ, zero, suc, ◌+◌, ◌≤◌, ◌<◌, max, ◌≡◌, inl, inr, arith, ltb, leb, ◌==◌, ◌&&◌, if◌then◌else◌,
  Bool-cases,
}

-- Column `x` is filled down to row `bottoms x`.
abbrev pub Columns : Type 0
Columns = ℕ → ℕ

-- `new Array(COLS).fill(0)`
abbrev pub empty_columns : Columns
empty_columns x = 0

-- `for (x = …; n times; x++) top = Math.max(top, colBottom[x])`
unfoldable pub top_over : Columns → ℕ → ℕ → ℕ → ℕ
top_over bottoms top x zero = top
top_over bottoms top x (suc n) = top_over bottoms (max top (bottoms x)) (suc x) n

-- `for (x = …; n times; x++) colBottom[x] = v`
unfoldable pub fill_over : Columns → ℕ → ℕ → ℕ → Columns
fill_over bottoms v x zero = bottoms
fill_over bottoms v x (suc n) = fill_over (λ y. if y == x then v else bottoms y) v (suc x) n

pub top_over-ge-start : (b : Columns) (top x n : ℕ) → top ≤ top_over b top x n
unfolding top_over
top_over-ge-start b top x zero = omega arith
top_over-ge-start b top x (suc n) = omega (arith, top_over-ge-start b (max top (b x)) (suc x) n)

-- No column of the range is filled beyond the top.
pub top_over-ge : (b : Columns) (top x n y : ℕ) → x ≤ y → y < x + n → b y ≤ top_over b top x n
unfolding top_over
top_over-ge b top x zero y h k = absurd (omega arith)
top_over-ge b top x (suc n) y h k = elim (Bool-cases (y == x)) [
  | inl e ↦
      let same : y ≡ x = ground arith in
      rw same (omega (arith, top_over-ge-start b (max top (b x)) (suc x) n))
  | inr e ↦ top_over-ge b (max top (b x)) (suc x) n y (ground arith) (omega arith)
]

-- And the top is no higher than any row that bounds them all.
pub top_over-le :
    (b : Columns) (top x n r : ℕ)
    → top ≤ r
    → ((y : ℕ) → x ≤ y → y < x + n → b y ≤ r)
    → top_over b top x n ≤ r
unfolding top_over
top_over-le b top x zero r h k = h
top_over-le b top x (suc n) r h k =
    top_over-le b (max top (b x)) (suc x) n r (omega (arith, k x (omega arith) (omega arith)))
      (λ y p q. k y (omega arith) (omega arith))

pub fill_over-lem :
    (b : Columns) (v x n y : ℕ)
    → fill_over b v x n y ≡ (if leb x y && ltb y (x + n) then v else b y)
unfolding fill_over
fill_over-lem b v x zero y = ground arith
fill_over-lem b v x (suc n) y =
    ground (arith, fill_over-lem (λ z. if z == x then v else b z) v (suc x) n y)
