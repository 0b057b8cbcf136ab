-- ===== src/Timeline/Numbers.antt =====
-- The numbers above the months of internal/server/web/static/timeline.js.
use certguard.Base.{
  ℕ, zero, suc, ◌+◌, ◌≡◌, refl, ap, sym, ◌∙◌, inl, inr, Bool, ◌&&◌, ◌==◌, Option, none, some, List,
  [], ◌∷◌, ◌++◌, length, if◌then◌else◌, leb, arith, Bool-cases,
}
use mathlib.Core.Path.{subst}
use certguard.Base.Int.{ℤ, pos, ◌+ℤ◌}
use certguard.Base.Text.{Text}
use certguard.Inventory.Items.{Item}
use certguard.Dashboard.Calendar.{Day, Dates, eqb_ℤ, on_day}
use certguard.Dashboard.Calendar.Counts.{IsReal, eqb_ℤ→≡}
use certguard.Timeline.{
  Month, utc_month, Timeline, Cell, falls_on, falls_in, bucket, month_number, cell, cells,
  month_view,
}

-- The entries in the cells together.
abbrev pub count_of : List Cell → ℕ
count_of [] = 0
count_of (c ∷ cs) = c.count + count_of cs

count_of-snoc : (cs : List Cell) (c : Cell) → count_of (cs ++ (c ∷ [])) ≡ count_of cs + c.count
count_of-snoc [] c = omega arith
count_of-snoc (b ∷ cs) c = omega (arith, count_of-snoc cs c)

one : Bool → ℕ
one b = if b then 1 else 0

module _ (dates : Dates) (m : Month) where
  -- The sum of the buckets of the first `n` days.
  counted : List Item → ℕ → ℕ
  counted items zero = 0
  counted items (suc n) =
      counted items n + length (bucket dates items (on_day dates m.year m.month (suc n)))

  count_of-cells :
      (today : Day) (t : Timeline) (n : ℕ) → count_of (cells dates today t m n) ≡ counted t.items n
  unfolding cells cell counted
  count_of-cells today t zero = refl
  count_of-cells today t (suc n) =
      count_of-snoc (cells dates today t m n) (cell dates today t m (suc n))
      ∙ ap (λ k. k + length (bucket dates t.items (on_day dates m.year m.month (suc n))))
          (count_of-cells today t n)

  bucket-cons :
      (it : Item) (items : List Item) (k : Day)
      → length (bucket dates (it ∷ items) k)
        ≡ one (falls_on k (dates.day_of it.cert.expires_at)) + length (bucket dates items k)
  unfolding bucket one
  bucket-cons it items k = ground arith

  -- How often a day is one of the first `n` of the month.
  hits : Option Day → ℕ → ℕ
  hits o zero = 0
  hits o (suc n) = hits o n + one (falls_on (on_day dates m.year m.month (suc n)) o)

  counted-cons :
      (it : Item) (items : List Item) (n : ℕ)
      → counted (it ∷ items) n ≡ hits (dates.day_of it.cert.expires_at) n + counted items n
  unfolding counted hits
  counted-cons it items zero = refl
  counted-cons it items (suc n) =
      omega
        (arith, counted-cons it items n, bucket-cons it items (on_day dates m.year m.month (suc n)))

  counted_empty : (n : ℕ) → counted [] n ≡ 0
  unfolding counted bucket
  counted_empty zero = refl
  counted_empty (suc n) = omega (arith, counted_empty n)

  hits-none : (n : ℕ) → hits none n ≡ 0
  unfolding hits one
  hits-none zero = refl
  hits-none (suc n) = omega (arith, hits-none n)

  hits_at :
      (yy : ℤ) (mm k n : ℕ)
      → hits (some (record { year = yy; month = mm; date = pos k })) n
        ≡ one (eqb_ℤ yy m.year && ((mm == m.month) && (leb 1 k && leb k n)))
  unfolding hits one
  hits_at yy mm k zero = ground arith
  hits_at yy mm k (suc n) = ground (arith, hits_at yy mm k n)

  hits_real :
      (d : Day)
      → IsReal dates d
      → hits (some d) (dates.days_in_month m.year m.month) ≡ one (falls_in m (some d))
  unfolding one
  hits_real d (in_twelve, (k, at_k, low, high)) =
      let n = dates.days_in_month m.year m.month in
      let hit =
        subst
          (λ z.
            hits (some (record { year = d.year; month = d.month; date = z })) n
            ≡ one (eqb_ℤ d.year m.year && ((d.month == m.month) && (leb 1 k && leb k n))))
          (sym at_k) (hits_at d.year d.month k n) in
      elim (Bool-cases (eqb_ℤ d.year m.year)) [
        | inr h ↦ ground (arith, hit, h)
        | inl h ↦ elim (Bool-cases (d.month == m.month)) [
          | inr g ↦ ground (arith, hit, h, g)
          | inl g ↦
              let q : d.month ≡ m.month = ground (arith, g) in
              let same =
                ap (λ y. dates.days_in_month y d.month) (eqb_ℤ→≡ d.year m.year h)
                ∙ ap (λ k. dates.days_in_month m.year k) q in
              ground (arith, hit, h, g, same, low, high)
        ]
      ]

  module _ (real : (t : Text) (d : Day) → dates.day_of t ≡ some d → IsReal dates d) where
    hits_in :
        (x : Text) (o : Option Day)
        → dates.day_of x ≡ o
        → hits o (dates.days_in_month m.year m.month) ≡ one (falls_in m o)
    unfolding one
    hits_in x none e = hits-none (dates.days_in_month m.year m.month)
    hits_in x (some d) e = hits_real d (real x d e)

    counted-month_number :
        (items : List Item)
        → counted items (dates.days_in_month m.year m.month) ≡ month_number dates items m
    unfolding month_number one
    counted-month_number [] = counted_empty (dates.days_in_month m.year m.month)
    counted-month_number (it ∷ items) =
        let x = it.cert.expires_at in
        ground (
          arith,
          counted-cons it items (dates.days_in_month m.year m.month),
          hits_in x (dates.day_of x) refl,
          counted-month_number items,
        )

-- Provided that the browser makes real days of times, the number above each month that is shown is
-- the number of entries in its cells together.
pub month_view-count_of :
    (dates : Dates) (today : Day) (t : Timeline) (i : ℕ)
    → ((x : Text) (d : Day) → dates.day_of x ≡ some d → IsReal dates d)
    → (month_view dates today t i).number ≡ count_of (month_view dates today t i).cells
unfolding month_view
month_view-count_of dates today t i real =
    let m = utc_month t.anchor.year (pos t.anchor.month +ℤ pos i) in
    sym (
      count_of-cells dates m today t (dates.days_in_month m.year m.month)
      ∙ counted-month_number dates m real t.items)
