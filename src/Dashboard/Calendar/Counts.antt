-- ===== src/Dashboard/Calendar/Counts.antt =====
-- The counts of the year's view of internal/server/web/static/dashboard.js.
use certguard.Base.{
  ℕ, zero, suc, ◌+◌, ◌≤◌, ◌<◌, ◌≡◌, refl, ap, inl, inr, Bool, true, false, ◌&&◌, ◌==◌, Option, none,
  some, List, [], ◌∷◌, filter, length, if◌then◌else◌, leb, ltb, arith, Bool-cases,
}
use mathlib.Core.Path.{subst}
use certguard.Base.Int.{ℤ, pos, negsuc}
use certguard.Base.Text.{Text, is_set}
use certguard.Inventory.Items.{Item}
use certguard.Dashboard.Calendar.{
  Day, Dates, eqb_ℤ, on_day, bucket_by_day, count_days, month_count, year_counts,
}

-- What the browser documents of the days that it makes of times: the month is one of twelve and
-- the date one of the month's.
abbrev pub IsReal : Dates → Day → Type 0
IsReal dates d =
    (d.month < 12)
    × ((k : ℕ) × (d.date ≡ pos k) × (1 ≤ k) × (k ≤ dates.days_in_month d.year d.month))

abbrev is_in_year : ℤ → Option Day → Bool
is_in_year y none = false
is_in_year y (some d) = eqb_ℤ d.year y

-- The entries that expire in a year.
unfoldable pub in_year : Dates → ℤ → List Item → List Item
in_year dates y items =
    filter
      (λ (it : Item). is_set it.cert.expires_at && is_in_year y (dates.day_of it.cert.expires_at))
      items

one : Bool → ℕ
one b = if b then 1 else 0

pub eqb_ℤ→≡ : (a b : ℤ) → eqb_ℤ a b ≡ true → a ≡ b
eqb_ℤ→≡ (pos a) (pos b) h = ap pos (ground (arith, h))
eqb_ℤ→≡ (pos a) (negsuc b) h = absurd cc
eqb_ℤ→≡ (negsuc a) (pos b) h = absurd cc
eqb_ℤ→≡ (negsuc a) (negsuc b) h = ap negsuc (ground (arith, h))

module _ (dates : Dates) (y : ℤ) where
  -- An entry more counts for itself.
  bucket-cons :
      (it : Item) (items : List Item) (k : Day)
      → length (bucket_by_day dates (it ∷ items) k)
        ≡ length (bucket_by_day dates (it ∷ []) k) + length (bucket_by_day dates items k)
  unfolding bucket_by_day
  bucket-cons it items k = ground arith

  count_days-cons :
      (it : Item) (items : List Item) (m n : ℕ)
      → count_days dates (it ∷ items) y m n
        ≡ count_days dates (it ∷ []) y m n + count_days dates items y m n
  unfolding count_days
  count_days-cons it items m zero = omega arith
  count_days-cons it items m (suc n) =
      omega (arith, count_days-cons it items m n, bucket-cons it items (on_day dates y m (suc n)))

  year_counts-cons :
      (it : Item) (items : List Item) (n : ℕ)
      → year_counts dates (it ∷ items) y n
        ≡ year_counts dates (it ∷ []) y n + year_counts dates items y n
  unfolding year_counts month_count
  year_counts-cons it items zero = omega arith
  year_counts-cons it items (suc n) =
      omega
        (arith, year_counts-cons it items n, count_days-cons it items n (dates.days_in_month y n))

  -- Entries that fall on no day count for nothing.
  module _ (items : List Item) (no_day : (k : Day) → length (bucket_by_day dates items k) ≡ 0) where
    count_days-none : (m n : ℕ) → count_days dates items y m n ≡ 0
    unfolding count_days
    count_days-none m zero = refl
    count_days-none m (suc n) =
        omega (arith, count_days-none m n, no_day (on_day dates y m (suc n)))

    year_counts-none : (n : ℕ) → year_counts dates items y n ≡ 0
    unfolding year_counts month_count
    year_counts-none zero = refl
    year_counts-none (suc n) =
        omega (arith, year_counts-none n, count_days-none n (dates.days_in_month y n))

  module _ (it : Item) (yy : ℤ) (mm k : ℕ) (set : is_set it.cert.expires_at ≡ true)
      (e : dates.day_of it.cert.expires_at
        ≡ some (record { year = yy; month = mm; date = pos k })) where
    bucket_one :
        (m d : ℕ)
        → length (bucket_by_day dates (it ∷ []) (on_day dates y m d))
          ≡ one (eqb_ℤ yy y && ((mm == m) && (k == d)))
    unfolding bucket_by_day one
    bucket_one m d = rw (set, e) (ground arith)

    days_one :
        (m n : ℕ)
        → count_days dates (it ∷ []) y m n ≡ one (eqb_ℤ yy y && ((mm == m) && (leb 1 k && leb k n)))
    unfolding count_days one
    days_one m zero = ground arith
    days_one m (suc n) = ground (arith, days_one m n, bucket_one m (suc n))

    year_one :
        (n : ℕ)
        → (eqb_ℤ yy y ≡ true → (1 ≤ k) × (k ≤ dates.days_in_month y mm))
        → year_counts dates (it ∷ []) y n ≡ one (eqb_ℤ yy y && ltb mm n)
    unfolding year_counts month_count one
    year_one zero r = ground arith
    year_one (suc n) r =
        let before = year_one n r in
        let here = days_one n (dates.days_in_month y n) in
        elim (Bool-cases (mm == n)) [
          | inl h ↦
              let q : mm ≡ n = ground (arith, h) in
              let same_month = ap (λ m. dates.days_in_month y m) q in
              ground (arith, before, here, r, same_month, h)
          | inr h ↦ ground (arith, before, here, h)
        ]

  bucket_empty : (k : Day) → length (bucket_by_day dates [] k) ≡ 0
  unfolding bucket_by_day
  bucket_empty k = refl

  bucket_unset :
      (it : Item) (k : Day)
      → is_set it.cert.expires_at ≡ false
      → length (bucket_by_day dates (it ∷ []) k) ≡ 0
  unfolding bucket_by_day
  bucket_unset it k h = rw h refl

  bucket_undated :
      (it : Item) (k : Day)
      → dates.day_of it.cert.expires_at ≡ none
      → length (bucket_by_day dates (it ∷ []) k) ≡ 0
  unfolding bucket_by_day
  bucket_undated it k h = rw h (ground arith)

  year_hit :
      (it : Item) (d : Day)
      → is_set it.cert.expires_at ≡ true
      → dates.day_of it.cert.expires_at ≡ some d
      → IsReal dates d
      → year_counts dates (it ∷ []) y 12 ≡ length (in_year dates y (it ∷ []))
  unfolding in_year one
  year_hit it d set e (in_twelve, (k, at_k, low, high)) =
      let e' : dates.day_of it.cert.expires_at
          ≡ some (record { year = d.year; month = d.month; date = pos k }) =
        subst
          (λ z.
            dates.day_of it.cert.expires_at
            ≡ some (record { year = d.year; month = d.month; date = z }))
          at_k e in
      let counted =
        year_one it d.year d.month k set e' 12
          (λ h. (low, subst (λ z. k ≤ dates.days_in_month z d.month) (eqb_ℤ→≡ d.year y h) high)) in
      rw (set, e, counted) (ground (arith, in_twelve))

  -- An entry that expires in the year is counted once.
  year_item :
      (it : Item)
      → ((t : Text) (d : Day) → dates.day_of t ≡ some d → IsReal dates d)
      → year_counts dates (it ∷ []) y 12 ≡ length (in_year dates y (it ∷ []))
  unfolding in_year
  year_item it real = elim (Bool-cases (is_set it.cert.expires_at)) [
    | inr h ↦ rw (year_counts-none (it ∷ []) (λ k. bucket_unset it k h) 12, h) refl
    | inl h ↦ by_day h (dates.day_of it.cert.expires_at) refl
  ]
    where
      by_day :
          is_set it.cert.expires_at ≡ true
          → (o : Option Day) → dates.day_of it.cert.expires_at ≡ o
          → year_counts dates (it ∷ []) y 12 ≡ length (in_year dates y (it ∷ []))
      by_day h none e = rw (year_counts-none (it ∷ []) (λ k. bucket_undated it k e) 12, h, e) refl
      by_day h (some d) e = year_hit it d h e (real it.cert.expires_at d e)

  -- Provided that the browser makes real days of times, the counts in the twelve titles of a year's
  -- view are together the number of entries that expire in that year: each such entry stands on one day of one month.
  pub year_counts-in_year :
      (items : List Item)
      → ((t : Text) (d : Day) → dates.day_of t ≡ some d → IsReal dates d)
      → year_counts dates items y 12 ≡ length (in_year dates y items)
  unfolding in_year
  year_counts-in_year [] real = year_counts-none [] bucket_empty 12
  year_counts-in_year (it ∷ items) real =
      let head = year_item it real in
      let rest = year_counts-in_year items real in
      ground (arith, year_counts-cons it items 12, head, rest)
