-- ===== src/Dashboard/Alerts/Due.antt =====
-- What a row of the alert preview of internal/server/web/static/dashboard.js promises.
use certguard.Base.{
  ℕ, ◌+◌, ◌-◌, ◌≤◌, ◌<◌, ◌≡◌, refl, sym, ap, ◌∙◌, ◌⊎◌, inl, inr, false, ◌==◌, Option, none, some,
  List, [], ◌∷◌, find, All, AllPairs, All-map, ltb, arith, if-intro,
}
use certguard.Base.Int.{ℤ, pos, negsuc}
use certguard.Base.Sort.{All-sort, sort-AllPairs}
use certguard.Base.Text.{Text}
use certguard.Inventory.Items.{Item}
use certguard.Dashboard.Alerts.{
  Channel, Upcoming, thresholds, window, kinds_for, announce, announce_at, announce_in, upcoming_of,
  collect, add_upcoming, later, alert_preview, says_today,
}

-- The greatest of 30, 7 and 3 below a number of days.
abbrev pub IsNextBelow : ℕ → ℕ → Type 0
IsNextBelow t d =
    ((t ≡ 30) × (30 < d)) ⊎ (((t ≡ 7) × (7 < d) × (d ≤ 30)) ⊎ ((t ≡ 3) × (3 < d) × (d ≤ 7)))

-- The row is about the entry: its days fall to the next threshold after those of the row, of which
-- there is at least one and at most fourteen.
pub record IsDue (it : Item) (u : Upcoming) : Type 0 where
  pub about : u.name ≡ it.cert.name
  pub falls : it.days_remaining ≡ pos (u.in_days + u.threshold)
  pub next : IsNextBelow u.threshold (u.in_days + u.threshold)
  pub some_day : 1 ≤ u.in_days
  pub in_window : u.in_days ≤ 14

abbrev pub HasCause : List Item → Upcoming → Type 0
HasCause [] u = ⊥
HasCause (it ∷ items) u = IsDue it u ⊎ HasCause items u

find-IsNextBelow : (d t : ℕ) → find (λ t. ltb t d) thresholds ≡ some t → IsNextBelow t d
find-IsNextBelow d t h =
    let P = λ (o : Option ℕ). o ≡ some t → IsNextBelow t d in
    if-intro P (ltb 30 d) (λ e k. inl (cc, ground (arith, e)))
      (λ e.
        if-intro P (ltb 7 d) (λ f k. inr (inl (cc, ground (arith, f), ground (arith, e))))
          (λ f.
            if-intro P (ltb 3 d) (λ g k. inr (inr (cc, ground (arith, g), ground (arith, f))))
              (λ g k. absurd cc)))
      h

module _ (parse_int : Text → Option ℕ) (channels : List Channel) where
  announce_lem :
      (name : Text) (n t : ℕ) (ks : List Text) (u : Upcoming)
      → announce name n t ks ≡ some u
      → (u.name ≡ name) × (u.in_days ≡ n) × (u.threshold ≡ t)
  announce_lem name n t [] u h = absurd cc
  announce_lem name n t (k ∷ ks) u h = (cc, cc, cc)

  announce_at-Due :
      (it : Item) (days t : ℕ) (u : Upcoming)
      → it.days_remaining ≡ pos days
      → find (λ t. ltb t days) thresholds ≡ some t
      → announce_at parse_int channels it.cert.name days (some t) ≡ some u
      → IsDue it u
  announce_at-Due it days t u at low =
      if-intro (λ o. o ≡ some u → IsDue it u) (ltb window (days - t)) (λ e k. absurd cc)
        (λ e k. due e (announce_lem it.cert.name (days - t) t (kinds_for parse_int channels t) u k))
    where
      below : IsNextBelow t days
      below = find-IsNextBelow days t low

      due :
          ltb window (days - t) ≡ false
          → (u.name ≡ it.cert.name) × (u.in_days ≡ days - t) × (u.threshold ≡ t)
          → IsDue it u
      due e (name, n, at_t) =
          let sum : u.in_days + u.threshold ≡ days = ground (arith, n, at_t, below) in
          record {
            about = name;
            falls = at ∙ ap pos (sym sum);
            next = ground (arith, below, at_t, sum);
            some_day = ground (arith, n, below);
            in_window = ground (arith, n, e);
          }

  upcoming_of-Due :
      (it : Item) (u : Upcoming) → upcoming_of parse_int channels it ≡ some u → IsDue it u
  unfolding upcoming_of
  upcoming_of-Due it u h = by_days it.days_remaining refl h
    where
      by_threshold :
          (days : ℕ) (o : Option ℕ)
          → it.days_remaining ≡ pos days
          → find (λ t. ltb t days) thresholds ≡ o
          → announce_at parse_int channels it.cert.name days o ≡ some u
          → IsDue it u
      by_threshold days none at low k = absurd cc
      by_threshold days (some t) at low k = announce_at-Due it days t u at low k

      by_days :
          (z : ℤ)
          → it.days_remaining ≡ z
          → announce_in parse_int channels it.cert.name z ≡ some u
          → IsDue it u
      by_days (negsuc _) at k = absurd cc
      by_days (pos days) at k =
          if-intro (λ o. o ≡ some u → IsDue it u) (days == 0) (λ e k. absurd cc)
            (λ e k. by_threshold days (find (λ t. ltb t days) thresholds) at refl k) k

  collect-HasCause : (items : List Item) → All (HasCause items) (collect parse_int channels items)
  unfolding collect
  collect-HasCause [] = tt
  collect-HasCause (it ∷ items) =
      let found = collect parse_int channels items in
      add (upcoming_of parse_int channels it) refl
        (All-map found (λ u k. inr k) (collect-HasCause items))
    where
      add :
          (o : Option Upcoming)
          → upcoming_of parse_int channels it ≡ o
          → All (HasCause (it ∷ items)) (collect parse_int channels items)
          → All (HasCause (it ∷ items)) (add_upcoming o (collect parse_int channels items))
      add none e behind = behind
      add (some u) e behind = (inl (upcoming_of-Due it u e), behind)

  -- Every row of the preview is about an entry: on the day that it announces, at least one and at
  -- most fourteen days ahead, the entry's days reach its threshold, the greatest of 30, 7 and 3
  -- below them. No row says 'today', and no row stands before a sooner one.
  pub alert_preview-HasCause :
      (items : List Item)
      → All
          (λ u. HasCause items u × (says_today u ≡ false))
          (alert_preview parse_int channels items)
        × AllPairs (λ u v. u.in_days ≤ v.in_days) (alert_preview parse_int channels items)
  unfolding alert_preview says_today
  alert_preview-HasCause items =
      let found = collect parse_int channels items in
      (
        All-sort later (λ u. HasCause items u × (u.in_days == 0 ≡ false)) found
            (All-map found (λ u k. (k, not_today items u k)) (collect-HasCause items)),
        sort-AllPairs later (λ u v. u.in_days ≤ v.in_days) (λ u v e. ground (arith, e))
            (λ u v e. ground (arith, e)) (λ u v w h k. omega (arith, h, k)) found,
      )
    where
      not_today : (items : List Item) (u : Upcoming) → HasCause items u → u.in_days == 0 ≡ false
      not_today [] u k = absurd k
      not_today (it ∷ items) u (inl due) = let d = due.some_day in ground (arith, d)
      not_today (it ∷ items) u (inr k) = not_today items u k
