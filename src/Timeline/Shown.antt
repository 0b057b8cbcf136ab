-- ===== src/Timeline/Shown.antt =====
-- Any sequence of clicks and loads on the timeline of internal/server/web/static/timeline.js.
use mathlib.Core.List.{Perm}
use mathlib.Core.List.Perm
use certguard.Base.{
  ◌≤◌, ◌<◌, ◌≡◌, refl, sym, Option, none, some, List, [], ◌∷◌, All, AllPairs, length, arith, true,
  false, ap,
}
use mathlib.Core.Path.{subst}
use certguard.Base.Int.{pos, negsuc, ◌+ℤ◌, ◌≤ℤ◌, ℤ}
use certguard.Base.Sort.{sort, sort-perm, sort-AllPairs}
use certguard.Inventory.Items.{Item}
use certguard.Base.Bags.{IsPicked, filter-IsPicked, filter_none, IsPicked-sort}
use certguard.Dashboard.Calendar.{Day, Dates, eqb_ℤ, same_day}
use certguard.Dashboard.Calendar.Counts.{eqb_ℤ→≡}
use certguard.Timeline.{
  Month, Detail, Timeline, expires_after, falls_on, bucket, detail_rows, render_detail, render,
  select_day, shift_months, go_today, load, opened,
}
use certguard.Timeline.Months.{IsRendered, utc_month-lt}

-- One event: a click on a day, the arrows, the button back to the clock's month, and an answer.
pub data Step (dates : Dates) : Timeline → Timeline → Type 0 where
  day : {t : Timeline} (k : Day) → Step dates t (select_day dates k t)
  prev : {t : Timeline} → Step dates t (shift_months dates (negsuc 11) t)
  next : {t : Timeline} → Step dates t (shift_months dates (pos 12) t)
  today : {t : Timeline} (now : Month) → now.month < 12 → Step dates t (go_today dates now t)
  answer : {t : Timeline} (items : List Item) → Step dates t (load dates items t)

pub data Reach (dates : Dates) (t : Timeline) : Timeline → Type 0 where
  here : Reach dates t t
  step : {u v : Timeline} → Reach dates t u → Step dates u v → Reach dates t v

abbrev pub IsSooner : Item → Item → Type 0
IsSooner x y = x.days_remaining ≤ℤ y.days_remaining

abbrev pub ExpiresOn : Dates → Day → Item → Type 0
ExpiresOn dates k it = dates.day_of it.cert.expires_at ≡ some k

-- What the card has to say of the day that is open: nothing, if no entry expires then; otherwise
-- the entries of that day, each as often, the fewest days remaining first.
abbrev pub IsOf : Dates → List Item → Option Day → Option Detail → Type 0
IsOf dates items none none = Unit
IsOf dates items (some k) none = All (λ it. ExpiresOn dates k it → ⊥) items
IsOf dates items none (some d) = ⊥
IsOf dates items (some k) (some d) =
    (d.key ≡ k)
    × (1 ≤ length d.rows)
    × IsPicked (ExpiresOn dates k) d.rows items
    × AllPairs IsSooner d.rows

same_day→≡ : (x y : Day) → same_day x y ≡ true → x ≡ y
same_day→≡ x y h =
    let a : x.year ≡ y.year = eqb_ℤ→≡ x.year y.year (ground (arith, h)) in
    let b : x.month ≡ y.month = ground (arith, h) in
    let c : x.date ≡ y.date = eqb_ℤ→≡ x.date y.date (ground (arith, h)) in cc

eqb_ℤ_refl : (a : ℤ) → eqb_ℤ a a ≡ true
eqb_ℤ_refl (pos n) = ground arith
eqb_ℤ_refl (negsuc n) = ground arith

same_day_refl : (x : Day) → same_day x x ≡ true
same_day_refl x = rw (eqb_ℤ_refl x.year, eqb_ℤ_refl x.date) (ground arith)

pub record IsShown (dates : Dates) (t : Timeline) : Type 0 where
  pub month : t.anchor.month < 12
  pub card : IsOf dates t.items t.selected t.detail

module _ (dates : Dates) where
  step-IsRendered : {t u : Timeline} → Step dates t u → IsRendered dates t → IsRendered dates u
  unfolding select_day shift_months go_today load render
  step-IsRendered (day k) h = record { month = h.month; detail = refl }
  step-IsRendered {t} prev h = record {
    month = utc_month-lt t.anchor.year (pos t.anchor.month +ℤ negsuc 11);
    detail = refl;
  }
  step-IsRendered {t} next h = record {
    month = utc_month-lt t.anchor.year (pos t.anchor.month +ℤ pos 12);
    detail = refl;
  }
  step-IsRendered (today now low) h = record { month = low; detail = refl }
  step-IsRendered (answer items) h = record { month = h.month; detail = refl }

  reach-IsRendered : {t u : Timeline} → Reach dates t u → IsRendered dates t → IsRendered dates u
  reach-IsRendered here h = h
  reach-IsRendered (step before event) h = step-IsRendered event (reach-IsRendered before h)

  opened-IsRendered : (now : Month) → now.month < 12 → IsRendered dates (opened now)
  unfolding render_detail
  opened-IsRendered now low = record { month = low; detail = refl }

  falls_on→≡ : (k : Day) (o : Option Day) → falls_on k o ≡ true → o ≡ some k
  falls_on→≡ k none h = absurd cc
  falls_on→≡ k (some d) h = ap some (same_day→≡ d k h)

  falls_on→≢ : (k : Day) (o : Option Day) → falls_on k o ≡ false → o ≡ some k → ⊥
  falls_on→≢ k none h e = absurd cc
  falls_on→≢ k (some d) h e =
      let same : d ≡ k = cc in
      let t : same_day d k ≡ true = subst (λ z. same_day z k ≡ true) (sym same) (same_day_refl k) in
      absurd cc

  bucket-IsPicked :
      (items : List Item) (k : Day) → IsPicked (ExpiresOn dates k) (bucket dates items k) items
  unfolding bucket
  bucket-IsPicked items k =
      filter-IsPicked (ExpiresOn dates k) (λ it. falls_on k (dates.day_of it.cert.expires_at))
        (λ it h. falls_on→≡ k _ h) (λ it h. falls_on→≢ k _ h) items

  bucket_none :
      (items : List Item) (k : Day)
      → bucket dates items k ≡ []
      → All (λ it. ExpiresOn dates k it → ⊥) items
  unfolding bucket
  bucket_none items k =
      filter_none (ExpiresOn dates k) (λ it. falls_on k (dates.day_of it.cert.expires_at))
        (λ it h. falls_on→≡ k _ h) (λ it h. falls_on→≢ k _ h) items

  detail_rows-IsOf :
      (items : List Item) (k : Day) (rows : List Item)
      → Perm rows (bucket dates items k)
      → IsPicked (ExpiresOn dates k) rows items
      → AllPairs IsSooner rows
      → IsOf dates items (some k) (detail_rows dates k rows)
  detail_rows-IsOf items k [] p q s = bucket_none items k (sym (Perm.nil-eq p))
  detail_rows-IsOf items k (it ∷ rows) p q s = (refl, omega arith, q, s)

  sort-IsSooner : (items : List Item) → AllPairs IsSooner (sort expires_after items)
  sort-IsSooner items =
      sort-AllPairs expires_after IsSooner (λ x y h. ground (arith, h)) (λ x y h. ground (arith, h))
        (λ x y z h k. ground (arith, h, k)) items

  render_detail-IsOf :
      (items : List Item) (selected : Option Day)
      → IsOf dates items selected (render_detail dates items selected)
  unfolding render_detail
  render_detail-IsOf items none = tt
  render_detail-IsOf items (some k) =
      let on = bucket dates items k in
      detail_rows-IsOf items k (sort expires_after on) (sort-perm expires_after on)
        (IsPicked-sort (ExpiresOn dates k) expires_after on items (bucket-IsPicked items k))
        (sort-IsSooner on)

  -- After any sequence of clicks and loads from the opening of the page in one of twelve months, the
  -- first month is one of twelve. The card is hidden where no day is open or no entry expires on it;
  -- otherwise it names the open day and lists exactly the entries whose time the browser puts on that
  -- day, each as often as it stands in the inventory, the fewest days remaining first.
  pub reach-IsShown :
      (now : Month) (t : Timeline) → now.month < 12 → Reach dates (opened now) t → IsShown dates t
  reach-IsShown now t low r =
      let h = reach-IsRendered r (opened-IsRendered now low) in
      record {
        month = h.month;
        card =
            subst (IsOf dates t.items t.selected) (sym h.detail)
              (render_detail-IsOf t.items t.selected);
      }
