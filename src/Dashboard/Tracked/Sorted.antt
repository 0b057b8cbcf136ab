-- ===== src/Dashboard/Tracked/Sorted.antt =====
-- The order of the list of internal/server/web/static/dashboard.js.
use certguard.Base.{◌≡◌, ◌≤◌, true, false, filter, AllPairs, arith, if◌then◌else◌}
use certguard.Base.Int.{◌≤ℤ◌}
use certguard.Base.Sort.{sort-AllPairs}
use certguard.Base.Text.{is_set}
use certguard.Inventory.Items.{Item, Browser}
use certguard.Inventory.Filter.{trim}
use certguard.Dashboard.Tracked.{
  Order, expiry_asc, expiry_desc, by_added, by_name, Query, is_found, comes_after,
  filter_sort_items,
}

-- What each order promises of an entry and one that stands behind it. The order by name is the
-- browser's.
abbrev pub IsBefore : Order → Item → Item → Type 0
IsBefore expiry_asc x y = x.days_remaining ≤ℤ y.days_remaining
IsBefore expiry_desc x y = y.days_remaining ≤ℤ x.days_remaining
IsBefore by_added x y = y.cert.id ≤ x.cert.id
IsBefore by_name x y = Unit

module _ (b : Browser) where
  after-IsBefore : (o : Order) (x y : Item) → comes_after b o x y ≡ true → IsBefore o y x
  unfolding comes_after
  after-IsBefore expiry_asc x y h = ground arith
  after-IsBefore expiry_desc x y h = ground arith
  after-IsBefore by_added x y h = ground arith
  after-IsBefore by_name x y h = tt

  other-IsBefore : (o : Order) (x y : Item) → comes_after b o x y ≡ false → IsBefore o x y
  unfolding comes_after
  other-IsBefore expiry_asc x y h = ground arith
  other-IsBefore expiry_desc x y h = ground arith
  other-IsBefore by_added x y h = ground arith
  other-IsBefore by_name x y h = tt

  IsBefore-trans : (o : Order) (x y z : Item) → IsBefore o x y → IsBefore o y z → IsBefore o x z
  IsBefore-trans expiry_asc x y z h k = ground arith
  IsBefore-trans expiry_desc x y z h k = ground arith
  IsBefore-trans by_added x y z h k = ground arith
  IsBefore-trans by_name x y z h k = tt

  -- Whatever is searched for, the list is in the chosen order throughout: the soonest expiry first,
  -- the last expiry first, or the newest entry first.
  pub filter_sort_items-IsBefore : (s : Query) → AllPairs (IsBefore s.order) (filter_sort_items b s)
  unfolding filter_sort_items
  filter_sort_items-IsBefore s =
      sort-AllPairs (comes_after b s.order) (IsBefore s.order) (after-IsBefore s.order)
        (other-IsBefore s.order) (IsBefore-trans s.order)
        (if is_set (b.lower (trim s.search))
          then filter (λ (it : Item). is_found b (b.lower (trim s.search)) it.cert) s.items
          else s.items)
