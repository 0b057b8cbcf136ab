-- ===== src/Inventory/Filter/Order.antt =====
-- The order of the table of internal/server/web/static/inventory.js.
use certguard.Base.{ℕ, ◌≡◌, Bool, true, false, List, filter, arith, AllPairs}
use certguard.Base.Int.{◌≤ℤ◌}
use certguard.Base.Sort.{sort-AllPairs}
use certguard.Base.Text.{Text}
use certguard.Inventory.Items.{Item, Browser}
use certguard.Inventory.Filter.{by_remaining, State, sort_value, sorts_after, passes, visible_items}

-- The order of the remaining days in the table's direction.
abbrev pub IsInOrder : Bool → Item → Item → Type 0
IsInOrder false x y = x.days_remaining ≤ℤ y.days_remaining
IsInOrder true x y = y.days_remaining ≤ℤ x.days_remaining

module _ (b : Browser) (show_port : ℕ → Text) where
  abbrev by_days : Bool → State → State
  by_days d st = record st { sort = by_remaining; descending = d }

  after-IsInOrder :
      (d : Bool) (st : State) (x y : Item)
      → sorts_after b show_port (by_days d st) x y ≡ true
      → IsInOrder d y x
  unfolding sorts_after sort_value
  after-IsInOrder false st x y h = ground arith
  after-IsInOrder true st x y h = ground arith

  before-IsInOrder :
      (d : Bool) (st : State) (x y : Item)
      → sorts_after b show_port (by_days d st) x y ≡ false
      → IsInOrder d x y
  unfolding sorts_after sort_value
  before-IsInOrder false st x y h = ground arith
  before-IsInOrder true st x y h = ground arith

  IsInOrder-trans : (d : Bool) (x y z : Item) → IsInOrder d x y → IsInOrder d y z → IsInOrder d x z
  IsInOrder-trans false x y z h k = ground arith
  IsInOrder-trans true x y z h k = ground arith

  -- Sorted by the remaining days, the table shows them in ascending or in descending order
  -- throughout, whatever the filters and however the browser compares names.
  pub visible_items-IsInOrder :
      (d : Bool) (st : State) (items : List Item)
      → AllPairs
          (IsInOrder d)
          (visible_items b show_port (record st { sort = by_remaining; descending = d }) items)
  unfolding visible_items
  visible_items-IsInOrder d st items =
      sort-AllPairs (sorts_after b show_port (by_days d st)) (IsInOrder d) (after-IsInOrder d st)
        (before-IsInOrder d st) (IsInOrder-trans d)
        (filter (passes b show_port (by_days d st)) items)
