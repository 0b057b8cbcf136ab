-- ===== src/Dashboard/Tracked.antt =====
-- The list of the tracked entries of internal/server/web/static/dashboard.js: its search, its order
-- and its pages, which a sentinel below the last row asks for.
pub mod Pages
pub mod Sorted
mod Tests
use certguard.Base.{
  ℕ, zero, suc, ◌+◌, Bool, true, false, not, ◌&&◌, ◌||◌, ◌==◌, Option, none, some, List, [], ◌∷◌,
  ◌++◌, take, drop, filter, any, length, if◌then◌else◌, leb, ltb,
}
use certguard.Base.Int.{ℤ, ltb_ℤ}
use certguard.Base.Sort.{sort}
use certguard.Base.Text.{Text, includes, is_set}
use certguard.Common.Expiry.{Level, urgent, warn, notice, ok, expiry_level}
use certguard.Inventory.Items.{Cert, Item, Browser, category_label}
use certguard.Inventory.Filter.{trim}

-- `#trackedSort`
pub data Order : Type 0 where
  expiry_asc : Order
  expiry_desc : Order
  by_name : Order
  by_added : Order

-- The two controls and the entries; `items` are `currentItems`.
pub record Query : Type 0 where
  pub search : Text
  pub order : Order
  pub items : List Item

-- What `renderCerts` writes, `shownCount`, and the observer and the sentinel of the next page.
pub record View : Type 0 where
  pub rows : List Item
  pub shown_count : ℕ
  pub observing : Bool
  pub sentinel_hidden : Bool
  pub empty_hidden : Bool
  pub no_match_hidden : Bool
  pub open_row : Option ℕ
  pub detail_id : Option ℕ

abbrev pub page : ℕ
page = 12

abbrev is_of_level : Level → Bool
is_of_level urgent = true
is_of_level _ = false

abbrev is_soon : Level → Bool
is_soon warn = true
is_soon notice = true
is_soon _ = false

-- The three numbers of the summary: all, soon and urgent.
unfoldable pub summary : List Item → ℕ × ℕ × ℕ
summary items = (
  length items,
  length (filter (λ (it : Item). is_soon (expiry_level it.days_remaining)) items),
  length (filter (λ (it : Item). is_of_level (expiry_level it.days_remaining)) items),
)

module _ (b : Browser) where
  unfoldable pub is_found : Text → Cert → Bool
  is_found q c =
      includes (b.lower c.name) q
      || (includes (b.lower c.host) q
          || (includes (b.lower c.category) q || includes (b.lower (category_label c.category)) q))

  -- The comparator is positive.
  unfoldable pub comes_after : Order → Item → Item → Bool
  comes_after by_name x y = b.locale_after x.cert.name y.cert.name
  comes_after by_added x y = ltb x.cert.id y.cert.id
  comes_after expiry_desc x y = ltb_ℤ x.days_remaining y.days_remaining
  comes_after expiry_asc x y = ltb_ℤ y.days_remaining x.days_remaining

  unfoldable pub filter_sort_items : Query → List Item
  unfolding is_found comes_after
  filter_sort_items s =
      let q = b.lower (trim s.search) in
      let items =
        if is_set q then filter (λ (it : Item). is_found q it.cert) s.items else s.items in
      sort (comes_after s.order) items

  -- `setupMoreObserver(total)`
  unfoldable pub setup_more_observer : ℕ → View → View
  setup_more_observer total v =
      let more = not (leb total v.shown_count) in
      record v { observing = more; sentinel_hidden = not more }

  -- The observer's callback; it runs while the sentinel is observed and in sight.
  unfoldable pub intersect : Query → View → View
  intersect s v =
      let all = filter_sort_items s in
      let more = take page (drop v.shown_count all) in
      let shown = v.shown_count + length more in
      if not v.observing
      then v
      else if length more == 0
      then record v { observing = false; sentinel_hidden = true }
      else if leb (length all) shown
      then record v {
        rows = v.rows ++ more;
        shown_count = shown;
        observing = false;
        sentinel_hidden = true;
      }
      else record v { rows = v.rows ++ more; shown_count = shown }

  -- An open popup stays only while its entry is still there.
  abbrev pub keep_detail : List Item → Option ℕ → Option ℕ
  keep_detail items none = none
  keep_detail items (some id) =
      if any (λ (it : Item). it.cert.id == id) items then some id else none

  unfoldable pub render_certs : Query → View → View
  unfolding setup_more_observer
  render_certs s v =
      let items = filter_sort_items s in
      let shown = if ltb v.shown_count page then page else v.shown_count in
      setup_more_observer (length items) (record v {
        rows = take shown items;
        shown_count = shown;
        open_row = none;
        empty_hidden = not (length s.items == 0);
        no_match_hidden = not (not (length s.items == 0) && (length items == 0));
        detail_id = keep_detail s.items v.detail_id;
      })

  -- The listeners of the two controls.
  unfoldable pub search_input : Query → View → View
  unfolding render_certs
  search_input s v = render_certs s (record v { shown_count = page })

  -- The sentinel comes into sight `k` times.
  unfoldable pub scroll : ℕ → Query → View → View
  unfolding intersect
  scroll zero s v = v
  scroll (suc k) s v = scroll k s (intersect s v)
