-- ===== src/Dashboard/Tracked/Tests.antt =====
-- Runs of the list of the tracked entries.
use certguard.Base.{◌≡◌, refl, true, false, none, List, [], ◌∷◌, ◌++◌, map, length, leb→le}
use certguard.Base.Int.{pos, negsuc}
use certguard.Base.Sort.{sort}
use certguard.Inventory.Items.{Item, category_label}
use certguard.Inventory.Tests.{browser, entry}
use certguard.Dashboard.Tracked.{Query, View, expiry_asc, filter_sort_items, render_certs, scroll}
use certguard.Dashboard.Tracked.Pages.{IsPaged, scroll-all}

abbrev tracked : List Item
tracked =
    entry (97 ∷ []) (pos 9)
    ∷ entry (98 ∷ []) (pos 3)
    ∷ entry (99 ∷ []) (negsuc 1)
    ∷ entry (97 ∷ 98 ∷ []) (pos 30)
    ∷ []

abbrev query : Query
query = record {
  search = 32 ∷ 97 ∷ [];
  order = expiry_asc;
  items = tracked ++ (tracked ++ (tracked ++ (tracked ++ (tracked ++ (tracked ++ tracked)))));
}

abbrev blank : View
blank = record {
  rows = [];
  shown_count = 0;
  observing = false;
  sentinel_hidden = true;
  empty_hidden = true;
  no_match_hidden = true;
  open_row = none;
  detail_id = none;
}

-- Fourteen of the entries have the letter: one page, and two more.
two_pages :
    map
      (λ v. length v.rows)
      (render_certs browser query blank
        ∷ scroll browser 1 query (render_certs browser query blank)
        ∷ [])
    ≡ 12 ∷ 14 ∷ []
unfolding render_certs scroll filter_sort_items sort category_label
two_pages = refl

scroll-all_example :
    IsPaged
      (filter_sort_items browser query)
      (scroll browser 0 query (render_certs browser query blank))
    × ((scroll browser 1 query (render_certs browser query blank)).rows
        ≡ filter_sort_items browser query)
    × ((scroll browser 1 query (render_certs browser query blank)).observing ≡ false)
unfolding filter_sort_items sort category_label
scroll-all_example = scroll-all browser query 0 1 blank (leb→le 14 24 refl)
