-- ===== src/Inventory/Filter/Clicks.antt =====
-- What the clicks on the tiles, the column heads and the reset button of
-- internal/server/web/static/inventory.js do to the table.
use certguard.Base.{
  ℕ, ◌≡◌, refl, ap, true, false, not, ◌||◌, inl, inr, List, [], ◌∷◌, filter, arith, Bool-cases,
}
use mathlib.Core.Path.{subst}
use mathlib.Core.List.{Perm}
use certguard.Base.Sort.{sort-perm}
use certguard.Base.Text.{Text}
use certguard.Common.Expiry.{Bucket}
use certguard.Inventory.Items.{Item, Browser}
use certguard.Inventory.Filter.{
  Status, all, in_bucket, problems, SortKey, State, same_bucket, same_status, same_key, less,
  sort_value, sorts_after, has_status, passes, visible_items, click_tile, click_header, is_filtered,
}

same_bucket_refl : (k : Bucket) → same_bucket k k ≡ true
same_bucket_refl k = ground arith

same_status_refl : (s : Status) → same_status s s ≡ true
same_status_refl all = refl
same_status_refl problems = refl
same_status_refl (in_bucket k) = same_bucket_refl k

-- A second click on a tile clears the filter: from a state with another status, two clicks on a
-- tile leave everything as it was but for the status, which is `all`.
pub click_tile-click_tile :
    (s : Status) (st : State)
    → same_status st.status s ≡ false
    → click_tile s (click_tile s st) ≡ record st { status = all }
unfolding click_tile
click_tile-click_tile s st h = rw (h, same_status_refl s) refl

-- A click on the column that the table is sorted by turns round every two entries whose values in
-- that column differ.
pub sorts_after-click_header :
    (b : Browser) (show_port : ℕ → Text) (k : SortKey) (st : State) (x y : Item)
    → same_key st.sort k ≡ true
    → (less (sort_value b show_port x st.sort) (sort_value b show_port y st.sort)
        || less (sort_value b show_port y st.sort) (sort_value b show_port x st.sort))
      ≡ true
    → sorts_after b show_port (click_header k st) x y ≡ not (sorts_after b show_port st x y)
unfolding sorts_after click_header
sorts_after-click_header b show_port k st x y h d =
    rw h
      (elim (Bool-cases
        (less (sort_value b show_port x st.sort) (sort_value b show_port y st.sort))) [
          | inl e ↦ rw e refl
          | inr e ↦ rw (e, rw e at d) refl
        ])

module _ (b : Browser) (show_port : ℕ → Text) where
  passes_unfiltered :
      (st : State) (it : Item)
      → b.lower [] ≡ []
      → is_filtered st ≡ false
      → passes b show_port st it ≡ true
  unfolding passes is_filtered has_status
  passes_unfiltered st it h f = ground arith

  filter_unfiltered :
      (st : State) (items : List Item)
      → b.lower [] ≡ []
      → is_filtered st ≡ false
      → filter (passes b show_port st) items ≡ items
  filter_unfiltered st [] h f = refl
  filter_unfiltered st (it ∷ items) h f =
      rw (passes_unfiltered st it h f) (ap (it ∷◌) (filter_unfiltered st items h f))

  -- While the reset button is hidden the table shows every entry, each once: what it shows is a
  -- permutation of what is tracked. The browser makes no text out of the empty one by
  -- `toLowerCase`.
  pub visible_items-is_filtered :
      (st : State) (items : List Item)
      → b.lower [] ≡ []
      → is_filtered st ≡ false
      → Perm (visible_items b show_port st items) items
  unfolding visible_items
  visible_items-is_filtered st items h f =
      subst (λ shown. Perm (visible_items b show_port st items) shown)
        (filter_unfiltered st items h f)
        (sort-perm (sorts_after b show_port st) (filter (passes b show_port st) items))
