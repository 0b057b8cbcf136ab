-- ===== src/Inventory/Filter/Tiles.antt =====
-- The counts of `renderTiles` in internal/server/web/static/inventory.js, against what the filter
-- shows when a tile is clicked.
use certguard.Base.{
  ℕ, suc, ◌+◌, ◌≡◌, refl, ◌∙◌, sym, ap, Bool, true, false, inl, inr, List, [], ◌∷◌, filter, length,
  arith, Bool-cases,
}
use certguard.Base.Sort.{insert, sort}
use certguard.Base.Text.{Text}
use certguard.Common.Expiry.{urgent, warn, notice, ok, Bucket, expired, within, bucket}
use certguard.Inventory.Items.{Item, Browser, has_problem}
use certguard.Inventory.Filter.{
  Status, all, in_bucket, problems, State, same_bucket, same_status, sorts_after, has_status,
  passes, visible_items, reset,
}

-- `counts`
pub record Counts : Type 0 where
  pub all_items : ℕ
  pub expired_items : ℕ
  pub urgent_items : ℕ
  pub warn_items : ℕ
  pub notice_items : ℕ
  pub ok_items : ℕ
  pub problem_items : ℕ

-- `counts[bucket]++`
abbrev pub bump : Bucket → Counts → Counts
bump expired n = record n { expired_items = suc n.expired_items }
bump (within urgent) n = record n { urgent_items = suc n.urgent_items }
bump (within warn) n = record n { warn_items = suc n.warn_items }
bump (within notice) n = record n { notice_items = suc n.notice_items }
bump (within ok) n = record n { ok_items = suc n.ok_items }

abbrev pub bump_problem : Bool → Counts → Counts
bump_problem true n = record n { problem_items = suc n.problem_items }
bump_problem false n = n

unfoldable pub tally : Counts → List Item → Counts
tally n [] = n
tally n (it ∷ items) =
    tally (bump_problem (has_problem it.cert) (bump (bucket it.days_remaining) n)) items

abbrev no_counts : ℕ → Counts
no_counts n = record {
  all_items = n;
  expired_items = 0;
  urgent_items = 0;
  warn_items = 0;
  notice_items = 0;
  ok_items = 0;
  problem_items = 0;
}

unfoldable pub tiles : List Item → Counts
unfolding tally
tiles items = tally (no_counts (length items)) items

-- `counts[key]`
abbrev pub count_of : Status → Counts → ℕ
count_of all n = n.all_items
count_of problems n = n.problem_items
count_of (in_bucket expired) n = n.expired_items
count_of (in_bucket (within urgent)) n = n.urgent_items
count_of (in_bucket (within warn)) n = n.warn_items
count_of (in_bucket (within notice)) n = n.notice_items
count_of (in_bucket (within ok)) n = n.ok_items

abbrev pub bucket_sum : Counts → ℕ
bucket_sum n = n.expired_items + n.urgent_items + n.warn_items + n.notice_items + n.ok_items

bump-bucket_sum :
    (k : Bucket) (p : Bool) (n : Counts)
    → bucket_sum (bump_problem p (bump k n)) ≡ suc (bucket_sum n)
bump-bucket_sum k p n = ground arith

tally-bucket_sum :
    (n : Counts) (items : List Item) → bucket_sum (tally n items) ≡ bucket_sum n + length items
unfolding tally
tally-bucket_sum n [] = omega arith
tally-bucket_sum n (it ∷ items) =
    tally-bucket_sum (bump_problem (has_problem it.cert) (bump (bucket it.days_remaining) n)) items
    ∙ omega (arith, bump-bucket_sum (bucket it.days_remaining) (has_problem it.cert) n)

tally-all_items : (n : Counts) (items : List Item) → (tally n items).all_items ≡ n.all_items
unfolding tally
tally-all_items n [] = refl
tally-all_items n (it ∷ items) =
    tally-all_items (bump_problem (has_problem it.cert) (bump (bucket it.days_remaining) n)) items
    ∙ kept (bucket it.days_remaining) (has_problem it.cert)
  where
    kept : (k : Bucket) (p : Bool) → (bump_problem p (bump k n)).all_items ≡ n.all_items
    kept k p = ground arith

-- The five buckets are exclusive and leave nothing out: their counts sum to the number of entries.
pub tiles-bucket_sum : (items : List Item) → bucket_sum (tiles items) ≡ (tiles items).all_items
unfolding tiles
tiles-bucket_sum items = omega (
  arith,
  tally-bucket_sum (no_counts (length items)) items,
  tally-all_items (no_counts (length items)) items,
)

-- Whether an entry in a bucket, with or without a problem, counts for a tile.
abbrev counts_for : Status → Bucket → Bool → Bool
counts_for all k p = true
counts_for problems k p = p
counts_for (in_bucket j) k p = same_bucket k j

count_of-bump :
    (s : Status) (k : Bucket) (p : Bool) (n : Counts)
    → same_status s all ≡ false
    → counts_for s k p ≡ true
    → count_of s (bump_problem p (bump k n)) ≡ suc (count_of s n)
count_of-bump s k p n h t = ground arith

count_of-bump_other :
    (s : Status) (k : Bucket) (p : Bool) (n : Counts)
    → counts_for s k p ≡ false
    → count_of s (bump_problem p (bump k n)) ≡ count_of s n
count_of-bump_other s k p n t = ground arith

count_of-no_counts : (s : Status) (n : ℕ) → same_status s all ≡ false → count_of s (no_counts n) ≡ 0
count_of-no_counts s n h = ground arith

module _ (b : Browser) (show_port : ℕ → Text) where
  has_status-counts_for :
      (s : Status) (it : Item)
      → has_status b show_port s it ≡ counts_for s (bucket it.days_remaining) (has_problem it.cert)
  unfolding has_status
  has_status-counts_for all it = refl
  has_status-counts_for problems it = refl
  has_status-counts_for (in_bucket j) it = refl

  tally-count :
      (s : Status) (n : Counts) (items : List Item)
      → same_status s all ≡ false
      → count_of s (tally n items) ≡ count_of s n + length (filter (has_status b show_port s) items)
  unfolding tally
  tally-count s n [] h = omega arith
  tally-count s n (it ∷ items) h =
      let k = bucket it.days_remaining in
      let p = has_problem it.cert in
      elim (Bool-cases (has_status b show_port s it)) [
        | inl e ↦
            let one = count_of-bump s k p n h (sym (has_status-counts_for s it) ∙ e) in
            rw e (omega (arith, one, tally-count s (bump_problem p (bump k n)) items h))
        | inr e ↦
            let one = count_of-bump_other s k p n (sym (has_status-counts_for s it) ∙ e) in
            rw e (omega (arith, one, tally-count s (bump_problem p (bump k n)) items h))
      ]

  filter-all : (items : List Item) → filter (has_status b show_port all) items ≡ items
  unfolding has_status
  filter-all [] = refl
  filter-all (it ∷ items) = ap (it ∷◌) (filter-all items)

  count_of-tally :
      (s : Status) (items : List Item)
      → same_status s all ≡ false
      → count_of s (tally (no_counts (length items)) items)
        ≡ length (filter (has_status b show_port s) items)
  count_of-tally s items h = omega (
    arith,
    count_of-no_counts s (length items) h,
    tally-count s (no_counts (length items)) items h,
  )

  -- The number on a tile is the number of entries with its status.
  count_of-tiles :
      (s : Status) (items : List Item)
      → count_of s (tiles items) ≡ length (filter (has_status b show_port s) items)
  unfolding tiles
  count_of-tiles all items =
      tally-all_items (no_counts (length items)) items ∙ sym (ap length (filter-all items))
  count_of-tiles problems items = count_of-tally problems items refl
  count_of-tiles (in_bucket expired) items = count_of-tally (in_bucket expired) items refl
  count_of-tiles (in_bucket (within urgent)) items =
      count_of-tally (in_bucket (within urgent)) items refl
  count_of-tiles (in_bucket (within warn)) items =
      count_of-tally (in_bucket (within warn)) items refl
  count_of-tiles (in_bucket (within notice)) items =
      count_of-tally (in_bucket (within notice)) items refl
  count_of-tiles (in_bucket (within ok)) items = count_of-tally (in_bucket (within ok)) items refl

  length-insert :
      (after : Item → Item → Bool) (x : Item) (ys : List Item)
      → length (insert after x ys) ≡ suc (length ys)
  unfolding insert
  length-insert after x [] = refl
  length-insert after x (y ∷ ys) = elim (Bool-cases (after x y)) [
    | inl e ↦ rw e (ap suc (length-insert after x ys))
    | inr e ↦ rw e refl
  ]

  length-sort : (after : Item → Item → Bool) (xs : List Item) → length (sort after xs) ≡ length xs
  unfolding sort
  length-sort after [] = refl
  length-sort after (x ∷ xs) = length-insert after x (sort after xs) ∙ ap suc (length-sort after xs)

  filter-ext :
      (p q : Item → Bool) (xs : List Item) → ((x : Item) → p x ≡ q x) → filter p xs ≡ filter q xs
  filter-ext p q [] h = refl
  filter-ext p q (x ∷ xs) h = elim (Bool-cases (q x)) [
    | inl e ↦ rw (h x, e) (ap (x ∷◌) (filter-ext p q xs h))
    | inr e ↦ rw (h x, e) (filter-ext p q xs h)
  ]

  -- With the other filters unset, an entry passes when it has the status.
  passes-status :
      (st : State) (s : Status) (it : Item)
      → b.lower [] ≡ []
      → passes b show_port (record (reset st) { status = s }) it ≡ has_status b show_port s it
  unfolding passes reset
  passes-status st s it h = elim (Bool-cases (has_status b show_port s it)) [
    | inl e ↦ rw (e, h) refl
    | inr e ↦ rw e refl
  ]

  -- A tile tells how many entries a click on it shows when no other filter is set: whatever the
  -- state was, after a reset and that click as many entries are visible as the tile says. The
  -- browser makes no text out of the empty one by `toLowerCase`.
  pub visible_items-count_of :
      (st : State) (s : Status) (items : List Item)
      → b.lower [] ≡ []
      → length (visible_items b show_port (record (reset st) { status = s }) items)
        ≡ count_of s (tiles items)
  unfolding visible_items
  visible_items-count_of st s items h =
      let chosen : State = record (reset st) { status = s } in
      length-sort (sorts_after b show_port chosen) (filter (passes b show_port chosen) items)
      ∙ ap length (
          filter-ext (passes b show_port chosen) (has_status b show_port s) items
            (λ it. passes-status st s it h))
      ∙ sym (count_of-tiles s items)
