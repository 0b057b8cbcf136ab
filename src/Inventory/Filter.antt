-- ===== src/Inventory/Filter.antt =====
-- The filters, the sort and the tiles of internal/server/web/static/inventory.js.
pub mod Tiles
pub mod Clicks
pub mod Order
use certguard.Base.{
  ℕ, suc, ◌≤◌, ◌==◌, Bool, true, false, not, ◌&&◌, ◌||◌, Option, none, some, List, [], ◌∷◌, ◌++◌,
  filter, any, length, if◌then◌else◌, leb,
}
use certguard.Base.Int.{ℤ, pos, ltb_ℤ}
use certguard.Base.Sort.{sort}
use certguard.Base.Text.{Text, same, before, includes, is_set}
use certguard.Common.Expiry.{Level, urgent, warn, notice, ok, Bucket, expired, within, bucket}
use certguard.Inventory.Items.{
  Cert, Item, Browser, category_label, kind_label, has_problem, target_of, is_checked,
}

-- `state.status`
pub data Status : Type 0 where
  all : Status
  in_bucket : Bucket → Status
  problems : Status

-- `th.dataset.sort`
pub data SortKey : Type 0 where
  by_name : SortKey
  by_category : SortKey
  by_kind : SortKey
  by_target : SortKey
  by_issuer : SortKey
  by_expires : SortKey
  by_remaining : SortKey
  by_state : SortKey
  by_checked : SortKey

-- `dir` is 1 or -1.
pub record State : Type 0 where
  pub q : Text
  pub category : Text
  pub kind : Text
  pub status : Status
  pub secrets_only : Bool
  pub sort : SortKey
  pub descending : Bool

abbrev pub initial : State
initial = record {
  q = [];
  category = [];
  kind = [];
  status = all;
  secrets_only = false;
  sort = by_remaining;
  descending = false;
}

abbrev pub same_level : Level → Level → Bool
same_level urgent urgent = true
same_level warn warn = true
same_level notice notice = true
same_level ok ok = true
same_level _ _ = false

abbrev pub same_bucket : Bucket → Bucket → Bool
same_bucket expired expired = true
same_bucket (within a) (within b) = same_level a b
same_bucket _ _ = false

abbrev pub same_status : Status → Status → Bool
same_status all all = true
same_status problems problems = true
same_status (in_bucket a) (in_bucket b) = same_bucket a b
same_status _ _ = false

abbrev pub same_key : SortKey → SortKey → Bool
same_key by_name by_name = true
same_key by_category by_category = true
same_key by_kind by_kind = true
same_key by_target by_target = true
same_key by_issuer by_issuer = true
same_key by_expires by_expires = true
same_key by_remaining by_remaining = true
same_key by_state by_state = true
same_key by_checked by_checked = true
same_key _ _ = false

-- What `sortValue` returns; `nan` is `NaN`.
pub data Value : Type 0 where
  number : ℤ → Value
  nan : Value
  text : Text → Value

-- `a < b` of two values of one column
abbrev pub less : Value → Value → Bool
less (number a) (number b) = ltb_ℤ a b
less (text s) (text t) = before s t
less _ _ = false

-- White space and line ends, which `trim` takes off both ends.
abbrev pub is_space : ℕ → Bool
is_space c =
    (leb 9 c && leb c 13)
    || ((c == 32)
        || ((c == 160)
            || ((c == 5760)
                || ((leb 8192 c && leb c 8202)
                    || ((c == 8232)
                        || ((c == 8233)
                            || ((c == 8239)
                                || ((c == 8287) || ((c == 12288) || (c == 65279))))))))))

abbrev pub trim_start : Text → Text
trim_start [] = []
trim_start (c ∷ cs) = let rest = trim_start cs in if is_space c then rest else c ∷ cs

-- A space at the end is one with nothing but space behind it.
abbrev pub trim_end : Text → Text
trim_end [] = []
trim_end (c ∷ cs) =
    let rest = trim_end cs in if is_space c && not (is_set rest) then [] else c ∷ rest

abbrev pub trim : Text → Text
trim s = trim_end (trim_start s)

abbrev pub or_zero : Option ℤ → ℤ
or_zero none = pos 0
or_zero (some n) = n

abbrev pub or_nan : Option ℤ → Value
or_nan none = nan
or_nan (some n) = number n

module _ (b : Browser) (show_port : ℕ → Text) where
  unfoldable pub sort_value : Item → SortKey → Value
  sort_value it by_name = text (b.lower it.cert.name)
  sort_value it by_category = text (b.lower (category_label it.cert.category))
  sort_value it by_kind = text (b.lower (kind_label it.cert.kind))
  sort_value it by_target = text (b.lower (target_of show_port it.cert))
  sort_value it by_issuer = text (b.lower it.cert.issuer)
  sort_value it by_expires = number (or_zero (b.time it.cert.expires_at))
  sort_value it by_remaining = number it.days_remaining
  sort_value it by_state =
      number (if has_problem it.cert then pos 0 else if is_checked it.cert then pos 1 else pos 2)
  sort_value it by_checked =
      if is_set it.cert.last_scanned_at
      then or_nan (b.time it.cert.last_scanned_at)
      else number (pos 0)

  -- The comparator is positive.
  unfoldable pub sorts_after : State → Item → Item → Bool
  sorts_after st x y =
      let xv = sort_value x st.sort in
      let yv = sort_value y st.sort in
      if less xv yv
      then st.descending
      else if less yv xv
      then not st.descending
      else b.locale_after x.cert.name y.cert.name

  -- `state.status === 'problems'`, and `state.status !== 'all' && bucket(…) !== state.status`
  unfoldable pub has_status : Status → Item → Bool
  has_status all it = true
  has_status problems it = has_problem it.cert
  has_status (in_bucket k) it = same_bucket (bucket it.days_remaining) k

  -- `[…].some((f) => (f || '').toLowerCase().includes(q))`
  unfoldable pub mentions : Text → Cert → Bool
  mentions q c =
      any (λ f. includes (b.lower f) q)
        (c.name
          ∷ c.host
          ∷ c.issuer
          ∷ c.subject
          ∷ c.notes
          ∷ category_label c.category
          ∷ kind_label c.kind
          ∷ c.dns_names)

  unfoldable pub passes : State → Item → Bool
  passes st it =
      let q = b.lower (trim st.q) in
      if is_set st.category && not (same it.cert.category st.category)
      then false
      else if is_set st.kind && not (same it.cert.kind st.kind)
      then false
      else if st.secrets_only && not it.cert.has_secret
      then false
      else if not (has_status st.status it)
      then false
      else if not (is_set q)
      then true
      else mentions q it.cert

  unfoldable pub visible_items : State → List Item → List Item
  unfolding passes sorts_after
  visible_items st items = sort (sorts_after st) (filter (passes st) items)

-- The listeners.
unfoldable pub click_tile : Status → State → State
click_tile s st = record st { status = if same_status st.status s then all else s }

unfoldable pub click_header : SortKey → State → State
click_header k st =
    if same_key st.sort k
    then record st { descending = not st.descending }
    else record st { sort = k; descending = false }

unfoldable pub reset : State → State
reset st = record st { q = []; category = []; kind = []; status = all; secrets_only = false }

-- `state.q || state.category || …`: whether the reset button is offered.
unfoldable pub is_filtered : State → Bool
is_filtered st =
    is_set st.q
    || (is_set st.category
        || (is_set st.kind || (st.secrets_only || not (same_status st.status all))))
