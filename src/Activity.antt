-- ===== src/Activity.antt =====
-- internal/server/web/static/activity.js: the log with its filter, its tiles and its days. The pill
-- classes and the icons of `KINDS` are left out.
pub mod Feed
pub mod Tiles
mod Tests
use certguard.Base.{
  ℕ, suc, ◌+◌, Bool, true, false, not, ◌&&◌, ◌||◌, ◌==◌, Option, none, some, List, [], ◌∷◌, any,
  filter, find, map, length, if◌then◌else◌,
}
use certguard.Base.Text.{Text, same, includes, is_set}
use certguard.Inventory.Items.{Browser}
use certguard.Inventory.Filter.{trim}

pub record Event : Type 0 where
  pub kind : Text
  pub cert_name : Text
  pub actor : Text
  pub detail : Text
  pub at : Text

-- `state`
pub record State : Type 0 where
  pub q : Text
  pub kind : Text

-- `KINDS`: 'Everything', 'Added', 'Edited', 'Removed', 'Renewed', 'Check failed', and so on.
abbrev pub kinds : List (Text × Text)
kinds =
    ([], 69 ∷ 118 ∷ 101 ∷ 114 ∷ 121 ∷ 116 ∷ 104 ∷ 105 ∷ 110 ∷ 103 ∷ [])
    ∷ (97 ∷ 100 ∷ 100 ∷ 101 ∷ 100 ∷ [], 65 ∷ 100 ∷ 100 ∷ 101 ∷ 100 ∷ [])
    ∷ (117 ∷ 112 ∷ 100 ∷ 97 ∷ 116 ∷ 101 ∷ 100 ∷ [], 69 ∷ 100 ∷ 105 ∷ 116 ∷ 101 ∷ 100 ∷ [])
    ∷ (100 ∷ 101 ∷ 108 ∷ 101 ∷ 116 ∷ 101 ∷ 100 ∷ [], 82 ∷ 101 ∷ 109 ∷ 111 ∷ 118 ∷ 101 ∷ 100 ∷ [])
    ∷ (114 ∷ 101 ∷ 110 ∷ 101 ∷ 119 ∷ 101 ∷ 100 ∷ [], 82 ∷ 101 ∷ 110 ∷ 101 ∷ 119 ∷ 101 ∷ 100 ∷ [])
    ∷ (
      115 ∷ 99 ∷ 97 ∷ 110 ∷ 95 ∷ 102 ∷ 97 ∷ 105 ∷ 108 ∷ 101 ∷ 100 ∷ [],
      67 ∷ 104 ∷ 101 ∷ 99 ∷ 107 ∷ 32 ∷ 102 ∷ 97 ∷ 105 ∷ 108 ∷ 101 ∷ 100 ∷ [],
    )
    ∷ (
      115 ∷ 99 ∷ 97 ∷ 110 ∷ 95 ∷ 114 ∷ 101 ∷ 99 ∷ 111 ∷ 118 ∷ 101 ∷ 114 ∷ 101 ∷ 100 ∷ [],
      82 ∷ 101 ∷ 99 ∷ 111 ∷ 118 ∷ 101 ∷ 114 ∷ 101 ∷ 100 ∷ [],
    )
    ∷ (
      99 ∷ 111 ∷ 118 ∷ 101 ∷ 114 ∷ 97 ∷ 103 ∷ 101 ∷ 95 ∷ 98 ∷ 114 ∷ 111 ∷ 107 ∷ 101 ∷ 110 ∷ [],
      67 ∷ 111 ∷ 118 ∷ 101 ∷ 114 ∷ 97 ∷ 103 ∷ 101 ∷ 32 ∷ 98 ∷ 114 ∷ 111 ∷ 107 ∷ 101 ∷ [],
    )
    ∷ (
      99 ∷ 104 ∷ 97 ∷ 105 ∷ 110 ∷ 95 ∷ 101 ∷ 120 ∷ 112 ∷ 105 ∷ 114 ∷ 105 ∷ 110 ∷ 103 ∷ [],
      67 ∷ 104 ∷ 97 ∷ 105 ∷ 110 ∷ 32 ∷ 101 ∷ 120 ∷ 112 ∷ 105 ∷ 114 ∷ 105 ∷ 110 ∷ 103 ∷ [],
    )
    ∷ (
      107 ∷ 101 ∷ 121 ∷ 95 ∷ 97 ∷ 100 ∷ 100 ∷ 101 ∷ 100 ∷ [],
      75 ∷ 101 ∷ 121 ∷ 32 ∷ 114 ∷ 101 ∷ 103 ∷ 105 ∷ 115 ∷ 116 ∷ 101 ∷ 114 ∷ 101 ∷ 100 ∷ [],
    )
    ∷ (
      107 ∷ 101 ∷ 121 ∷ 95 ∷ 114 ∷ 101 ∷ 109 ∷ 111 ∷ 118 ∷ 101 ∷ 100 ∷ [],
      75 ∷ 101 ∷ 121 ∷ 32 ∷ 114 ∷ 101 ∷ 109 ∷ 111 ∷ 118 ∷ 101 ∷ 100 ∷ [],
    )
    ∷ (
      107 ∷ 101 ∷ 121 ∷ 95 ∷ 99 ∷ 108 ∷ 111 ∷ 110 ∷ 101 ∷ 95 ∷ 119 ∷ 97 ∷ 114 ∷ 110 ∷ 105 ∷ 110
          ∷ 103 ∷ [],
      75 ∷ 101 ∷ 121 ∷ 32 ∷ 119 ∷ 97 ∷ 114 ∷ 110 ∷ 105 ∷ 110 ∷ 103 ∷ [],
    )
    ∷ (
      110 ∷ 111 ∷ 116 ∷ 105 ∷ 102 ∷ 105 ∷ 101 ∷ 100 ∷ [],
      65 ∷ 108 ∷ 101 ∷ 114 ∷ 116 ∷ 101 ∷ 100 ∷ [],
    )
    ∷ []

abbrev label_in : Text → Option (Text × Text) → Text
label_in k none = k
label_in k (some (_, label)) = label

-- `meta(k)[1]`
unfoldable pub label_of : Text → Text
label_of k = label_in k (find (λ x. same x.0 k) kinds)

module _ (b : Browser) where
  unfoldable pub shows : State → Event → Bool
  unfolding label_of
  shows st e =
      let q = b.lower (trim st.q) in
      if is_set st.kind && not (same e.kind st.kind)
      then false
      else if not (is_set q)
      then true
      else any (λ f. includes (b.lower f) q)
          (e.cert_name ∷ e.actor ∷ e.detail ∷ label_of e.kind ∷ [])

  unfoldable pub visible : State → List Event → List Event
  unfolding shows
  visible st events = filter (shows st) events

-- `counts[key] || 0`: the entry of '' starts at the number of all events.
unfoldable pub count_from : ℕ → Text → List Event → ℕ
count_from n key [] = n
count_from n key (e ∷ es) = count_from (if same e.kind key then suc n else n) key es

unfoldable pub count_of : Text → List Event → ℕ
unfolding count_from
count_of key events = count_from (if is_set key then 0 else length events) key events

-- A click on a tile, and the reset.
unfoldable pub click_tile : Text → State → State
click_tile key st = record st { kind = if same st.kind key then [] else key }

unfoldable pub reset : State → State
reset st = record { q = []; kind = [] }

-- The days are compared as the browser writes them, with `today` and `yesterday`.
pub data Day : Type 0 where
  today_label : Day
  yesterday_label : Day
  on : Text → Day

abbrev pub same_label : Day → Day → Bool
same_label today_label today_label = true
same_label yesterday_label yesterday_label = true
same_label (on s) (on t) = same s t
same_label _ _ = false

pub data Line : Type 0 where
  header : Day → Line
  row : Event → Line

module _ (b : Browser) (today yesterday : Text) where
  unfoldable pub day_label : Text → Day
  day_label iso =
      if same (b.iso_day iso) today
      then today_label
      else if same (b.iso_day iso) yesterday
      then yesterday_label
      else on (b.iso_day iso)

  abbrev pub is_last : Day → Option Day → Bool
  is_last d none = false
  is_last d (some l) = same_label d l

  -- `last` is `lastDay`.
  unfoldable pub feed_from : Option Day → List Event → List Line
  unfolding day_label
  feed_from last [] = []
  feed_from last (e ∷ es) =
      let d = day_label e.at in
      let rest = feed_from (some d) es in
      if is_last d last then row e ∷ feed_from last es else header d ∷ row e ∷ rest

  unfoldable pub feed : State → List Event → List Line
  unfolding feed_from
  feed st events = feed_from none (visible b st events)
