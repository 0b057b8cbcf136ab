-- ===== src/Grid/Card.antt =====
-- Cards of the grid, as the DOM holds them: internal/server/web/static/widgets.js, from `widgets`
-- to `contentRows`. A dataset attribute that is absent, or that `parseInt` cannot read, is `none`.
pub mod Laws
use certguard.Base.{
  ℕ, zero, suc, ◌+◌, ◌-◌, ◌*◌, ◌/◌, min, max, String, Bool, true, false, not, ◌&&◌, Option, none,
  some, List, map, filter, find, str_eq, if◌then◌else◌, AllPairs, ◌≡◌,
}
use certguard.Grid.Rect.{Rect, RawRect, normalise, overlaps, cols, gap, row_pitch, min_h}

pub record Card : Type 0 where
  pub id : String
  pub title : String
  -- the digit of an inline `grid-column: span N`
  pub inline_span : Option ℕ
  pub span : Option ℕ
  pub col : Option ℕ
  pub row : Option ℕ
  pub w : Option ℕ
  pub h : Option ℕ
  -- the class `widget-off`
  pub off : Bool
  -- the height in pixels that the browser reports at `height: auto`
  pub natural_height : ℕ

abbrev pub get_or : Option ℕ → ℕ → ℕ
get_or none d = d
get_or (some n) d = n

-- The seeding loop that runs once when the grid is set up.
unfoldable pub seed : Card → Card
seed c = elim c.span [ none ↦ record c { span = some (get_or c.inline_span 4) } | some _ ↦ c ]

abbrev pub is_visible : Card → Bool
is_visible c = not c.off

abbrev pub visible : List Card → List Card
visible g = filter is_visible g

-- `parseInt(…) || 4`, where 0 is falsy
abbrev pub span_or_full : Option ℕ → ℕ
span_or_full none = 4
span_or_full (some zero) = 4
span_or_full (some (suc k)) = suc k

unfoldable pub span_of : Card → ℕ
span_of c = max 1 (min cols (span_or_full c.span))

unfoldable pub w_of : Card → ℕ
unfolding span_of
w_of c = max 1 (min cols (get_or c.w (span_of c)))

unfoldable pub col_of : Card → ℕ
unfolding w_of
col_of c = max 0 (min (cols - w_of c) (get_or c.col 0))

unfoldable pub row_of : Card → ℕ
row_of c = max 0 (get_or c.row 0)

unfoldable pub h_of : Card → ℕ
h_of c = max min_h (get_or c.h 12)

unfoldable pub rect_of : Card → Rect
unfolding w_of col_of row_of h_of
rect_of c = record { c = col_of c; r = row_of c; w = w_of c; h = h_of c }

abbrev pub is_some {ℓ} : {A : Type ℓ} → Option A → Bool
is_some none = false
is_some (some _) = true

abbrev pub is_placed : Card → Bool
is_placed c = is_some c.col && is_some c.row

unfoldable pub set_rect : Card → RawRect → Card
unfolding normalise
set_rect card a =
    let n = normalise a in
    record card { col = some n.c; row = some n.r; w = some n.w; h = some n.h; span = some n.w }

-- `Math.max(MIN_H, Math.floor((window.innerHeight * 0.78) / ROW))`
unfoldable pub max_auto_rows : ℕ → ℕ
max_auto_rows inner_height = max min_h (inner_height * 78 / (100 * row_pitch))

-- `capped` is `capped !== false`
unfoldable pub content_rows : ℕ → Card → Bool → ℕ
unfolding max_auto_rows
content_rows inner_height card capped =
    let want = (card.natural_height + gap + (row_pitch - 1)) / row_pitch in
    max min_h (if capped then min (max_auto_rows inner_height) want else want)

-- `document.getElementById`
abbrev pub by_id : String → List Card → Option Card
by_id id g = find (λ c. str_eq c.id id) g

-- A change of the card that has an id; the other cards are not touched.
abbrev pub update_card : String → (Card → Card) → List Card → List Card
update_card id f g = map (λ c. if str_eq c.id id then f c else c) g

-- `getElementById` finds one card: ids are unique in the document.
abbrev pub HasUniqueIds : List Card → Type 0
HasUniqueIds = AllPairs (λ c d. str_eq c.id d.id ≡ false)

-- No two cards of the list overlap.
abbrev pub IsSpread : List Card → Type 0
IsSpread = AllPairs (λ c d. overlaps (rect_of c) (rect_of d) ≡ false)
