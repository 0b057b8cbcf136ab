-- ===== src/Coverage.antt =====
-- internal/server/web/static/coverage.js: every covered name of every certificate.
pub mod Checks
pub mod Groups
mod Tests
use certguard.Base.{
  ℕ, suc, min, Bool, true, false, not, ◌&&◌, ◌||◌, List, [], ◌∷◌, ◌++◌, map, filter, ◌==◌, ltb,
  if◌then◌else◌,
}
use certguard.Base.Sort.{sort}
use certguard.Base.Text.{Text, same, includes, is_set}
use certguard.Inventory.Items.{Cert, Item, Covered, Browser, domain_kind, unreachable}
use certguard.Inventory.Filter.{trim}

-- 'unchecked'
abbrev pub unchecked : Text
unchecked = 117 ∷ 110 ∷ 99 ∷ 104 ∷ 101 ∷ 99 ∷ 107 ∷ 101 ∷ 100 ∷ []

-- 'different'
abbrev pub different : Text
different = 100 ∷ 105 ∷ 102 ∷ 102 ∷ 101 ∷ 114 ∷ 101 ∷ 110 ∷ 116 ∷ []

-- 'wildcard'
abbrev pub wildcard : Text
wildcard = 119 ∷ 105 ∷ 108 ∷ 100 ∷ 99 ∷ 97 ∷ 114 ∷ 100 ∷ []

-- 'match'
abbrev pub match_verdict : Text
match_verdict = 109 ∷ 97 ∷ 116 ∷ 99 ∷ 104 ∷ []

-- 'all'
abbrev pub all_names : Text
all_names = 97 ∷ 108 ∷ 108 ∷ []

pub record Row : Type 0 where
  pub item : Item
  pub name : Text
  pub status : Text
  pub detail : Text
  pub subject : Text

abbrev pub is_cert_like : Cert → Bool
is_cert_like c = not (same c.kind domain_kind)

-- A certificate without a coverage record gets a row for each name, unchecked.
abbrev pub cover : Item → List Covered → List Row
cover it [] =
    map (λ n. record { item = it; name = n; status = unchecked; detail = []; subject = [] })
      it.cert.dns_names
cover it (n ∷ ns) =
    map
      (λ (k : Covered). record {
        item = it;
        name = k.name;
        status = k.status;
        detail = k.detail;
        subject = k.subject;
      })
      (n ∷ ns)

abbrev pub has_names : List Text → Bool
has_names [] = false
has_names (_ ∷ _) = true

unfoldable pub rows_of : Item → List Row
rows_of it =
    if is_cert_like it.cert && has_names it.cert.dns_names then cover it it.cert.coverage else []

unfoldable pub rows : List Item → List Row
unfolding rows_of
rows [] = []
rows (it ∷ items) = rows_of it ++ rows items

-- `state`
pub record State : Type 0 where
  pub q : Text
  pub status : Text

unfoldable pub shows : Browser → State → Row → Bool
shows b st r =
    let q = b.lower (trim st.q) in
    if not (same st.status all_names) && not (same r.status st.status)
    then false
    else if not (is_set q)
    then true
    else includes (b.lower r.name) q
      || (includes (b.lower r.item.cert.name) q || includes (b.lower r.subject) q)

unfoldable pub visible : Browser → State → List Row → List Row
unfolding shows
visible b st all = filter (shows b st) all

pub record Group : Type 0 where
  pub id : ℕ
  pub item : Item
  pub names : List Row

-- `if (!groups.has(…)) groups.set(…)`, and the `push`; a map keeps the order of its first entries.
unfoldable pub add_row : Row → List Group → List Group
add_row r [] = record { id = r.item.cert.id; item = r.item; names = r ∷ [] } ∷ []
add_row r (g ∷ gs) =
    let rest = add_row r gs in
    if g.id == r.item.cert.id then record g { names = g.names ++ (r ∷ []) } ∷ gs else g ∷ rest

unfoldable pub group_from : List Group → List Row → List Group
unfolding add_row
group_from gs [] = gs
group_from gs (r ∷ rs) = group_from (add_row r gs) rs

-- `rank[n.status] ?? 9`
unfoldable pub rank : Text → ℕ
rank s =
    if same s unreachable
    then 0
    else if same s unchecked
    then 1
    else if same s different
    then 2
    else if same s wildcard
    then 3
    else if same s match_verdict
    then 4
    else 9

-- `Math.min(…)` of the ranks; no group is empty, so no row at all stands for a rank above all.
unfoldable pub worst : List Row → ℕ
unfolding rank
worst [] = 10
worst (r ∷ rs) = min (rank r.status) (worst rs)

-- The comparator is positive.
unfoldable pub ranks_after : Browser → Group → Group → Bool
unfolding worst
ranks_after b x y =
    ltb (worst y.names) (worst x.names)
    || (worst x.names == worst y.names && b.locale_after x.item.cert.name y.item.cert.name)

unfoldable pub ordered : Browser → State → List Item → List Group
unfolding rows visible group_from ranks_after
ordered b st items = sort (ranks_after b) (group_from [] (visible b st (rows items)))
