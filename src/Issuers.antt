-- ===== src/Issuers.antt =====
-- internal/server/web/static/issuers.js: the entries grouped by whom they depend on.
pub mod Groups
mod Tests
use certguard.Base.{
  ℕ, suc, ◌+◌, Bool, true, false, not, ◌&&◌, ◌||◌, ◌==◌, Option, none, some, List, [], ◌∷◌, ◌++◌,
  any, filter, length, drop, if◌then◌else◌, ltb,
}
use certguard.Base.Int.{ℤ, pos, negsuc, leb_ℤ, ltb_ℤ}
use certguard.Base.Sort.{sort}
use certguard.Base.Text.{Text, same, starts, is_set}
use certguard.Inventory.Items.{Item, Cert, Browser, domain_kind}
use certguard.Inventory.Filter.{trim, trim_start}
use certguard.Dashboard.Found.{split}

-- 'O', 'CN' and 'Unknown'
abbrev pub organisation : Text
organisation = 79 ∷ []

abbrev pub common_name : Text
common_name = 67 ∷ 78 ∷ []

abbrev pub unknown : Text
unknown = 85 ∷ 110 ∷ 107 ∷ 110 ∷ 111 ∷ 119 ∷ 110 ∷ []

-- The value of the first part, between commas, that is the key, '=' and something.
abbrev pub value_in : Text → List Text → Text
value_in key [] = []
value_in key (part ∷ parts) =
    let rest = value_in key parts in
    let s = trim_start part in
    let value = drop (suc (length key)) s in
    if starts (key ++ (61 ∷ [])) s && is_set value then trim value else rest

unfoldable pub dn_part : Text → Text → Text
dn_part dn key = value_in key (split 44 dn)

-- `a || b`
abbrev pub or_text : Text → Text → Text
or_text a b = if is_set a then a else b

unfoldable pub issuer_group : Text → Text
unfolding dn_part
issuer_group dn =
    or_text (dn_part dn organisation) (or_text (dn_part dn common_name) (or_text dn unknown))

pub record Group : Type 0 where
  pub key : Text
  pub items : List Item
  pub subs : List Text

-- `subs.add(sub)`
abbrev pub add_sub : Text → Text → List Text → List Text
add_sub key sub subs =
    if is_set sub && (not (same sub key) && not (any (same sub) subs))
    then subs ++ (sub ∷ [])
    else subs

module _ (key_of sub_of : Cert → Text) where
  abbrev pub group_key : Item → Text
  group_key it = or_text (key_of it.cert) unknown

  unfoldable pub add_item : Item → List Group → List Group
  add_item it [] =
      record {
        key = group_key it;
        items = it ∷ [];
        subs = add_sub (group_key it) (sub_of it.cert) [];
      }
      ∷ []
  add_item it (g ∷ gs) =
      let rest = add_item it gs in
      if same g.key (group_key it)
      then record g { items = g.items ++ (it ∷ []); subs = add_sub g.key (sub_of it.cert) g.subs }
        ∷ gs
      else g ∷ rest

  unfoldable pub group_items : List Group → List Item → List Group
  unfolding add_item
  group_items gs [] = gs
  group_items gs (it ∷ items) = group_items (add_item it gs) items

-- The counts of a group; `next` is the least number of days that is not negative.
pub record Stats : Type 0 where
  pub expired : ℕ
  pub soon : ℕ
  pub problems : ℕ
  pub next : Option ℕ

abbrev pub sooner : ℤ → Option ℕ → Option ℕ
sooner (negsuc _) next = next
sooner (pos d) none = some d
sooner (pos d) (some n) = if ltb d n then some d else some n

abbrev pub count_item : Item → Stats → Stats
count_item it s = record {
  expired = if ltb_ℤ it.days_remaining (pos 0) then suc s.expired else s.expired;
  soon =
      if not (ltb_ℤ it.days_remaining (pos 0)) && leb_ℤ it.days_remaining (pos 30)
      then suc s.soon
      else s.soon;
  problems = if is_set it.cert.last_error then suc s.problems else s.problems;
  next = sooner it.days_remaining s.next;
}

unfoldable pub stats_from : Stats → List Item → Stats
stats_from s [] = s
stats_from s (it ∷ items) = stats_from (count_item it s) items

unfoldable pub stats : Group → Stats
unfolding stats_from
stats g = stats_from (record { expired = 0; soon = 0; problems = 0; next = none }) g.items

-- The comparator is positive: `b.count - a.count || a.key.localeCompare(b.key)`
unfoldable pub smaller : Browser → Group → Group → Bool
smaller b x y =
    ltb (length x.items) (length y.items)
    || ((length x.items == length y.items) && b.locale_after x.key y.key)

unfoldable pub summarise : Browser → (Cert → Text) → (Cert → Text) → List Item → List Group
unfolding group_items smaller
summarise b key_of sub_of items = sort (smaller b) (group_items key_of sub_of [] items)

-- The two lists of `render`.
unfoldable pub certificates : List Item → List Item
certificates items =
    filter (λ (it : Item). not (same it.cert.kind domain_kind) && is_set it.cert.issuer) items

unfoldable pub domains : List Item → List Item
domains items = filter (λ (it : Item). same it.cert.kind domain_kind && is_set it.cert.issuer) items

unfoldable pub certificate_groups : Browser → List Item → List Group
unfolding summarise issuer_group certificates
certificate_groups b items =
    summarise b (λ c. issuer_group c.issuer) (λ c. dn_part c.issuer common_name)
      (certificates items)

unfoldable pub domain_groups : Browser → List Item → List Group
unfolding summarise domains
domain_groups b items = summarise b (λ c. c.issuer) (λ c. []) (domains items)
