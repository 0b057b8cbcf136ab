-- ===== src/Inventory/Csv.antt =====
-- `exportCsv` of internal/server/web/static/inventory.js: what is on screen, as text.
pub mod Reader
pub mod Read
use certguard.Base.{
  ℕ, Bool, true, false, ◌||◌, Option, none, some, List, [], ◌∷◌, ◌++◌, map, any, if◌then◌else◌,
  ◌==◌,
}
use certguard.Base.Text.{Text, join, is_set}
use certguard.Inventory.Items.{Cert, Item, Browser, category_label, kind_label, target_of, state_of}

-- `/[",\n\r]/`
abbrev pub is_special : ℕ → Bool
is_special c = (c == 34) || ((c == 44) || ((c == 10) || (c == 13)))

-- `s.replace(/"/g, '""')`
unfoldable pub double : Text → Text
double [] = []
double (c ∷ cs) = let rest = double cs in if c == 34 then 34 ∷ 34 ∷ rest else c ∷ rest

unfoldable pub cell : Text → Text
unfolding double
cell s = if any is_special s then 34 ∷ double s ++ (34 ∷ []) else s

unfoldable pub row : List Text → Text
unfolding cell
row fields = join (44 ∷ []) (map cell fields)

abbrev pub head : List Text
head =
    (110 ∷ 97 ∷ 109 ∷ 101 ∷ [])
    ∷ (116 ∷ 121 ∷ 112 ∷ 101 ∷ [])
    ∷ (115 ∷ 111 ∷ 117 ∷ 114 ∷ 99 ∷ 101 ∷ [])
    ∷ (116 ∷ 97 ∷ 114 ∷ 103 ∷ 101 ∷ 116 ∷ [])
    ∷ (105 ∷ 115 ∷ 115 ∷ 117 ∷ 101 ∷ 114 ∷ [])
    ∷ (101 ∷ 120 ∷ 112 ∷ 105 ∷ 114 ∷ 101 ∷ 115 ∷ 95 ∷ 97 ∷ 116 ∷ [])
    ∷ (100 ∷ 97 ∷ 121 ∷ 115 ∷ 95 ∷ 114 ∷ 101 ∷ 109 ∷ 97 ∷ 105 ∷ 110 ∷ 105 ∷ 110 ∷ 103 ∷ [])
    ∷ (115 ∷ 116 ∷ 97 ∷ 116 ∷ 101 ∷ [])
    ∷ (108 ∷ 97 ∷ 115 ∷ 116 ∷ 95 ∷ 115 ∷ 99 ∷ 97 ∷ 110 ∷ 110 ∷ 101 ∷ 100 ∷ 95 ∷ 97 ∷ 116 ∷ [])
    ∷ (108 ∷ 97 ∷ 115 ∷ 116 ∷ 95 ∷ 101 ∷ 114 ∷ 114 ∷ 111 ∷ 114 ∷ [])
    ∷ (99 ∷ 111 ∷ 118 ∷ 101 ∷ 114 ∷ 101 ∷ 100 ∷ 95 ∷ 110 ∷ 97 ∷ 109 ∷ 101 ∷ 115 ∷ [])
    ∷ []

abbrev pub state_text : Option Bool → Text
state_text none = []
state_text (some false) = 112 ∷ 114 ∷ 111 ∷ 98 ∷ 108 ∷ 101 ∷ 109 ∷ []
state_text (some true) = 111 ∷ 107 ∷ []

-- `fmtDate`: a dash without a date
abbrev pub fmt_date : Browser → Text → Text
fmt_date b iso = if is_set iso then b.iso_day iso else 8212 ∷ []

unfoldable pub fields_of : Browser → (ℕ → Text) → Item → List Text
fields_of b show_port it =
    it.cert.name
    ∷ category_label it.cert.category
    ∷ kind_label it.cert.kind
    ∷ target_of show_port it.cert
    ∷ it.cert.issuer
    ∷ fmt_date b it.cert.expires_at
    ∷ b.show it.days_remaining
    ∷ state_text (state_of it.cert)
    ∷ (if is_set it.cert.last_scanned_at then fmt_date b it.cert.last_scanned_at else [])
    ∷ it.cert.last_error
    ∷ join (32 ∷ []) it.cert.dns_names
    ∷ []

-- The text behind the byte order mark: the head is joined as it is, the other rows by `cell`.
unfoldable pub table_text : Browser → (ℕ → Text) → List Item → Text
unfolding row fields_of
table_text b show_port items =
    join (13 ∷ 10 ∷ []) (join (44 ∷ []) head ∷ map (λ it. row (fields_of b show_port it)) items)
