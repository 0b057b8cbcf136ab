-- ===== src/Inventory/Items.antt =====
-- The vocabulary of internal/server/web/static/common.js and internal/server/web/static/inventory.js:
-- categories, kinds, what an entry points at and what is wrong with it.
use certguard.Base.{
  ℕ, zero, suc, Bool, true, false, ◌||◌, Option, none, some, List, [], ◌∷◌, ◌++◌, map, filter,
  length, find, if◌then◌else◌, ltb,
}
use certguard.Base.Int.{ℤ}
use certguard.Base.Text.{Text, same, is_set}

-- A name that a certificate covers, with the verdict of the last check.
pub record Covered : Type 0 where
  pub name : Text
  pub status : Text
  pub detail : Text
  pub subject : Text

-- An absent text is the empty one, and an absent list or port is empty or 0.
pub record Cert : Type 0 where
  pub id : ℕ
  pub name : Text
  pub category : Text
  pub kind : Text
  pub host : Text
  pub port : ℕ
  pub issuer : Text
  pub subject : Text
  pub notes : Text
  pub dns_names : List Text
  pub has_secret : Bool
  pub last_error : Text
  pub coverage : List Covered
  pub expires_at : Text
  pub last_scanned_at : Text

pub record Item : Type 0 where
  pub cert : Cert
  pub days_remaining : ℤ

-- What the page takes from the browser: `toLowerCase`, whether `a.localeCompare(b)` is positive,
-- `new Date(s).getTime()` with `none` for NaN, the day of a date as `toISOString().slice(0, 10)`,
-- and `String(n)`.
pub record Browser : Type 0 where
  pub lower : Text → Text
  pub locale_after : Text → Text → Bool
  pub time : Text → Option ℤ
  pub iso_day : Text → Text
  pub show : ℤ → Text

-- 'endpoint'
abbrev pub endpoint_kind : Text
endpoint_kind = 101 ∷ 110 ∷ 100 ∷ 112 ∷ 111 ∷ 105 ∷ 110 ∷ 116 ∷ []

-- 'domain'
abbrev pub domain_kind : Text
domain_kind = 100 ∷ 111 ∷ 109 ∷ 97 ∷ 105 ∷ 110 ∷ []

-- 'file'
abbrev pub file_kind : Text
file_kind = 102 ∷ 105 ∷ 108 ∷ 101 ∷ []

-- 'manual'
abbrev pub manual_kind : Text
manual_kind = 109 ∷ 97 ∷ 110 ∷ 117 ∷ 97 ∷ 108 ∷ []

-- 'unreachable'
abbrev pub unreachable : Text
unreachable = 117 ∷ 110 ∷ 114 ∷ 101 ∷ 97 ∷ 99 ∷ 104 ∷ 97 ∷ 98 ∷ 108 ∷ 101 ∷ []

-- `CATEGORIES`, without the colours
abbrev pub categories : List (Text × Text)
categories =
    (
      99 ∷ 101 ∷ 114 ∷ 116 ∷ 105 ∷ 102 ∷ 105 ∷ 99 ∷ 97 ∷ 116 ∷ 101 ∷ [],
      67 ∷ 101 ∷ 114 ∷ 116 ∷ 105 ∷ 102 ∷ 105 ∷ 99 ∷ 97 ∷ 116 ∷ 101 ∷ [],
    )
    ∷ (97 ∷ 112 ∷ 105 ∷ 45 ∷ 107 ∷ 101 ∷ 121 ∷ [], 65 ∷ 80 ∷ 73 ∷ 32 ∷ 107 ∷ 101 ∷ 121 ∷ [])
    ∷ (
      115 ∷ 117 ∷ 98 ∷ 115 ∷ 99 ∷ 114 ∷ 105 ∷ 112 ∷ 116 ∷ 105 ∷ 111 ∷ 110 ∷ [],
      83 ∷ 117 ∷ 98 ∷ 115 ∷ 99 ∷ 114 ∷ 105 ∷ 112 ∷ 116 ∷ 105 ∷ 111 ∷ 110 ∷ [],
    )
    ∷ (100 ∷ 111 ∷ 109 ∷ 97 ∷ 105 ∷ 110 ∷ [], 68 ∷ 111 ∷ 109 ∷ 97 ∷ 105 ∷ 110 ∷ [])
    ∷ (
      115 ∷ 101 ∷ 114 ∷ 118 ∷ 105 ∷ 99 ∷ 101 ∷ [],
      83 ∷ 101 ∷ 114 ∷ 118 ∷ 105 ∷ 99 ∷ 101 ∷ 47 ∷ 67 ∷ 111 ∷ 110 ∷ 116 ∷ 114 ∷ 97 ∷ 99 ∷ 116 ∷ [],
    )
    ∷ (111 ∷ 116 ∷ 104 ∷ 101 ∷ 114 ∷ [], 79 ∷ 116 ∷ 104 ∷ 101 ∷ 114 ∷ [])
    ∷ []

abbrev label_or : Text → Option (Text × Text) → Text
label_or v none = v
label_or v (some (_, label)) = label

unfoldable pub category_label : Text → Text
category_label v = label_or v (find (λ c. same c.0 v) categories)

abbrev pub kind_labels : List (Text × Text)
kind_labels =
    (
      101 ∷ 110 ∷ 100 ∷ 112 ∷ 111 ∷ 105 ∷ 110 ∷ 116 ∷ [],
      69 ∷ 110 ∷ 100 ∷ 112 ∷ 111 ∷ 105 ∷ 110 ∷ 116 ∷ [],
    )
    ∷ (100 ∷ 111 ∷ 109 ∷ 97 ∷ 105 ∷ 110 ∷ [], 68 ∷ 111 ∷ 109 ∷ 97 ∷ 105 ∷ 110 ∷ [])
    ∷ (102 ∷ 105 ∷ 108 ∷ 101 ∷ [], 70 ∷ 105 ∷ 108 ∷ 101 ∷ [])
    ∷ (109 ∷ 97 ∷ 110 ∷ 117 ∷ 97 ∷ 108 ∷ [], 77 ∷ 97 ∷ 110 ∷ 117 ∷ 97 ∷ 108 ∷ [])
    ∷ []

unfoldable pub kind_label : Text → Text
kind_label k = label_or k (find (λ c. same c.0 k) kind_labels)

-- What is wrong, and with which name.
pub record Problem : Type 0 where
  pub what : Text
  pub why : Text

abbrev or_else : Text → Text → Text
or_else [] d = d
or_else (x ∷ xs) d = x ∷ xs

abbrev pub is_unreachable : Covered → Bool
is_unreachable n = same n.status unreachable

unfoldable pub problems_of : Cert → List Problem
problems_of c =
    let dead =
      map (λ (n : Covered). record { what = n.name; why = or_else n.detail unreachable })
        (filter is_unreachable c.coverage) in
    if is_set c.last_error then record { what = c.name; why = c.last_error } ∷ dead else dead

unfoldable pub has_problem : Cert → Bool
unfolding problems_of
has_problem c = ltb 0 (length (problems_of c))

-- `show_port` writes a port in decimal.
unfoldable pub target_of : (ℕ → Text) → Cert → Text
target_of show_port c =
    if same c.kind domain_kind
    then c.host
    else if is_set c.host
    then (elim c.port [ zero ↦ c.host | suc n ↦ c.host ++ (58 ∷ show_port (suc n)) ])
    else []

-- `kind === 'endpoint' || host`: only what has been connected to can be fine.
abbrev pub is_checked : Cert → Bool
is_checked c = same c.kind endpoint_kind || is_set c.host

-- What the state column and the exported table say: `none` for neither.
unfoldable pub state_of : Cert → Option Bool
unfolding has_problem
state_of c = if has_problem c then some false else if is_checked c then some true else none
