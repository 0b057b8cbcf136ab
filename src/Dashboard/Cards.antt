-- ===== src/Dashboard/Cards.antt =====
-- The labels of errors and the card of problems in internal/server/web/static/dashboard.js.
pub mod Short
pub mod Problems
mod Tests
use certguard.Base.{
  ℕ, zero, suc, ◌+◌, ◌-◌, ◌*◌, ◌/◌, ◌%◌, Bool, true, false, not, ◌&&◌, ◌||◌, ◌==◌, Option, none,
  some, List, [], ◌∷◌, ◌++◌, map, filter, any, find, take, length, if◌then◌else◌, leb, ltb,
}
use certguard.Base.Int.{ℤ, pos, negsuc, ◌+ℤ◌, ◌-ℤ◌, leb_ℤ, ltb_ℤ}
use certguard.Base.Sort.{sort}
use certguard.Base.Text.{Text, same, includes, is_set}
use certguard.Inventory.Items.{
  Item, Cert, Covered, Browser, is_unreachable, unreachable, is_checked,
}
use certguard.Inventory.Filter.{trim, is_space}
use certguard.Dashboard.Found.{split}

-- 'no such host'
abbrev pub no_such_host : Text
no_such_host = 110 ∷ 111 ∷ 32 ∷ 115 ∷ 117 ∷ 99 ∷ 104 ∷ 32 ∷ 104 ∷ 111 ∷ 115 ∷ 116 ∷ []

-- 'server misbehaving'
abbrev pub server_misbehaving : Text
server_misbehaving =
    115 ∷ 101 ∷ 114 ∷ 118 ∷ 101 ∷ 114 ∷ 32 ∷ 109 ∷ 105 ∷ 115 ∷ 98 ∷ 101 ∷ 104 ∷ 97 ∷ 118 ∷ 105 ∷ 110
    ∷ 103 ∷ []

-- 'dns'
abbrev pub dns : Text
dns = 100 ∷ 110 ∷ 115 ∷ []

-- 'connection refused'
abbrev pub connection_refused : Text
connection_refused =
    99 ∷ 111 ∷ 110 ∷ 110 ∷ 101 ∷ 99 ∷ 116 ∷ 105 ∷ 111 ∷ 110 ∷ 32 ∷ 114 ∷ 101 ∷ 102 ∷ 117 ∷ 115 ∷ 101
    ∷ 100 ∷ []

-- 'i/o timeout'
abbrev pub io_timeout : Text
io_timeout = 105 ∷ 47 ∷ 111 ∷ 32 ∷ 116 ∷ 105 ∷ 109 ∷ 101 ∷ 111 ∷ 117 ∷ 116 ∷ []

-- 'deadline exceeded'
abbrev pub deadline_exceeded : Text
deadline_exceeded =
    100 ∷ 101 ∷ 97 ∷ 100 ∷ 108 ∷ 105 ∷ 110 ∷ 101 ∷ 32 ∷ 101 ∷ 120 ∷ 99 ∷ 101 ∷ 101 ∷ 100 ∷ 101 ∷ 100
    ∷ []

-- 'connection reset'
abbrev pub connection_reset : Text
connection_reset =
    99 ∷ 111 ∷ 110 ∷ 110 ∷ 101 ∷ 99 ∷ 116 ∷ 105 ∷ 111 ∷ 110 ∷ 32 ∷ 114 ∷ 101 ∷ 115 ∷ 101 ∷ 116 ∷ []

-- 'no route to host'
abbrev pub no_route_to_host : Text
no_route_to_host =
    110 ∷ 111 ∷ 32 ∷ 114 ∷ 111 ∷ 117 ∷ 116 ∷ 101 ∷ 32 ∷ 116 ∷ 111 ∷ 32 ∷ 104 ∷ 111 ∷ 115 ∷ 116 ∷ []

-- 'network is unreachable'
abbrev pub network_is_unreachable : Text
network_is_unreachable =
    110 ∷ 101 ∷ 116 ∷ 119 ∷ 111 ∷ 114 ∷ 107 ∷ 32 ∷ 105 ∷ 115 ∷ 32 ∷ 117 ∷ 110 ∷ 114 ∷ 101 ∷ 97 ∷ 99
    ∷ 104 ∷ 97 ∷ 98 ∷ 108 ∷ 101 ∷ []

-- 'certificate'
abbrev pub certificate_word : Text
certificate_word = 99 ∷ 101 ∷ 114 ∷ 116 ∷ 105 ∷ 102 ∷ 105 ∷ 99 ∷ 97 ∷ 116 ∷ 101 ∷ []

-- 'x509'
abbrev pub x509 : Text
x509 = 120 ∷ 53 ∷ 48 ∷ 57 ∷ []

-- 'timeout'
abbrev pub timeout : Text
timeout = 116 ∷ 105 ∷ 109 ∷ 101 ∷ 111 ∷ 117 ∷ 116 ∷ []

-- 'timedout'
abbrev pub timedout : Text
timedout = 116 ∷ 105 ∷ 109 ∷ 101 ∷ 100 ∷ 111 ∷ 117 ∷ 116 ∷ []

-- 'time out'
abbrev pub time_out : Text
time_out = 116 ∷ 105 ∷ 109 ∷ 101 ∷ 32 ∷ 111 ∷ 117 ∷ 116 ∷ []

-- 'timed out'
abbrev pub timed_out : Text
timed_out = 116 ∷ 105 ∷ 109 ∷ 101 ∷ 100 ∷ 32 ∷ 111 ∷ 117 ∷ 116 ∷ []

-- 'no DNS'
abbrev pub no_dns_label : Text
no_dns_label = 110 ∷ 111 ∷ 32 ∷ 68 ∷ 78 ∷ 83 ∷ []

-- 'refused'
abbrev pub refused_label : Text
refused_label = 114 ∷ 101 ∷ 102 ∷ 117 ∷ 115 ∷ 101 ∷ 100 ∷ []

-- 'timed out'
abbrev pub timed_out_label : Text
timed_out_label = 116 ∷ 105 ∷ 109 ∷ 101 ∷ 100 ∷ 32 ∷ 111 ∷ 117 ∷ 116 ∷ []

-- 'reset'
abbrev pub reset_label : Text
reset_label = 114 ∷ 101 ∷ 115 ∷ 101 ∷ 116 ∷ []

-- 'no route'
abbrev pub no_route_label : Text
no_route_label = 110 ∷ 111 ∷ 32 ∷ 114 ∷ 111 ∷ 117 ∷ 116 ∷ 101 ∷ []

-- 'untrusted'
abbrev pub untrusted_label : Text
untrusted_label = 117 ∷ 110 ∷ 116 ∷ 114 ∷ 117 ∷ 115 ∷ 116 ∷ 101 ∷ 100 ∷ []

-- 'failed'
abbrev pub failed_label : Text
failed_label = 102 ∷ 97 ∷ 105 ∷ 108 ∷ 101 ∷ 100 ∷ []

-- `s.replace(/\s+/g, ' ')`: `after` tells whether a space has just been written.
abbrev pub collapse : Bool → Text → Text
collapse after [] = []
collapse after (c ∷ cs) =
    let here = collapse true cs in
    let on = collapse false cs in if is_space c then (if after then here else 32 ∷ here) else c ∷ on

-- `s.length > n ? s.slice(0, n) + '…' : s`
abbrev pub shorten : ℕ → Text → Text
shorten n s = if ltb n (length s) then take n s ++ (8230 ∷ []) else s

unfoldable pub short_err : Text → Text
short_err s = shorten 44 (trim (collapse false s))

abbrev pub or_failed : Text → Text
or_failed s = if is_set s then s else failed_label

abbrev pub has_one_of : List Text → Text → Bool
has_one_of words t = any (λ w. includes t w) words

abbrev pub any_timeout : List Text
any_timeout = io_timeout ∷ deadline_exceeded ∷ timeout ∷ timedout ∷ time_out ∷ timed_out ∷ []

unfoldable pub net_err_label : Browser → Text → Text
net_err_label b s =
    let t = b.lower s in
    let short = trim (collapse false s) in
    if has_one_of (no_such_host ∷ server_misbehaving ∷ dns ∷ []) t
    then no_dns_label
    else if has_one_of (connection_refused ∷ []) t
    then refused_label
    else if has_one_of any_timeout t
    then timed_out_label
    else if has_one_of (connection_reset ∷ []) t
    then reset_label
    else if has_one_of (no_route_to_host ∷ []) t
    then no_route_label
    else if has_one_of (network_is_unreachable ∷ []) t
    then unreachable
    else if has_one_of (certificate_word ∷ x509 ∷ []) t
    then untrusted_label
    else if ltb 22 (length short)
    then take 22 short ++ (8230 ∷ [])
    else or_failed short

-- A row of the problems' card.
pub record Row : Type 0 where
  pub name : Text
  pub renewal_of : Option Text
  pub note : Text
  pub title : Text

module _ (b : Browser) where
  abbrev pub error_row : Cert → Row
  error_row c = record {
    name = c.name;
    renewal_of = none;
    note = net_err_label b c.last_error;
    title = c.last_error;
  }

  unfoldable pub error_rows : List Item → List Row
  error_rows [] = []
  error_rows (it ∷ items) =
      let rest = error_rows items in
      if not (is_set it.cert.last_error) then rest else error_row it.cert ∷ rest

  unfoldable pub coverage_rows : Cert → List Covered → List Row
  coverage_rows c [] = []
  coverage_rows c (n ∷ ns) =
      let rest = coverage_rows c ns in
      if not (is_unreachable n)
      then rest
      else record {
        name = n.name;
        renewal_of = some c.name;
        note = net_err_label b n.detail;
        title = n.detail;
      }
        ∷ rest

  unfoldable pub all_coverage_rows : List Item → List Row
  unfolding coverage_rows
  all_coverage_rows [] = []
  all_coverage_rows (it ∷ items) = coverage_rows it.cert it.cert.coverage ++ all_coverage_rows items

  unfoldable pub problem_rows : List Item → List Row
  unfolding error_rows all_coverage_rows
  problem_rows items = error_rows items ++ all_coverage_rows items
