-- ===== src/Dashboard/Found.antt =====
-- What a scan turns up beside the scanned certificate in internal/server/web/static/dashboard.js:
-- the other certificates that its names serve, where to track them, and adding those picked.
pub mod Groups
pub mod Added
mod Tests
use certguard.Base.{
  ℕ, suc, Bool, true, false, not, ◌&&◌, ◌||◌, ◌==◌, Option, none, some, List, [], ◌∷◌, ◌++◌, any,
  filter, find, map, length, if◌then◌else◌, ltb,
}
use certguard.Base.Text.{Text, same, starts, is_set}
use certguard.VaultUi.{Answer, Accepted}
use certguard.Coverage.{different}
use certguard.Coverage.Checks.{Result, thrown, returned, result_of}
use certguard.Inventory.Filter.{trim}

-- `s.split(sep)` for a separator of one character
abbrev pub put_first : ℕ → List Text → List Text
put_first c [] = (c ∷ []) ∷ []
put_first c (s ∷ ss) = (c ∷ s) ∷ ss

abbrev pub split : ℕ → Text → List Text
split sep [] = [] ∷ []
split sep (c ∷ cs) = let rest = split sep cs in if c == sep then [] ∷ rest else put_first c rest

-- What stands before and behind the first separator; nothing stands behind one that is not there.
abbrev pub head_part : ℕ → Text → Text
head_part sep [] = []
head_part sep (c ∷ cs) = let rest = head_part sep cs in if c == sep then [] else c ∷ rest

abbrev pub tail_part : ℕ → Text → Text
tail_part sep [] = []
tail_part sep (c ∷ cs) = let rest = tail_part sep cs in if c == sep then cs else rest

abbrev pub field_of : Text → List Text → Text
field_of key [] = []
field_of key (part ∷ parts) =
    let rest = field_of key parts in
    if same (trim (head_part 61 part)) key then trim (tail_part 61 part) else rest

unfoldable pub dn_field : Text → Text → Text
dn_field dn key = field_of key (split 44 dn)

-- 'CN'
abbrev pub common_name : Text
common_name = 67 ∷ 78 ∷ []

-- `n.startsWith('*.')`
abbrev pub is_wildcard : Text → Bool
is_wildcard n = starts (42 ∷ 46 ∷ []) n

-- A name with the certificate that it serves.
pub record Served : Type 0 where
  pub name : Text
  pub status : Text
  pub sha256 : Text
  pub subject : Text
  pub dns_names : List Text

-- A certificate with the names found to serve it; the first is `g.names[0]`.
pub record Group : Type 0 where
  pub served : Served
  pub alias : Text
  pub others : List Text

abbrev pub names_in : Group → List Text
names_in g = g.alias ∷ g.others

unfoldable pub is_new : List Text → Served → Bool
is_new known n = same n.status different && (is_set n.sha256 && not (any (same n.sha256) known))

unfoldable pub add_served : Served → List Group → List Group
add_served n [] = record { served = n; alias = n.name; others = [] } ∷ []
add_served n (g ∷ gs) =
    let rest = add_served n gs in
    if same g.served.sha256 n.sha256
    then record g { others = g.others ++ (n.name ∷ []) } ∷ gs
    else g ∷ rest

unfoldable pub group_served : List Text → List Served → List Group → List Group
unfolding is_new add_served
group_served known [] gs = gs
group_served known (n ∷ ns) gs =
    let rest = group_served known ns gs in
    let more = group_served known ns (add_served n gs) in if is_new known n then more else rest

-- `found`: `shas` are the fingerprints of the tracked entries.
unfoldable pub found : List Text → List Served → List Group
unfolding group_served
found shas names = group_served (filter is_set shas) names []

abbrev pub or_alias : Option Text → Text → Text
or_alias none a = a
or_alias (some n) a = if is_set n then n else a

unfoldable pub canonical_host : Group → Text
unfolding dn_field
canonical_host g =
    let cn = dn_field g.served.subject common_name in
    if is_set cn && not (is_wildcard cn)
    then cn
    else or_alias (find (λ n. not (is_wildcard n)) g.served.dns_names) g.alias

-- A domain that the server has looked up.
pub record Domain : Type 0 where
  pub domain : Text
  pub tracked : Bool
  pub expires_at : Text
  pub error : Text

-- `domainCandidates`; `none` when the server does not answer well.
unfoldable pub domain_candidates : Option (List Domain) → List Domain
domain_candidates none = []
domain_candidates (some ds) =
    filter (λ (x : Domain). not x.tracked && (is_set x.expires_at && not (is_set x.error))) ds

-- Whether anything is looked for, and whether the dialog is shown.
unfoldable pub is_worth_checking : Bool → List Text → Bool
is_worth_checking is_admin dns_names =
    is_admin && ltb 1 (length (filter (λ n. not (is_wildcard n)) dns_names))

unfoldable pub is_offered : List Group → List Domain → Bool
is_offered gs ds = ltb 0 (length gs) || ltb 0 (length ds)

-- What is asked of the server for a picked domain or certificate: the target and the name.
pub data Ask : Type 0 where
  track_domain : Text → Ask
  scan : Text → Text → Ask

-- The requests with whether they were accepted, the latest first, the count of the message, and
-- whether a request has thrown, which ends the handler.
pub record Progress : Type 0 where
  pub log : List (Ask × Bool)
  pub added : ℕ
  pub stopped : Bool

abbrev pub is_good : Result → Bool
is_good thrown = false
is_good (returned good) = good

abbrev pub is_thrown : Result → Bool
is_thrown thrown = true
is_thrown (returned _) = false

-- The server answers each request in its own time: `answers n` the one sent after `n` others.
module _ (answers : ℕ → Ask → Answer Accepted) where
  -- What the request that is sent now comes to.
  abbrev pub reply : Ask → Progress → Result
  reply a p = result_of (answers (length p.log) a)

  unfoldable pub post : Ask → Progress → Progress
  post a p =
      let good = is_good (reply a p) in
      if p.stopped then p else record {
        log = (a, good) ∷ p.log;
        added = if good then suc p.added else p.added;
        stopped = is_thrown (reply a p);
      }

  unfoldable pub add_domains : List Domain → Progress → Progress
  unfolding post
  add_domains [] p = p
  add_domains (g ∷ gs) p = add_domains gs (post (track_domain g.domain) p)

  -- The alias is tried where the canonical host fails.
  unfoldable pub add_certificate : Group → Progress → Progress
  unfolding post canonical_host
  add_certificate g p =
      let host = canonical_host g in
      let once = post (scan host host) p in
      if not (is_good (reply (scan host host) p)) && not (same host g.alias)
      then post (scan g.alias host) once
      else once

  unfoldable pub add_certificates : List Group → Progress → Progress
  unfolding add_certificate
  add_certificates [] p = p
  add_certificates (g ∷ gs) p = add_certificates gs (add_certificate g p)

  unfoldable pub add_picked : List Group → List Domain → Progress
  unfolding add_domains add_certificates
  add_picked picks dpicks =
      add_certificates picks (add_domains dpicks (record { log = []; added = 0; stopped = false }))

-- The number in the message, which does not come where a request has thrown.
unfoldable pub message_of : Progress → Option ℕ
message_of p = if p.stopped then none else some p.added
