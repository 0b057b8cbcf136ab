-- ===== src/Dashboard/Found/Added.antt =====
-- What adding the picked certificates and domains of internal/server/web/static/dashboard.js asks of
-- the server and counts.
use certguard.Base.{ℕ, suc, ◌+◌, ◌≤◌, ◌≡◌, Bool, List, [], ◌∷◌, length, if◌then◌else◌}
use certguard.Base.Text.{Text}
use certguard.Dashboard.Found.{Ask, Progress}

-- How many requests the server accepted.
unfoldable pub successes : List (Ask × Bool) → ℕ
successes [] = 0
successes (x ∷ xs) = let rest = successes xs in if x.1 then suc rest else rest

-- From `p` to `q` at most `n` entries were added, with at most `k` requests, and the count stays that of the
-- accepted requests.
record Adds (n k : ℕ) (p q : Progress) : Type 0 where
  counted : p.added ≡ successes p.log → q.added ≡ successes q.log
  few : q.added ≤ p.added + n
  asked : length q.log ≤ length p.log + k
