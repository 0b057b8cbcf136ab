-- ===== src/Coverage/Checks/Ends.antt =====
-- How a run of checks of internal/server/web/static/coverage.js ends.
use certguard.Base.{ℕ, zero, suc, ◌+◌, ◌<◌, ◌≡◌, true, false, [], Bool}
use certguard.VaultUi.{Answer, Accepted}
use certguard.Coverage.Checks.{
  Checks, Result, thrown, returned, result_of, Run, stopped, unloaded, nothing_to_check, checked,
}

-- How many of the `k` answers from the `n`th on are refusals.
abbrev one_if_refused : Result → ℕ
one_if_refused (returned false) = 1
one_if_refused _ = 0

unfoldable pub refusals : (ℕ → Answer Accepted) → ℕ → ℕ → ℕ
refusals answers n zero = 0
refusals answers n (suc k) = one_if_refused (result_of (answers n)) + refusals answers (suc n) k

-- A run of `n` checks that came to its message has made them all, counts the refused ones as
-- failed, and the button is enabled again. One that has stopped did so in a check that threw, and
-- the button stays disabled. One whose loading of the list throws has enabled the button and comes
-- to no message. No certificate is left as being checked.
abbrev pub Ends : (ℕ → Answer Accepted) → Bool → ℕ → ℕ → ℕ → Run → Type 0
Ends answers loaded done bad n (stopped s) =
    (s.busy ≡ [])
    × (s.disabled ≡ true)
    × ((k : ℕ) × (k < done + n) × (result_of (answers k) ≡ thrown))
Ends answers loaded done bad n (unloaded s) =
    (loaded ≡ false) × (s.busy ≡ []) × (s.disabled ≡ false)
Ends answers loaded done bad n (nothing_to_check s) = ⊥
Ends answers loaded done bad n (checked d f s) =
    (loaded ≡ true)
    × (d ≡ done + n)
    × (f ≡ bad + refusals answers done n)
    × (s.busy ≡ [])
    × (s.disabled ≡ false)
