-- ===== src/Coverage/Checks.antt =====
-- The tiles and the checks of internal/server/web/static/coverage.js. A check ends as the server
-- answers; a request that throws ends the whole run.
pub mod Ends
use certguard.Base.{
  ℕ, suc, ◌+◌, Bool, true, false, not, ◌&&◌, ◌==◌, Option, none, some, List, [], ◌∷◌, filter,
  length, if◌then◌else◌, ltb,
}
use certguard.Base.Text.{Text, same}
use certguard.VaultUi.{Answer, failed, refused, answered, Accepted, through_api}
use certguard.Inventory.Items.{Item, Cert}
use certguard.Coverage.{Row, State, all_names, is_cert_like}

-- `counts[key] || 0`
unfoldable pub count_rows : Text → List Row → ℕ
count_rows key all =
    let of_key = length (filter (λ (r : Row). same r.status key) all) in
    if same key all_names then length all + of_key else of_key

unfoldable pub click_status : Text → State → State
click_status key st = record st { status = if same st.status key then all_names else key }

-- `busy`, and the button of all checks with its progress.
pub record Checks : Type 0 where
  pub busy : List ℕ
  pub disabled : Bool
  pub progress : Option (ℕ × ℕ)

-- What a check of one certificate returns, or that it throws.
pub data Result : Type 0 where
  thrown : Result
  returned : Bool → Result

abbrev pub outcome : Answer Accepted → Result
outcome (failed _) = thrown
outcome (refused _ _) = returned false
outcome (answered _) = returned true

-- `api` throws on a 401.
abbrev pub result_of : Answer Accepted → Result
result_of a = outcome (through_api a)

-- `busy.add(n)` and, in the `finally`, `busy.delete(n)`
unfoldable pub start_check : ℕ → Checks → Checks
start_check n s = record s { busy = n ∷ filter (λ m. not (m == n)) s.busy }

unfoldable pub end_check : ℕ → Checks → Checks
end_check n s = record s { busy = filter (λ m. not (m == n)) s.busy }

unfoldable pub check_one : ℕ → Answer Accepted → Checks → Result × Checks
unfolding start_check end_check
check_one id answer s = (result_of answer, end_check id (start_check id s))

-- The run stopped in a check that threw; or the list could not be loaded at the end, with no message;
-- or it came to its message, with what was done and what failed.
pub data Run : Type 0 where
  stopped : Checks → Run
  unloaded : Checks → Run
  nothing_to_check : Checks → Run
  checked : ℕ → ℕ → Checks → Run

abbrev has_several : List Text → Bool
has_several names = ltb 1 (length names)

unfoldable pub with_names : List Item → List Item
with_names items =
    filter (λ (it : Item). is_cert_like it.cert && has_several it.cert.dns_names) items

-- `answers n` is the server's answer to the check after `n` others, and `loaded` tells whether `load`
-- returns at the end.
module _ (answers : ℕ → Answer Accepted) (loaded : Bool) (total : ℕ) where
  abbrev pub finish : ℕ → ℕ → Checks → Run
  finish done bad s =
      let ended : Checks = record s { disabled = false; progress = none } in
      if loaded then checked done bad ended else unloaded ended

  unfoldable pub check_from : ℕ → ℕ → List Item → Checks → Run
  unfolding check_one
  check_from done bad [] s = finish done bad s
  check_from done bad (it ∷ items) s =
      let after =
        (check_one it.cert.id (answers done) (record s { progress = some (suc done, total) })).1 in
      elim (result_of (answers done)) [
        | thrown ↦ stopped after
        | returned true ↦ check_from (suc done) bad items after
        | returned false ↦ check_from (suc done) (suc bad) items after
      ]

unfoldable pub check_all : (ℕ → Answer Accepted) → Bool → List Item → Checks → Run
unfolding check_from
check_all answers loaded items s =
    let several = with_names items in
    if length several == 0
    then nothing_to_check s
    else check_from answers loaded (length several) 0 0 several (record s { disabled = true })
