-- ===== src/VaultUi.antt =====
-- internal/server/web/static/vault-ui.js: the lock button, the unlock dialog and the reveal of a
-- secret. What the server and the security key answer are arguments of the handlers.
pub mod Reveal
pub mod Unlock
pub mod Sound
pub mod Steps
mod Tests
use certguard.Base.{
  ℕ, suc, String, str_eq, Bool, true, false, not, ◌&&◌, ◌||◌, ◌==◌, Option, none, some, List, [],
  ◌∷◌, filter, if◌then◌else◌,
}
use certguard.Base.Text.{Text}
use certguard.Vault.{
  Bytes, Crypto, Keyring, State, Attempt, unlock, unlock_with_key, decrypt, is_unlocked, lock,
}

-- What a call threw.
pub record Failure : Type 0 where
  pub name : String
  pub message : String

-- How a request ends: it throws, as does the reading of an answer that nothing catches; the answer
-- has an error's status with the text of its `error` field, if any; or it is fine.
pub data Answer {ℓ} (A : Type ℓ) : Type ℓ where
  failed : Failure → Answer A
  refused : ℕ → String → Answer A
  answered : A → Answer A

-- `api` of internal/server/web/static/common.js throws where the session has ended.
abbrev pub unauthenticated : Failure
unauthenticated = record { name = "Error"; message = "unauthenticated" }

abbrev pub through_api {ℓ} : {A : Type ℓ} → Answer A → Answer A
through_api (failed e) = failed e
through_api (refused status e) = if status == 401 then failed unauthenticated else refused status e
through_api (answered a) = answered a

pub record Key : Type 0 where
  pub credential_id : Text
  pub unlocks_vault : Bool

-- What the server keeps for a key.
pub record Wrapper : Type 0 where
  pub wrapped : Text
  pub prf_salt : Text

-- `navigator.credentials.get` and `prfResult`
pub data Ceremony : Type 0 where
  raised : Failure → Ceremony
  returned : Option Bytes → Ceremony

-- An answer whose body is not read.
abbrev pub Accepted : Type 0
Accepted = Unit

-- What the ceremony needs of the browser: the ceremony itself, given a key and a salt, and what
-- `fromB64` and the unwrapping throw.
pub record Keys : Type 0 where
  pub supported : Bool
  pub ask : Text → Bytes → Ceremony
  pub bad_base64 : Failure
  pub bad_unwrap : Failure

-- A field that the answer lacks is `undefined`; an answer that cannot be read lacks both.
pub record Secret : Type 0 where
  pub value : Option Text
  pub enc : Option Text

pub data Message : Type 0 where
  said : String → Message
  shown_value : Text → Message

pub record Toast : Type 0 where
  pub message : Message
  pub bad : Bool

pub record Button : Type 0 where
  pub hidden : Bool
  pub locked : Bool
  pub label : String

-- The page: the flags of common.js, the data key of zk.js, the dialog with its error and its keys,
-- the secret that a row shows, what was said, newest first, and how often the page was loaded and
-- the entries were asked for again.
pub record Page : Type 0 where
  pub vault_locked : Bool
  pub vault_lockable : Bool
  pub zk_enabled : Bool
  pub is_admin : Bool
  pub dek : State
  pub dialog_shown : Bool
  pub error : Option String
  pub passphrase : Text
  pub paired : List Key
  pub revealed : Option Text
  pub button : Button
  pub toasts : List Toast
  pub reloads : ℕ
  pub refreshes : ℕ

-- `a || b` of two texts
abbrev pub or_text : String → String → String
or_text a b = if str_eq a "" then b else a

-- `explain` of internal/server/web/static/webauthn.js
unfoldable pub explain : Failure → String
explain err =
    if str_eq err.name "NotAllowedError"
    then "Cancelled, or the key was not touched in time"
    else if str_eq err.name "InvalidStateError"
    then "That key is already registered on this account"
    else if str_eq err.name "SecurityError"
    then "This page’s address cannot be used with security keys — certguard must be reached by hostname, not by IP"
    else if str_eq err.name "NotSupportedError"
    then "This key does not support what certguard asked for"
    else if str_eq err.name "ConstraintError"
    then "This key could not verify you — set a PIN on it (or use a key that supports one) and try again"
    else or_text err.message err.name

abbrev pub toast : String → Bool → Page → Page
toast s bad p = record p { toasts = record { message = said s; bad = bad } ∷ p.toasts }

unfoldable pub sync_vault_ui : Page → Page
sync_vault_ui p = record p {
  button = record {
    hidden = not (p.vault_lockable && p.is_admin);
    locked = p.vault_locked;
    label =
        if p.vault_locked
        then "Vault locked — click to unlock"
        else "Vault unlocked — click to lock";
  };
}

unfoldable pub close_vault_dialog : Page → Page
close_vault_dialog p = record p { dialog_shown = false }

-- The pages' `vaultRefresh` asks for the entries again; it is also what the button that hides a
-- secret and the timer after 30 seconds call.
abbrev pub vault_refresh : Page → Page
vault_refresh p = record p { refreshes = suc p.refreshes }

-- The end of a refresh: if the entries have come, every row is painted anew, without a secret.
unfoldable pub end_refresh : Bool → Page → Page
end_refresh came p = if came then record p { revealed = none } else p

abbrev pub show_error : String → Page → Page
show_error s p = record p { error = some s }

abbrev pub hide_error : Page → Page
hide_error p = record p { error = none }

-- The five calls after the key has been unwrapped.
abbrev pub opened : Page → Page
opened p = vault_refresh (
    toast "Vault unlocked ✓" false
      (sync_vault_ui (close_vault_dialog (record p { vault_locked = false }))))

-- The rest of a handler whose unwrapping may have thrown.
abbrev pub settle : String → Attempt → Page → Page
settle s attempt p =
    if attempt.thrown then show_error s p else opened (record p { dek = attempt.dek })

-- `location.reload()` is counted.
unfoldable pub go_server : Answer Accepted → Page → Page
go_server (failed _) p = hide_error p
go_server (refused _ e) p = show_error (or_text e "Unlock failed") (hide_error p)
go_server (answered _) p = record (hide_error p) { reloads = suc p.reloads }

module _ (c : Crypto) where
  abbrev pub go_with_keyring : Keyring → Page → Page
  go_with_keyring ring p = settle "Incorrect passphrase" (unlock c p.passphrase ring p.dek) p

  unfoldable pub go_zk : Answer Keyring → Page → Page
  go_zk (failed _) p = show_error "Incorrect passphrase" (hide_error p)
  go_zk (refused _ _) p = show_error "Incorrect passphrase" (hide_error p)
  go_zk (answered ring) p = go_with_keyring ring (hide_error p)

  unfoldable pub go : Answer Keyring → Answer Accepted → Page → Page
  unfolding go_zk go_server
  go ring posted p =
      if p.zk_enabled then go_zk (through_api ring) p else go_server (through_api posted) p

  abbrev pub unwrap_with : Keys → Text → Option Bytes → Page → Page
  unwrap_with k wrapped none p = show_error "This key did not return a vault secret" p
  unwrap_with k wrapped (some prf) p =
      settle (explain k.bad_unwrap) (unlock_with_key c prf wrapped p.dek) p

  abbrev pub end_ceremony : Keys → Text → Ceremony → Page → Page
  end_ceremony k wrapped (raised e) p = show_error (explain e) p
  end_ceremony k wrapped (returned prf) p = unwrap_with k wrapped prf p

  abbrev pub run_ceremony : Keys → Key → Wrapper → Page → Page
  run_ceremony k key meta p = elim (c.from_b64 meta.prf_salt) [
    | none ↦ show_error (explain k.bad_base64) p
    | some salt ↦ end_ceremony k meta.wrapped (k.ask key.credential_id salt) p
  ]

  -- `unlockWithKey`, with the first of the paired keys; its button is as before at the end.
  abbrev pub with_wrapper : Keys → Key → Answer Wrapper → Page → Page
  with_wrapper k key (failed e) p = show_error (explain e) p
  with_wrapper k key (refused _ _) p = show_error "This key is not paired with the vault" p
  with_wrapper k key (answered meta) p = run_ceremony k key meta p

  unfoldable pub unlock_by_key : Keys → Key → Answer Wrapper → Page → Page
  unlock_by_key k key meta p = with_wrapper k key (through_api meta) (hide_error p)

-- The dialog's part that is done at once; `offer_key_unlock` ends when the server has answered.
unfoldable pub show_vault_unlock : Page → Page
show_vault_unlock p = record p { error = none; passphrase = []; paired = []; dialog_shown = true }

-- The key button is shown while there are paired keys.
abbrev pub with_keys : Bool → Answer (List Key) → Page → Page
with_keys supported (failed _) p = record p { paired = [] }
with_keys supported (refused _ _) p = record p { paired = [] }
with_keys supported (answered keys) p =
    if p.zk_enabled && supported
    then record p { paired = filter (λ (k : Key). k.unlocks_vault) keys }
    else record p { paired = [] }

unfoldable pub offer_key_unlock : Bool → Answer (List Key) → Page → Page
offer_key_unlock supported keys p = with_keys supported (through_api keys) p

abbrev pub locked_again : Page → Page
locked_again p =
    vault_refresh (toast "Vault locked" false (sync_vault_ui (record p { vault_locked = true })))

unfoldable pub lock_on_server : Answer Accepted → Page → Page
lock_on_server (failed _) p = p
lock_on_server (refused _ e) p = toast (or_text e "Could not lock the vault") true p
lock_on_server (answered _) p = locked_again p

unfoldable pub lock_vault : Answer Accepted → Page → Page
unfolding lock_on_server
lock_vault posted p =
    if p.zk_enabled
    then locked_again (record p { dek = lock p.dek })
    else lock_on_server (through_api posted) p

unfoldable pub toggle_vault : Answer Accepted → Page → Page
toggle_vault posted p = if p.vault_locked then show_vault_unlock p else lock_vault posted p

-- The two places where a reveal asks for the passphrase instead.
abbrev pub ask_to_unlock : Page → Page
ask_to_unlock p = show_vault_unlock (sync_vault_ui (record p { vault_locked = true }))

unfoldable pub put_secret : Bool → Bool → Text → Page → Page
put_secret copied in_row value p =
    if in_row
    then toast (if copied then "Secret copied to clipboard ✓" else "Secret revealed") false
        (record p { revealed = some value })
    else if copied
    then toast "Secret copied ✓" false p
    else record p { toasts = record { message = shown_value value; bad = false } ∷ p.toasts }

-- 'undefined'
abbrev pub undefined_text : Text
undefined_text = 117 ∷ 110 ∷ 100 ∷ 101 ∷ 102 ∷ 105 ∷ 110 ∷ 101 ∷ 100 ∷ []

-- How a value that may be `undefined` is shown: `escapeHtml` spells it out, and the empty
-- `textContent` of the toast does not.
abbrev pub text_of : Bool → Option Text → Text
text_of in_row (some v) = v
text_of in_row none = if in_row then undefined_text else []

abbrev pub put_decrypted : Bool → Bool → Option Text → Page → Page
put_decrypted copied in_row none p = toast "Could not decrypt — wrong passphrase?" true p
put_decrypted copied in_row (some value) p = put_secret copied in_row value p

-- `copied`: the clipboard takes the text; `in_row`: the button stands in a row.
module _ (c : Crypto) (copied in_row : Bool) where
  abbrev pub decrypt_field : Option Text → State → Option Text
  decrypt_field none dek = none
  decrypt_field (some enc) dek = decrypt c enc dek

  abbrev pub reveal_value : Secret → Page → Page
  reveal_value d p =
      if p.zk_enabled
      then put_decrypted copied in_row (decrypt_field d.enc p.dek) p
      else put_secret copied in_row (text_of in_row d.value) p

  abbrev pub reveal_answer : Answer Secret → Page → Page
  reveal_answer (failed _) p = p
  reveal_answer (refused status e) p =
      if status == 423 then ask_to_unlock p else toast (or_text e "Reveal failed") true p
  reveal_answer (answered d) p = reveal_value d p

  unfoldable pub reveal_secret : Answer Secret → Page → Page
  reveal_secret res p =
      if p.vault_locked || (p.zk_enabled && not (is_unlocked p.dek))
      then ask_to_unlock p
      else reveal_answer (through_api res) p
