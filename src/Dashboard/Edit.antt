-- ===== src/Dashboard/Edit.antt =====
-- The dialog that edits an entry and the form that adds one, in
-- internal/server/web/static/dashboard.js, with the requests that they send.
pub mod Sealed
pub mod Ends
mod Tests
use certguard.Base.{
  ℕ, suc, String, Bool, true, false, not, ◌&&◌, ◌||◌, ◌==◌, Option, none, some, List, [], ◌∷◌, find,
  if◌then◌else◌, ◌⊎◌, inl, inr,
}
use certguard.Base.Text.{Text, is_set}
use certguard.Vault.{Bytes, Crypto, State, encrypt, hint, is_unlocked}
use certguard.VaultUi.{
  Answer, failed, refused, answered, Accepted, Toast, said, or_text, through_api,
}
use certguard.Inventory.Items.{Item, file_kind, manual_kind}
use certguard.Inventory.Filter.{trim}

-- What `secretBody` returns.
pub data Body : Type 0 where
  plain : Text → Body
  sealed : Text → Text → Body

-- The fields of `#editForm` and of `#manualForm`.
pub record Form : Type 0 where
  pub name : Text
  pub category : Text
  pub notes : Text
  pub secret : Text
  pub clear_secret : Bool

pub record Entry : Type 0 where
  pub name : Text
  pub kind : Text
  pub category : Text
  pub expires_at : Text
  pub subject : Text
  pub issuer : Text
  pub sha256 : Text
  pub notes : Text

-- A new entry is sent with a secret or without one.
pub data Request : Type 0 where
  patch_cert : ℕ → Text → Text → Text → Request
  put_secret_body : ℕ → Body → Request
  post_cert : Entry → Option Text → Request
  delete_request : ℕ → Request

-- What the session and the vault are when a handler starts; `iv` is what the browser draws, and
-- `reset_entry` what the form's `reset` leaves in it.
pub record Session : Type 0 where
  pub zk_enabled : Bool
  pub secrets_enabled : Bool
  pub dek : State
  pub iv : Bytes
  pub reset_entry : Entry

-- The page; requests and messages newest first.
pub record Desk : Type 0 where
  pub editing_id : Option ℕ
  pub dialog_shown : Bool
  pub form : Form
  pub secret_field_hidden : Bool
  pub clear_field_hidden : Bool
  pub entry : Entry
  pub entry_secret : Text
  pub parsed : Bool
  pub unlock_shown : Bool
  pub sent : List Request
  pub toasts : List Toast
  pub loads : ℕ

-- 'certificate'
abbrev pub certificate : Text
certificate = 99 ∷ 101 ∷ 114 ∷ 116 ∷ 105 ∷ 102 ∷ 105 ∷ 99 ∷ 97 ∷ 116 ∷ 101 ∷ []

abbrev pub send : Request → Desk → Desk
send r d = record d { sent = r ∷ d.sent }

abbrev pub say : String → Bool → Desk → Desk
say s bad d = record d { toasts = record { message = said s; bad = bad } ∷ d.toasts }

abbrev pub load_certs : Desk → Desk
load_certs d = record d { loads = suc d.loads }

abbrev category_or : Text → Text
category_or c = if is_set c then c else certificate

abbrev begin_edit : Session → Option Item → Desk → Desk
begin_edit ss none d = d
begin_edit ss (some it) d = record d {
  editing_id = some it.cert.id;
  dialog_shown = true;
  form = record {
    name = it.cert.name;
    category = category_or it.cert.category;
    notes = it.cert.notes;
    secret = [];
    clear_secret = false;
  };
  secret_field_hidden = not ss.secrets_enabled;
  clear_field_hidden = not (ss.secrets_enabled && it.cert.has_secret);
}

unfoldable pub start_edit : Session → List Item → ℕ → Desk → Desk
start_edit ss items id d = begin_edit ss (find (λ (it : Item). it.cert.id == id) items) d

unfoldable pub close_edit : Desk → Desk
close_edit d = record d { editing_id = none; dialog_shown = false }

-- `showVaultUnlock(); toast('Unlock the vault first', true)`
abbrev pub unlock_first : Desk → Desk
unlock_first d = say "Unlock the vault first" true (record d { unlock_shown = true })

module _ (c : Crypto) where
  -- `none` where `ZK.encrypt` throws.
  unfoldable pub secret_body : Session → Text → Option Body
  secret_body ss plaintext =
      if not ss.zk_enabled
      then some (plain plaintext)
      else if not (is_set plaintext)
      then some (sealed [] [])
      else elim (encrypt c ss.iv plaintext ss.dek) [
        | none ↦ none
        | some enc ↦ some (sealed enc (hint plaintext))
      ]

  -- The request of a secret; `done` is the rest of the handler, which runs unless a call throws, as
  -- `api` does on a 401 (`through_api`).
  abbrev pub put_then : ℕ → Option Body → Answer Accepted → (Desk → Desk) → Desk → Desk
  put_then id none put done d = d
  put_then id (some body) (failed _) done d = send (put_secret_body id body) d
  put_then id (some body) (refused _ _) done d = done (send (put_secret_body id body) d)
  put_then id (some body) (answered _) done d = done (send (put_secret_body id body) d)

  abbrev pub saved : Desk → Desk
  saved d = load_certs (say "Saved ✓" false (close_edit d))

  abbrev pub after_patch : Session → ℕ → Answer Accepted → Answer Accepted → Desk → Desk
  after_patch ss id (failed _) put d = d
  after_patch ss id (refused _ e) put d = say (or_text e "Save failed") true d
  after_patch ss id (answered _) put d =
      if is_set d.form.secret || d.form.clear_secret
      then if ss.zk_enabled && not (is_unlocked ss.dek)
        then unlock_first d
        else put_then id (secret_body ss d.form.secret) put saved d
      else saved d

  abbrev pub save_as : Session → Option ℕ → Answer Accepted → Answer Accepted → Desk → Desk
  save_as ss none patch put d = d
  save_as ss (some id) patch put d =
      if not (is_set (trim d.form.name))
      then say "Name is required" true d
      else after_patch ss id patch put
          (send (patch_cert id (trim d.form.name) d.form.category d.form.notes) d)

  unfoldable pub save_edit : Session → Answer Accepted → Answer Accepted → Desk → Desk
  unfolding secret_body close_edit
  save_edit ss patch put d = save_as ss d.editing_id (through_api patch) (through_api put) d

  abbrev pub added : Session → Desk → Desk
  added ss d = load_certs (record (say "Entry added" false d) {
    entry = record ss.reset_entry { kind = manual_kind };
    entry_secret = [];
    parsed = false;
  })

  -- The answer is the new entry's id, where it can be read.
  abbrev pub after_post : Session → Answer (Option ℕ) → Answer Accepted → Desk → Desk
  after_post ss (failed _) put d = d
  after_post ss (refused _ e) put d = say (or_text e "Could not add") true d
  after_post ss (answered none) put d = added ss d
  after_post ss (answered (some id)) put d =
      if ss.zk_enabled && is_set d.entry_secret
      then put_then id (secret_body ss d.entry_secret) put (added ss) d
      else added ss d

  unfoldable pub add_entry : Session → Answer (Option ℕ) → Answer Accepted → Desk → Desk
  unfolding secret_body
  add_entry ss created put d =
      let secret =
        if ss.secrets_enabled && (is_set d.entry_secret && not ss.zk_enabled)
        then some d.entry_secret
        else none in
      if ss.zk_enabled && (is_set d.entry_secret && not (is_unlocked ss.dek))
      then unlock_first d
      else after_post ss (through_api created) (through_api put)
          (send (post_cert (record d.entry { name = trim d.entry.name }) secret) d)

unfoldable pub delete_cert : ℕ → ℕ → Desk → Desk
delete_cert id status d =
    let asked = send (delete_request id) d in
    if status == 401
    then asked
    else if status == 204
    then load_certs (say "Deleted" false asked)
    else say "Delete failed" true asked

-- What the parser finds in a dropped file, with the day of its expiry.
pub record Meta : Type 0 where
  pub name : Text
  pub expiry_day : Text
  pub subject : Text
  pub issuer : Text
  pub sha256 : Text

-- `inl` is the message of what the parser throws. The name in the toast is left out.
unfoldable pub handle_file : String ⊎ Meta → Desk → Desk
handle_file (inl message) d = say (or_text message "Could not parse certificate") true d
handle_file (inr m) d = record (say "Parsed — review and click Add" false d) {
  entry = record d.entry {
    name = m.name;
    expires_at = m.expiry_day;
    subject = m.subject;
    issuer = m.issuer;
    sha256 = m.sha256;
    kind = file_kind;
    category = certificate;
  };
  parsed = true;
}
