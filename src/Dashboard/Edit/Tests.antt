-- ===== src/Dashboard/Edit/Tests.antt =====
-- Runs of the edit dialog and of the form that adds an entry.
use certguard.Base.{◌≡◌, refl, ◌⊎◌, true, false, some, [], ◌∷◌}
use certguard.Base.Text.{is_set}
use certguard.Inventory.Filter.{trim}
use certguard.Vault.Tests.{glass, vector}
use certguard.VaultUi.{refused, answered}
use certguard.Dashboard.Edit.{Session, Desk, Entry, save_edit}
use certguard.Dashboard.Edit.Ends.{IsAccepted, IsClosed, IsKept, save_edit-Ends, save_edit-refused}

abbrev empty_entry : Entry
empty_entry = record {
  name = [];
  kind = [];
  category = [];
  expires_at = [];
  subject = [];
  issuer = [];
  sha256 = [];
  notes = [];
}

abbrev session : Session
session = record {
  zk_enabled = true;
  secrets_enabled = true;
  dek = some (7 ∷ []);
  iv = vector;
  reset_entry = empty_entry;
}

abbrev desk : Desk
desk = record {
  editing_id = some 4;
  dialog_shown = true;
  form = record {
    name = 32 ∷ 65 ∷ [];
    category = [];
    notes = 78 ∷ [];
    secret = 83 ∷ 69 ∷ 67 ∷ 82 ∷ 69 ∷ 84 ∷ [];
    clear_secret = false;
  };
  secret_field_hidden = false;
  clear_field_hidden = true;
  entry = empty_entry;
  entry_secret = 83 ∷ 69 ∷ 67 ∷ 82 ∷ 69 ∷ 84 ∷ [];
  parsed = false;
  unlock_shown = false;
  sent = [];
  toasts = [];
  loads = 0;
}

save_edit-Ends_example :
    ((is_set (trim (32 ∷ 65 ∷ [])) ≡ true)
      × IsAccepted (answered tt)
      × IsClosed desk (save_edit glass session (answered tt) (answered tt) desk))
    ⊎ IsKept desk (save_edit glass session (answered tt) (answered tt) desk)
save_edit-Ends_example = save_edit-Ends glass session (answered tt) (answered tt) desk

save_edit-refused_example :
    save_edit glass session (answered tt) (refused 423 "locked") desk
    ≡ save_edit glass session (answered tt) (answered tt) desk
save_edit-refused_example = save_edit-refused glass session (answered tt) 423 "locked" desk refl
