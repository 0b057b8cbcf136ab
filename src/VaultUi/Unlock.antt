-- ===== src/VaultUi/Unlock.antt =====
-- How the ways to open the vault in internal/server/web/static/vault-ui.js end.
use certguard.Base.{
  ◌≡◌, refl, sym, ◌⊎◌, inl, inr, String, true, false, Option, none, some, if-intro,
}
use mathlib.Core.Path.{subst}
use certguard.Base.Text.{Text}
use certguard.Vault.{
  Bytes, IsBytes, Crypto, Keyring, Random, Attempt, create, unlock, unlock_with_key, is_unlocked,
}
use certguard.Vault.Doors.{CryptoLaws, IsVector, unlock-create}
use certguard.VaultUi.{
  Answer, failed, refused, answered, Accepted, Key, Keys, Wrapper, Ceremony, raised, returned, Page,
  sync_vault_ui, close_vault_dialog, settle, go, go_zk, unlock_by_key, run_ceremony, end_ceremony,
  unwrap_with, with_wrapper, through_api, lock_vault, explain, show_error, hide_error,
}
use certguard.VaultUi.Sound.{Gives, unlock-Gives, unlock_with_key-Gives}

-- Nothing has changed but the error, which is shown.
pub record IsRejected (p q : Page) : Type 0 where
  pub flag : q.vault_locked ≡ p.vault_locked
  pub key : q.dek ≡ p.dek
  pub dialog : q.dialog_shown ≡ p.dialog_shown
  pub secret : q.revealed ≡ p.revealed
  pub message : (s : String) × (q.error ≡ some s)

pub record IsOpened (q : Page) : Type 0 where
  pub flag : q.vault_locked ≡ false
  pub key : is_unlocked q.dek ≡ true
  pub dialog : q.dialog_shown ≡ false
  pub message : q.error ≡ none

abbrev pub Ends : Page → Page → Type 0
Ends p q = IsRejected p q ⊎ IsOpened q

settle-Ends : (s : String) (a : Attempt) (p : Page) → Gives a → Ends p (settle s a (hide_error p))
unfolding sync_vault_ui close_vault_dialog
settle-Ends s a p g =
    if-intro (Ends p) a.thrown
      (λ _.
        inl (record { flag = refl; key = refl; dialog = refl; secret = refl; message = (s, refl) }))
      (λ e. inr (record { flag = refl; key = g e; dialog = refl; message = refl }))

rejected : (s : String) (p : Page) → Ends p (show_error s (hide_error p))
rejected s p =
    inl (record { flag = refl; key = refl; dialog = refl; secret = refl; message = (s, refl) })

module _ (c : Crypto) where
  go_zk-Ends : (ring : Answer Keyring) (p : Page) → Ends p (go_zk c ring p)
  unfolding go_zk
  go_zk-Ends (failed _) p = rejected _ p
  go_zk-Ends (refused _ _) p = rejected _ p
  go_zk-Ends (answered r) p =
      settle-Ends _ (unlock c p.passphrase r p.dek) p (unlock-Gives c p.passphrase r p.dek)

  unwrap_with-Ends :
      (k : Keys) (wrapped : Text) (prf : Option Bytes) (p : Page)
      → Ends p (unwrap_with c k wrapped prf (hide_error p))
  unwrap_with-Ends k wrapped none p = rejected _ p
  unwrap_with-Ends k wrapped (some prf) p =
      settle-Ends _ (unlock_with_key c prf wrapped p.dek) p
        (unlock_with_key-Gives c prf wrapped p.dek)

  end_ceremony-Ends :
      (k : Keys) (wrapped : Text) (o : Ceremony) (p : Page)
      → Ends p (end_ceremony c k wrapped o (hide_error p))
  end_ceremony-Ends k wrapped (raised e) p = rejected _ p
  end_ceremony-Ends k wrapped (returned prf) p = unwrap_with-Ends k wrapped prf p

  run_ceremony-Ends :
      (k : Keys) (key : Key) (meta : Wrapper) (p : Page)
      → Ends p (run_ceremony c k key meta (hide_error p))
  run_ceremony-Ends k key meta p =
      elim (c.from_b64 meta.prf_salt)
        as (λ o. Ends p (elim o [
          | none ↦ show_error (explain k.bad_base64) (hide_error p)
          | some salt ↦ end_ceremony c k meta.wrapped (k.ask key.credential_id salt) (hide_error p)
        ])) [
          | none ↦ rejected _ p
          | some salt ↦ end_ceremony-Ends k meta.wrapped (k.ask key.credential_id salt) p
        ]

  with_wrapper-Ends :
      (k : Keys) (key : Key) (meta : Answer Wrapper) (p : Page)
      → Ends p (with_wrapper c k key meta (hide_error p))
  with_wrapper-Ends k key (failed e) p = rejected _ p
  with_wrapper-Ends k key (refused _ _) p = rejected _ p
  with_wrapper-Ends k key (answered meta) p = run_ceremony-Ends k key meta p

  -- Under zero knowledge, each of the two ways to open the vault, whatever the server, the
  -- security key and the crypto answer, either shows an error and leaves the flag, the data key, the dialog and
  -- the revealed secret as they were, or opens: the flag is off, a data key is held, the dialog is
  -- closed and no error is shown.
  pub unlock-Ends :
      (ring : Answer Keyring) (posted : Answer Accepted) (k : Keys) (key : Key)
      (meta : Answer Wrapper) (p : Page)
      → p.zk_enabled ≡ true
      → Ends p (go c ring posted p) × Ends p (unlock_by_key c k key meta p)
  unfolding go unlock_by_key
  unlock-Ends ring posted k key meta p z = (
    if-intro (Ends p) p.zk_enabled (λ _. go_zk-Ends (through_api ring) p) (λ e. absurd cc),
    with_wrapper-Ends k key (through_api meta) p,
  )

  Unlocks : Bytes → Page → Type 0
  Unlocks key q = (q.vault_locked ≡ false) × (q.dek ≡ some key)

  go-Unlocks :
      (laws : CryptoLaws c) (rnd : Random) (key : Bytes) (posted : Answer Accepted) (q : Page)
      → IsBytes rnd.salt
      → IsVector rnd.iv
      → IsBytes key
      → q.zk_enabled ≡ true
      → Unlocks key (go c (answered (create c q.passphrase rnd key).1) posted q)
  unfolding go go_zk sync_vault_ui close_vault_dialog create Unlocks
  go-Unlocks laws rnd key posted q s v k z =
      if-intro (Unlocks key) q.zk_enabled
        (λ _.
          subst (λ a. Unlocks key (settle "Incorrect passphrase" a (hide_error q)))
            (sym (unlock-create c laws q.passphrase rnd key q.dek s v k)) (refl, refl))
        (λ e. absurd cc)

  lock_vault_lem :
      (posted : Answer Accepted) (p : Page)
      → p.zk_enabled ≡ true
      → ((lock_vault posted p).dek ≡ none)
        × ((lock_vault posted p).zk_enabled ≡ true)
        × ((lock_vault posted p).vault_locked ≡ true)
        × ((lock_vault posted p).passphrase ≡ p.passphrase)
  unfolding lock_vault sync_vault_ui
  lock_vault_lem posted p z =
      if-intro
        (λ (q : Page).
          (q.dek ≡ none)
          × (q.zk_enabled ≡ true)
          × (q.vault_locked ≡ true)
          × (q.passphrase ≡ p.passphrase))
        p.zk_enabled (λ _. (refl, z, refl, refl)) (λ e. absurd cc)

  -- Under zero knowledge, the crypto's laws and with a salt, a vector and a key of bytes: locking
  -- the vault sets the flag and forgets the data key, and the passphrase that the vault was
  -- created with then opens it on the same key.
  pub go-lock_vault :
      (laws : CryptoLaws c) (rnd : Random) (key : Bytes) (posted : Answer Accepted) (p : Page)
      → IsBytes rnd.salt
      → IsVector rnd.iv
      → IsBytes key
      → p.zk_enabled ≡ true
      → let q = lock_vault posted p in
        let r = go c (answered (create c p.passphrase rnd key).1) posted q in
        ((q.dek ≡ none) × (q.vault_locked ≡ true) × (r.vault_locked ≡ false) × (r.dek ≡ some key))
  unfolding Unlocks
  go-lock_vault laws rnd key posted p s v k z =
      let q = lock_vault posted p in
      let l = lock_vault_lem posted p z in
      let u =
        subst (λ w. Unlocks key (go c (answered (create c w rnd key).1) posted q)) l.3
          (go-Unlocks laws rnd key posted q s v k l.1) in
      (l.0, l.2, u.0, u.1)
