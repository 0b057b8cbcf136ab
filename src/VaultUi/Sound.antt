-- ===== src/VaultUi/Sound.antt =====
-- What holds of the page after every handler of internal/server/web/static/vault-ui.js.
use certguard.Base.{
  ◌≡◌, refl, String, Bool, true, false, not, ◌&&◌, ◌||◌, ◌==◌, Option, none, some, List, if-intro,
}
use certguard.Base.Text.{Text}
use certguard.Vault.{
  Bytes, Crypto, Keyring, Attempt, State, assign, unwrap, unlock, unlock_with_key, is_unlocked,
  iters_or_default,
}
use certguard.VaultUi.{
  Answer, failed, refused, answered, Accepted, Key, Keys, Wrapper, raised, returned, Secret, Page,
  explain, toast, sync_vault_ui, close_vault_dialog, go, go_zk, go_server, unlock_by_key,
  run_ceremony, unwrap_with, show_vault_unlock, offer_key_unlock, lock_vault, lock_on_server,
  toggle_vault, ask_to_unlock, put_secret, put_decrypted, Ceremony, end_ceremony, reveal_answer,
  reveal_secret, opened, locked_again, settle, show_error, hide_error, with_keys, through_api,
  vault_refresh, end_refresh, with_wrapper, decrypt_field, text_of,
}

-- The button tells the truth, and under zero knowledge the vault counts as open only with its key.
pub record IsSound (p : Page) : Type 0 where
  pub icon : p.button.locked ≡ p.vault_locked
  pub visible : p.button.hidden ≡ not (p.vault_lockable && p.is_admin)
  pub key : p.zk_enabled ≡ true → p.vault_locked ≡ false → is_unlocked p.dek ≡ true

opened-IsSound : (p : Page) (key : Bytes) → IsSound (opened (record p { dek = some key }))
unfolding sync_vault_ui close_vault_dialog is_unlocked
opened-IsSound p key = record { icon = refl; visible = refl; key = λ z u. refl }

locked_again-IsSound : (p : Page) → IsSound (locked_again p)
unfolding sync_vault_ui
locked_again-IsSound p = record { icon = refl; visible = refl; key = λ z u. absurd cc }

ask_to_unlock-IsSound : (p : Page) → IsSound (ask_to_unlock p)
unfolding sync_vault_ui show_vault_unlock
ask_to_unlock-IsSound p = record { icon = refl; visible = refl; key = λ z u. absurd cc }

-- What soundness does not read.
show_error-IsSound : (s : String) (p : Page) → IsSound p → IsSound (show_error s p)
show_error-IsSound s p h = record { icon = h.icon; visible = h.visible; key = h.key }

hide_error-IsSound : (p : Page) → IsSound p → IsSound (hide_error p)
hide_error-IsSound p h = record { icon = h.icon; visible = h.visible; key = h.key }

toast-IsSound : (s : String) (bad : Bool) (p : Page) → IsSound p → IsSound (toast s bad p)
toast-IsSound s bad p h = record { icon = h.icon; visible = h.visible; key = h.key }

show_vault_unlock-IsSound : (p : Page) → IsSound p → IsSound (show_vault_unlock p)
unfolding show_vault_unlock
show_vault_unlock-IsSound p h = record { icon = h.icon; visible = h.visible; key = h.key }

with_keys-IsSound :
    (supported : Bool) (keys : Answer (List Key)) (p : Page)
    → IsSound p
    → IsSound (with_keys supported keys p)
with_keys-IsSound supported (failed _) p h = record {
  icon = h.icon;
  visible = h.visible;
  key = h.key;
}
with_keys-IsSound supported (refused _ _) p h = record {
  icon = h.icon;
  visible = h.visible;
  key = h.key;
}
with_keys-IsSound supported (answered keys) p h =
    if-intro IsSound (p.zk_enabled && supported)
      (λ _. record { icon = h.icon; visible = h.visible; key = h.key })
      (λ _. record { icon = h.icon; visible = h.visible; key = h.key })

pub offer-IsSound :
    (supported : Bool) (keys : Answer (List Key)) (p : Page)
    → IsSound p
    → IsSound (offer_key_unlock supported keys p)
unfolding offer_key_unlock
offer-IsSound supported keys p h = with_keys-IsSound supported (through_api keys) p h

pub vault_refresh-IsSound : (p : Page) → IsSound p → IsSound (vault_refresh p)
vault_refresh-IsSound p h = record { icon = h.icon; visible = h.visible; key = h.key }

pub end_refresh-IsSound : (came : Bool) (p : Page) → IsSound p → IsSound (end_refresh came p)
unfolding end_refresh
end_refresh-IsSound came p h =
    if-intro IsSound came (λ _. record { icon = h.icon; visible = h.visible; key = h.key }) (λ _. h)

-- A successful attempt has a key.
abbrev pub Gives : Attempt → Type 0
Gives a = a.thrown ≡ false → is_unlocked a.dek ≡ true

assign-Gives : (dek : State) (o : Option Bytes) → Gives (assign dek o)
unfolding is_unlocked
assign-Gives dek none h = absurd cc
assign-Gives dek (some key) h = refl

settle-IsSound :
    (s : String) (a : Attempt) (p : Page) → Gives a → IsSound p → IsSound (settle s a p)
unfolding sync_vault_ui close_vault_dialog
settle-IsSound s a p g h =
    if-intro IsSound a.thrown (λ _. show_error-IsSound s p h)
      (λ e. record { icon = refl; visible = refl; key = λ z u. g e })

go_server-IsSound : (posted : Answer Accepted) (p : Page) → IsSound p → IsSound (go_server posted p)
unfolding go_server
go_server-IsSound (failed _) p h = hide_error-IsSound p h
go_server-IsSound (refused _ e) p h = show_error-IsSound _ (hide_error p) (hide_error-IsSound p h)
go_server-IsSound (answered _) p h = record { icon = h.icon; visible = h.visible; key = h.key }

lock_on_server-IsSound :
    (posted : Answer Accepted) (p : Page) → IsSound p → IsSound (lock_on_server posted p)
unfolding lock_on_server
lock_on_server-IsSound (failed _) p h = h
lock_on_server-IsSound (refused _ e) p h = toast-IsSound _ true p h
lock_on_server-IsSound (answered _) p h = locked_again-IsSound p

put_secret-IsSound :
    (copied in_row : Bool) (v : Text) (p : Page)
    → IsSound p
    → IsSound (put_secret copied in_row v p)
unfolding put_secret
put_secret-IsSound true true v p h = record { icon = h.icon; visible = h.visible; key = h.key }
put_secret-IsSound false true v p h = record { icon = h.icon; visible = h.visible; key = h.key }
put_secret-IsSound true false v p h = record { icon = h.icon; visible = h.visible; key = h.key }
put_secret-IsSound false false v p h = record { icon = h.icon; visible = h.visible; key = h.key }

decrypted-IsSound :
    (copied in_row : Bool) (o : Option Text) (p : Page)
    → IsSound p
    → IsSound (put_decrypted copied in_row o p)
decrypted-IsSound copied in_row none p h = toast-IsSound _ true p h
decrypted-IsSound copied in_row (some v) p h = put_secret-IsSound copied in_row v p h

pub toggle_vault-IsSound :
    (posted : Answer Accepted) (p : Page) → IsSound p → IsSound (toggle_vault posted p)
unfolding toggle_vault lock_vault
toggle_vault-IsSound posted p h =
    if-intro IsSound p.vault_locked (λ _. show_vault_unlock-IsSound p h)
      (λ _.
        if-intro IsSound p.zk_enabled (λ _. locked_again-IsSound (record p { dek = none }))
          (λ _. lock_on_server-IsSound (through_api posted) p h))

module _ (c : Crypto) where
  pub unlock-Gives : (pass : Text) (ring : Keyring) (dek : State) → Gives (unlock c pass ring dek)
  unfolding unlock
  unlock-Gives pass ring dek =
      elim (c.from_b64 ring.salt)
        as (λ o. Gives (elim o [
          | none ↦ record { thrown = true; dek = dek }
          | some salt ↦ assign dek (
              unwrap c (c.derive_key pass salt (iters_or_default (c.parse_int ring.iters)))
                ring.wrapped)
        ])) [
          | none ↦ λ h. absurd cc
          | some salt ↦ assign-Gives dek (
              unwrap c (c.derive_key pass salt (iters_or_default (c.parse_int ring.iters)))
                ring.wrapped)
        ]

  pub unlock_with_key-Gives :
      (prf : Bytes) (wrapped : Text) (dek : State) → Gives (unlock_with_key c prf wrapped dek)
  unfolding unlock_with_key
  unlock_with_key-Gives prf wrapped dek = assign-Gives dek (unwrap c (c.derive_prf_key prf) wrapped)

  go_zk-IsSound : (ring : Answer Keyring) (p : Page) → IsSound p → IsSound (go_zk c ring p)
  unfolding go_zk
  go_zk-IsSound (failed _) p h = show_error-IsSound _ (hide_error p) (hide_error-IsSound p h)
  go_zk-IsSound (refused _ _) p h = show_error-IsSound _ (hide_error p) (hide_error-IsSound p h)
  go_zk-IsSound (answered r) p h =
      settle-IsSound "Incorrect passphrase" (unlock c p.passphrase r p.dek) (hide_error p)
        (unlock-Gives p.passphrase r p.dek) (hide_error-IsSound p h)

  pub go-IsSound :
      (ring : Answer Keyring) (posted : Answer Accepted) (p : Page)
      → IsSound p
      → IsSound (go c ring posted p)
  unfolding go
  go-IsSound ring posted p h =
      if-intro IsSound p.zk_enabled (λ _. go_zk-IsSound (through_api ring) p h)
        (λ _. go_server-IsSound (through_api posted) p h)

  unwrap_with-IsSound :
      (k : Keys) (wrapped : Text) (prf : Option Bytes) (p : Page)
      → IsSound p
      → IsSound (unwrap_with c k wrapped prf p)
  unwrap_with-IsSound k wrapped none p h = show_error-IsSound _ p h
  unwrap_with-IsSound k wrapped (some prf) p h =
      settle-IsSound (explain k.bad_unwrap) (unlock_with_key c prf wrapped p.dek) p
        (unlock_with_key-Gives prf wrapped p.dek) h

  ceremony-IsSound :
      (k : Keys) (wrapped : Text) (outcome : Ceremony) (p : Page)
      → IsSound p
      → IsSound (end_ceremony c k wrapped outcome p)
  ceremony-IsSound k wrapped (raised e) p h = show_error-IsSound _ p h
  ceremony-IsSound k wrapped (returned prf) p h = unwrap_with-IsSound k wrapped prf p h

  run_ceremony-IsSound :
      (k : Keys) (key : Key) (meta : Wrapper) (p : Page)
      → IsSound p
      → IsSound (run_ceremony c k key meta p)
  run_ceremony-IsSound k key meta p h =
      elim (c.from_b64 meta.prf_salt)
        as (λ o. IsSound (elim o [
          | none ↦ show_error (explain k.bad_base64) p
          | some salt ↦ end_ceremony c k meta.wrapped (k.ask key.credential_id salt) p
        ])) [
          | none ↦ show_error-IsSound _ p h
          | some salt ↦ ceremony-IsSound k meta.wrapped (k.ask key.credential_id salt) p h
        ]

  with_wrapper-IsSound :
      (k : Keys) (key : Key) (meta : Answer Wrapper) (p : Page)
      → IsSound p
      → IsSound (with_wrapper c k key meta p)
  with_wrapper-IsSound k key (failed e) p h = show_error-IsSound _ p h
  with_wrapper-IsSound k key (refused _ _) p h = show_error-IsSound _ p h
  with_wrapper-IsSound k key (answered meta) p h = run_ceremony-IsSound k key meta p h

  pub unlock_by_key-IsSound :
      (k : Keys) (key : Key) (meta : Answer Wrapper) (p : Page)
      → IsSound p
      → IsSound (unlock_by_key c k key meta p)
  unfolding unlock_by_key
  unlock_by_key-IsSound k key meta p h =
      with_wrapper-IsSound k key (through_api meta) (hide_error p) (hide_error-IsSound p h)

  reveal_answer-IsSound :
      (copied in_row : Bool) (res : Answer Secret) (p : Page)
      → IsSound p
      → IsSound (reveal_answer c copied in_row res p)
  reveal_answer-IsSound copied in_row (failed _) p h = h
  reveal_answer-IsSound copied in_row (refused status e) p h =
      if-intro IsSound (status == 423) (λ _. ask_to_unlock-IsSound p)
        (λ _. toast-IsSound _ true p h)
  reveal_answer-IsSound copied in_row (answered d) p h =
      if-intro IsSound p.zk_enabled
        (λ _. decrypted-IsSound copied in_row (decrypt_field c copied in_row d.enc p.dek) p h)
        (λ _. put_secret-IsSound copied in_row (text_of in_row d.value) p h)

  pub reveal_secret-IsSound :
      (copied in_row : Bool) (res : Answer Secret) (p : Page)
      → IsSound p
      → IsSound (reveal_secret c copied in_row res p)
  unfolding reveal_secret
  reveal_secret-IsSound copied in_row res p h =
      if-intro IsSound (p.vault_locked || (p.zk_enabled && not (is_unlocked p.dek)))
        (λ _. ask_to_unlock-IsSound p)
        (λ _. reveal_answer-IsSound copied in_row (through_api res) p h)
