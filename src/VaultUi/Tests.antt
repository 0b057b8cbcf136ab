-- ===== src/VaultUi/Tests.antt =====
-- Runs of the vault's dialog over the crypto that hides nothing.
use certguard.Base.{◌≡◌, refl, true, false, none, some, [], ◌∷◌}
use certguard.Base.Text.{Text}
use certguard.Vault.{create, is_unlocked}
use certguard.Vault.Tests.{
  glass, glass-CryptoLaws, drawn, key, key-IsBytes, salt-IsBytes, vector-IsVector,
}
use certguard.VaultUi.{
  failed, refused, answered, Keys, Failure, returned, Page, Secret, go, unlock_by_key, lock_vault,
  toggle_vault, reveal_secret,
}
use certguard.VaultUi.Sound.{IsSound}
use certguard.VaultUi.Steps.{here, step, toggle_step, reveal_step, reach-IsSound}
use certguard.VaultUi.Unlock.{Ends, unlock-Ends, go-lock_vault}

abbrev home_page : Page
home_page = record {
  vault_locked = false;
  vault_lockable = true;
  zk_enabled = true;
  is_admin = true;
  dek = some (1 ∷ []);
  dialog_shown = false;
  error = none;
  passphrase = 104 ∷ [];
  paired = [];
  revealed = some (83 ∷ []);
  button = record { hidden = false; locked = false; label = "Vault unlocked — click to lock" };
  toasts = [];
  reloads = 0;
  refreshes = 0;
}

home_page-IsSound : IsSound home_page
unfolding is_unlocked
home_page-IsSound = record { icon = refl; visible = refl; key = λ z u. refl }

abbrev offline : Failure
offline = record { name = "TypeError"; message = "Failed to fetch" }

abbrev keys : Keys
keys = record {
  supported = true;
  ask = λ id salt. returned none;
  bad_base64 = offline;
  bad_unwrap = offline;
}

abbrev stored : Secret
stored = record { value = none; enc = some (7 ∷ []) }

reach-IsSound_example :
    IsSound
      (reveal_secret glass true true (refused 423 "locked") (toggle_vault (answered tt) home_page))
reach-IsSound_example =
    reach-IsSound glass
      (step (step here (toggle_step (answered tt))) (reveal_step true true (refused 423 "locked")))
      home_page-IsSound

unlock-Ends_example :
    Ends home_page (go glass (failed offline) (failed offline) home_page)
    × Ends home_page (
        unlock_by_key glass keys
          record { credential_id = 3 ∷ []; unlocks_vault = true }
          (answered record { wrapped = 1 ∷ []; prf_salt = 2 ∷ [] })
          home_page)
unlock-Ends_example =
    unlock-Ends glass (failed offline) (failed offline) keys
      (record { credential_id = 3 ∷ []; unlocks_vault = true })
      (answered (record { wrapped = 1 ∷ []; prf_salt = 2 ∷ [] })) home_page refl

go-lock_vault_example :
    ((lock_vault (answered tt) home_page).dek ≡ none)
    × ((lock_vault (answered tt) home_page).vault_locked ≡ true)
    × ((go glass
          (answered (create glass (104 ∷ []) drawn key).1)
          (answered tt)
          (lock_vault (answered tt) home_page)).vault_locked
        ≡ false)
    × ((go glass
          (answered (create glass (104 ∷ []) drawn key).1)
          (answered tt)
          (lock_vault (answered tt) home_page)).dek
        ≡ some key)
go-lock_vault_example =
    go-lock_vault glass glass-CryptoLaws drawn key (answered tt) home_page salt-IsBytes
      vector-IsVector key-IsBytes refl
