-- ===== src/VaultUi/Steps.antt =====
-- Any sequence of the handlers of internal/server/web/static/vault-ui.js.
use certguard.Base.{Bool, List}
use certguard.Vault.{Crypto, Keyring}
use certguard.VaultUi.Sound.{
  IsSound, go-IsSound, unlock_by_key-IsSound, offer-IsSound, toggle_vault-IsSound,
  reveal_secret-IsSound, vault_refresh-IsSound, end_refresh-IsSound,
}
use certguard.VaultUi.{
  Answer, Accepted, Key, Keys, Wrapper, Secret, Page, close_vault_dialog, go, unlock_by_key,
  offer_key_unlock, toggle_vault, reveal_secret, vault_refresh, end_refresh,
}

-- One handler runs to its end.
pub data Step (c : Crypto) : Page → Page → Type 0 where
  go_step :
      {p : Page} (ring : Answer Keyring) (posted : Answer Accepted) → Step c p (go c ring posted p)
  key_step :
      {p : Page} (k : Keys) (key : Key) (meta : Answer Wrapper)
      → Step c p (unlock_by_key c k key meta p)
  offer_step :
      {p : Page} (supported : Bool) (keys : Answer (List Key))
      → Step c p (offer_key_unlock supported keys p)
  toggle_step : {p : Page} (posted : Answer Accepted) → Step c p (toggle_vault posted p)
  refresh_step : {p : Page} → Step c p (vault_refresh p)
  refreshed_step : {p : Page} (came : Bool) → Step c p (end_refresh came p)
  close_step : {p : Page} → Step c p (close_vault_dialog p)
  reveal_step :
      {p : Page} (copied in_row : Bool) (res : Answer Secret)
      → Step c p (reveal_secret c copied in_row res p)

pub data Reach (c : Crypto) (p : Page) : Page → Type 0 where
  here : Reach c p p
  step : {q r : Page} → Reach c p q → Step c q r → Reach c p r

module _ (c : Crypto) where
  step-IsSound : {p q : Page} → Step c p q → IsSound p → IsSound q
  unfolding close_vault_dialog
  step-IsSound {p} (go_step ring posted) h = go-IsSound c ring posted p h
  step-IsSound {p} (key_step k key meta) h = unlock_by_key-IsSound c k key meta p h
  step-IsSound {p} (offer_step supported keys) h = offer-IsSound supported keys p h
  step-IsSound {p} (toggle_step posted) h = toggle_vault-IsSound posted p h
  step-IsSound {p} refresh_step h = vault_refresh-IsSound p h
  step-IsSound {p} (refreshed_step came) h = end_refresh-IsSound came p h
  step-IsSound close_step h = record { icon = h.icon; visible = h.visible; key = h.key }
  step-IsSound {p} (reveal_step copied in_row res) h = reveal_secret-IsSound c copied in_row res p h

  -- In every page that any sequence of handlers reaches from a page in which it held, the icon of the lock button is that of
  -- the flag, the button is shown exactly to an administrator of a vault that can be locked, and
  -- under zero knowledge the vault counts as open only while its data key is held.
  pub reach-IsSound : {p q : Page} → Reach c p q → IsSound p → IsSound q
  reach-IsSound here h = h
  reach-IsSound (step r s) h = step-IsSound s (reach-IsSound r h)
