-- ===== src/Dashboard/Edit/Sealed.antt =====
-- What leaves the browser of a secret in internal/server/web/static/dashboard.js under zero
-- knowledge.
use certguard.Base.{ℕ, ◌≡◌, ◌⊎◌, true, Option, none, some, [], All}
use certguard.Base.Text.{Text}
use certguard.Vault.{Crypto, encrypt, hint}
use certguard.Dashboard.Edit.{
  Body, plain, sealed, Request, patch_cert, put_secret_body, post_cert, delete_request, Session,
  Desk,
}

-- A secret's body is the empty one or what the vault's key encrypted of some text, with its hint,
-- the text's last four characters; of a text of at most four it is all.
abbrev pub IsSealed : Crypto → Session → Request → Type 0
IsSealed c ss (patch_cert _ _ _ _) = Unit
IsSealed c ss (put_secret_body _ (plain _)) = ⊥
IsSealed c ss (put_secret_body _ (sealed enc h)) =
    ((enc ≡ []) × (h ≡ []))
    ⊎ ((secret : Text) × (encrypt c ss.iv secret ss.dek ≡ some enc) × (h ≡ hint secret))
IsSealed c ss (post_cert _ none) = Unit
IsSealed c ss (post_cert _ (some _)) = ⊥
IsSealed c ss (delete_request _) = Unit

-- All that has been sent is sealed.
abbrev pub AreSealed : Crypto → Session → Desk → Type 0
AreSealed c ss d = All (IsSealed c ss) d.sent

module _ (c : Crypto) (ss : Session) (zk : ss.zk_enabled ≡ true) where
  SealedBody : Option Body → Type 0
  SealedBody none = Unit
  SealedBody (some b) = (id : ℕ) → IsSealed c ss (put_secret_body id b)
