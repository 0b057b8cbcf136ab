-- ===== src/Vault.antt =====
-- internal/server/web/static/zk.js: the keyring of the zero-knowledge vault. The browser's crypto,
-- encodings and number formatting are a record of functions; what it draws at random is an argument.
pub mod Doors
pub mod Tests
use certguard.Base.{
  ℕ, zero, suc, ◌-◌, ◌<◌, ◌≡◌, Bool, true, false, Option, none, some, List, [], ◌∷◌, ◌++◌, All,
  take, drop, length, ltb, if◌then◌else◌,
}
use certguard.Base.Text.{Text, is_set}

abbrev pub Bytes : Type 0
Bytes = List ℕ

abbrev pub IsBytes : Bytes → Type 0
IsBytes = All (λ b. b < 256)

-- `none` where the browser throws.
pub record Crypto : Type 0 where
  pub derive_key : Text → Bytes → ℕ → Bytes
  pub derive_prf_key : Bytes → Bytes
  pub wrap_key : Bytes → Bytes → Bytes → Bytes
  pub unwrap_key : Bytes → Bytes → Bytes → Option Bytes
  pub encrypt_bytes : Bytes → Bytes → Bytes → Bytes
  pub decrypt_bytes : Bytes → Bytes → Bytes → Option Bytes
  pub to_b64 : Bytes → Text
  pub from_b64 : Text → Option Bytes
  pub encode_text : Text → Bytes
  pub decode_bytes : Bytes → Text
  pub show : ℕ → Text
  pub parse_int : Text → Option ℕ

-- What the server stores.
pub record Keyring : Type 0 where
  pub wrapped : Text
  pub salt : Text
  pub iters : Text

-- What a call draws from the browser.
pub record Random : Type 0 where
  pub salt : Bytes
  pub iv : Bytes

-- The data key while the vault is open.
abbrev pub State : Type 0
State = Option Bytes

-- What a call that may throw leaves behind.
pub record Attempt : Type 0 where
  pub thrown : Bool
  pub dek : State

abbrev pub default_iters : ℕ
default_iters = 310000

-- `parseInt(…) || ITERS`
abbrev pub iters_or_default : Option ℕ → ℕ
iters_or_default none = default_iters
iters_or_default (some zero) = default_iters
iters_or_default (some (suc n)) = suc n

-- `dek = await …`: nothing is assigned when the right side throws.
abbrev pub assign : State → Option Bytes → Attempt
assign dek none = record { thrown = true; dek = dek }
assign dek (some key) = record { thrown = false; dek = some key }

module _ (c : Crypto) where
  unfoldable pub wrap : Bytes → Bytes → Bytes → Text
  wrap kek iv dek = c.to_b64 (iv ++ c.wrap_key kek iv dek)

  -- `fromB64(wrapped)`, and the unwrapping of what stands behind the first 12 bytes
  unfoldable pub unwrap : Bytes → Text → Option Bytes
  unwrap kek wrapped = elim (c.from_b64 wrapped) [
    | none ↦ none
    | some combined ↦ c.unwrap_key kek (take 12 combined) (drop 12 combined)
  ]

  unfoldable pub keyring_for : Text → Random → Bytes → Keyring
  unfolding wrap
  keyring_for passphrase rnd dek = record {
    wrapped = wrap (c.derive_key passphrase rnd.salt default_iters) rnd.iv dek;
    salt = c.to_b64 rnd.salt;
    iters = c.show default_iters;
  }

  -- `create`: `key` is what `generateKey` returns.
  unfoldable pub create : Text → Random → Bytes → State × Keyring
  unfolding keyring_for
  create passphrase rnd key = (some key, keyring_for passphrase rnd key)

  unfoldable pub unlock : Text → Keyring → State → Attempt
  unfolding unwrap
  unlock passphrase ring dek = elim (c.from_b64 ring.salt) [
    | none ↦ record { thrown = true; dek = dek }
    | some salt ↦
        let iters = iters_or_default (c.parse_int ring.iters) in
        assign dek (unwrap (c.derive_key passphrase salt iters) ring.wrapped)
  ]

  -- `rewrap` and `wrapForKey` throw while the vault is locked.
  unfoldable pub rewrap : Text → Random → State → Option Keyring
  unfolding keyring_for
  rewrap passphrase rnd none = none
  rewrap passphrase rnd (some dek) = some (keyring_for passphrase rnd dek)

  unfoldable pub wrap_for_key : Bytes → Bytes → State → Option Text
  unfolding wrap
  wrap_for_key prf iv none = none
  wrap_for_key prf iv (some dek) = some (wrap (c.derive_prf_key prf) iv dek)

  unfoldable pub unlock_with_key : Bytes → Text → State → Attempt
  unfolding unwrap
  unlock_with_key prf wrapped dek = assign dek (unwrap (c.derive_prf_key prf) wrapped)

  -- Without a key the browser throws.
  unfoldable pub encrypt : Bytes → Text → State → Option Text
  encrypt iv plaintext none = none
  encrypt iv plaintext (some dek) =
      some (c.to_b64 (iv ++ c.encrypt_bytes dek iv (c.encode_text plaintext)))

  unfoldable pub decrypt : Text → State → Option Text
  decrypt encoded none = none
  decrypt encoded (some dek) = elim (c.from_b64 encoded) [
    | none ↦ none
    | some combined ↦ elim (c.decrypt_bytes dek (take 12 combined) (drop 12 combined)) [
      | none ↦ none
      | some pt ↦ some (c.decode_bytes pt)
    ]
  ]

-- `'••' + (s.length > 4 ? s.slice(-4) : s)`
unfoldable pub hint : Text → Text
hint s =
    if is_set s then 8226 ∷ 8226 ∷ (if ltb 4 (length s) then drop (length s - 4) s else s) else []

unfoldable pub is_unlocked : State → Bool
is_unlocked none = false
is_unlocked (some _) = true

abbrev pub lock : State → State
lock dek = none
