-- ===== src/Vault/Doors.antt =====
-- The ways into the vault of internal/server/web/static/zk.js and the data key.
use certguard.Base.{
  ℕ, zero, suc, ◌-◌, ◌≤◌, ◌<◌, ◌≡◌, refl, sym, ap, inl, inr, false, none, some, [], ◌∷◌, ◌++◌,
  All-append, take, drop, length, ltb, arith, Bool-cases,
}
use certguard.Base.Text.{Text}
use certguard.Vault.{
  Bytes, IsBytes, Crypto, Keyring, Random, State, default_iters, wrap, unwrap, keyring_for, create,
  unlock, rewrap, wrap_for_key, unlock_with_key, encrypt, decrypt, hint,
}

-- What the browser documents: unwrapping and decrypting with the same key and vector give back what
-- was wrapped and encrypted, base64 gives back bytes, and a number is read as it was written.
pub record CryptoLaws (c : Crypto) : Type 0 where
  pub unwrap-wrap : (k iv d : Bytes) → IsBytes d → c.unwrap_key k iv (c.wrap_key k iv d) ≡ some d
  pub decrypt-encrypt :
      (k iv p : Bytes) → IsBytes p → c.decrypt_bytes k iv (c.encrypt_bytes k iv p) ≡ some p
  pub wrap-IsBytes : (k iv d : Bytes) → IsBytes d → IsBytes (c.wrap_key k iv d)
  pub encrypt-IsBytes : (k iv p : Bytes) → IsBytes p → IsBytes (c.encrypt_bytes k iv p)
  pub encode-IsBytes : (s : Text) → IsBytes (c.encode_text s)
  pub b64 : (s : Bytes) → IsBytes s → c.from_b64 (c.to_b64 s) ≡ some s
  pub parse-show : (n : ℕ) → c.parse_int (c.show n) ≡ some n

-- A vector as `rand(12)` draws it.
pub record IsVector (iv : Bytes) : Type 0 where
  pub twelve : length iv ≡ 12
  pub bytes : IsBytes iv

take-append : (n : ℕ) (xs ys : Bytes) → length xs ≡ n → take n (xs ++ ys) ≡ xs
take-append zero [] ys h = refl
take-append zero (x ∷ xs) ys h = absurd (omega arith)
take-append (suc n) [] ys h = absurd (omega arith)
take-append (suc n) (x ∷ xs) ys h = ap (x ∷◌) (take-append n xs ys (omega arith))

drop-append : (n : ℕ) (xs ys : Bytes) → length xs ≡ n → drop n (xs ++ ys) ≡ ys
drop-append zero [] ys h = refl
drop-append zero (x ∷ xs) ys h = absurd (omega arith)
drop-append (suc n) [] ys h = absurd (omega arith)
drop-append (suc n) (x ∷ xs) ys h = drop-append n xs ys (omega arith)

module _ (c : Crypto) (laws : CryptoLaws c) where
  unwrap-wrap_lem :
      (kek iv dek : Bytes) → IsVector iv → IsBytes dek → unwrap c kek (wrap c kek iv dek) ≡ some dek
  unfolding unwrap wrap
  unwrap-wrap_lem kek iv dek v k =
      let sealed = c.wrap_key kek iv dek in
      rw
        (
          laws.b64 (iv ++ sealed)
              (All-append (λ b. b < 256) iv sealed v.bytes (laws.wrap-IsBytes kek iv dek k)),
          unwrap,
          take-append 12 iv sealed v.twelve,
          drop-append 12 iv sealed v.twelve,
        )
        (laws.unwrap-wrap kek iv dek k)

  unlock-keyring_for :
      (passphrase : Text) (rnd : Random) (key : Bytes) (dek : State)
      → IsBytes rnd.salt
      → IsVector rnd.iv
      → IsBytes key
      → unlock c passphrase (keyring_for c passphrase rnd key) dek
        ≡ record { thrown = false; dek = some key }
  unfolding unlock keyring_for
  unlock-keyring_for passphrase rnd key dek s v k =
      rw
        (
          laws.b64 rnd.salt s,
          unlock,
          laws.parse-show default_iters,
          unwrap-wrap_lem (c.derive_key passphrase rnd.salt default_iters) rnd.iv key v k,
        )
        refl

  -- Under the crypto's laws, and with a salt, a vector and a key of bytes, a vault opens with the
  -- passphrase that it was created with, on the key that was generated,
  -- whatever was in memory before.
  pub unlock-create :
      (passphrase : Text) (rnd : Random) (key : Bytes) (dek : State)
      → IsBytes rnd.salt
      → IsVector rnd.iv
      → IsBytes key
      → unlock c passphrase (create c passphrase rnd key).1 dek
        ≡ record { thrown = false; dek = (create c passphrase rnd key).0 }
  unfolding create
  unlock-create passphrase rnd key dek s v k = unlock-keyring_for passphrase rnd key dek s v k

  decrypt-encrypt_lem :
      (iv dek : Bytes) (text : Text)
      → IsVector iv
      → c.decode_bytes (c.encode_text text) ≡ text
      → decrypt c (c.to_b64 (iv ++ c.encrypt_bytes dek iv (c.encode_text text))) (some dek)
        ≡ some text
  unfolding decrypt
  decrypt-encrypt_lem iv dek text v u =
      let sealed = c.encrypt_bytes dek iv (c.encode_text text) in
      rw
        (
          laws.b64 (iv ++ sealed) (
              All-append (λ b. b < 256) iv sealed v.bytes
                (laws.encrypt-IsBytes dek iv (c.encode_text text) (laws.encode-IsBytes text))),
          decrypt,
          take-append 12 iv sealed v.twelve,
          drop-append 12 iv sealed v.twelve,
          laws.decrypt-encrypt dek iv (c.encode_text text) (laws.encode-IsBytes text),
          u,
        )
        refl

  -- Under the crypto's laws, after a change of the passphrase the new passphrase opens the vault and what was encrypted
  -- before can be read: whatever `rewrap` and `encrypt` return with the vault open, `decrypt` gives
  -- back the text after a lock and an `unlock`, for a text that UTF-8 can carry.
  pub decrypt-rewrap :
      (passphrase : Text) (rnd : Random) (iv dek : Bytes) (text : Text) (ring : Keyring)
      (secret : Text)
      → IsBytes rnd.salt
      → IsVector rnd.iv
      → IsBytes dek
      → IsVector iv
      → c.decode_bytes (c.encode_text text) ≡ text
      → rewrap c passphrase rnd (some dek) ≡ some ring
      → encrypt c iv text (some dek) ≡ some secret
      → decrypt c secret (unlock c passphrase ring none).dek ≡ some text
  unfolding rewrap encrypt
  decrypt-rewrap passphrase rnd iv dek text ring secret s v k w u r e =
      let same_ring : keyring_for c passphrase rnd dek ≡ ring = cc in
      let same_secret : c.to_b64 (iv ++ c.encrypt_bytes dek iv (c.encode_text text)) ≡ secret =
        cc in
      rw (sym same_ring, sym same_secret, unlock-keyring_for passphrase rnd dek none s v k)
        (decrypt-encrypt_lem iv dek text w u)

  -- Under the crypto's laws, a security key that was enrolled with the vault open opens it again on the same data key.
  pub unlock_with_key-wrap_for_key :
      (prf iv dek : Bytes) (wrapped : Text) (before : State)
      → IsVector iv
      → IsBytes dek
      → wrap_for_key c prf iv (some dek) ≡ some wrapped
      → unlock_with_key c prf wrapped before ≡ record { thrown = false; dek = some dek }
  unfolding wrap_for_key unlock_with_key
  unlock_with_key-wrap_for_key prf iv dek wrapped before v k e =
      let same : wrap c (c.derive_prf_key prf) iv dek ≡ wrapped = cc in
      rw (sym same, unwrap-wrap_lem (c.derive_prf_key prf) iv dek v k) refl

length-drop : (n : ℕ) (s : Text) → length (drop n s) ≡ length s - n
length-drop zero s = omega arith
length-drop (suc n) [] = omega arith
length-drop (suc n) (x ∷ s) = omega (arith, length-drop n s)

-- A hint is at most six characters long, however long the secret is.
pub length-hint : (s : Text) → length (hint s) ≤ 6
unfolding hint
length-hint [] = omega arith
length-hint (x ∷ s) = elim (Bool-cases (ltb 4 (length (x ∷ s)))) [
  | inl e ↦ rw e (omega (arith, length-drop (length (x ∷ s) - 4) (x ∷ s)))
  | inr e ↦ rw e (ground arith)
]
