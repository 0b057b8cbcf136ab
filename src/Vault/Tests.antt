-- ===== src/Vault/Tests.antt =====
-- Runs of the vault over a crypto that hides nothing.
use certguard.Base.{
  ℕ, ◌≡◌, refl, Option, none, some, [], ◌∷◌, ◌++◌, All-map, filter, filter-All, ltb, ltb→lt, arith,
}
use certguard.Base.Text.{Text}
use certguard.Vault.{Bytes, IsBytes, Crypto, Random, keyring_for, unlock, rewrap, encrypt, decrypt}
use certguard.Vault.Doors.{CryptoLaws, IsVector, decrypt-rewrap}

abbrev first : Text → Option ℕ
first [] = none
first (x ∷ _) = some x

abbrev only_bytes : Text → Bytes
only_bytes s = filter (λ b. ltb b 256) s

abbrev pub glass : Crypto
glass = record {
  derive_key = λ p s n. p;
  derive_prf_key = λ p. p;
  wrap_key = λ k iv d. d;
  unwrap_key = λ k iv d. some d;
  encrypt_bytes = λ k iv p. p;
  decrypt_bytes = λ k iv p. some p;
  to_b64 = λ s. s;
  from_b64 = λ s. some s;
  encode_text = only_bytes;
  decode_bytes = λ s. s;
  show = λ n. n ∷ [];
  parse_int = first;
}

pub glass-CryptoLaws : CryptoLaws glass
glass-CryptoLaws = record {
  unwrap-wrap = λ k iv d h. refl;
  decrypt-encrypt = λ k iv p h. refl;
  wrap-IsBytes = λ k iv d h. h;
  encrypt-IsBytes = λ k iv p h. h;
  encode-IsBytes =
      λ s. All-map (only_bytes s) (λ b h. ltb→lt b 256 h) (filter-All (λ b. ltb b 256) s);
  b64 = λ s h. refl;
  parse-show = λ n. refl;
}

abbrev pub key : Bytes
key = 7 ∷ 8 ∷ []

abbrev pub vector : Bytes
vector = 1 ∷ 2 ∷ 3 ∷ 4 ∷ 5 ∷ 6 ∷ 7 ∷ 8 ∷ 9 ∷ 10 ∷ 11 ∷ 12 ∷ []

abbrev pub drawn : Random
drawn = record { salt = 5 ∷ []; iv = vector }

pub key-IsBytes : IsBytes key
key-IsBytes = (omega arith, (omega arith, tt))

pub salt-IsBytes : IsBytes (5 ∷ [])
salt-IsBytes = (omega arith, tt)

pub vector-IsVector : IsVector vector
vector-IsVector = record {
  twelve = refl;
  bytes =
      All-map vector (λ b h. ltb→lt b 256 h)
        (
          refl,
          (
            refl,
            (refl, (refl, (refl, (refl, (refl, (refl, (refl, (refl, (refl, (refl, tt)))))))))),
          ),
        );
}

abbrev vector_and : Bytes → Text
vector_and s = vector ++ s

decrypt-rewrap_example :
    decrypt glass
      (vector_and (65 ∷ 66 ∷ []))
      (unlock glass (104 ∷ []) (keyring_for glass (104 ∷ []) drawn key) none).dek
    ≡ some (65 ∷ 66 ∷ [])
unfolding rewrap encrypt
decrypt-rewrap_example =
    decrypt-rewrap glass glass-CryptoLaws (104 ∷ []) drawn vector key (65 ∷ 66 ∷ [])
      (keyring_for glass (104 ∷ []) drawn key) (vector_and (65 ∷ 66 ∷ [])) salt-IsBytes
      vector-IsVector key-IsBytes vector-IsVector refl refl refl
