-- ===== src/Secrets/Secret.antt =====
-- `Secret` of src/secrets.rs: envelope encryption. A secret's text is encrypted under its own key
-- (the DEK), and that key under a master key of the ring. AES-GCM and the random bytes are
-- parameters; `String` and its UTF-8 form are the language's.
use rocktick.Prelude.{ℕ, ◌≡◌, String, str_eq, Option, none, some, length, ◌==◌, if◌then◌else◌}
use rocktick.Prelude.Int.{ℤ, pos, ◌+ℤ◌, wrap_i32}
use rocktick.Prelude.Result.{Result, ok, ◌>>=◌, ◌>>◌, ok_or, expect, ensure}
use rocktick.Secrets.KeyRing
use rocktick.Secrets.KeyRing.{Bytes, Key, KeyRing}

-- AES-256-GCM by key, nonce and message. What is documented of it: a cipher text opens under the
-- key and nonce that made it.
pub record Aead : Type 0 where
  pub encrypt : Bytes → Bytes → Bytes → Option Bytes
  pub decrypt : Bytes → Bytes → Bytes → Option Bytes
  pub decrypt-encrypt :
      (key nonce plain cipher : Bytes)
      → encrypt key nonce plain ≡ some cipher
      → decrypt key nonce cipher ≡ some plain

-- The bytes of a text, and the text of bytes that are valid UTF-8.
pub record Utf8 : Type 0 where
  pub as_bytes : String → Bytes
  pub from_utf8 : Bytes → Option String

pub record Secret : Type 0 where
  pub id : String
  pub master_key_id : ℤ
  pub secret_version : ℤ
  pub encrypted_dek : Bytes
  pub encrypted_data : Bytes
  pub dek_nonce : Bytes
  pub data_nonce : Bytes
  pub algorithm : String

pub data SecretError : Type 0 where
  key_not_found : ℤ → SecretError
  algorithm_mismatch invalid_nonce_length invalid_dek_length invalid_utf8 : SecretError
  crypto_error : SecretError
  invalid_signing_key_length : ℕ → SecretError

-- `try_into` an array of a fixed length.
unfoldable pub to_array : ℕ → Bytes → Option Bytes
to_array n bytes = if length bytes == n then some bytes else none

abbrev pub aes_256_gcm : String
aes_256_gcm = "AES-256-GCM"

module _ (aead : Aead) (utf8 : Utf8) where
  unfoldable pub decrypt : Secret → KeyRing → Result SecretError String
  decrypt s keys = do
    master ← ok_or (KeyRing.get keys s.master_key_id) (key_not_found s.master_key_id)
    ensure (str_eq s.algorithm aes_256_gcm) algorithm_mismatch
    dek_nonce ← ok_or (to_array 12 s.dek_nonce) invalid_nonce_length
    data_nonce ← ok_or (to_array 12 s.data_nonce) invalid_nonce_length
    opened ← ok_or (aead.decrypt master.key dek_nonce s.encrypted_dek) crypto_error
    dek ← ok_or (to_array 32 opened) invalid_dek_length
    secret ← ok_or (aead.decrypt dek data_nonce s.encrypted_data) crypto_error
    ok_or (utf8.from_utf8 secret) invalid_utf8

  -- The random key and nonces are the last three arguments.
  unfoldable pub new : String → String → KeyRing → Bytes → Bytes → Bytes → Result SecretError Secret
  new id secret keys dek dek_nonce data_nonce = do
    master ← expect (KeyRing.max keys)
    encrypted_data ← ok_or (aead.encrypt dek data_nonce (utf8.as_bytes secret)) crypto_error
    encrypted_dek ← ok_or (aead.encrypt master.key dek_nonce dek) crypto_error
    ok (record {
      id = id;
      master_key_id = master.id;
      secret_version = pos 1;
      encrypted_dek = encrypted_dek;
      encrypted_data = encrypted_data;
      dek_nonce = dek_nonce;
      data_nonce = data_nonce;
      algorithm = aes_256_gcm;
    })

module _ (aead : Aead) where
  unfoldable pub rotate : Secret → KeyRing → Result SecretError Secret
  rotate s keys = do
    existing_master ← ok_or (KeyRing.get keys s.master_key_id) (key_not_found s.master_key_id)
    master ← expect (KeyRing.max keys)
    dek_nonce ← ok_or (to_array 12 s.dek_nonce) invalid_dek_length
    opened ← ok_or (aead.decrypt existing_master.key dek_nonce s.encrypted_dek) crypto_error
    dek ← ok_or (to_array 32 opened) invalid_dek_length
    re_encrypted_dek ← ok_or (aead.encrypt master.key dek_nonce dek) crypto_error
    ok (record s {
      master_key_id = master.id;
      secret_version = wrap_i32 (s.secret_version +ℤ pos 1);
      encrypted_dek = re_encrypted_dek;
    })
