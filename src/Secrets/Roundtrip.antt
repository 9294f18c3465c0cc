-- ===== src/Secrets/Roundtrip.antt =====
-- Laws of src/secrets.rs: what is encrypted can be read again, also after a rotation.
use rocktick.Prelude.{ℕ, ap, ◌≡◌, String, some, length, arith, Option-cases, inl, inr}
use rocktick.Prelude.Int.{pos, wrap_i32, ◌+ℤ◌}
use rocktick.Prelude.Result.{ok}
use rocktick.Secrets.KeyRing
use rocktick.Secrets.KeyRing.{Bytes, Key, KeyRing, Distinct, get-max}
use rocktick.Secrets.Secret
use rocktick.Secrets.Secret.{Aead, Utf8, Secret, to_array}

to_array_exact : {n : ℕ} (b : Bytes) → length b ≡ n → to_array n b ≡ some b
unfolding to_array
to_array_exact b h = ground arith

to_array-eq : (n : ℕ) (b : Bytes) {c : Bytes} → to_array n b ≡ some c → b ≡ c
unfolding to_array
to_array-eq n b h = ground arith

-- What a successful rotation has read and written.
abbrev Rotated : Aead → KeyRing → Key → Secret → Secret → Type 0
Rotated aead ring m s s' =
    (existing : Key) × (dek : Bytes) × (KeyRing.get ring s.master_key_id ≡ some existing)
    × (to_array 12 s.dek_nonce ≡ some s.dek_nonce)
    × (aead.decrypt existing.key s.dek_nonce s.encrypted_dek ≡ some dek)
    × (to_array 32 dek ≡ some dek)
    × (aead.encrypt m.key s.dek_nonce dek ≡ some s'.encrypted_dek)
    × (s' ≡ record s {
      master_key_id = m.id;
      secret_version = wrap_i32 (s.secret_version +ℤ pos 1);
      encrypted_dek = s'.encrypted_dek;
    })

rotate-Rotated :
    (aead : Aead) (ring : KeyRing) (m : Key) (s s' : Secret)
    → KeyRing.max ring ≡ some m
    → Secret.rotate aead s ring ≡ ok s'
    → Rotated aead ring m s s'
unfolding Secret.rotate to_array
rotate-Rotated aead ring m s s' newest h = elim (Option-cases (KeyRing.get ring s.master_key_id)) [
  | inl e ↦ absurd (ground arith)
  | inr (old, e) ↦ elim (Option-cases (aead.decrypt old.key s.dek_nonce s.encrypted_dek)) [
    | inl f ↦ absurd (ground arith)
    | inr (dek, f) ↦ (old, dek, e, ground arith, f, ground arith, ground arith, ground arith)
  ]
]

-- A rotation changes the master key, the version and the sealed key, and nothing else.
pub rotate_fields :
    (aead : Aead) (ring : KeyRing) (m : Key) (s s' : Secret)
    → KeyRing.max ring ≡ some m
    → Secret.rotate aead s ring ≡ ok s'
    → (s'.id ≡ s.id)
      × (s'.master_key_id ≡ m.id)
      × (s'.secret_version ≡ wrap_i32 (s.secret_version +ℤ pos 1))
      × (s'.encrypted_data ≡ s.encrypted_data)
      × (s'.dek_nonce ≡ s.dek_nonce)
      × (s'.data_nonce ≡ s.data_nonce)
      × (s'.algorithm ≡ s.algorithm)
rotate_fields aead ring m s s' newest h =
    let (_, _, _, _, _, _, _, kept) = rotate-Rotated aead ring m s s' newest h in
    (
      ap (λ (r : Secret). r.id) kept,
      ap (λ (r : Secret). r.master_key_id) kept,
      ap (λ (r : Secret). r.secret_version) kept,
      ap (λ (r : Secret). r.encrypted_data) kept,
      ap (λ (r : Secret). r.dek_nonce) kept,
      ap (λ (r : Secret). r.data_nonce) kept,
      ap (λ (r : Secret). r.algorithm) kept,
    )

module _ (aead : Aead) (utf8 : Utf8) (ring : KeyRing) (m : Key) where
  -- A new secret decrypts to its text under the ring that made it: where the ids of the ring are
  -- distinct, the random key and nonces have their lengths, the cipher does not fail, and the bytes of
  -- the text read back as the text.
  pub decrypt-new :
      (id text : String) (dek dek_nonce data_nonce sealed_data sealed_dek : Bytes)
      → Distinct ring.keys
      → KeyRing.max ring ≡ some m
      → length dek ≡ 32
      → length dek_nonce ≡ 12
      → length data_nonce ≡ 12
      → aead.encrypt dek data_nonce (utf8.as_bytes text) ≡ some sealed_data
      → aead.encrypt m.key dek_nonce dek ≡ some sealed_dek
      → utf8.from_utf8 (utf8.as_bytes text) ≡ some text
      → (s : Secret) × (Secret.new aead utf8 id text ring dek dek_nonce data_nonce ≡ ok s)
        × (Secret.decrypt aead utf8 s ring ≡ ok text)
  unfolding Secret.new Secret.decrypt
  decrypt-new id text dek dn an c1 c2 distinct newest l32 l1 l2 e1 e2 e3 = (
    record {
      id = id;
      master_key_id = m.id;
      secret_version = pos 1;
      encrypted_dek = c2;
      encrypted_data = c1;
      dek_nonce = dn;
      data_nonce = an;
      algorithm = Secret.aes_256_gcm;
    },
    rw (newest, e1, e2),
    rw (
      get-max ring m distinct newest,
      to_array_exact dn l1,
      to_array_exact an l2,
      aead.decrypt-encrypt m.key dn dek c2 e2,
      to_array_exact dek l32,
      aead.decrypt-encrypt dek an (utf8.as_bytes text) c1 e1,
      e3,
    ),
  )

  -- A rotated secret decrypts as it did before, to the same text or error, where the ids of the ring
  -- are distinct.
  pub decrypt-rotate :
      (s s' : Secret)
      → Distinct ring.keys
      → KeyRing.max ring ≡ some m
      → Secret.rotate aead s ring ≡ ok s'
      → Secret.decrypt aead utf8 s' ring ≡ Secret.decrypt aead utf8 s ring
  unfolding Secret.decrypt
  decrypt-rotate s s' distinct newest h =
      let (existing, dek, found, nonce, opened, sized, sealed, kept) =
        rotate-Rotated aead ring m s s' newest h in
      let reopened = aead.decrypt-encrypt m.key s.dek_nonce dek s'.encrypted_dek sealed in
      rw kept (
        rw (get-max ring m distinct newest, found, nonce) (ground (arith, reopened, opened, sized)))
