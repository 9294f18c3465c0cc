-- ===== src/Tests/Signing.antt =====
-- A tenant without signing secrets that gets two.
use rocktick.Prelude.{
  ℕ, zero, suc, ◌≡◌, refl, subst, ap, ◌∙◌, String, none, some, [], ◌∷◌, ◌<>◌, arith, str_eq, find,
  ◌==◌, if◌then◌else◌,
}
use rocktick.Prelude.Int.{pos}
use rocktick.Prelude.Result.{Result, ok}
use rocktick.Prelude.Tables.{get_row, put_row, update_where}
use rocktick.Scheduler.Env.{Env}
use rocktick.Scheduler.KeyRotation
use rocktick.Scheduler.Tokens.{tenant_key}
use rocktick.Secrets.KeyRing
use rocktick.Secrets.KeyRing.{Bytes}
use rocktick.Secrets.Secret
use rocktick.Secrets.Secret.{Utf8, Secret}
use rocktick.Api.Base.{ApiError}
use rocktick.Api.Signing
use rocktick.Api.Signing.{
  Crypto, Vault, SigningSecretData, pair, new_secret, read_secret, rotate_secrets, get_secrets,
}
use rocktick.Api.Signing.Laws.{FreshIds, rotate-get_secrets}
use rocktick.Api.Tenants.{check_caller}
use rocktick.Tests.Fixtures.{env, tenant}
use rocktick.Tests.Secrets.{aead, ring, repeat, first_byte}

abbrev numbered : String → ℕ → String
numbered prefix zero = prefix
numbered prefix (suc n) = prefix <> "_1"

abbrev run : Env String
run = record env { generate = numbered }

abbrev two_texts : Utf8
two_texts = record {
  as_bytes = λ t. if str_eq t "signature" then 1 ∷ [] else 2 ∷ [];
  from_utf8 = λ b. if first_byte b == 1 then some "signature" else some "signature_1";
}

abbrev crypto : Crypto
crypto = record {
  aead = aead;
  utf8 = two_texts;
  key_ring = ring;
  random_dek = λ n. repeat 5 32;
  random_dek_nonce = λ n. repeat 6 12;
  random_data_nonce = λ n. repeat 7 12;
}

abbrev secret : String → ℕ → Secret
secret id byte = record {
  id = id;
  master_key_id = pos 2;
  secret_version = pos 1;
  encrypted_dek = 22 ∷ repeat 5 32;
  encrypted_data = 5 ∷ byte ∷ [];
  dek_nonce = repeat 6 12;
  data_nonce = repeat 7 12;
  algorithm = "AES-256-GCM";
}

first_secret : new_secret run crypto 0 ≡ ok ("signature", secret "secret" 1)
unfolding new_secret Secret.new KeyRing.max
first_secret = refl

later_secret : (n : ℕ) → new_secret run crypto (suc n) ≡ ok ("signature_1", secret "secret_1" 2)
unfolding new_secret Secret.new KeyRing.max
later_secret n = refl

first_read : read_secret run crypto (secret "secret" 1) ≡ ok "signature"
unfolding Secret.decrypt Secret.to_array KeyRing.get find
first_read = refl

later_read : read_secret run crypto (secret "secret_1" 2) ≡ ok "signature_1"
unfolding Secret.decrypt Secret.to_array KeyRing.get find
later_read = refl

-- A result that is known twice.
same_read :
    (a text : String) (s0 s : Secret) (r : Result ApiError (String × Secret))
    → r ≡ ok (a, s0)
    → read_secret run crypto s0 ≡ ok a
    → r ≡ ok (text, s)
    → read_secret run crypto s ≡ ok text
same_read a text s0 s r p q h =
    let e : (a ≡ text) × (s0 ≡ s) = ground (arith, p, h) in
    subst (λ x. read_secret run crypto x ≡ ok text) e.1 (q ∙ ap ok e.0)

readable :
    (n : ℕ) (text : String) (s : Secret)
    → new_secret run crypto n ≡ ok (text, s)
    → read_secret run crypto s ≡ ok text
readable zero text s h =
    same_read "signature" text (secret "secret" 1) s (new_secret run crypto 0) first_secret
      first_read h
readable (suc n) text s h =
    same_read "signature_1" text (secret "secret_1" 2) s (new_secret run crypto (suc n))
      (later_secret n) later_read h

abbrev vault : Vault
vault = record { tenants = tenant ∷ []; secrets = [] }

abbrev rotated : Vault
rotated = record {
  tenants =
      record tenant { current_signing_key = some "secret"; next_signing_key = some "secret_1" }
      ∷ [];
  secrets = secret "secret" 1 ∷ secret "secret_1" 2 ∷ [];
}

vault-rotate_secrets :
    rotate_secrets run crypto none "tenant_1" vault ≡ (rotated, ok (pair "signature" "signature_1"))
unfolding rotate_secrets Signing.rotate_txn Secret.new KeyRing.max check_caller get_row update_where
    KeyRotation.put put_row
vault-rotate_secrets = refl

vault-tenant : get_row tenant_key "tenant_1" vault.tenants ≡ some tenant
unfolding get_row
vault-tenant = refl

vault-FreshIds : FreshIds run crypto vault tenant
unfolding KeyRotation.fetch get_row
vault-FreshIds = (refl, refl, refl, refl, refl, refl)

rotate-get_secrets_example :
    get_secrets run crypto none "tenant_1" rotated ≡ ok (pair "signature" "signature_1")
rotate-get_secrets_example =
    rotate-get_secrets run crypto readable none "tenant_1" tenant vault rotated
      (pair "signature" "signature_1") vault-tenant vault-FreshIds vault-rotate_secrets
