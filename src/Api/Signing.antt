-- ===== src/Api/Signing.antt =====
-- src/api/tenants.rs: the signing secrets of a tenant, a current one and a next one. The random key
-- and nonces of a new secret are parameters, by the number of the secret in the request.
pub mod Laws
use rocktick.Prelude.{
  ℕ, ◌≡◌, String, Bool, Option, none, some, List, [], ◌∷◌, is_none, ◌||◌, str_eq, if◌then◌else◌,
}
use rocktick.Prelude.Result.{Result, ok, err, panic, ◌>>=◌, ◌>>◌, ok_or}
use rocktick.Prelude.Tables.{get_row, update_where, delete_where}
use rocktick.Db.Jobs.{Tenant}
use rocktick.Db.Tables.{Db}
use rocktick.Secrets.KeyRing.{Bytes, KeyRing}
use rocktick.Secrets.Secret
use rocktick.Secrets.Secret.{Aead, Utf8, Secret, SecretError}
use rocktick.Scheduler.Env.{Env}
use rocktick.Scheduler.KeyRotation.{Secrets, fetch, put}
use rocktick.Scheduler.Tokens.{tenant_key}
use rocktick.Api.Base.{ApiError, server_error_code, not_found}
use rocktick.Api.Tenants.{check_caller}

pub data SigningSecretData : Type 0 where
  not_initialized : SigningSecretData
  pair : String → String → SigningSecretData

pub record Crypto : Type 0 where
  pub aead : Aead
  pub utf8 : Utf8
  pub key_ring : KeyRing
  -- The DEK and the two nonces.
  pub random_dek : ℕ → Bytes
  pub random_dek_nonce : ℕ → Bytes
  pub random_data_nonce : ℕ → Bytes

-- `From<SecretError> for ApiError`.
abbrev pub crypto : {A : Type 0} → Result SecretError A → Result ApiError A
crypto (ok a) = ok a
crypto (err e) = err (record { code = server_error_code; message = "InternalServerCryptoError" })
crypto panic = panic

-- The tables that the handlers write.
pub record Vault : Type 0 where
  pub tenants : List Tenant
  pub secrets : Secrets

-- The new current secret with its text, the table with it, and how many secrets were made.
pub record Chosen : Type 0 where
  pub text : String
  pub secret : Secret
  pub secrets : Secrets
  pub made : ℕ

module _ {J : Type 0} (env : Env J) (c : Crypto) where
  abbrev pub read_secret : Secret → Result ApiError String
  read_secret s = crypto (Secret.decrypt c.aead c.utf8 s c.key_ring)

  -- The n-th new secret of the request, with its text.
  unfoldable pub new_secret : ℕ → Result ApiError (String × Secret)
  new_secret n = do
    let text = env.generate "signature" n
    s ← crypto (
        Secret.new c.aead c.utf8 (env.generate "secret" n) text c.key_ring (c.random_dek n)
          (c.random_dek_nonce n) (c.random_data_nonce n))
    ok (text, s)

  unfoldable pub choose_current : Option String → Secrets → Result ApiError Chosen
  choose_current (some secret_id) secrets = do
    secret ← ok_or (fetch secret_id secrets) not_found
    decrypted ← read_secret secret
    ok (record { text = decrypted; secret = secret; secrets = secrets; made = 0 })
  choose_current none secrets = do
    new ← new_secret 0
    ok (record { text = new.0; secret = new.1; secrets = put new.1 secrets; made = 1 })

  abbrev pub delete_old : Option String → Secrets → Secrets
  delete_old none secrets = secrets
  delete_old (some id) secrets = delete_where (λ (s : Secret). str_eq s.id id) secrets

  abbrev pub set_keys : String → String → String → List Tenant → List Tenant
  set_keys current next tenant_id =
      update_where (λ (t : Tenant). str_eq t.id tenant_id)
        (λ t. record t { current_signing_key = some current; next_signing_key = some next })

  unfoldable pub rotate_txn :
      Option String → String → Vault → Result ApiError (Vault × SigningSecretData)
  unfolding choose_current new_secret
  rotate_txn caller tenant_id v = do
    check_caller caller tenant_id
    current ← ok_or (get_row tenant_key tenant_id v.tenants) not_found
    chosen ← choose_current current.next_signing_key v.secrets
    new ← new_secret chosen.made
    ok (
      record {
        tenants = set_keys chosen.secret.id new.1.id tenant_id v.tenants;
        secrets = delete_old current.current_signing_key (put new.1 chosen.secrets);
      },
      pair chosen.text new.0,
    )

  -- What was written stays only where the handler returns.
  abbrev pub commit_vault :
      Vault
      → Result ApiError (Vault × SigningSecretData)
      → Vault × Result ApiError SigningSecretData
  commit_vault v (ok (v', a)) = (v', ok a)
  commit_vault v (err e) = (v, err e)
  commit_vault v panic = (v, panic)

  unfoldable pub rotate_secrets :
      Option String → String → Vault → Vault × Result ApiError SigningSecretData
  rotate_secrets caller tenant_id v = commit_vault v (rotate_txn caller tenant_id v)

  abbrev read_pair : Secrets → Option String → Option String → Result ApiError SigningSecretData
  read_pair secrets none next = ok not_initialized
  read_pair secrets (some current) none = ok not_initialized
  read_pair secrets (some current) (some next) = do
    a ← ok_or (fetch current secrets) not_found
    b ← ok_or (fetch next secrets) not_found
    current_text ← read_secret a
    next_text ← read_secret b
    ok (pair current_text next_text)

  unfoldable pub get_secrets : Option String → String → Vault → Result ApiError SigningSecretData
  get_secrets caller tenant_id v = do
    check_caller caller tenant_id
    t ← ok_or (get_row tenant_key tenant_id v.tenants) not_found
    read_pair v.secrets t.current_signing_key t.next_signing_key
