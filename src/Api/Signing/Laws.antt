-- ===== src/Api/Signing/Laws.antt =====
-- What a rotation of signing secrets in src/api/tenants.rs leaves to read.
use rocktick.Prelude.{
  ℕ, ◌≡◌, refl, sym, ap, subst, ◌∙◌, String, false, Option, none, some, arith, is_text, str_eq,
  eq_iff, str_eq_refl,
}
use mathlib.Core.Option.{some-injective}
use rocktick.Prelude.Result.{Result, ok, err, panic, ok_or, >>=-eq-ok, ok_or-eq-ok}
use rocktick.Prelude.Tables.{get_row, key-get_row, get_row-put_row}
use rocktick.Prelude.Updates.{get_row-update_key_self, get_row-delete_spared}
use rocktick.Db.Jobs.{Tenant}
use rocktick.Db.Tables.{clashes}
use rocktick.Secrets.Secret
use rocktick.Secrets.Secret.{Secret}
use rocktick.Scheduler.Env.{Env}
use rocktick.Scheduler.KeyRotation.{Secrets, fetch, put}
use rocktick.Scheduler.Tokens.{tenant_key}
use rocktick.Api.Base.{ApiError, not_found}
use rocktick.Api.Tenants.{check_caller}
use rocktick.Api.Signing.{
  SigningSecretData, pair, Crypto, Vault, Chosen, read_secret, new_secret, choose_current,
  delete_old, set_keys, rotate_txn, rotate_secrets, commit_vault, get_secrets,
}

abbrev secret_id : Secret → String
secret_id s = s.id

module _ {J : Type 0} (env : Env J) (c : Crypto) where
  new_secret-id :
      (n : ℕ) (text : String) (s : Secret)
      → new_secret env c n ≡ ok (text, s)
      → s.id ≡ env.generate "secret" n
  unfolding new_secret Secret.new
  new_secret-id n text s h = ground arith

  fetch-delete_old :
      (o : Option String) (k : String) (t : Secrets) (s : Secret)
      → is_text o k ≡ false
      → fetch k t ≡ some s
      → fetch k (delete_old env c o t) ≡ some s
  unfolding fetch
  fetch-delete_old none k t s h f = f
  fetch-delete_old (some o) k t s h f =
      get_row-delete_spared secret_id (λ x. str_eq x.id o) k t s f
        (ground (arith, key-get_row secret_id k t s f, eq_iff s.id o, eq_iff o k))

  fetch-put_other :
      (k : String) (new s : Secret) (t : Secrets)
      → str_eq new.id k ≡ false
      → fetch k t ≡ some s
      → fetch k (put new t) ≡ some s
  unfolding fetch put
  fetch-put_other k new s t h f = ground (arith, get_row-put_row secret_id new k t)

  fetch-put_self : (new : Secret) (t : Secrets) → fetch new.id (put new t) ≡ some new
  unfolding fetch put
  fetch-put_self new t = ground (arith, get_row-put_row secret_id new new.id t, str_eq_refl new.id)

  commit_vault_ok :
      (v v' : Vault) (r : Result ApiError (Vault × SigningSecretData)) (a : SigningSecretData)
      → commit_vault env c v r ≡ (v', ok a)
      → r ≡ ok (v', a)
  commit_vault_ok v v' (ok (w, b)) a h = ground arith
  commit_vault_ok v v' (err e) a h = absurd (ground arith)
  commit_vault_ok v v' panic a h = absurd (ground arith)

  -- A tenant whose two keys are stored and read is answered with their texts.
  get_secrets_lem :
      (caller : Option String) (tenant_id : String) (u : Unit {0}) (t : Tenant) (v : Vault)
      (a b : Secret) (x y : String)
      → check_caller caller tenant_id ≡ ok u
      → get_row tenant_key tenant_id v.tenants ≡ some t
      → t.current_signing_key ≡ some a.id
      → t.next_signing_key ≡ some b.id
      → fetch a.id v.secrets ≡ some a
      → fetch b.id v.secrets ≡ some b
      → read_secret env c a ≡ ok x
      → read_secret env c b ≡ ok y
      → get_secrets env c caller tenant_id v ≡ ok (pair x y)
  unfolding get_secrets
  get_secrets_lem caller tenant_id u t v a b x y p q k l f g r s =
      rw p (rw q (rw k (rw l (rw f (rw g (rw r (rw s refl)))))))

  -- The ids of the new secrets are free, differ, and are not the one that is deleted.
  abbrev pub FreshIds : Vault → Tenant → Type 0
  FreshIds v t =
      (fetch (env.generate "secret" 0) v.secrets ≡ none)
      × (fetch (env.generate "secret" 1) v.secrets ≡ none)
      × (str_eq (env.generate "secret" 1) (env.generate "secret" 0) ≡ false)
      × (is_text t.current_signing_key (env.generate "secret" 0) ≡ false)
      × (is_text t.current_signing_key (env.generate "secret" 1) ≡ false)
      × (clashes t.next_signing_key t.current_signing_key ≡ false)

  -- The chosen secret is stored under its id and reads as its text; the id of the next new secret
  -- is not its own, and neither is deleted.
  abbrev Good : Vault → Tenant → Chosen → Type 0
  Good v t d =
      (fetch d.secret.id d.secrets ≡ some d.secret)
      × (read_secret env c d.secret ≡ ok d.text)
      × (str_eq (env.generate "secret" d.made) d.secret.id ≡ false)
      × (is_text t.current_signing_key d.secret.id ≡ false)
      × (is_text t.current_signing_key (env.generate "secret" d.made) ≡ false)

  module _
      (readable : (n : ℕ) (text : String) (s : Secret)
        → new_secret env c n ≡ ok (text, s)
        → read_secret env c s ≡ ok text) where
    choose_new :
        (v : Vault) (t : Tenant) (d : Chosen)
        → FreshIds v t
        → choose_current env c none v.secrets ≡ ok d
        → Good v t d
    unfolding choose_current
    choose_new v t d f h =
        let (new, p, q) = >>=-eq-ok (new_secret env c 0) _ h in
        let id = new_secret-id 0 new.0 new.1 p in
        let chosen : Chosen = record {
          text = new.0;
          secret = new.1;
          secrets = put new.1 v.secrets;
          made = 1;
        } in
        let same : chosen ≡ d = ground (arith, q) in
        subst (Good v t) same
          (fetch-put_self new.1 v.secrets, readable 0 new.0 new.1 p, rw id f.2, rw id f.3, f.4)

    choose_old :
        (v : Vault) (t : Tenant) (d : Chosen) (k : String)
        → FreshIds v t
        → is_text t.current_signing_key k ≡ false
        → choose_current env c (some k) v.secrets ≡ ok d
        → Good v t d
    unfolding choose_current fetch
    choose_old v t d k f free h =
        let (s, p, h1) = >>=-eq-ok (ok_or (fetch k v.secrets) not_found) _ h in
        let (text, r, q) = >>=-eq-ok (read_secret env c s) _ h1 in
        let found = ok_or-eq-ok (fetch k v.secrets) not_found s p in
        let id = key-get_row secret_id k v.secrets s found in
        let chosen : Chosen = record { text = text; secret = s; secrets = v.secrets; made = 0 } in
        let same : chosen ≡ d = ground (arith, q) in
        subst (Good v t) same (
          rw id found,
          r,
          rw id (ground (arith, f.0, eq_iff (env.generate "secret" 0) k)),
          rw id free,
          f.3,
        )

    choose_current-Good :
        (v : Vault) (t : Tenant) (d : Chosen)
        → FreshIds v t
        → (next : Option String) → next ≡ t.next_signing_key
        → choose_current env c next v.secrets ≡ ok d
        → Good v t d
    choose_current-Good v t d f none e h = choose_new v t d f h
    choose_current-Good v t d f (some k) e h =
        choose_old v t d k f (subst (λ o. clashes o t.current_signing_key ≡ false) (sym e) f.5) h

    rotate_txn-get_secrets :
        (caller : Option String) (tenant_id : String) (t : Tenant) (v v' : Vault)
        (answer : SigningSecretData)
        → get_row tenant_key tenant_id v.tenants ≡ some t
        → FreshIds v t
        → rotate_txn env c caller tenant_id v ≡ ok (v', answer)
        → get_secrets env c caller tenant_id v' ≡ ok answer
    unfolding rotate_txn
    rotate_txn-get_secrets caller tenant_id t v v' answer found f h =
        let (u, p0, h1) = >>=-eq-ok (check_caller caller tenant_id) _ h in
        let (t0, p1, h2) =
          >>=-eq-ok (ok_or (get_row tenant_key tenant_id v.tenants) not_found) _ h1 in
        let (d, p2, h3) = >>=-eq-ok (choose_current env c t0.next_signing_key v.secrets) _ h2 in
        let (new, p3, h4) = >>=-eq-ok (new_secret env c d.made) _ h3 in
        let here = ok_or-eq-ok (get_row tenant_key tenant_id v.tenants) not_found t0 p1 in
        let f0 = subst (FreshIds v) (some-injective t t0 (sym found ∙ here)) f in
        let good = choose_current-Good v t0 d f0 t0.next_signing_key refl p2 in
        let id = new_secret-id d.made new.0 new.1 p3 in
        let secrets = put new.1 d.secrets in
        let w : Vault = record {
          tenants = set_keys env c d.secret.id new.1.id tenant_id v.tenants;
          secrets = delete_old env c t0.current_signing_key secrets;
        } in
        let same : w ≡ v' = ground (arith, h4) in
        let said : pair d.text new.0 ≡ answer = ground (arith, h4) in
        subst (λ x. get_secrets env c caller tenant_id x ≡ ok answer) same
          (get_secrets_lem caller tenant_id u
              (record t0 {
                current_signing_key = some d.secret.id;
                next_signing_key = some new.1.id;
              })
              w d.secret new.1 d.text new.0 p0
              (get_row-update_key_self tenant_key tenant_id
                (λ x. record x {
                  current_signing_key = some d.secret.id;
                  next_signing_key = some new.1.id;
                })
                v.tenants t0 (λ x. refl) here)
              refl refl
              (fetch-delete_old t0.current_signing_key d.secret.id secrets d.secret good.3
                (fetch-put_other d.secret.id new.1 d.secret d.secrets (rw id good.2) good.0))
              (fetch-delete_old t0.current_signing_key new.1.id secrets new.1 (rw id good.4)
                (fetch-put_self new.1 d.secrets))
              good.1 (readable d.made new.0 new.1 p3)
            ∙ ap ok said)

    -- After a rotation that is answered, the secrets can be asked for, and the answer is the same two
    -- texts. The ids of the new secrets are free and not those of the tenant's keys, these two differ,
    -- and a new secret reads as the text that it was made of.
    pub rotate-get_secrets :
        (caller : Option String) (tenant_id : String) (t : Tenant) (v v' : Vault)
        (answer : SigningSecretData)
        → get_row tenant_key tenant_id v.tenants ≡ some t
        → FreshIds v t
        → rotate_secrets env c caller tenant_id v ≡ (v', ok answer)
        → get_secrets env c caller tenant_id v' ≡ ok answer
    unfolding rotate_secrets
    rotate-get_secrets caller tenant_id t v v' answer found f h =
        rotate_txn-get_secrets caller tenant_id t v v' answer found f
          (commit_vault_ok v v' (rotate_txn env c caller tenant_id v) answer h)
