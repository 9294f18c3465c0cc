-- ===== src/Drone/Store/Claim.antt =====
-- `get_job_to_sync` of src/drone/store/executions.rs: which result is claimed, and how a claim is
-- given back by `cleanup_executions_post_sync`.
use rocktick.Prelude.{
  suc, ◌≡◌, refl, sym, ap, subst, ◌∙◌, String, true, false, none, some, List, [], ◌∷◌, ◌&&◌, arith,
  inl, inr, Option-cases, str_eq, str_eq_refl, str_eq→≡, if◌then◌else◌, eq_iff, Bool-cases, All,
}
use mathlib.Core.Path.{ap₂}
use mathlib.Core.Option.{some-injective}
use rocktick.Prelude.Int.{ℤ, ◌≤ℤ◌, ltb_ℤ, eqb_ℤ_refl}
use rocktick.Prelude.Result.{ok}
use rocktick.Prelude.Tables.{get_row, update_where, UniqueKeys, count, bit}
use rocktick.Prelude.Updates.{
  count-zero, update_where-none, get_row-update_key, count-update_where, All-get_row,
  update_where-absent,
}
use rocktick.Drone.Store.Rows.{Row, DroneStore, Codec, job_key}
use rocktick.Drone.Store.Ops.{
  is_waiting, oldest_waiting, claim, get_job_to_sync, settle_as, is_nonce,
  cleanup_executions_post_sync,
}
use rocktick.Drone.Store.Lifecycle.{StoreOk, RowOk}

-- No row that waits is older.
abbrev pub Oldest : Row → List Row → Type 0
Oldest r = All (λ x. (is_waiting x && ltb_ℤ x.executed_at r.executed_at) ≡ false)

Oldest-le : (r q : Row) (t : List Row) → r.executed_at ≤ℤ q.executed_at → Oldest q t → Oldest r t
Oldest-le r q [] h o = tt
Oldest-le r q (x ∷ t) h o = (ground (arith, o.0), Oldest-le r q t h o.1)

-- Where the choice from `x ∷ t` comes from.
data Pick (x : Row) (t : List Row) (r : Row) : Type 0 where
  head : is_waiting x ≡ true → r ≡ x → oldest_waiting t ≡ none → Pick x t r
  over :
      (q : Row)
      → is_waiting x ≡ true
      → r ≡ x
      → oldest_waiting t ≡ some q
      → r.executed_at ≤ℤ q.executed_at
      → Pick x t r
  rest :
      oldest_waiting t ≡ some r
      → (is_waiting x ≡ true → r.executed_at ≤ℤ x.executed_at)
      → Pick x t r

oldest_waiting-Pick :
    (x : Row) (t : List Row) (r : Row) → oldest_waiting (x ∷ t) ≡ some r → Pick x t r
unfolding oldest_waiting
oldest_waiting-Pick x t r h = elim (Bool-cases (is_waiting x)) [
  | inr e ↦ rest (rw e at h) (λ w. absurd (ground arith))
  | inl e ↦ elim (Option-cases (oldest_waiting t)) [
    | inl f ↦ head e (ground arith) f
    | inr (q, f) ↦ elim (Bool-cases (ltb_ℤ q.executed_at x.executed_at)) [
      | inl below ↦ let same : q ≡ r = ground arith in rest (f ∙ ap some same) (λ _. ground arith)
      | inr above ↦ let same : r ≡ x = ground arith in over q e same f (ground arith)
    ]
  ]
]

none-Oldest : (r : Row) (t : List Row) → oldest_waiting t ≡ none → Oldest r t
unfolding oldest_waiting
none-Oldest r [] h = tt
none-Oldest r (x ∷ t) h = elim (Bool-cases (is_waiting x)) [
  | inl e ↦ absurd (ground arith)
  | inr e ↦ (ground arith, none-Oldest r t (rw e at h))
]

oldest_waiting-Oldest : (t : List Row) (r : Row) → oldest_waiting t ≡ some r → Oldest r t
oldest_waiting-Oldest [] r h = absurd (unfold oldest_waiting in cc)
oldest_waiting-Oldest (x ∷ t) r h = elim (oldest_waiting-Pick x t r h) [
  | head w e f ↦ (ground arith, none-Oldest r t f)
  | over q w e f le ↦ (ground arith, Oldest-le r q t le (oldest_waiting-Oldest t q f))
  | rest f le ↦ (ground (arith, le), oldest_waiting-Oldest t r f)
]

oldest_waiting-is_waiting :
    (t : List Row) (r : Row) → oldest_waiting t ≡ some r → is_waiting r ≡ true
oldest_waiting-is_waiting [] r h = absurd (unfold oldest_waiting in cc)
oldest_waiting-is_waiting (x ∷ t) r h = elim (oldest_waiting-Pick x t r h) [
  | head w e f ↦ rw e w
  | over q w e f le ↦ rw e w
  | rest f le ↦ oldest_waiting-is_waiting t r f
]

oldest_waiting-get_row :
    (t : List Row) (r : Row)
    → UniqueKeys job_key t
    → oldest_waiting t ≡ some r
    → get_row job_key r.job_id t ≡ some r
unfolding get_row
oldest_waiting-get_row [] r u h = absurd (unfold oldest_waiting in cc)
oldest_waiting-get_row (x ∷ t) r u h = elim (oldest_waiting-Pick x t r h) [
  | head w e f ↦ rw e (ground (arith, str_eq_refl x.job_id))
  | over q w e f le ↦ rw e (ground (arith, str_eq_refl x.job_id))
  | rest f le ↦ ground (arith, oldest_waiting-get_row t r u.1 f, eq_iff x.job_id r.job_id, u.0)
]

-- In a sound store where a result waits, the claim takes the oldest one that does, commits it as
-- pending under the nonce and the time, touches no other row, and leaves one result fewer to claim.
pub get_job_to_sync-Oldest :
    (c : Codec) (nonce now : ℤ) (s : DroneStore) (r : Row) (id : String)
    → StoreOk s
    → oldest_waiting s.executions ≡ some r
    → Oldest r s.executions
      × (is_waiting r ≡ true)
      × (get_row job_key id (get_job_to_sync c nonce now s).0.executions ≡ (
          if str_eq r.job_id id then some (claim nonce now r) else get_row job_key id s.executions))
      × (count is_waiting s.executions
          ≡ suc (count is_waiting (get_job_to_sync c nonce now s).0.executions))
unfolding get_job_to_sync
get_job_to_sync-Oldest c nonce now s r id v h =
    let here = oldest_waiting-get_row s.executions r v.unique h in
    let waits = oldest_waiting-is_waiting s.executions r h in
    (
      oldest_waiting-Oldest s.executions r h,
      waits,
      rw (h, get_job_to_sync)
          (ground (
            arith,
            get_row-update_key job_key r.job_id id (claim nonce now) s.executions (λ _. refl),
            here,
            eq_iff r.job_id id,
          )),
      rw (h, get_job_to_sync)
          (omega (
            arith,
            count-update_where job_key is_waiting r.job_id (claim nonce now) s.executions r v.unique
                here,
            ap bit waits,
          )),
    )

oldest_waiting-none : (t : List Row) → All (λ x. is_waiting x ≡ false) t → oldest_waiting t ≡ none
unfolding oldest_waiting
oldest_waiting-none [] a = refl
oldest_waiting-none (x ∷ t) a = rw a.0 (oldest_waiting-none t a.1)

-- Where no result waits, nothing is claimed and nothing changes.
pub get_job_to_sync-none :
    (c : Codec) (nonce now : ℤ) (s : DroneStore)
    → count is_waiting s.executions ≡ 0
    → get_job_to_sync c nonce now s ≡ (s, ok none)
unfolding get_job_to_sync
get_job_to_sync-none c nonce now s h =
    rw (oldest_waiting-none s.executions (count-zero is_waiting s.executions h), get_job_to_sync)

-- A claim that is given back leaves the row of a waiting result as it was.
settle-claim :
    (nonce now : ℤ) (r : Row)
    → RowOk r
    → is_waiting r ≡ true
    → settle_as "local" (claim nonce now r) ≡ r
settle-claim nonce now r (inl (status, time, mark)) w =
    let named = str_eq→≡ r.sync_status "local" w in
    λ i. record r { sync_status = sym named i; sync_time = sym time i; sync_nonce = sym mark i }
settle-claim nonce now r (inr (status, _, _)) w =
    let clash : str_eq "pending" "local" ≡ true = rw status at w in cc

abbrev pub Unused : ℤ → List Row → Type 0
Unused nonce = All (λ x. is_nonce x.sync_nonce nonce ≡ false)

give_back-claim :
    (nonce now : ℤ) (r : Row) (t : List Row)
    → UniqueKeys job_key t
    → get_row job_key r.job_id t ≡ some r
    → settle_as "local" (claim nonce now r) ≡ r
    → Unused nonce t
    → update_where
        (λ x. is_nonce x.sync_nonce nonce)
        (settle_as "local")
        (update_where (λ x. str_eq x.job_id r.job_id) (claim nonce now) t)
      ≡ t
unfolding get_row update_where
give_back-claim nonce now r [] u h e a = refl
give_back-claim nonce now r (x ∷ t) u h e a = elim (Bool-cases (str_eq x.job_id r.job_id)) [
  | inl q ↦
      let same : x ≡ r = some-injective x r (rw q at h) in
      let absent = rw (str_eq→≡ x.job_id r.job_id q) at u.0 in
      let here : settle_as "local" (claim nonce now x) ≡ x =
        subst (λ y. settle_as "local" (claim nonce now y) ≡ y) (sym same) e in
      rw (q, eqb_ℤ_refl nonce)
        (ap₂ ◌∷◌ here (
          ap (update_where _ (settle_as "local"))
            (update_where-absent job_key r.job_id (claim nonce now) t absent)
          ∙ update_where-none _ _ t a.1))
  | inr q ↦ rw q (rw a.0 (ap (◌∷◌ x) (give_back-claim nonce now r t u.1 (rw q at h) e a.1)))
]

-- In a sound store, what is claimed under a nonce that no row carries and then given back leaves
-- the store as it was before the claim.
pub give_back-get_job :
    (c : Codec) (nonce now : ℤ) (s : DroneStore)
    → StoreOk s
    → Unused nonce s.executions
    → cleanup_executions_post_sync nonce (get_job_to_sync c nonce now s).0 ≡ s
unfolding get_job_to_sync cleanup_executions_post_sync
give_back-get_job c nonce now s v a = elim (Option-cases (oldest_waiting s.executions)) [
  | inl e ↦
      rw (e, get_job_to_sync)
        (ap (λ t. record s { executions = t }) (update_where-none _ _ s.executions a))
  | inr (r, e) ↦
      let here = oldest_waiting-get_row s.executions r v.unique e in
      let sound = All-get_row job_key RowOk r.job_id s.executions r v.rows here in
      let waits = oldest_waiting-is_waiting s.executions r e in
      rw (e, get_job_to_sync)
        (ap (λ t. record s { executions = t })
          (give_back-claim nonce now r s.executions v.unique here
            (settle-claim nonce now r sound waits) a))
]
