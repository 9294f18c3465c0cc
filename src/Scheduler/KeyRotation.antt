-- ===== src/Scheduler/KeyRotation.antt =====
-- src/scheduler/util/key_rotate.rs, with `Secret::get` and `Secret::put` of src/secrets.rs, over the
-- rows of the table `secrets`. `locked` says which rows another transaction holds.
use rocktick.Prelude.{
  ℕ, suc, ◌<◌, ◌≡◌, ◌≢◌, refl, ◌∙◌, String, Bool, true, false, not, ◌&&◌, Option, none, some, List,
  arith, find, inl, inr, &&_left, Option-cases, eq_iff, find-test,
}
use mathlib.Core.Option
use rocktick.Prelude.Int.{ltb_ℤ}
use rocktick.Prelude.Result.{Result, ok, err, panic, Result-cases, returns, raises, panics}
use rocktick.Prelude.Tables.{
  get_row, put_row, count, UniqueKeys, get_row-find, get_row-put_row, count-put_row,
  count-find-none, UniqueKeys-put_row,
}
use rocktick.Scheduler.Run.{
  Run, committed, dropped, reached_end, failed, scheduling_loop, Rests, Drains, Worker, idle,
  broken, running, scheduling_loop-Rests,
}
use rocktick.Secrets.KeyRing
use rocktick.Secrets.KeyRing.{KeyRing, Key, Distinct}
use rocktick.Secrets.Secret
use rocktick.Secrets.Secret.{Aead, Utf8, Secret, SecretError}
use rocktick.Secrets.Roundtrip.{decrypt-rotate, rotate_fields}

abbrev pub Secrets : Type 0
Secrets = List Secret

abbrev secret_id : Secret → String
secret_id s = s.id

-- `Secret::get`: `fetch_one`, which fails when there is no such row.
unfoldable pub fetch : String → Secrets → Option Secret
fetch = get_row secret_id

-- `Secret::put`.
unfoldable pub put : Secret → Secrets → Secrets
put = put_row secret_id

abbrev pub late : Key → Secret → Bool
late newest s = ltb_ℤ s.master_key_id newest.id

-- The end of a rotation of the secret with this id.
rotate_row : Aead → KeyRing → Secrets → String → Run Secrets
unfolding fetch put
rotate_row aead ring t id = elim (fetch id t) [
  | none ↦ failed
  | some s ↦ elim (Secret.rotate aead s ring) [
    | ok rotated ↦ committed (put rotated t)
    | err e ↦ failed
    | panic ↦ failed
  ]
]

unfoldable pub run_once : Aead → KeyRing → (String → Bool) → Secrets → Run Secrets
unfolding rotate_row
run_once aead ring locked t = elim (KeyRing.max ring) [
  | none ↦ failed
  | some latest_key ↦ elim (find (λ s. late latest_key s && not (locked s.id)) t) [
    | none ↦ reached_end
    | some late_secret ↦ rotate_row aead ring t late_secret.id
  ]
]

-- The row that a committed run rotates, before and after.
abbrev Rotates : Aead → KeyRing → Key → Secrets → Secrets → Type 0
Rotates aead ring m t t' =
    (s : Secret) × (r : Secret) × (get_row secret_id s.id t ≡ some s)
    × (late m s ≡ true)
    × (Secret.rotate aead s ring ≡ ok r)
    × (t' ≡ put_row secret_id r t)

module _ (aead : Aead) (ring : KeyRing) (m : Key) (newest : KeyRing.max ring ≡ some m) where
  run_once-Rotates :
      (locked : String → Bool) (t t' : Secrets)
      → UniqueKeys secret_id t
      → run_once aead ring locked t ≡ committed t'
      → Rotates aead ring m t t'
  unfolding run_once
  run_once-Rotates locked t t' u h =
      elim (Option-cases (find (λ s. late m s && not (locked s.id)) t)) [
        | inl e ↦ absurd (ground (arith, newest))
        | inr (s, e) ↦
            let here = get_row-find secret_id (λ s. late m s && not (locked s.id)) t s u e in
            let is_late = find-test (λ s. late m s && not (locked s.id)) t s e in
            elim (Result-cases (Secret.rotate aead s ring)) [
              | returns r q ↦ (s, r, here, &&_left _ _ is_late, q, ground (arith, newest))
              | raises x q ↦ absurd (ground (arith, newest))
              | panics q ↦ absurd (ground (arith, newest))
            ]
      ]

  -- One secret fewer waits for the newest key.
  count-run_once :
      (locked : String → Bool) (t t' : Secrets)
      → UniqueKeys secret_id t
      → run_once aead ring locked t ≡ committed t'
      → count (late m) t ≡ suc (count (late m) t')
  count-run_once locked t t' u h =
      let (s, r, here, is_late, q, e) = run_once-Rotates locked t t' u h in
      let (same, sealed, _, _, _, _, _) = rotate_fields aead ring m s r newest q in
      rw e (ground (arith, count-put_row secret_id (late m) r s t))

  -- What a client reads of a secret.
  abbrev read : Utf8 → String → Secrets → Option (Result SecretError String)
  read utf8 id t = Option.map (λ s. Secret.decrypt aead utf8 s ring) (fetch id t)

  -- A rotation changes no text of any secret.
  read-run_once :
      (utf8 : Utf8) (locked : String → Bool) (t t' : Secrets)
      → Distinct ring.keys
      → UniqueKeys secret_id t
      → run_once aead ring locked t ≡ committed t'
      → (id : String) → read utf8 id t' ≡ read utf8 id t
  unfolding fetch
  read-run_once utf8 locked t t' d u h id =
      let (s, r, here, is_late, q, e) = run_once-Rotates locked t t' u h in
      let (same, sealed, _, _, _, _, _) = rotate_fields aead ring m s r newest q in
      rw (e, get_row-put_row secret_id r id t)
        (ground (arith, eq_iff r.id id, decrypt-rotate aead utf8 ring m s r d newest q))

  run_once-ne-dropped :
      (locked : String → Bool) (t e : Secrets) → run_once aead ring locked t ≢ dropped e
  unfolding run_once
  run_once-ne-dropped locked t e = ground arith

  abbrev none_locked : String → Bool
  none_locked _ = false

  count-reached_end :
      (t : Secrets) → run_once aead ring none_locked t ≡ reached_end → count (late m) t ≡ 0
  unfolding run_once
  count-reached_end t h = elim (Option-cases (find (λ s. late m s && not (none_locked s.id)) t)) [
    | inl e ↦ count-find-none (late m) (λ s. late m s && not false) t (λ s q. ground arith) e
    | inr (s, e) ↦ absurd (ground (arith, newest))
  ]

  module _ (utf8 : Utf8) (d : Distinct ring.keys) (start : Secrets) where
    -- The ids stay unique, and every secret reads as it did at the start.
    abbrev pub Unchanged : Secrets → Type 0
    Unchanged t = UniqueKeys secret_id t × ((id : String) → read utf8 id t ≡ read utf8 id start)

    rotation-Drains : Drains (run_once aead ring none_locked) Unchanged (count (late m))
    rotation-Drains = record {
      keeps = λ t t' p h. (
        (let (s, r, here, is_late, q, e) = run_once-Rotates none_locked t t' p.0 h in
            rw e (UniqueKeys-put_row secret_id r t p.0)),
        (λ id. read-run_once utf8 none_locked t t' d p.0 h id ∙ p.1 id),
      );
      falls = λ t t' p h. omega (arith, count-run_once none_locked t t' p.0 h);
      commits = λ t e p. run_once-ne-dropped none_locked t e;
    }

    -- The worker sleeps with every secret under the newest key, or has stopped on an error; the
    -- secrets read as at the start.
    abbrev pub Finished : Worker Secrets → Type 0
    Finished (idle t) = Unchanged t × (count (late m) t ≡ 0)
    Finished (broken t) = Unchanged t
    Finished (running t) = ⊥

    Rests-Finished :
        (w : Worker Secrets) → Rests (run_once aead ring none_locked) Unchanged w → Finished w
    Rests-Finished (idle t) (p, e) = (p, count-reached_end t e)
    Rests-Finished (broken t) (p, e) = p
    Rests-Finished (running t) r = r

    -- With more rounds than there are secrets under older keys, and no lock held by others, the
    -- worker sleeps with every secret under the newest key, or has stopped on an error. Either way
    -- the ids are unique and every secret reads as at the start; where the ids of the secrets and
    -- of the ring's keys are distinct.
    pub rotation-Finished :
        UniqueKeys secret_id start
        → (n : ℕ) → count (late m) start < n
        → Finished (scheduling_loop (run_once aead ring none_locked) n start)
    rotation-Finished u n h = Rests-Finished _ (
        scheduling_loop-Rests _ Unchanged (count (late m)) rotation-Drains n start (u, λ id. refl)
          h)
