-- ===== src/Scheduler/Run.antt =====
-- The worker loop of src/scheduler/mod.rs and the ways in which a `run_once` ends. sqlx rolls a
-- transaction back when it is dropped without a commit, so only `committed` changes the tables.
use rocktick.Prelude.{ℕ, zero, suc, ◌<◌, ◌≡◌, ◌≢◌, refl, arith}

pub data Run {ℓ} (D : Type ℓ) : Type ℓ where
  -- `tx.commit()` was reached, with the tables that the transaction leaves.
  committed : D → Run D
  -- `Ok(())` with no commit: what the transaction wrote is dropped.
  dropped : D → Run D
  -- `*reached_end = true`, with nothing written.
  reached_end : Run D
  -- An `Err` from `?`, or a panic.
  failed : Run D

-- The state of a worker after some rounds of its loop.
pub data Worker {ℓ} (D : Type ℓ) : Type ℓ where
  idle broken running : D → Worker D

module _ {D : Type 0} where
  module _ (run_once : D → Run D) where
    -- `loop { run_once(..)?; if reached_end { sleep } }`, for a number of rounds or until it sleeps.
    unfoldable pub scheduling_loop : ℕ → D → Worker D
    scheduling_loop zero d = running d
    scheduling_loop (suc n) d = elim (run_once d) [
      | committed e ↦ scheduling_loop n e
      | dropped e ↦ scheduling_loop n d
      | reached_end ↦ idle d
      | failed ↦ broken d
    ]

  -- The worker sleeps with nothing left to do, or has stopped on an error, where the property holds.
  abbrev pub Rests : (D → Run D) → (D → Type 0) → Worker D → Type 0
  Rests run_once P (idle d) = P d × (run_once d ≡ reached_end)
  Rests run_once P (broken d) = P d × (run_once d ≡ failed)
  Rests run_once P (running d) = ⊥

  data RunCases (r : Run D) : Type 0 where
    commits : (e : D) → r ≡ committed e → RunCases r
    drops : (e : D) → r ≡ dropped e → RunCases r
    ends : r ≡ reached_end → RunCases r
    fails : r ≡ failed → RunCases r

  Run-cases : (r : Run D) → RunCases r
  Run-cases (committed e) = commits e refl
  Run-cases (dropped e) = drops e refl
  Run-cases reached_end = ends refl
  Run-cases failed = fails refl

  -- What a run keeps and counts down.
  pub record Drains (run_once : D → Run D) (P : D → Type 0) (measure : D → ℕ) : Type 0 where
    pub keeps : (d e : D) → P d → run_once d ≡ committed e → P e
    pub falls : (d e : D) → P d → run_once d ≡ committed e → measure e < measure d
    pub commits : (d e : D) → P d → run_once d ≢ dropped e

  module _ (run_once : D → Run D) (P : D → Type 0) (measure : D → ℕ)
      (c : Drains run_once P measure) where
    pub scheduling_loop-Rests :
        (n : ℕ) (d : D) → P d → measure d < n → Rests run_once P (scheduling_loop run_once n d)
    unfolding scheduling_loop
    scheduling_loop-Rests zero d p h = elim h [ ]
    scheduling_loop-Rests (suc n) d p h = elim (Run-cases (run_once d)) [
      | commits e q ↦
          rw (q, scheduling_loop)
            (scheduling_loop-Rests n e (c.keeps d e p q) (let f = c.falls d e p q in omega arith))
      | drops e q ↦ absurd (c.commits d e p q)
      | ends q ↦ rw (q, scheduling_loop) (p, q)
      | fails q ↦ rw (q, scheduling_loop) (p, q)
    ]

  -- A round that ends without a commit is repeated for ever, with no pause.
  pub scheduling_loop-dropped :
      (run_once : D → Run D) (d e : D)
      → run_once d ≡ dropped e
      → (n : ℕ) → scheduling_loop run_once n d ≡ running d
  unfolding scheduling_loop
  scheduling_loop-dropped run_once d e h zero = refl
  scheduling_loop-dropped run_once d e h (suc n) =
      rw (h, scheduling_loop) (scheduling_loop-dropped run_once d e h n)
