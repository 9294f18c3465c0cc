-- ===== src/Prelude/Result.antt =====
-- Rust's `Result`, with a third outcome for a panic (`expect` or `unwrap` on nothing), and `?` as
-- the bind of a `do` block.
use mathlib.Core.Path.{◌≡◌, refl}
use mathlib.Core.Bool.{Bool, true, false}
use mathlib.Core.Option.{Option, none, some}

pub data Result {ℓ κ} (E : Type ℓ) (A : Type κ) : Type (ℓ ⊔ κ) where
  ok : A → Result E A
  err : E → Result E A
  panic : Result E A

module _ {ℓ κ μ} {E : Type ℓ} {A : Type κ} {B : Type μ} where
  infixl 5 ◌>>=◌ ◌>>◌
  abbrev pub ◌>>=◌ : Result E A → (A → Result E B) → Result E B
  ok a >>= f = f a
  err e >>= f = err e
  panic >>= f = panic

  abbrev pub ◌>>◌ : Result E A → Result E B → Result E B
  m >> k = m >>= λ _. k

module _ {ℓ κ} {E : Type ℓ} {A : Type κ} where
  -- `Option::ok_or`.
  abbrev pub ok_or : Option A → E → Result E A
  ok_or (some a) e = ok a
  ok_or none e = err e

  -- `Option::expect`.
  abbrev pub expect : Option A → Result E A
  expect (some a) = ok a
  expect none = panic

  -- To split on a computed result and keep the equation.
  pub data ResultCases (r : Result E A) : Type (ℓ ⊔ κ) where
    returns : (a : A) → r ≡ ok a → ResultCases r
    raises : (e : E) → r ≡ err e → ResultCases r
    panics : r ≡ panic → ResultCases r

  pub Result-cases : (r : Result E A) → ResultCases r
  Result-cases (ok a) = returns a refl
  Result-cases (err e) = raises e refl
  Result-cases panic = panics refl

module _ {ℓ} {E : Type ℓ} where
  -- An early `return Err(e)` where the test fails.
  abbrev pub ensure : Bool → E → Result E (Unit {0})
  ensure true e = ok tt
  ensure false e = err e

module _ {ℓ κ μ} {E : Type ℓ} {A : Type κ} {B : Type μ} where
  -- What a chain that returns has gone through.
  pub >>=-eq-ok :
      (act : Result E A) (next : A → Result E B) {out : B}
      → (act >>= next) ≡ ok out
      → (got : A) × (act ≡ ok got) × (next got ≡ ok out)
  >>=-eq-ok panic next stop = cc
  >>=-eq-ok (err _) next stop = cc
  >>=-eq-ok (ok got) next done = (got, refl, done)

module _ {ℓ} {E : Type ℓ} where
  pub ensure_holds : (b : Bool) (e : E) → ensure b e ≡ ok tt → b ≡ true
  ensure_holds true e h = refl
  ensure_holds false e h = cc

module _ {ℓ κ} {E : Type ℓ} {A : Type κ} where
  pub ok_or-eq-ok : (o : Option A) (e : E) (a : A) → ok_or o e ≡ ok a → o ≡ some a
  ok_or-eq-ok none e a h = cc
  ok_or-eq-ok (some x) e a h = cc
