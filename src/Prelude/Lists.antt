-- ===== src/Prelude/Lists.antt =====
-- Lists measured and searched with native numbers and Boolean tests, under the library's names.
use Prim.Native.Nat.{ℕ, suc, ◌+◌}
use mathlib.Core.Path.{◌≡◌, refl, subst}
use mathlib.Core.Logic.{inl, inr}
use mathlib.Core.Bool.{Bool, true, false, ◌||◌}
use mathlib.Core.List.{List, [], ◌∷◌, ◌++◌}
use mathlib.Core.Option.{Option, none, some, some-injective}
use native.Mathlib.Omega.{arith}
use rocktick.Prelude.Tests.{if◌then◌else◌, Bool-cases}

module _ {ℓ} {A : Type ℓ} where
  abbrev pub length : List A → ℕ
  length [] = 0
  length (x ∷ xs) = suc (length xs)

  pub length-append : (xs ys : List A) → length (xs ++ ys) ≡ length xs + length ys
  length-append [] ys = omega arith
  length-append (x ∷ xs) ys = omega (arith, length-append xs ys)

  -- The first element that passes the test.
  unfoldable pub find : (A → Bool) → List A → Option A
  find p [] = none
  find p (x ∷ xs) = if p x then some x else find p xs

  unfoldable pub filter : (A → Bool) → List A → List A
  filter p [] = []
  filter p (x ∷ xs) = let rest = filter p xs in if p x then x ∷ rest else rest

  unfoldable pub any : (A → Bool) → List A → Bool
  any p [] = false
  any p (x ∷ xs) = if p x then true else any p xs

  -- A predicate on every element; it computes to a tuple.
  abbrev pub All {κ} : (A → Type κ) → List A → Type κ
  All P [] = Unit
  All P (x ∷ xs) = P x × All P xs

  pub find-test : (p : A → Bool) (xs : List A) (x : A) → find p xs ≡ some x → p x ≡ true
  unfolding find
  find-test p [] x h = cc
  find-test p (y ∷ xs) x h = ground (arith, find-test p xs x)

  pub All-find {κ} :
      (P : A → Type κ) (p : A → Bool) (xs : List A) (x : A) → All P xs → find p xs ≡ some x → P x
  unfolding find
  All-find P p [] x a h = cc
  All-find P p (y ∷ xs) x a h = ground (arith, a.0, All-find P p xs x a.1)

module _ {ℓ} {A : Type ℓ} (le : A → A → Bool) where
  -- ORDER BY.
  unfoldable pub insert_by : A → List A → List A
  insert_by x [] = x ∷ []
  insert_by x (y ∷ ys) = if le x y then x ∷ y ∷ ys else y ∷ insert_by x ys

  unfoldable pub sort_by : List A → List A
  unfolding insert_by
  sort_by [] = []
  sort_by (x ∷ xs) = insert_by x (sort_by xs)

  All-insert_by {κ} :
      (P : A → Type κ) (x : A) (xs : List A) → P x → All P xs → All P (insert_by x xs)
  unfolding insert_by
  All-insert_by P x [] p a = (p, tt)
  All-insert_by P x (y ∷ ys) p a =
      elim (le x y) as (λ b. All P (if b then x ∷ y ∷ ys else y ∷ insert_by x ys)) [
        | true ↦ (p, a)
        | false ↦ (a.0, All-insert_by P x ys p a.1)
      ]

  pub All-sort_by {κ} : (P : A → Type κ) (xs : List A) → All P xs → All P (sort_by xs)
  unfolding sort_by
  All-sort_by P [] a = tt
  All-sort_by P (x ∷ xs) a = All-insert_by P x (sort_by xs) a.0 (All-sort_by P xs a.1)

module _ {ℓ} {A : Type ℓ} where
  -- `iter().last()`.
  unfoldable pub last? : List A → Option A
  last? [] = none
  last? (x ∷ []) = some x
  last? (x ∷ y ∷ ys) = last? (y ∷ ys)

  pub All-last? {κ} : (P : A → Type κ) (xs : List A) (x : A) → All P xs → last? xs ≡ some x → P x
  unfolding last?
  All-last? P [] x a h = cc
  All-last? P (y ∷ []) x a h = subst P (some-injective y x h) a.0
  All-last? P (y ∷ z ∷ zs) x a h = All-last? P (z ∷ zs) x a.1 h

  -- What holds of the rows that a WHERE keeps.
  pub All-filter {κ μ} :
      (P : A → Type κ) (Q : A → Type μ) (p : A → Bool) (xs : List A)
      → ((x : A) → P x → p x ≡ true → Q x)
      → All P xs
      → All Q (filter p xs)
  unfolding filter
  All-filter P Q p [] i a = tt
  All-filter P Q p (x ∷ xs) i a = elim (Bool-cases (p x)) [
    | inl e ↦ rw e (i x a.0 e, All-filter P Q p xs i a.1)
    | inr e ↦ rw e (All-filter P Q p xs i a.1)
  ]

  pub any-false : (p : A → Bool) (xs : List A) → any p xs ≡ false → All (λ x. p x ≡ false) xs
  unfolding any
  any-false p [] h = tt
  any-false p (x ∷ xs) h = (ground arith, any-false p xs (ground arith))

  pub All-zip {κ μ} :
      (P : A → Type κ) (Q : A → Type μ) (xs : List A)
      → All P xs
      → All Q xs
      → All (λ x. P x × Q x) xs
  All-zip P Q [] a b = tt
  All-zip P Q (x ∷ xs) a b = ((a.0, b.0), All-zip P Q xs a.1 b.1)

  pub any-false_iff : (p : A → Bool) (xs : List A) → All (λ x. p x ≡ false) xs → any p xs ≡ false
  unfolding any
  any-false_iff p [] a = refl
  any-false_iff p (x ∷ xs) a = rw a.0 (any-false_iff p xs a.1)

  pub filter-false : (p : A → Bool) (xs : List A) → All (λ x. p x ≡ false) xs → filter p xs ≡ []
  unfolding filter
  filter-false p [] a = refl
  filter-false p (x ∷ xs) a = rw a.0 (filter-false p xs a.1)

  pub All-map {κ μ} :
      (P : A → Type κ) (Q : A → Type μ) (xs : List A) → ((x : A) → P x → Q x) → All P xs → All Q xs
  All-map P Q [] i a = tt
  All-map P Q (x ∷ xs) i a = (i x a.0, All-map P Q xs i a.1)

module _ {ℓ} {A : Type ℓ} where
  pub find-none : (p : A → Bool) (xs : List A) → find p xs ≡ none → All (λ x. p x ≡ false) xs
  unfolding find
  find-none p [] h = tt
  find-none p (x ∷ xs) h = (ground arith, find-none p xs (ground arith))

  pub any-append : (p : A → Bool) (xs : List A) (y : A) → any p (xs ++ y ∷ []) ≡ (any p xs || p y)
  unfolding any
  any-append p [] y = ground arith
  any-append p (x ∷ xs) y = ground (arith, any-append p xs y)

  pub find-any : (p : A → Bool) (xs : List A) → any p xs ≡ false → find p xs ≡ none
  unfolding any find
  find-any p [] h = refl
  find-any p (x ∷ xs) h = ground (arith, find-any p xs)

  pub All-append {κ} :
      (P : A → Type κ) (xs : List A) (y : A) → All P xs → P y → All P (xs ++ y ∷ [])
  All-append P [] y a p = (p, tt)
  All-append P (x ∷ xs) y a p = (a.0, All-append P xs y a.1 p)
