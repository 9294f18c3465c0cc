-- ===== src/Prelude/Tables.antt =====
-- SQL tables as lists of rows with a text key: SELECT, upsert, UPDATE and COUNT, with their laws.
use Prim.Native.Nat.{ℕ, ◌+◌}
use Prim.Native.String.{String}
use mathlib.Core.Path.{◌≡◌, refl}
use mathlib.Core.Logic.{◌≢◌, inl, inr}
use mathlib.Core.Bool.{Bool, true, false}
use mathlib.Core.List.{List, [], ◌∷◌, ◌++◌}
use mathlib.Core.Option.{Option, none, some}
use native.Mathlib.Omega.{arith}
use text.Mathlib.Text.{◌==◌ as str_eq}
use text.Mathlib.TextEquality.{eq_iff}
use rocktick.Prelude.Tests.{if◌then◌else◌, Bool-cases, str_eq→≡}
use rocktick.Prelude.Lists.{find}

abbrev pub bit : Bool → ℕ
bit true = 1
bit false = 0

module _ {ℓ} {A : Type ℓ} where
  unfoldable pub count : (A → Bool) → List A → ℕ
  count p [] = 0
  count p (x ∷ xs) = bit (p x) + count p xs

  -- UPDATE … WHERE.
  unfoldable pub update_where : (A → Bool) → (A → A) → List A → List A
  update_where p f [] = []
  update_where p f (x ∷ xs) = (if p x then f x else x) ∷ update_where p f xs

  -- DELETE … WHERE.
  unfoldable pub delete_where : (A → Bool) → List A → List A
  delete_where p [] = []
  delete_where p (x ∷ xs) = let rest = delete_where p xs in if p x then rest else x ∷ rest

module _ {ℓ} {A : Type ℓ} (key : A → String) where
  -- SELECT … WHERE key = $1.
  unfoldable pub get_row : String → List A → Option A
  get_row k [] = none
  get_row k (x ∷ xs) = if str_eq (key x) k then some x else get_row k xs

  -- INSERT … ON CONFLICT (key) DO UPDATE.
  unfoldable pub put_row : A → List A → List A
  put_row r [] = r ∷ []
  put_row r (x ∷ xs) = if str_eq (key x) (key r) then r ∷ xs else x ∷ put_row r xs

  -- PRIMARY KEY.
  abbrev pub UniqueKeys : List A → Type ℓ
  UniqueKeys [] = Unit
  UniqueKeys (x ∷ xs) = (get_row (key x) xs ≡ none) × UniqueKeys xs

  pub key-get_row : (k : String) (t : List A) (x : A) → get_row k t ≡ some x → key x ≡ k
  unfolding get_row
  key-get_row k [] x h = cc
  key-get_row k (y ∷ t) x h = ground (arith, key-get_row k t x, eq_iff (key y) k)

  pub get_row-put_row :
      (r : A) (j : String) (t : List A)
      → get_row j (put_row r t) ≡ (if str_eq (key r) j then some r else get_row j t)
  unfolding get_row put_row
  get_row-put_row r j [] = refl
  get_row-put_row r j (x ∷ t) =
      ground
        (arith, get_row-put_row r j t, eq_iff (key x) (key r), eq_iff (key x) j, eq_iff (key r) j)

  pub count-put_row :
      (p : A → Bool) (r old : A) (t : List A)
      → get_row (key r) t ≡ some old
      → count p (put_row r t) + bit (p old) ≡ count p t + bit (p r)
  unfolding get_row put_row count
  count-put_row p r old [] h = cc
  count-put_row p r old (x ∷ t) h = elim (Bool-cases (str_eq (key x) (key r))) [
    | inl e ↦ ground (arith, e)
    | inr e ↦ ground (arith, e, count-put_row p r old t)
  ]

  get_row-none :
      (x y : A) (t : List A) (p : A → Bool)
      → get_row (key y) t ≡ none
      → find p t ≡ some x
      → key x ≢ key y
  unfolding get_row find
  get_row-none x y [] p h f = cc
  get_row-none x y (z ∷ t) p h f = ground (arith, get_row-none x y t p, eq_iff (key z) (key y))

  pub get_row-find :
      (p : A → Bool) (t : List A) (x : A)
      → UniqueKeys t
      → find p t ≡ some x
      → get_row (key x) t ≡ some x
  unfolding get_row find
  get_row-find p [] x u h = cc
  get_row-find p (y ∷ t) x u h =
      ground (arith, get_row-find p t x u.1, get_row-none x y t p u.0, eq_iff (key y) (key x))

  pub UniqueKeys-put_row : (r : A) (t : List A) → UniqueKeys t → UniqueKeys (put_row r t)
  unfolding put_row get_row
  UniqueKeys-put_row r [] u = (refl, tt)
  UniqueKeys-put_row r (x ∷ t) u = elim (Bool-cases (str_eq (key x) (key r))) [
    | inl e ↦ let same = str_eq→≡ (key x) (key r) e in rw e (rw same at u.0, u.1)
    | inr e ↦ rw e (
      ground (arith, get_row-put_row r (key x) t, eq_iff (key r) (key x), eq_iff (key x) (key r)),
      UniqueKeys-put_row r t u.1,
    )
  ]

module _ {ℓ} {A : Type ℓ} where
  pub count-find-none :
      (p q : A → Bool) (t : List A)
      → ((x : A) → p x ≡ true → q x ≡ true)
      → find q t ≡ none
      → count p t ≡ 0
  unfolding count find
  count-find-none p q [] i h = refl
  count-find-none p q (x ∷ t) i h = ground (arith, i x, count-find-none p q t i)

module _ {ℓ} {A : Type ℓ} (key : A → String) where
  pub get_row-append :
      (k : String) (t : List A) (x : A)
      → get_row key k t ≡ none
      → get_row key k (t ++ x ∷ []) ≡ (if str_eq (key x) k then some x else none)
  unfolding get_row
  get_row-append k [] x h = refl
  get_row-append k (y ∷ t) x h = ground (arith, get_row-append k t x)
