-- ===== src/Prelude/Counts.antt =====
-- Counts of rows and sums over them, and how updates change them.
use rocktick.Prelude.Tests.{Bool-cases, str_eq→≡}
use rocktick.Prelude.Lists.{find, any}
use rocktick.Prelude.Tables.{get_row, update_where, UniqueKeys, count, bit}
use Prim.Native.Nat.{ℕ, ◌+◌, ◌≤◌, ◌<◌}
use Prim.Native.String.{String}
use mathlib.Core.Path.{◌≡◌, refl}
use mathlib.Core.Logic.{inl, inr}
use mathlib.Core.Bool.{Bool, true, false}
use mathlib.Core.List.{List, [], ◌∷◌, ◌++◌}
use mathlib.Core.Option.{some}
use native.Mathlib.Omega.{arith}
use text.Mathlib.Text.{◌==◌ as str_eq}
use rocktick.Prelude.Updates.{update_where-absent}

module _ {ℓ} {A : Type ℓ} where
  -- The sum of a number over the rows.
  unfoldable pub total : (A → ℕ) → List A → ℕ
  total m [] = 0
  total m (x ∷ t) = m x + total m t

module _ {ℓ} {A : Type ℓ} (key : A → String) where
  -- An update by key changes a sum by the one row that it changes.
  pub total-update_where :
      (m : A → ℕ) (k : String) (f : A → A) (t : List A) (x : A)
      → UniqueKeys key t
      → get_row key k t ≡ some x
      → total m (update_where (λ y. str_eq (key y) k) f t) + m x ≡ total m t + m (f x)
  unfolding get_row update_where total
  total-update_where m k f [] x u h = cc
  total-update_where m k f (y ∷ t) x u h = elim (Bool-cases (str_eq (key y) k)) [
    | inl e ↦
        let same = str_eq→≡ (key y) k e in
        ground (arith, e, update_where-absent key k f t, u.0, same)
    | inr e ↦ ground (arith, e, total-update_where m k f t x u.1)
  ]

module _ {ℓ} {A : Type ℓ} (p q : A → Bool) (i : (x : A) → q x ≡ true → p x ≡ true) where
  pub count-le : (t : List A) → count q t ≤ count p t
  unfolding count
  count-le [] = omega arith
  count-le (x ∷ t) = ground (arith, i x, count-le t)

  -- A narrower test that fails on a row that was found counts fewer.
  pub count-fewer :
      (f : A → Bool) (t : List A) (x : A)
      → find f t ≡ some x
      → p x ≡ true
      → q x ≡ false
      → count q t < count p t
  unfolding count find
  count-fewer f [] x h a b = cc
  count-fewer f (y ∷ t) x h a b = elim (Bool-cases (f y)) [
    | inl e ↦ ground (arith, e, count-le t)
    | inr e ↦ ground (arith, e, i y, count-fewer f t x)
  ]

module _ {ℓ} {A : Type ℓ} where
  pub count-append :
      (p : A → Bool) (t : List A) (x : A) → count p (t ++ x ∷ []) ≡ count p t + bit (p x)
  unfolding count
  count-append p [] x = omega arith
  count-append p (y ∷ t) x = omega (arith, count-append p t x)

  pub count-any :
      (p q : A → Bool)
      → ((x : A) → p x ≡ true → q x ≡ true)
      → (t : List A) → any q t ≡ false
      → count p t ≡ 0
  unfolding count any
  count-any p q i [] h = refl
  count-any p q i (x ∷ t) h = ground (arith, i x, count-any p q i t)
