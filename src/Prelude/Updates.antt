-- ===== src/Prelude/Updates.antt =====
-- Laws of UPDATE … WHERE and DELETE … WHERE on the tables of `Prelude/Tables.antt`.
use rocktick.Prelude.Tests.{if◌then◌else◌, Bool-cases, str_eq→≡, str_eq_refl}
use rocktick.Prelude.Lists.{any, All}
use rocktick.Prelude.Tables.{get_row, update_where, delete_where, UniqueKeys, count, bit}
use Prim.Native.Nat.{◌+◌}
use Prim.Native.String.{String}
use mathlib.Core.Option
use mathlib.Core.Path.{◌≡◌, refl, sym, subst}
use mathlib.Core.Logic.{inl, inr}
use mathlib.Core.Bool.{Bool, true, false}
use mathlib.Core.List.{List, [], ◌∷◌}
use mathlib.Core.Option.{Option, none, some, some-injective}
use native.Mathlib.Omega.{arith}
use text.Mathlib.Text.{◌==◌ as str_eq}
use text.Mathlib.TextEquality.{eq_iff}

module _ {ℓ} {A : Type ℓ} where
  pub All-update_where {κ} :
      (P : A → Type κ) (p : A → Bool) (f : A → A) (t : List A)
      → ((x : A) → P x → p x ≡ true → P (f x))
      → All P t
      → All P (update_where p f t)
  unfolding update_where
  All-update_where P p f [] i a = tt
  All-update_where P p f (x ∷ t) i a = elim (Bool-cases (p x)) [
    | inl e ↦ rw e (i x a.0 e, All-update_where P p f t i a.1)
    | inr e ↦ rw e (a.0, All-update_where P p f t i a.1)
  ]

  pub All-delete_where {κ} :
      (P : A → Type κ) (p : A → Bool) (t : List A) → All P t → All P (delete_where p t)
  unfolding delete_where
  All-delete_where P p [] a = tt
  All-delete_where P p (x ∷ t) a = elim (Bool-cases (p x)) [
    | inl e ↦ rw e (All-delete_where P p t a.1)
    | inr e ↦ rw e (a.0, All-delete_where P p t a.1)
  ]

module _ {ℓ} {A : Type ℓ} (key : A → String) where
  pub get_row-update_where :
      (p : A → Bool) (f : A → A) (k : String) (t : List A)
      → ((x : A) → key (f x) ≡ key x)
      → get_row key k (update_where p f t)
        ≡ Option.map (λ x. if p x then f x else x) (get_row key k t)
  unfolding get_row update_where
  get_row-update_where p f k [] i = refl
  get_row-update_where p f k (x ∷ t) i = ground (arith, get_row-update_where p f k t i, i x)

  pub UniqueKeys-update_where :
      (p : A → Bool) (f : A → A) (t : List A)
      → ((x : A) → key (f x) ≡ key x)
      → UniqueKeys key t
      → UniqueKeys key (update_where p f t)
  unfolding update_where
  UniqueKeys-update_where p f [] i u = tt
  UniqueKeys-update_where p f (x ∷ t) i u = elim (Bool-cases (p x)) [
    | inl e ↦ rw e (
      ground (arith, i x, get_row-update_where p f (key x) t i, u.0),
      UniqueKeys-update_where p f t i u.1,
    )
    | inr e ↦ rw e (
      ground (arith, get_row-update_where p f (key x) t i, u.0),
      UniqueKeys-update_where p f t i u.1,
    )
  ]

  pub get_row-delete_none :
      (p : A → Bool) (k : String) (t : List A)
      → get_row key k t ≡ none
      → get_row key k (delete_where p t) ≡ none
  unfolding get_row delete_where
  get_row-delete_none p k [] h = refl
  get_row-delete_none p k (x ∷ t) h = ground (arith, get_row-delete_none p k t)

  -- A row that the test spares is found as before.
  pub get_row-delete_spared :
      (p : A → Bool) (k : String) (t : List A) (x : A)
      → get_row key k t ≡ some x
      → p x ≡ false
      → get_row key k (delete_where p t) ≡ some x
  unfolding get_row delete_where
  get_row-delete_spared p k [] x h q = cc
  get_row-delete_spared p k (y ∷ t) x h q = ground (arith, get_row-delete_spared p k t x)

  -- A row that the test hits is gone, where the keys are unique.
  pub get_row-delete_hit :
      (p : A → Bool) (k : String) (t : List A) (x : A)
      → UniqueKeys key t
      → get_row key k t ≡ some x
      → p x ≡ true
      → get_row key k (delete_where p t) ≡ none
  unfolding get_row delete_where
  get_row-delete_hit p k [] x u h q = cc
  get_row-delete_hit p k (y ∷ t) x u h q =
      ground
        (arith, get_row-delete_hit p k t x u.1, get_row-delete_none p k t, eq_iff (key y) k, u.0)

  pub UniqueKeys-delete_where :
      (p : A → Bool) (t : List A) → UniqueKeys key t → UniqueKeys key (delete_where p t)
  unfolding delete_where
  UniqueKeys-delete_where p [] u = tt
  UniqueKeys-delete_where p (x ∷ t) u = elim (Bool-cases (p x)) [
    | inl e ↦ rw e (UniqueKeys-delete_where p t u.1)
    | inr e ↦ rw e (get_row-delete_none p (key x) t u.0, UniqueKeys-delete_where p t u.1)
  ]

  pub any-get_row :
      (q : A → Bool) (k : String) (t : List A) (x : A)
      → get_row key k t ≡ some x
      → q x ≡ true
      → any q t ≡ true
  unfolding get_row any
  any-get_row q k [] x h e = cc
  any-get_row q k (y ∷ t) x h e = ground (arith, any-get_row q k t x)

  -- An update of no row is none.
  pub update_where-absent :
      (k : String) (f : A → A) (t : List A)
      → get_row key k t ≡ none
      → update_where (λ x. str_eq (key x) k) f t ≡ t
  unfolding get_row update_where
  update_where-absent k f [] h = refl
  update_where-absent k f (x ∷ t) h = ground (arith, update_where-absent k f t)

  -- An update by key changes a count by the one row that it changes.
  pub count-update_where :
      (p : A → Bool) (k : String) (f : A → A) (t : List A) (x : A)
      → UniqueKeys key t
      → get_row key k t ≡ some x
      → count p (update_where (λ y. str_eq (key y) k) f t) + bit (p x) ≡ count p t + bit (p (f x))
  unfolding get_row update_where count
  count-update_where p k f [] x u h = cc
  count-update_where p k f (y ∷ t) x u h = elim (Bool-cases (str_eq (key y) k)) [
    | inl e ↦
        let same = str_eq→≡ (key y) k e in ground (arith, e, update_where-absent k f t, u.0, same)
    | inr e ↦ ground (arith, e, count-update_where p k f t x u.1)
  ]

  pub All-get_row {κ} :
      (P : A → Type κ) (k : String) (t : List A) (x : A) → All P t → get_row key k t ≡ some x → P x
  unfolding get_row
  All-get_row P k [] x a h = cc
  All-get_row P k (y ∷ t) x a h = elim (Bool-cases (str_eq (key y) k)) [
    | inl e ↦ subst P (some-injective y x (rw e at h)) a.0
    | inr e ↦ All-get_row P k t x a.1 (rw e at h)
  ]

  pub get_row-update_key :
      (j k : String) (f : A → A) (t : List A)
      → ((x : A) → key (f x) ≡ key x)
      → get_row key k (update_where (λ x. str_eq (key x) j) f t)
        ≡ (if str_eq j k then Option.map f (get_row key k t) else get_row key k t)
  unfolding get_row update_where
  get_row-update_key j k f [] i = ground arith
  get_row-update_key j k f (x ∷ t) i =
      ground
        (arith, get_row-update_key j k f t i, i x, eq_iff (key x) j, eq_iff (key x) k, eq_iff j k)

module _ {ℓ} {A : Type ℓ} where
  pub update_where-none :
      (p : A → Bool) (f : A → A) (t : List A) → All (λ x. p x ≡ false) t → update_where p f t ≡ t
  unfolding update_where
  update_where-none p f [] a = refl
  update_where-none p f (x ∷ t) a = ground (arith, a.0, update_where-none p f t a.1)

  pub count-zero : (p : A → Bool) (t : List A) → count p t ≡ 0 → All (λ x. p x ≡ false) t
  unfolding count
  count-zero p [] h = tt
  count-zero p (x ∷ t) h = (ground arith, count-zero p t (omega arith))

module _ {ℓ} {A : Type ℓ} (key : A → String) where
  -- An update by key changes one row.
  pub All-update_key {κ} :
      (P : A → Type κ) (k : String) (f : A → A) (t : List A) (x : A)
      → UniqueKeys key t
      → get_row key k t ≡ some x
      → P (f x)
      → All P t
      → All P (update_where (λ y. str_eq (key y) k) f t)
  unfolding get_row update_where
  All-update_key P k f [] x u h p a = tt
  All-update_key P k f (y ∷ t) x u h p a = elim (Bool-cases (str_eq (key y) k)) [
    | inl e ↦
        let same = str_eq→≡ (key y) k e in
        let gone : get_row key k t ≡ none = ground (arith, u.0, same) in
        rw (e, update_where)
          (rw (update_where-absent key k f t gone)
            (subst (λ z. P (f z)) (sym (some-injective y x (rw e at h))) p, a.1))
    | inr e ↦ rw e (a.0, All-update_key P k f t x u.1 (rw e at h) p a.1)
  ]

  pub get_row-update_key_self :
      (k : String) (f : A → A) (t : List A) (x : A)
      → ((y : A) → key (f y) ≡ key y)
      → get_row key k t ≡ some x
      → get_row key k (update_where (λ y. str_eq (key y) k) f t) ≡ some (f x)
  get_row-update_key_self k f t x i h =
      ground (arith, get_row-update_key key k k f t i, str_eq_refl k)
