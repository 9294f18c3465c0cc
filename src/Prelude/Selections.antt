-- ===== src/Prelude/Selections.antt =====
-- LIMIT, joins by a list of keys, and how many rows they leave.
use rocktick.Prelude.Tests.{if◌then◌else◌, Bool-cases, str_eq→≡, str_eq_refl}
use rocktick.Prelude.Lists.{length, any, All, insert_by, sort_by, All-map}
use rocktick.Prelude.Tables.{get_row, update_where, delete_where, UniqueKeys, count, bit}
use Prim.Native.Nat.{ℕ, zero, suc, ◌+◌, ◌≤◌}
use Prim.Native.String.{String}
use mathlib.Core.Path.{◌≡◌, refl, sym, subst, ◌∙◌}
use mathlib.Core.Logic.{inl, inr}
use mathlib.Core.Bool.{Bool, true, false, ◌&&◌}
use mathlib.Core.List.{List, [], ◌∷◌, ◌++◌, map}
use mathlib.Core.Option.{some, none, some-injective}
use native.Mathlib.Omega.{arith}
use text.Mathlib.Text.{◌==◌ as str_eq}
use text.Mathlib.TextEquality.{eq_iff}

module _ {ℓ} {A : Type ℓ} where
  -- LIMIT.
  unfoldable pub take : ℕ → List A → List A
  take (suc k) (here ∷ rest) = here ∷ take k rest
  take (suc k) [] = []
  take zero rest = []

  pub length-take-le : (n : ℕ) (xs : List A) → length (take n xs) ≤ n
  unfolding take
  length-take-le zero xs = omega arith
  length-take-le (suc n) [] = omega arith
  length-take-le (suc n) (x ∷ xs) = omega (arith, length-take-le n xs)

  pub All-take {κ} : (P : A → Type κ) (n : ℕ) (xs : List A) → All P xs → All P (take n xs)
  unfolding take
  All-take P zero xs a = tt
  All-take P (suc n) [] a = tt
  All-take P (suc n) (x ∷ xs) a = (a.0, All-take P n xs a.1)

  pub count-take-le : (p : A → Bool) (n : ℕ) (xs : List A) → count p (take n xs) ≤ count p xs
  unfolding take count
  count-take-le p zero xs = omega arith
  count-take-le p (suc n) [] = omega arith
  count-take-le p (suc n) (x ∷ xs) = omega (arith, count-take-le p n xs)

  pub count-length : (p : A → Bool) (xs : List A) → count p xs ≤ length xs
  unfolding count
  count-length p [] = omega arith
  count-length p (x ∷ xs) = ground (arith, count-length p xs)

  pub count-++ : (p : A → Bool) (xs ys : List A) → count p (xs ++ ys) ≡ count p xs + count p ys
  unfolding count
  count-++ p [] ys = omega arith
  count-++ p (x ∷ xs) ys = omega (arith, count-++ p xs ys)

  pub All-++ {κ} : (P : A → Type κ) (xs ys : List A) → All P xs → All P ys → All P (xs ++ ys)
  All-++ P [] ys a b = b
  All-++ P (x ∷ xs) ys a b = (a.0, All-++ P xs ys a.1 b)

  pub count-All_false : (p : A → Bool) (xs : List A) → All (λ x. p x ≡ false) xs → count p xs ≡ 0
  unfolding count
  count-All_false p [] a = refl
  count-All_false p (x ∷ xs) a = ground (arith, a.0, count-All_false p xs a.1)

  pub All-intro {κ} : (P : A → Type κ) (xs : List A) → ((x : A) → P x) → All P xs
  All-intro P [] i = tt
  All-intro P (x ∷ xs) i = (i x, All-intro P xs i)

  -- A list with its elements' lists in a row: CROSS JOIN LATERAL.
  unfoldable pub flat_map {κ} : {B : Type κ} → (B → List A) → List B → List A
  flat_map f [] = []
  flat_map f (x ∷ xs) = f x ++ flat_map f xs

  pub All-flat_map {κ μ} :
      {B : Type κ} (P : A → Type μ) (f : B → List A) (xs : List B)
      → ((x : B) → All P (f x))
      → All P (flat_map f xs)
  unfolding flat_map
  All-flat_map P f [] i = tt
  All-flat_map P f (x ∷ xs) i = All-++ P (f x) (flat_map f xs) (i x) (All-flat_map P f xs i)

  insert_by-count :
      (le : A → A → Bool) (p : A → Bool) (x : A) (xs : List A)
      → count p (insert_by le x xs) ≡ bit (p x) + count p xs
  unfolding count insert_by
  insert_by-count le p x [] = refl
  insert_by-count le p x (y ∷ ys) = elim (Bool-cases (le x y)) [
    | inl e ↦ rw e refl
    | inr e ↦ rw e (omega (arith, insert_by-count le p x ys))
  ]

  pub count-sort_by :
      (le : A → A → Bool) (p : A → Bool) (xs : List A) → count p (sort_by le xs) ≡ count p xs
  unfolding count sort_by
  count-sort_by le p [] = refl
  count-sort_by le p (x ∷ xs) =
      omega (arith, insert_by-count le p x (sort_by le xs), count-sort_by le p xs)

module _ {ℓ} {A : Type ℓ} (key : A → String) where
  -- A row that its key finds.
  abbrev pub Row : List A → A → Type ℓ
  Row t x = get_row key (key x) t ≡ some x

  Row-cons : (y x : A) (t : List A) → get_row key (key y) t ≡ none → Row t x → Row (y ∷ t) x
  unfolding get_row
  Row-cons y x t n r = ground (arith, eq_iff (key y) (key x))

  -- With unique keys every row is found by its own.
  pub All-Row : (t : List A) → UniqueKeys key t → All (Row t) t
  unfolding get_row
  All-Row [] u = tt
  All-Row (x ∷ t) u = (
    rw (str_eq_refl (key x)) refl,
    All-map (Row t) (Row (x ∷ t)) t (λ y r. Row-cons x y t u.0 r) (All-Row t u.1),
  )

  abbrev pub is_among : List A → A → Bool
  is_among rows x = any (λ c. str_eq (key c) (key x)) rows

  count_absent :
      (p : A → Bool) (k : String) (t : List A)
      → get_row key k t ≡ none
      → count (λ x. str_eq k (key x) && p x) t ≡ 0
  unfolding get_row count
  count_absent p k [] h = refl
  count_absent p k (x ∷ t) h =
      ground (arith, eq_iff (key x) k, eq_iff k (key x), count_absent p k t)

  count_one :
      (p : A → Bool) (c : A) (t : List A)
      → UniqueKeys key t
      → Row t c
      → count (λ x. str_eq (key c) (key x) && p x) t ≤ bit (p c)
  unfolding get_row count
  count_one p c [] u r = cc
  count_one p c (x ∷ t) u r = elim (Bool-cases (str_eq (key x) (key c))) [
    | inl e ↦
        let same = str_eq→≡ (key x) (key c) e in
        ground (arith, e, same, count_absent p (key c) t, u.0)
    | inr e ↦ ground (arith, e, eq_iff (key x) (key c), eq_iff (key c) (key x), count_one p c t u.1)
  ]

  count-or :
      (p q r : A → Bool)
      → ((x : A) → bit (r x) ≤ bit (p x) + bit (q x))
      → (t : List A) → count r t ≤ count p t + count q t
  unfolding count
  count-or p q r i [] = omega arith
  count-or p q r i (x ∷ t) = omega (arith, i x, count-or p q r i t)

  -- Of the rows that a list of rows names, no more pass a test than of the list.
  pub count-among-le :
      (p : A → Bool) (t rows : List A)
      → UniqueKeys key t
      → All (Row t) rows
      → count (λ x. is_among rows x && p x) t ≤ count p rows
  unfolding count any
  count-among-le p t [] u a =
      omega (arith, count-All_false (λ x. false && p x) t (All-intro _ t (λ x. refl)))
  count-among-le p t (c ∷ rows) u a = omega (
    arith,
    count-or (λ x. str_eq (key c) (key x) && p x) (λ x. is_among rows x && p x)
        (λ x. is_among (c ∷ rows) x && p x) (λ x. ground arith) t,
    count_one p c t u a.0,
    count-among-le p t rows u a.1,
  )

  -- The row that a list of the table's rows names is on the list.
  pub among-Row {κ} :
      (P : A → Type κ) (t rows : List A) (x : A)
      → Row t x
      → All (Row t) rows
      → All P rows
      → is_among rows x ≡ true
      → P x
  unfolding any
  among-Row P t [] x r a b h = cc
  among-Row P t (c ∷ rows) x r a b h = elim (Bool-cases (str_eq (key c) (key x))) [
    | inl e ↦
        let same = str_eq→≡ (key c) (key x) e in
        let here : get_row key (key x) t ≡ some c =
          subst (λ k. get_row key k t ≡ some c) same a.0 in
        subst P (some-injective c x (sym here ∙ r)) b.0
    | inr e ↦ among-Row P t rows x r a.1 b.1 (rw e at h)
  ]

module _ {ℓ} {A : Type ℓ} where
  -- What an update adds to a count, row by row.
  pub count-update_by :
      (p q r : A → Bool) (f : A → A) (t : List A)
      → All (λ x. bit (p (if q x then f x else x)) ≡ bit (p x) + bit (r x)) t
      → count p (update_where q f t) ≡ count p t + count r t
  unfolding count update_where
  count-update_by p q r f [] a = refl
  count-update_by p q r f (x ∷ t) a = omega (arith, a.0, count-update_by p q r f t a.1)

  -- What an update takes from a count.
  pub count-update_less :
      (p q r : A → Bool) (f : A → A) (t : List A)
      → All (λ x. bit (p (if q x then f x else x)) + bit (r x) ≡ bit (p x)) t
      → count p (update_where q f t) + count r t ≡ count p t
  unfolding count update_where
  count-update_less p q r f [] a = refl
  count-update_less p q r f (x ∷ t) a = omega (arith, a.0, count-update_less p q r f t a.1)

module _ {ℓ κ} {A : Type ℓ} {B : Type κ} where
  pub All-flat_map_of {μ ν} :
      (P : B → Type μ) (Q : A → Type ν) (f : A → List B) (xs : List A)
      → ((x : A) → Q x → All P (f x))
      → All Q xs
      → All P (flat_map f xs)
  unfolding flat_map
  All-flat_map_of P Q f [] i a = tt
  All-flat_map_of P Q f (x ∷ xs) i a =
      All-++ P (f x) (flat_map f xs) (i x a.0) (All-flat_map_of P Q f xs i a.1)

  pub All-map_of {μ} :
      (P : B → Type μ) (f : A → B) (xs : List A) → All (λ x. P (f x)) xs → All P (map f xs)
  All-map_of P f [] a = tt
  All-map_of P f (x ∷ xs) a = (a.0, All-map_of P f xs a.1)

module _ {ℓ} {A : Type ℓ} where
  -- What a DELETE leaves.
  pub All-delete_where_spared :
      (p : A → Bool) (t : List A) → All (λ x. p x ≡ false) (delete_where p t)
  unfolding delete_where
  All-delete_where_spared p [] = tt
  All-delete_where_spared p (x ∷ t) = elim (Bool-cases (p x)) [
    | inl e ↦ rw e (All-delete_where_spared p t)
    | inr e ↦ rw e (e, All-delete_where_spared p t)
  ]
