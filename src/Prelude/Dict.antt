-- ===== src/Prelude/Dict.antt =====
-- `HashMap<String, V>` and `HashSet<String>` as lists of entries, each key once.
use Prim.Native.String.{String}
use mathlib.Core.Path.{◌≡◌, refl}
use mathlib.Core.Bool.{Bool, true, false}
use mathlib.Core.Option.{Option, none, some}
use mathlib.Core.List.{List, [], ◌∷◌}
use native.Mathlib.Omega.{arith}
use text.Mathlib.Text.{◌==◌ as str_eq}
use text.Mathlib.TextEquality.{eq_iff}
use rocktick.Prelude.Tests.{if◌then◌else◌}

abbrev pub Dict {ℓ} : Type ℓ → Type ℓ
Dict V = List (String × V)

module _ {ℓ} {V : Type ℓ} where
  unfoldable pub lookup : String → Dict V → Option V
  lookup k [] = none
  lookup k ((j, v) ∷ d) = if str_eq j k then some v else lookup k d

  unfoldable pub insert : String → V → Dict V → Dict V
  insert k v [] = (k, v) ∷ []
  insert k v ((j, w) ∷ d) = if str_eq j k then (k, v) ∷ d else (j, w) ∷ insert k v d

  unfoldable pub remove : String → Dict V → Dict V
  remove k [] = []
  remove k ((j, w) ∷ d) = let rest = remove k d in if str_eq j k then rest else (j, w) ∷ rest

  -- `for (name, v) in new { d.insert(name, v) }`.
  unfoldable pub extend : Dict V → Dict V → Dict V
  extend d [] = d
  extend d ((k, v) ∷ new) = extend (insert k v d) new

  abbrev pub keys : Dict V → List String
  keys [] = []
  keys ((k, v) ∷ d) = k ∷ keys d

  pub lookup-insert :
      (k j : String) (v : V) (d : Dict V)
      → lookup j (insert k v d) ≡ (if str_eq k j then some v else lookup j d)
  unfolding lookup insert
  lookup-insert k j v [] = refl
  lookup-insert k j v ((i, w) ∷ d) =
      ground (arith, eq_iff k j, eq_iff i k, eq_iff i j, lookup-insert k j v d)

  pub lookup-remove :
      (k j : String) (d : Dict V)
      → lookup j (remove k d) ≡ (if str_eq k j then none else lookup j d)
  unfolding lookup remove
  lookup-remove k j [] = ground arith
  lookup-remove k j ((i, w) ∷ d) =
      ground (arith, eq_iff k j, eq_iff i k, eq_iff i j, lookup-remove k j d)

unfoldable pub contains : String → List String → Bool
contains k [] = false
contains k (x ∷ xs) = if str_eq x k then true else contains k xs

-- `HashSet::insert`.
unfoldable pub add : String → List String → List String
unfolding contains
add k xs = if contains k xs then xs else k ∷ xs

-- `HashSet::extend`.
unfoldable pub add_all : List String → List String → List String
add_all [] xs = xs
add_all (k ∷ ks) xs = add_all ks (add k xs)

-- `HashSet::remove`.
unfoldable pub discard : String → List String → List String
discard k [] = []
discard k (x ∷ xs) = let rest = discard k xs in if str_eq x k then rest else x ∷ rest

pub contains-add :
    (k j : String) (xs : List String)
    → contains j (add k xs) ≡ (if str_eq k j then true else contains j xs)
unfolding contains add
contains-add k j xs = add_lem k j xs (contains k xs) refl
  where
    found :
        (j k : String) (xs : List String)
        → contains k xs ≡ true
        → str_eq k j ≡ true
        → contains j xs ≡ true
    found j k [] h e = cc
    found j k (x ∷ xs) h e = ground (arith, eq_iff k j, found j k xs)

    add_lem :
        (k j : String) (xs : List String) (b : Bool)
        → contains k xs ≡ b
        → contains j (if b then xs else k ∷ xs) ≡ (if str_eq k j then true else contains j xs)
    add_lem k j xs true h = ground (arith, found j k xs h)
    add_lem k j xs false h = refl
