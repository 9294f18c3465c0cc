-- ===== src/Secrets/KeyRing.antt =====
-- `Key` and `KeyRing` of src/secrets.rs: the lookup of a master key and the choice of the newest.
use rocktick.Prelude.{
  ℕ, ◌≡◌, ◌≢◌, refl, ◌∙◌, subst, ◌⊎◌, inl, inr, Option, none, some, List, [], ◌∷◌, arith, find, All,
  if◌then◌else◌,
}
use rocktick.Prelude.Int.{ℤ, ltb_ℤ, eqb_ℤ, ◌≤ℤ◌, eqb_ℤ_iff}

-- The bytes of a key, nonce or cipher text.
abbrev pub Bytes : Type 0
Bytes = List ℕ

pub record Key : Type 0 where
  pub id : ℤ
  pub key : Bytes

pub record KeyRing : Type 0 where
  pub keys : List Key

unfoldable pub get : KeyRing → ℤ → Option Key
get ring id = find (λ k. eqb_ℤ k.id id) ring.keys

-- One comparison of `max_by_key`: of two equal ids the later wins.
newer : Key → Key → Key
newer best k = if ltb_ℤ k.id best.id then best else k

max_from : Key → List Key → Key
unfolding newer
max_from best [] = best
max_from best (k ∷ ks) = max_from (newer best k) ks

max_of : List Key → Option Key
unfolding max_from
max_of [] = none
max_of (k ∷ ks) = some (max_from k ks)

-- `none` is the panic of `expect`.
unfoldable pub max : KeyRing → Option Key
unfolding max_of
max ring = max_of ring.keys

-- No id occurs twice.
abbrev pub Fresh : ℤ → List Key → Type 0
Fresh i = All (λ k. k.id ≢ i)

abbrev pub Distinct : List Key → Type 0
Distinct [] = Unit {0}
Distinct (k ∷ ks) = Fresh k.id ks × Distinct ks

abbrev pub Has : Key → List Key → Type 0
Has m [] = ⊥
Has m (k ∷ ks) = (m ≡ k) ⊎ Has m ks

All-le_trans :
    (a b : ℤ) (ks : List Key) → a ≤ℤ b → All (λ k. k.id ≤ℤ a) ks → All (λ k. k.id ≤ℤ b) ks
All-le_trans a b [] h all = tt
All-le_trans a b (k ∷ ks) h all = (omega arith, All-le_trans a b ks h all.1)

newer-ge : (best k : Key) → (best.id ≤ℤ (newer best k).id) × (k.id ≤ℤ (newer best k).id)
unfolding newer
newer-ge best k = ground arith

newer-cases : (best k : Key) → (newer best k ≡ best) ⊎ (newer best k ≡ k)
unfolding newer
newer-cases best k = ground arith

max_from-ge : (best : Key) (ks : List Key) → All (λ k. k.id ≤ℤ (max_from best ks).id) (best ∷ ks)
unfolding max_from
max_from-ge best [] = (omega arith, tt)
max_from-ge best (k ∷ ks) =
    let r = max_from-ge (newer best k) ks in
    let n = newer-ge best k in (omega arith, (omega arith, r.1))

max_from-Has : (best : Key) (ks : List Key) → Has (max_from best ks) (best ∷ ks)
unfolding max_from
max_from-Has best [] = inl refl
max_from-Has best (k ∷ ks) = place (max_from-Has (newer best k) ks) (newer-cases best k)
  where
    place :
        {m : Key}
        → Has m (newer best k ∷ ks)
        → (newer best k ≡ best) ⊎ (newer best k ≡ k)
        → Has m (best ∷ k ∷ ks)
    place (inr h) _ = inr (inr h)
    place (inl e) (inl n) = inl (e ∙ n)
    place (inl e) (inr n) = inr (inl (e ∙ n))

Fresh-Has : (m : Key) (i : ℤ) (ks : List Key) → Fresh i ks → Has m ks → m.id ≢ i
Fresh-Has m i [] f h = elim h [ ]
Fresh-Has m i (k ∷ ks) f (inl e) = rw e f.0
Fresh-Has m i (k ∷ ks) f (inr h) = Fresh-Has m i ks f.1 h

find-Has :
    (m : Key) (ks : List Key) → Has m ks → Distinct ks → find (λ k. eqb_ℤ k.id m.id) ks ≡ some m
unfolding find
find-Has m [] h d = elim h [ ]
find-Has m (k ∷ ks) (inl e) d = rw e (ground arith)
find-Has m (k ∷ ks) (inr h) d =
    ground (arith, Fresh-Has m k.id ks d.0 h, eqb_ℤ_iff k.id m.id, find-Has m ks h d.1)

max_of-ge : (ks : List Key) (m : Key) → max_of ks ≡ some m → All (λ k. k.id ≤ℤ m.id) ks
unfolding max_of
max_of-ge [] m h = cc
max_of-ge (k ∷ ks) m h =
    let e : max_from k ks ≡ m = ground arith in
    subst (λ x. All (λ j. j.id ≤ℤ x.id) (k ∷ ks)) e (max_from-ge k ks)

max_of-Has : (ks : List Key) (m : Key) → max_of ks ≡ some m → Has m ks
unfolding max_of
max_of-Has [] m h = cc
max_of-Has (k ∷ ks) m h =
    let e : max_from k ks ≡ m = ground arith in subst (λ x. Has x (k ∷ ks)) e (max_from-Has k ks)

-- The newest key bounds every id of the ring.
pub max_ge : (ring : KeyRing) (m : Key) → max ring ≡ some m → All (λ k. k.id ≤ℤ m.id) ring.keys
unfolding max
max_ge ring m h = max_of-ge ring.keys m h

-- Where the ids are distinct, the newest key is found again by its id.
pub get-max :
    (ring : KeyRing) (m : Key) → Distinct ring.keys → max ring ≡ some m → get ring m.id ≡ some m
unfolding max get
get-max ring m d h = find-Has m ring.keys (max_of-Has ring.keys m h) d

-- Of two keys with one id the last is the newest, and the first is the one that the id names.
pub get-max_duplicate :
    (a b : Key)
    → a.id ≡ b.id
    → let ring : KeyRing = record { keys = a ∷ b ∷ [] } in
      (max ring ≡ some b) × (get ring b.id ≡ some a)
unfolding max get newer find
get-max_duplicate a b e = (ground arith, ground arith)

-- A ring that has a key has a newest one.
pub max-some : (k : Key) (ks : List Key) → (m : Key) × (max (record { keys = k ∷ ks }) ≡ some m)
unfolding max max_of
max-some k ks = (max_from k ks, refl)
