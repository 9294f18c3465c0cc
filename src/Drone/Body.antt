-- ===== src/Drone/Body.antt =====
-- How much of a response src/drone/jobs.rs keeps: the bytes up to the limit, or up to an error.
use rocktick.Prelude.{
  ℕ, zero, suc, ◌+◌, ◌-◌, ◌≤◌, ◌≡◌, refl, sym, ap, ◌∙◌, Option, none, some, List, [], ◌∷◌, ◌++◌,
  length, arith, ltb, ◌==◌, inl, inr, Bool-cases,
}
use mathlib.Core.List.{append_assoc, append-nil}
use rocktick.Prelude.Int.{ℤ}
use rocktick.Prelude.Selections.{take}
use rocktick.Secrets.KeyRing.{Bytes}
use rocktick.Drone.Execute.{as_usize, read_from, read_body}

-- The bytes that arrive before the stream ends or fails.
unfoldable pub arrived : List (Option Bytes) → Bytes
arrived [] = []
arrived (none ∷ rest) = []
arrived (some chunk ∷ rest) = chunk ++ arrived rest

abbrev pub limited : Option ℤ → Bytes → Bytes
limited none body = body
limited (some limit) body = take (as_usize limit) body

take_all : (n : ℕ) (xs : Bytes) → length xs ≤ n → take n xs ≡ xs
unfolding take
take_all zero [] h = refl
take_all zero (x ∷ xs) h = absurd (omega arith)
take_all (suc n) [] h = refl
take_all (suc n) (x ∷ xs) h = ap (◌∷◌ x) (take_all n xs (omega arith))

take-append :
    (n : ℕ) (xs ys : Bytes) → length xs ≤ n → take n (xs ++ ys) ≡ xs ++ take (n - length xs) ys
unfolding take
take-append n [] ys h = let same : n - 0 ≡ n = omega arith in rw same refl
take-append zero (x ∷ xs) ys h = absurd (omega arith)
take-append (suc n) (x ∷ xs) ys h =
    let same : suc n - suc (length xs) ≡ n - length xs = omega arith in
    rw same (ap (◌∷◌ x) (take-append n xs ys (omega arith)))

length-append : (xs ys : Bytes) → length (xs ++ ys) ≡ length xs + length ys
length-append [] ys = omega arith
length-append (x ∷ xs) ys = omega (arith, length-append xs ys)

take_within : (n : ℕ) (xs ys : Bytes) → n ≤ length xs → take n (xs ++ ys) ≡ take n xs
unfolding take
take_within zero [] [] h = refl
take_within zero [] (y ∷ ys) h = refl
take_within zero (x ∷ xs) ys h = refl
take_within (suc n) [] ys h = absurd (omega arith)
take_within (suc n) (x ∷ xs) ys h = ap (◌∷◌ x) (take_within n xs ys (omega arith))

read_from-none :
    (body : Bytes) (chunks : List (Option Bytes))
    → read_from none body chunks ≡ body ++ arrived chunks
unfolding read_from arrived
read_from-none body [] = sym (append-nil body)
read_from-none body (none ∷ rest) = sym (append-nil body)
read_from-none body (some chunk ∷ rest) =
    read_from-none (body ++ chunk) rest ∙ append_assoc body chunk (arrived rest)

take_none : (n : ℕ) (xs : Bytes) → n ≡ 0 → take n xs ≡ []
unfolding take
take_none zero xs h = refl
take_none (suc n) xs h = absurd (omega arith)

-- While the body is within the limit, the loop keeps what still arrives up to it.
read_from-take :
    (limit : ℤ) (body : Bytes) (chunks : List (Option Bytes))
    → length body ≤ as_usize limit
    → read_from (some limit) body chunks ≡ take (as_usize limit) (body ++ arrived chunks)
unfolding read_from arrived
read_from-take limit body [] h = rw (append-nil body) (sym (take_all (as_usize limit) body h))
read_from-take limit body (none ∷ rest) h =
    rw (append-nil body) (sym (take_all (as_usize limit) body h))
read_from-take limit body (some chunk ∷ rest) h =
    let room = as_usize limit - length body in
    let more = chunk ++ arrived rest in
    let split = take-append (as_usize limit) body more h in
    let full : room ≡ 0 → body ≡ body ++ take room more =
      λ e. rw (take_none room more e) (sym (append-nil body)) in
    let cut : room ≤ length chunk → body ++ take room chunk ≡ body ++ take room more =
      λ e. ap (λ xs. body ++ xs) (sym (take_within room chunk (arrived rest) e)) in
    let on : length chunk ≤ room
        → read_from (some limit) (body ++ chunk) rest ≡ take (as_usize limit) (body ++ more) =
      λ e.
        read_from-take limit (body ++ chunk) rest (omega (arith, length-append body chunk))
        ∙ ap (take (as_usize limit)) (append_assoc body chunk (arrived rest)) in
    elim (Bool-cases (room == 0)) [
      | inl e ↦ rw e (full (ground arith) ∙ sym split)
      | inr e ↦ elim (Bool-cases (ltb room (length chunk))) [
        | inl f ↦ rw (e, f) (cut (ground arith) ∙ sym split)
        | inr f ↦ rw (e, f) (on (ground arith))
      ]
    ]

-- What is kept of a body are the bytes that arrive, up to the limit if there is one. A negative
-- limit reads as one beyond 2⁶³.
pub read_body-limited :
    (limit : Option ℤ) (chunks : List (Option Bytes))
    → read_body limit chunks ≡ limited limit (arrived chunks)
unfolding read_body
read_body-limited none chunks = read_from-none [] chunks
read_body-limited (some limit) chunks = read_from-take limit [] chunks (omega arith)
