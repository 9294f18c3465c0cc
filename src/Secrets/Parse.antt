-- ===== src/Secrets/Parse.antt =====
-- `KeyRing::parse_from_string` of src/secrets.rs: a ring as a text, `1:HEX,2:HEX`. The crate hex is a
-- parameter.
use Prim.Native.Char.{Char, code}
use rocktick.Prelude.{
  ℕ, ◌+◌, ◌-◌, ◌*◌, ◌^◌, String, Bool, ◌&&◌, Option, none, some, List, [], ◌∷◌, leb, ◌==◌, length,
  if◌then◌else◌,
}
use rocktick.Prelude.Int.{ℤ, pos, sub_ℕ}
use rocktick.Prelude.Result.{Result, ok, err, ◌>>=◌, ◌>>◌, ok_or, ensure}
use rocktick.Http.{split_colon}
use rocktick.Secrets.KeyRing.{Bytes, Key, KeyRing}

pub data KeyRingError : Type 0 where
  invalid_entry invalid_id : String → KeyRingError
  unexpected_character : ℕ → KeyRingError
  invalid_key_length : String → ℕ → KeyRingError
  less_than_one_key : KeyRingError

-- What `hex::decode` gives: bytes, a character that is no digit, or another error.
pub data FromHex : Type 0 where
  bytes : Bytes → FromHex
  bad_character : ℕ → FromHex
  bad_length : FromHex

-- `split(',')` gives one piece at least.
abbrev grow : Char → List String → List String
grow c [] = String.◌∷◌ c String.[] ∷ []
grow c (w ∷ ws) = String.◌∷◌ c w ∷ ws

unfoldable pub split_comma : String → List String
split_comma String.[] = String.[] ∷ []
split_comma (String.◌∷◌ c s) =
    let rest = split_comma s in if code c == b',' then String.[] ∷ rest else grow c rest

abbrev both : String × Option String → Option (String × String)
both (before, none) = none
both (before, some rest) = some (before, rest)

unfoldable pub split_once : String → Option (String × String)
split_once s = both (split_colon s)

abbrev pub is_digit : Char → Bool
is_digit c = leb b'0' (code c) && leb (code c) b'9'

-- The number that the digits of a text write after those of `n`.
unfoldable pub read_digits : ℕ → String → Option ℕ
read_digits n String.[] = some n
read_digits n (String.◌∷◌ c s) =
    let rest = read_digits (n * 10 + (code c - b'0')) s in if is_digit c then rest else none

unfoldable pub read_number : String → Option ℕ
read_number String.[] = none
read_number (String.◌∷◌ c s) = read_digits 0 (String.◌∷◌ c s)

abbrev within : ℕ → (ℕ → ℤ) → Option ℕ → Option ℤ
within most f none = none
within most f (some n) = if leb n most then some (f n) else none

-- `i32::from_str`: a sign, or none, and digits.
unfoldable pub parse_i32 : String → Option ℤ
parse_i32 String.[] = none
parse_i32 (String.◌∷◌ c s) =
    if code c == b'-'
    then within (2 ^ 31) (sub_ℕ 0) (read_number s)
    else if code c == b'+'
    then within (2 ^ 31 - 1) pos (read_number s)
    else within (2 ^ 31 - 1) pos (read_number (String.◌∷◌ c s))

module _ (decode : String → FromHex) where
  abbrev pub key_bytes : String → FromHex → Result KeyRingError Bytes
  key_bytes entry (bytes b) = ok b
  key_bytes entry (bad_character c) = err (unexpected_character c)
  key_bytes entry bad_length = err (invalid_entry entry)

  unfoldable pub parse_entry : String → Result KeyRingError Key
  parse_entry entry = do
    (id_str, key_hex) ← ok_or (split_once entry) (invalid_entry entry)
    id ← ok_or (parse_i32 id_str) (invalid_id id_str)
    decoded ← key_bytes entry (decode key_hex)
    ensure (length decoded == 32) (invalid_key_length entry (length decoded))
    ok (record { id = id; key = decoded })

  unfoldable pub parse_entries : List String → Result KeyRingError (List Key)
  parse_entries [] = ok []
  parse_entries (entry ∷ entries) = do
    key ← parse_entry entry
    keys ← parse_entries entries
    ok (key ∷ keys)

  abbrev pub not_empty : List Key → Result KeyRingError KeyRing
  not_empty [] = err less_than_one_key
  not_empty (k ∷ ks) = ok (record { keys = k ∷ ks })

  unfoldable pub parse_from_string : String → Result KeyRingError KeyRing
  parse_from_string s = do keys ← parse_entries (split_comma s); not_empty keys
