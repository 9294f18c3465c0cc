-- ===== src/Tests/Secrets.antt =====
-- Secrets under a ring of two keys, with a cipher that writes the first byte of its key before the
-- message.
use rocktick.Prelude.{
  ℕ, zero, suc, ◌<◌, ◌≡◌, refl, false, Option, none, some, List, [], ◌∷◌, arith, str_eq, ◌==◌,
  if◌then◌else◌, length, find,
}
use rocktick.Prelude.Int.{pos, wrap_i32, ◌+ℤ◌}
use rocktick.Prelude.Result.{ok}
use rocktick.Prelude.Tables.{count, UniqueKeys, get_row}
use rocktick.Scheduler.Run.{scheduling_loop}
use rocktick.Scheduler.KeyRotation
use rocktick.Scheduler.KeyRotation.{Finished, rotation-Finished}
use rocktick.Secrets.KeyRing
use rocktick.Secrets.KeyRing.{Bytes, Key, KeyRing, Distinct, max_ge, get-max, get-max_duplicate}
use rocktick.Secrets.Secret
use rocktick.Secrets.Secret.{Aead, Utf8, Secret}
use rocktick.Secrets.Roundtrip.{decrypt-new, decrypt-rotate}

abbrev pub first_byte : Bytes → ℕ
first_byte [] = 0
first_byte (x ∷ xs) = x

abbrev pub open_with : ℕ → Bytes → Option Bytes
open_with k [] = none
open_with k (x ∷ xs) = if x == k then some xs else none

pub open_with-seal :
    (k : ℕ) (plain cipher : Bytes)
    → some (k ∷ plain) ≡ some cipher
    → open_with k cipher ≡ some plain
open_with-seal k plain cipher h = ground arith

abbrev pub aead : Aead
aead = record {
  encrypt = λ key nonce plain. some (first_byte key ∷ plain);
  decrypt = λ key nonce cipher. open_with (first_byte key) cipher;
  decrypt-encrypt = λ key nonce plain cipher h. open_with-seal (first_byte key) plain cipher h;
}

abbrev pub utf8 : Utf8
utf8 = record {
  as_bytes = λ t. if str_eq t "hello" then 104 ∷ 105 ∷ [] else [];
  from_utf8 = λ b. if length b == 2 then some "hello" else none;
}

abbrev pub repeat : ℕ → ℕ → Bytes
repeat x zero = []
repeat x (suc n) = x ∷ repeat x n

abbrev old_key : Key
old_key = record { id = pos 1; key = repeat 11 32 }

abbrev new_key : Key
new_key = record { id = pos 2; key = repeat 22 32 }

abbrev old_ring : KeyRing
old_ring = record { keys = old_key ∷ [] }

abbrev pub ring : KeyRing
ring = record { keys = old_key ∷ new_key ∷ [] }

abbrev dek : Bytes
dek = repeat 7 32

abbrev nonce : Bytes
nonce = repeat 9 12

abbrev sealed : Secret
sealed = record {
  id = "secret_1";
  master_key_id = pos 1;
  secret_version = pos 1;
  encrypted_dek = 11 ∷ dek;
  encrypted_data = 7 ∷ 104 ∷ 105 ∷ [];
  dek_nonce = nonce;
  data_nonce = nonce;
  algorithm = "AES-256-GCM";
}

abbrev rotated : Secret
rotated = record sealed { master_key_id = pos 2; secret_version = pos 2; encrypted_dek = 22 ∷ dek }

old_ring-Distinct : Distinct old_ring.keys
old_ring-Distinct = ground arith

ring-Distinct : Distinct ring.keys
ring-Distinct = ground arith

old_ring-max : KeyRing.max old_ring ≡ some old_key
unfolding KeyRing.max
old_ring-max = refl

ring-max : KeyRing.max ring ≡ some new_key
unfolding KeyRing.max
ring-max = refl

sealed-rotate : Secret.rotate aead sealed ring ≡ ok rotated
unfolding Secret.rotate KeyRing.max KeyRing.get Secret.to_array wrap_i32 ◌+ℤ◌ find
sealed-rotate = refl

decrypt-new_example :
    (s : Secret) × (Secret.new aead utf8 "secret_1" "hello" ring dek nonce nonce ≡ ok s)
    × (Secret.decrypt aead utf8 s ring ≡ ok "hello")
decrypt-new_example =
    decrypt-new aead utf8 ring new_key "secret_1" "hello" dek nonce nonce (7 ∷ 104 ∷ 105 ∷ [])
      (22 ∷ dek) ring-Distinct ring-max refl refl refl refl refl refl

decrypt-rotate_example :
    Secret.decrypt aead utf8 rotated ring ≡ Secret.decrypt aead utf8 sealed ring
decrypt-rotate_example =
    decrypt-rotate aead utf8 ring new_key sealed rotated ring-Distinct ring-max sealed-rotate

abbrev table : List Secret
table = sealed ∷ record rotated { id = "secret_2" } ∷ []

table-UniqueKeys : UniqueKeys (λ s. s.id) table
unfolding get_row
table-UniqueKeys = (refl, (refl, tt))

table-count : count (KeyRotation.late new_key) table < 2
unfolding count
table-count = omega arith

rotation-Finished_example :
    Finished aead ring new_key ring-max utf8 ring-Distinct table
      (scheduling_loop (KeyRotation.run_once aead ring (λ _. false)) 2 table)
rotation-Finished_example =
    rotation-Finished aead ring new_key ring-max utf8 ring-Distinct table table-UniqueKeys 2
      table-count
