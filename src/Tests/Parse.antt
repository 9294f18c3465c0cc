-- ===== src/Tests/Parse.antt =====
-- A ring of two keys as a text.
use rocktick.Prelude.{◌≡◌, refl, String, [], ◌∷◌}
use rocktick.Prelude.Int.{pos, negsuc}
use rocktick.Prelude.Result.{ok}
use rocktick.Http.{has_colon}
use rocktick.Secrets.Parse.{FromHex, bytes, parse_i32, read_number, read_digits, parse_from_string}
use rocktick.Secrets.Reread.{Entry, Readable, has_comma, print, parse_from_string-print}
use rocktick.Tests.Secrets.{repeat}

abbrev decode : String → FromHex
decode text = bytes (repeat 7 32)

abbrev first : Entry
first = record { id_text = "12"; key_hex = "0707"; key = record { id = pos 12; key = repeat 7 32 } }

abbrev second : Entry
second = record {
  id_text = "-3";
  key_hex = "07";
  key = record { id = negsuc 2; key = repeat 7 32 };
}

first-Readable : Readable decode first
unfolding has_comma has_colon parse_i32 read_number read_digits
first-Readable = (refl, refl, refl, refl, refl)

second-Readable : Readable decode second
unfolding has_comma has_colon parse_i32 read_number read_digits
second-Readable = (refl, refl, refl, refl, refl)

parse_from_string-print_example :
    parse_from_string decode (print first (second ∷ []))
    ≡ ok (record { keys = first.key ∷ second.key ∷ [] })
parse_from_string-print_example =
    parse_from_string-print decode first (second ∷ []) first-Readable (second-Readable, tt)
