-- ===== src/Http.antt =====
-- HTTP headers as rows of text: `"{k}: {v}"` is written by src/api/ and src/broker/job.rs, and split
-- at the first colon and trimmed by these and by src/api/executions.rs.
use Prim.Native.Char.{code}
use rocktick.Prelude.{
  ℕ, ◌≡◌, refl, ap, ◌∙◌, String, Bool, true, false, ◌&&◌, ◌||◌, Option, none, some, List, [], ◌∷◌,
  ◌<>◌, arith, leb, ◌==◌, inl, inr, Bool-cases, if◌then◌else◌,
}
use Prim.Native.String
use rocktick.Prelude.Dict.{Dict, extend}

-- `char::is_whitespace`: White_Space of Unicode.
abbrev pub is_whitespace : ℕ → Bool
is_whitespace c =
    leb 9 c && leb c 13
    || c == 32
    || c == 0x85
    || c == 0xA0
    || c == 0x1680
    || leb 0x2000 c && leb c 0x200A
    || c == 0x2028
    || c == 0x2029
    || c == 0x202F
    || c == 0x205F
    || c == 0x3000

unfoldable pub trim_start : String → String
trim_start String.[] = String.[]
trim_start (String.◌∷◌ c s) =
    let rest = trim_start s in if is_whitespace (code c) then rest else String.◌∷◌ c s

abbrev is_blank : String → Bool
is_blank String.[] = true
is_blank (String.◌∷◌ c s) = false

unfoldable pub trim_end : String → String
trim_end String.[] = String.[]
trim_end (String.◌∷◌ c s) =
    let rest = trim_end s in
    if is_whitespace (code c) && is_blank rest then String.[] else String.◌∷◌ c rest

unfoldable pub trim : String → String
unfolding trim_start trim_end
trim s = trim_end (trim_start s)

-- `splitn(2, ":")`: the text before the first colon, and what follows it.
unfoldable pub split_colon : String → String × Option String
split_colon String.[] = (String.[], none)
split_colon (String.◌∷◌ c s) =
    let rest = split_colon s in
    if code c == b':' then (String.[], some s) else (String.◌∷◌ c rest.0, rest.1)

abbrev trimmed : String × Option String → List (String × String)
trimmed (k, none) = []
trimmed (k, some v) = (trim k, trim v) ∷ []

-- A row that has no colon is dropped.
unfoldable pub parse_header : String → List (String × String)
parse_header s = trimmed (split_colon s)

unfoldable pub parse_from : Dict String → List String → Dict String
unfolding parse_header split_colon trim
parse_from d [] = d
parse_from d (s ∷ rows) = parse_from (extend d (parse_header s)) rows

-- `filter_map` and `collect`: of two rows with one key the later counts.
unfoldable pub parse_headers : List String → Dict String
unfolding parse_from
parse_headers rows = parse_from [] rows

unfoldable pub header_line : String × String → String
header_line (k, v) = k <> ": " <> v

unfoldable pub has_colon : String → Bool
has_colon String.[] = false
has_colon (String.◌∷◌ c s) = if code c == b':' then true else has_colon s

-- The first character of a text that is written before another.
colon_line : (v : String) → ": " <> v ≡ String.◌∷◌ ":" (" " <> v)
colon_line v = String.append.cons ":" " " v

blank_line : (v : String) → " " <> v ≡ String.◌∷◌ " " v
blank_line v = String.append.cons " " String.[] v ∙ ap (String.◌∷◌ " ") (String.append.nil v)

split_colon_line :
    (k v : String) → has_colon k ≡ false → split_colon (k <> ": " <> v) ≡ (k, some (" " <> v))
unfolding split_colon has_colon
split_colon_line String.[] v h = rw (String.append.nil (": " <> v)) (rw (colon_line v) refl)
split_colon_line (String.◌∷◌ c k) v h =
    rw (String.append.cons c k (": " <> v)) (elim (Bool-cases (code c == b':')) [
      | inl e ↦ absurd (ground arith)
      | inr e ↦ rw e (rw (split_colon_line k v (rw e at h)) refl)
    ])

-- A header whose name has no colon is read back, both sides trimmed.
pub parse_header-header_line :
    (k v : String) → has_colon k ≡ false → parse_header (header_line (k, v)) ≡ (trim k, trim v) ∷ []
unfolding parse_header header_line trim trim_start
parse_header-header_line k v h = rw (split_colon_line k v h) (rw (blank_line v) refl)
