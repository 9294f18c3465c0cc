-- ===== src/Secrets/Reread.antt =====
-- A ring of keys that is written as a text, `1:HEX,2:HEX`, is read back by
-- `KeyRing::parse_from_string` of src/secrets.rs.
use Prim.Native.Char.{code}
use Prim.Native.String
use rocktick.Prelude.{
  ◌≡◌, refl, ap, ◌∙◌, subst, String, Bool, true, false, some, List, [], ◌∷◌, ◌<>◌, map, All, arith,
  ◌==◌, length, inl, inr, Bool-cases, if◌then◌else◌,
}
use rocktick.Prelude.Result.{ok, >>=-eq-ok, ok_or, ensure, ensure_holds}
use rocktick.Http.{split_colon, has_colon}
use rocktick.Secrets.KeyRing
use rocktick.Secrets.KeyRing.{Bytes, Key, KeyRing, max-some}
use rocktick.Secrets.Parse.{
  FromHex, bytes, key_bytes, not_empty, invalid_entry, invalid_id, invalid_key_length, split_comma,
  split_once, parse_i32, parse_entry, parse_entries, parse_from_string,
}

unfoldable pub has_comma : String → Bool
has_comma String.[] = false
has_comma (String.◌∷◌ c s) = if code c == b',' then true else has_comma s

-- A key with its id as a text and its bytes as hexadecimal digits.
pub record Entry : Type 0 where
  pub id_text : String
  pub key_hex : String
  pub key : Key

abbrev pub print_entry : Entry → String
print_entry e = e.id_text <> ":" <> e.key_hex

unfoldable pub print : Entry → List Entry → String
print e [] = print_entry e
print e (f ∷ es) = print_entry e <> "," <> print f es

abbrev pub Readable : (String → FromHex) → Entry → Type 0
Readable decode e =
    (has_comma (print_entry e) ≡ false)
    × (has_colon e.id_text ≡ false)
    × (parse_i32 e.id_text ≡ some e.key.id)
    × (decode e.key_hex ≡ bytes e.key.key)
    × (length e.key.key ≡ 32)

comma_line : (v : String) → "," <> v ≡ String.◌∷◌ "," v
comma_line v = String.append.cons "," String.[] v ∙ ap (String.◌∷◌ ",") (String.append.nil v)

colon_line : (v : String) → ":" <> v ≡ String.◌∷◌ ":" v
colon_line v = String.append.cons ":" String.[] v ∙ ap (String.◌∷◌ ":") (String.append.nil v)

split_comma_plain : (w : String) → has_comma w ≡ false → split_comma w ≡ w ∷ []
unfolding split_comma has_comma
split_comma_plain String.[] h = refl
split_comma_plain (String.◌∷◌ c w) h = elim (Bool-cases (code c == b',')) [
  | inl e ↦ absurd (ground arith)
  | inr e ↦ rw e (rw (split_comma_plain w (rw e at h)) refl)
]

split_comma_line :
    (w s : String) → has_comma w ≡ false → split_comma (w <> "," <> s) ≡ w ∷ split_comma s
unfolding split_comma has_comma
split_comma_line String.[] s h = rw (String.append.nil ("," <> s)) (rw (comma_line s) refl)
split_comma_line (String.◌∷◌ c w) s h =
    rw (String.append.cons c w ("," <> s)) (elim (Bool-cases (code c == b',')) [
      | inl e ↦ absurd (ground arith)
      | inr e ↦ rw e (rw (split_comma_line w s (rw e at h)) refl)
    ])

split_colon_line : (k v : String) → has_colon k ≡ false → split_colon (k <> ":" <> v) ≡ (k, some v)
unfolding split_colon has_colon
split_colon_line String.[] v h = rw (String.append.nil (":" <> v)) (rw (colon_line v) refl)
split_colon_line (String.◌∷◌ c k) v h =
    rw (String.append.cons c k (":" <> v)) (elim (Bool-cases (code c == b':')) [
      | inl e ↦ absurd (ground arith)
      | inr e ↦ rw e (rw (split_colon_line k v (rw e at h)) refl)
    ])

module _ (decode : String → FromHex) where
  parse_entry-print :
      (e : Entry) → Readable decode e → parse_entry decode (print_entry e) ≡ ok e.key
  unfolding parse_entry split_once
  parse_entry-print e (_, no_colon, id, hex, size) =
      rw (split_colon_line e.id_text e.key_hex no_colon) (rw id (rw hex (rw size refl)))

  parse_entries-print :
      (e : Entry) (es : List Entry)
      → Readable decode e
      → All (Readable decode) es
      → parse_entries decode (split_comma (print e es)) ≡ ok (e.key ∷ map (λ f. f.key) es)
  unfolding parse_entries print
  parse_entries-print e [] r rs =
      rw (split_comma_plain (print_entry e) r.0) (rw (parse_entry-print e r) refl)
  parse_entries-print e (f ∷ es) r rs =
      rw (split_comma_line (print_entry e) (print f es) r.0)
        (rw (parse_entry-print e r) (rw (parse_entries-print f es rs.0 rs.1) refl))

  -- Keys that are written as entries, one at least, whose texts hold no separator and read as the
  -- ids and the bytes, are read back as the ring of these keys, in their order.
  pub parse_from_string-print :
      (e : Entry) (es : List Entry)
      → Readable decode e
      → All (Readable decode) es
      → parse_from_string decode (print e es) ≡ ok (record { keys = e.key ∷ map (λ f. f.key) es })
  unfolding parse_from_string
  parse_from_string-print e es r rs = rw (parse_entries-print e es r rs) refl

  abbrev pub IsSized : Key → Type 0
  IsSized k = length k.key ≡ 32

  parse_entry-IsSized : (entry : String) (k : Key) → parse_entry decode entry ≡ ok k → IsSized k
  unfolding parse_entry
  parse_entry-IsSized entry k h =
      let ((id_str, key_hex), _, h1) =
        >>=-eq-ok (ok_or (split_once entry) (invalid_entry entry)) _ h in
      let (id, _, h2) = >>=-eq-ok (ok_or (parse_i32 id_str) (invalid_id id_str)) _ h1 in
      let (decoded, _, h3) = >>=-eq-ok (key_bytes decode entry (decode key_hex)) _ h2 in
      let (_, size, h4) =
        >>=-eq-ok (ensure (length decoded == 32) (invalid_key_length entry (length decoded))) _
          h3 in
      let sized : length decoded ≡ 32 = ground (arith, ensure_holds _ _ size) in
      let same : decoded ≡ k.key = ground arith in subst (λ b. length b ≡ 32) same sized

  parse_entries-IsSized :
      (entries : List String) (ks : List Key)
      → parse_entries decode entries ≡ ok ks
      → All IsSized ks
  unfolding parse_entries
  parse_entries-IsSized [] ks h = let same : [] ≡ ks = ground arith in subst (All IsSized) same tt
  parse_entries-IsSized (w ∷ ws) ks h =
      let (k, first, h1) = >>=-eq-ok (parse_entry decode w) _ h in
      let (rest, others, h2) = >>=-eq-ok (parse_entries decode ws) _ h1 in
      let same : k ∷ rest ≡ ks = ground arith in
      subst (All IsSized) same (parse_entry-IsSized w k first, parse_entries-IsSized ws rest others)

  -- What a ring that was read is fit for: its newest key exists, and every key has 32 bytes.
  abbrev pub Fit : KeyRing → Type 0
  Fit ring = ((m : Key) × (KeyRing.max ring ≡ some m)) × All IsSized ring.keys

  not_empty-Fit :
      (ks : List Key) (ring : KeyRing) → not_empty decode ks ≡ ok ring → All IsSized ks → Fit ring
  not_empty-Fit [] ring h sized = cc
  not_empty-Fit (k ∷ ks) ring h sized =
      let same : record { keys = k ∷ ks } ≡ ring = ground arith in
      subst Fit same (max-some k ks, sized)

  pub parse_from_string-Fit :
      (text : String) (ring : KeyRing) → parse_from_string decode text ≡ ok ring → Fit ring
  unfolding parse_from_string
  parse_from_string-Fit text ring h =
      let (ks, read, h1) = >>=-eq-ok (parse_entries decode (split_comma text)) _ h in
      not_empty-Fit ks ring h1 (parse_entries-IsSized (split_comma text) ks read)
