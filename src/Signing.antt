-- ===== src/Signing.antt =====
-- `SignatureBuilder::signature_header` of src/signing.rs. HMAC-SHA256 with its hex form, the parser
-- of URLs, the lower case of a text, the digits of a number and the JSON text are parameters.
use rocktick.Prelude.{◌≡◌, String, Option, none, some, ◌<>◌}
use text.Mathlib.TextLemmas.{append-nil, append_assoc}
use rocktick.Prelude.Int.{ℤ}

pub record SigningLib : Type 0 where
  -- `Hmac::new_from_slice`, `update`, `finalize` and `hex::encode`, of a key and a message.
  pub hmac_sha256 : String → String → String
  -- `Url::parse` and `path`.
  pub url_path : String → Option String
  pub to_lowercase : String → String
  pub digits : ℤ → String
  -- The object of `t`, `p` and `v1`.
  pub header_json : ℤ → String → String → String

pub record SignatureBuilder : Type 0 where
  pub signing_key : String
  pub time : ℤ
  pub method : String
  pub url : String
  pub body : Option String

module _ (lib : SigningLib) where
  abbrev body_part : Option String → String
  body_part none = ""
  body_part (some b) = "." <> b

  -- `method.timestamp.pathname.body`, with no dot after the path where there is no body.
  unfoldable pub message : SignatureBuilder → String → String
  message b pathname =
      lib.to_lowercase b.method
      <> ("." <> lib.digits b.time)
      <> ("." <> pathname)
      <> body_part b.body

  -- `none` is the error of a URL that does not parse.
  unfoldable pub signature_header : SignatureBuilder → Option String
  unfolding message
  signature_header b = elim (lib.url_path b.url) [
    | none ↦ none
    | some pathname ↦
        some (lib.header_json b.time pathname (lib.hmac_sha256 b.signing_key (message b pathname)))
  ]

  -- The message does not tell where the path ends: a request whose path ends in a dot and a text has
  -- the code of the request without them that has the text as its body.
  pub message_ambiguous :
      (b : SignatureBuilder) (p text : String)
      → message (record b { body = none }) (p <> "." <> text)
        ≡ message (record b { body = some text }) p
  unfolding message
  message_ambiguous b p text = simp (append-nil, append_assoc)
