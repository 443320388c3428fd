-- ===== src/Log/Records.antt =====
-- relay/records.py: the record, its checks at construction and its checksum. Bytes and code points
-- are numbers; SHA-256 is not in the repository, so the digest is a parameter.
pub mod Checksum
use event_stream_broker.Prelude.{
  ℕ, ◌+◌, ◌*◌, ◌/◌, ◌%◌, Bool, true, false, not, ◌&&◌, ◌||◌, Option, none, some, List, [], ◌∷◌,
  ◌++◌, ltb, leb, if◌then◌else◌, length, nat_beq, ◌==◌, bytes_eq, bytes_beq,
}
use event_stream_broker.Failure.{Result, ok, err, invalid, fail_if, ◌>>◌}

-- bytes, and str as its code points
abbrev pub Bytes : Type 0
Bytes = List ℕ

abbrev pub Text : Type 0
Text = List ℕ

pub record Record : Type 0 where
  pub value : Bytes
  pub key : Option Bytes
  pub headers : List (Text × Text)
  pub checksum : Bytes

abbrev pub max_value_bytes : ℕ
max_value_bytes = 1_000_000

-- `str.strip` removes these code points.
is_space : ℕ → Bool
is_space c =
    (leb 9 c && leb c 13)
    || (leb 28 c && leb c 32)
    || nat_beq c 133
    || nat_beq c 160
    || nat_beq c 5760
    || (leb 8192 c && leb c 8202)
    || nat_beq c 8232
    || nat_beq c 8233
    || nat_beq c 8239
    || nat_beq c 8287
    || nat_beq c 12288

-- `not name.strip()`
unfoldable pub is_blank : Text → Bool
unfolding is_space
is_blank [] = true
is_blank (c ∷ cs) = is_space c && is_blank cs

-- `str.encode()`: UTF-8 of one code point; a lone surrogate does not occur in a header.
encode_char : ℕ → Bytes
encode_char c =
    if ltb c 128
    then c ∷ []
    else if ltb c 2048
    then (192 + c / 64) ∷ (128 + c % 64) ∷ []
    else if ltb c 65536
    then (224 + c / 4096) ∷ (128 + c / 64 % 64) ∷ (128 + c % 64) ∷ []
    else (240 + c / 262144) ∷ (128 + c / 4096 % 64) ∷ (128 + c / 64 % 64) ∷ (128 + c % 64) ∷ []

unfoldable pub encode : Text → Bytes
unfolding encode_char
encode [] = []
encode (c ∷ cs) = encode_char c ++ encode cs

-- `self.key or b""`
abbrev pub key_bytes : Option Bytes → Bytes
key_bytes none = []
key_bytes (some k) = k

unfoldable pub header_parts : List (Text × Text) → List Bytes
header_parts [] = []
header_parts ((name, value) ∷ hs) = encode name ∷ encode value ∷ header_parts hs

-- `b"|".join(parts)`
unfoldable pub join_bar : List Bytes → Bytes
join_bar [] = []
join_bar (p ∷ []) = p
join_bar (p ∷ q ∷ ps) = p ++ b'|' ∷ join_bar (q ∷ ps)

-- What `body_digest` hands to the digest.
unfoldable pub payload : Bytes → Option Bytes → List (Text × Text) → Bytes
unfolding header_parts join_bar
payload value key headers = join_bar (value ∷ key_bytes key ∷ header_parts headers)

unfoldable pub unnamed_header : List (Text × Text) → Bool
unfolding is_blank
unnamed_header [] = false
unnamed_header ((name, _) ∷ hs) = is_blank name || unnamed_header hs

unfoldable pub header_bytes : List (Text × Text) → ℕ
header_bytes [] = 0
header_bytes ((name, value) ∷ hs) = length name + length value + header_bytes hs

unfoldable pub size_bytes : Record → ℕ
unfolding header_bytes
size_bytes r = length r.value + length (key_bytes r.key) + header_bytes r.headers

module _ (digest : Bytes → Bytes) where
  unfoldable pub body_digest : Record → Bytes
  body_digest r = digest (payload r.value r.key r.headers)

  -- `Record(value, key, headers)`, with its `__post_init__`
  unfoldable pub make_record : Bytes → Option Bytes → List (Text × Text) → Result Record
  make_record value key headers = do
    fail_if (nat_beq (length value) 0) invalid
    fail_if (ltb max_value_bytes (length value)) invalid
    fail_if (unnamed_header headers) invalid
    ok (record {
      value = value;
      key = key;
      headers = headers;
      checksum = digest (payload value key headers);
    })

  unfoldable pub verify : Record → Result (Unit {0})
  unfolding body_digest bytes_beq
  verify r = fail_if (not (r.checksum == body_digest r)) invalid
