-- ===== src/Core/Ids.antt =====
-- Canonical 128-bit identifiers (crates/core/src/ids.rs). Text is the list of its UTF-8 bytes; an
-- identifier is its sixteen bytes, or the u128 that they spell.
pub mod RoundTrip
use local_search.Prelude.{
  ℕ, String, zero, suc, ◌+◌, ◌-◌, ◌*◌, ◌/◌, ◌%◌, ◌^◌, Bool, ◌&&◌, not, Option, none, some, List, [],
  ◌∷◌, ◌++◌, length, leb, ltb, ◌==◌, if◌then◌else◌, Result, ok, err, ◌>>=◌, ok_or, reject_if, ◌>>◌,
}

abbrev pub hex_length : ℕ
hex_length = 32

-- kind and expected prefix; kind, expected and actual length; kind, offset and byte
pub data IdParseError : Type 0 where
  invalid_prefix : String → List ℕ → IdParseError
  invalid_length : String → ℕ → ℕ → IdParseError
  invalid_hex : String → ℕ → ℕ → IdParseError

unfoldable pub hex_nibble : ℕ → Option ℕ
hex_nibble byte =
    if leb b'0' byte && leb byte b'9'
    then some (byte - b'0')
    else if leb b'a' byte && leb byte b'f'
    then some (byte - b'a' + 10)
    else if leb b'A' byte && leb byte b'F'
    then some (byte - b'A' + 10)
    else none

-- str::strip_prefix
unfoldable pub strip_prefix : List ℕ → List ℕ → Option (List ℕ)
strip_prefix [] input = some input
strip_prefix (p ∷ ps) [] = none
strip_prefix (p ∷ ps) (c ∷ cs) = let rest = strip_prefix ps cs in if p == c then rest else none

-- The loop of `parse_id` from `offset` on: a high and a low digit for each byte.
-- `(high << 4) | low` of two nibbles is `high * 16 + low`.
unfoldable pub decode_hex : String → ℕ → List ℕ → Result IdParseError (List ℕ)
decode_hex kind offset (h ∷ l ∷ encoded) = do
  high ← ok_or (hex_nibble h) (invalid_hex kind offset h)
  low ← ok_or (hex_nibble l) (invalid_hex kind (offset + 1) l)
  decoded ← decode_hex kind (offset + 2) encoded
  ok ((high * 16 + low) ∷ decoded)
decode_hex kind offset _ = ok []

unfoldable pub parse_id : List ℕ → String → List ℕ → Result IdParseError (List ℕ)
parse_id input kind prefix = do
  payload ← ok_or (strip_prefix prefix input) (invalid_prefix kind prefix)
  reject_if (not (length payload == hex_length)) (invalid_length kind hex_length (length payload))
  decode_hex kind 0 payload

-- One digit and the two digits of a byte, as `{byte:02x}` writes them.
unfoldable pub hex_digit : ℕ → ℕ
hex_digit d = if ltb d 10 then b'0' + d else b'a' + (d - 10)

unfoldable pub encode_hex : List ℕ → List ℕ
encode_hex [] = []
encode_hex (byte ∷ bytes) = hex_digit (byte / 16) ∷ hex_digit (byte % 16) ∷ encode_hex bytes

-- Display::fmt
unfoldable pub display : List ℕ → List ℕ → List ℕ
display prefix bytes = prefix ++ encode_hex bytes

-- u128::to_be_bytes, by the number of bytes left
unfoldable pub be_bytes : ℕ → ℕ → List ℕ
be_bytes zero value = []
be_bytes (suc k) value = (value / 256 ^ k % 256) ∷ be_bytes k value

unfoldable pub from_u128 : ℕ → List ℕ
from_u128 value = be_bytes 16 value

-- u128::from_be_bytes
unfoldable pub be_value : ℕ → List ℕ → ℕ
be_value value [] = value
be_value value (byte ∷ bytes) = be_value (value * 256 + byte) bytes

unfoldable pub as_u128 : List ℕ → ℕ
as_u128 bytes = be_value 0 bytes

-- The identities that the other components carry, each as its u128.
abbrev pub VolumeId : Type 0
VolumeId = ℕ

abbrev pub FileId128 : Type 0
FileId128 = ℕ

abbrev pub FileLinkId : Type 0
FileLinkId = ℕ

abbrev pub DocumentId : Type 0
DocumentId = ℕ

pub record FileKey : Type 0 where
  pub volume_id : VolumeId
  pub file_id : FileId128

pub record CatalogIdentity : Type 0 where
  pub object_key : FileKey
  pub file_link_id : FileLinkId
  pub document_id : DocumentId
