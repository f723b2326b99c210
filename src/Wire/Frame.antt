-- ===== src/Wire/Frame.antt =====
-- Length-prefixed frames: `encode_frame` and `decode_frame` of crates/agent-api/src/codec.rs, which
-- crates/broker-api/src/lib.rs has once more with its own limit. The JSON encoding of a value is
-- serde_json's and a parameter here.
pub mod RoundTrip
use local_search.Prelude.{
  ℕ, zero, suc, ◌+◌, ◌*◌, ◌/◌, ◌%◌, ◌≤◌, ◌<◌, ◌≡◌, refl, ap, Option, none, some, List, [], ◌∷◌,
  ◌++◌, String, length, take, drop, ltb, leb, ◌==◌, not, if◌then◌else◌, Result, ok, err, ◌>>=◌,
  ◌>>◌, reject_if, ok_or, u32_max,
}

-- WireContractError of the Agent; BrokerContractError has the same members
pub data ContractError : Type 0 where
  frame_too_large incomplete_frame invalid_json : ContractError
  unsupported_protocol_version unsupported_codec_version : ContractError
  invalid_request : String → ContractError
  invalid_response : ContractError

-- serde_json::to_vec and serde_json::from_slice at one type; `none` is an error
pub record Json (A : Type 0) : Type 0 where
  pub to_vec : A → Option (List ℕ)
  pub from_slice : List ℕ → Option A

-- u32::to_le_bytes and u32::from_le_bytes, by the number of bytes
unfoldable pub le_bytes : ℕ → ℕ → List ℕ
le_bytes zero value = []
le_bytes (suc k) value = (value % 256) ∷ le_bytes k (value / 256)

unfoldable pub le_value : List ℕ → ℕ
le_value [] = 0
le_value (byte ∷ bytes) = byte + 256 * le_value bytes

-- u32::try_from(n).ok()
abbrev pub try_u32 : ℕ → Option ℕ
try_u32 n = if leb n u32_max then some n else none

module _ {A : Type 0} (maximum : ℕ) (json : Json A) where
  unfoldable pub encode_frame : A → Result ContractError (List ℕ)
  encode_frame value = do
    payload ← ok_or (json.to_vec value) invalid_json
    reject_if (ltb maximum (length payload)) frame_too_large
    size ← ok_or (try_u32 (length payload)) frame_too_large
    ok (le_bytes 4 size ++ payload)

  unfoldable pub decode_frame : List ℕ → Result ContractError A
  decode_frame frame = do
    reject_if (ltb (length frame) 4) incomplete_frame
    let size = le_value (take 4 frame)
    reject_if (ltb maximum size) frame_too_large
    let payload = drop 4 frame
    reject_if (not (length payload == size)) incomplete_frame
    ok_or (json.from_slice payload) invalid_json
