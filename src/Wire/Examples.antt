-- ===== src/Wire/Examples.antt =====
-- The theorems on frames at concrete inputs.
use local_search.Prelude.{ℕ, ◌≤◌, ◌≡◌, ◌↔◌, refl, some, List, [], ◌∷◌, length, ok, arith}
use local_search.Wire.Agent
use local_search.Wire.Broker
use local_search.Wire.Frame.{Json, le_bytes, encode_frame, decode_frame}
use local_search.Wire.Frame.RoundTrip.{framed, decode-encode, decode_frame_sound}

-- An encoding that stands for serde_json's: bytes as they are.
abbrev verbatim : Json (List ℕ)
verbatim = record { to_vec = λ v. some v; from_slice = λ bytes. some bytes }

abbrev value : List ℕ
value = 123 ∷ 125 ∷ []

abbrev frame : List ℕ
frame = 2 ∷ 0 ∷ 0 ∷ 0 ∷ 123 ∷ 125 ∷ []

same_payload : (payload : List ℕ) → some value ≡ some payload → some payload ≡ some value
same_payload payload e = cc

decode-encode_example : decode_frame 1048576 verbatim frame ≡ ok value
unfolding encode_frame le_bytes
decode-encode_example = decode-encode 1048576 verbatim value frame same_payload refl

decode_frame_sound_example :
    (payload : List ℕ) × (frame ≡ framed payload)
    × (length payload ≤ 1048576)
    × (some payload ≡ some value)
decode_frame_sound_example =
    decode_frame_sound 1048576 verbatim frame value (omega arith) decode-encode_example

abbrev lookup : Agent.AgentRequest
lookup = record {
  protocol_version = 2;
  codec_version = 1;
  request_id = 114 ∷ 49 ∷ [];
  deadline_ms = 0;
  operation = Agent.RequestOperation.catalog_get_items (7 ∷ 8 ∷ []);
}

validate_request_iff_example : (Agent.validate lookup ≡ ok tt) ↔ Agent.Bounds.IsAcceptable lookup
validate_request_iff_example = Agent.Bounds.validate_request_iff lookup

abbrev page : Broker.BrokerRequest
page = record {
  protocol_version = 1;
  codec_version = 1;
  request_id = 114 ∷ 50 ∷ [];
  deadline_ms = 100;
  operation = Broker.BrokerOperation.read_scan_page 3 256;
}

validate_broker_request_iff_example :
    (Broker.validate page ≡ ok tt) ↔ Broker.Bounds.IsAcceptable page
validate_broker_request_iff_example = Broker.Bounds.validate_broker_request_iff page
