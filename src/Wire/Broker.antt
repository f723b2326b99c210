-- ===== src/Wire/Broker.antt =====
-- The broker contract (crates/broker-api/src/lib.rs): metadata-only requests, responses, and the
-- bounds that `validate` checks before a request is dispatched.
pub mod Bounds
use local_search.Prelude.{
  ℕ, Bool, true, false, not, ◌&&◌, ◌||◌, Option, none, some, List, [], ◌∷◌, String, length, ltb,
  ◌==◌, if◌then◌else◌, min, Result, ok, err, ◌>>◌, ◌>>=◌, reject_if,
}
use local_search.Core.Ids.{VolumeId}
use local_search.Core.Models.{Text, FilesystemEvent}
use local_search.Platform.{VolumeDescriptor, ProviderCheckpoint, ChangeBatch, PlatformCapabilities}
use local_search.Wire.Frame.{ContractError, Json}
use local_search.Wire.Frame

abbrev pub broker_protocol_version : ℕ
broker_protocol_version = 1

abbrev pub broker_codec_version : ℕ
broker_codec_version = 1

abbrev pub max_broker_frame_bytes : ℕ
max_broker_frame_bytes = 1048576

abbrev pub max_broker_page_events : ℕ
max_broker_page_events = 256

abbrev pub max_broker_request_id_bytes : ℕ
max_broker_request_id_bytes = 64

abbrev pub default_broker_deadline_ms : ℕ
default_broker_deadline_ms = 5000

abbrev pub max_broker_deadline_ms : ℕ
max_broker_deadline_ms = 30000

pub data ScanMode : Type 0 where
  initial reconcile : ScanMode

pub data BrokerOperation : Type 0 where
  broker_get_capabilities discover_volumes : BrokerOperation
  start_scan : VolumeId → ScanMode → BrokerOperation
  read_scan_page : ℕ → ℕ → BrokerOperation
  cancel_scan : ℕ → BrokerOperation
  read_changes : ProviderCheckpoint → ℕ → BrokerOperation

pub record BrokerRequest : Type 0 where
  pub protocol_version : ℕ  -- u32
  pub codec_version : ℕ  -- u32
  pub request_id : Text
  pub deadline_ms : ℕ  -- u32
  pub operation : BrokerOperation

pub data BrokerOperationName : Type 0 where
  broker_get_capabilities discover_volumes start_scan : BrokerOperationName
  read_scan_page cancel_scan read_changes : BrokerOperationName

pub record BrokerCapabilities : Type 0 where
  pub protocol_versions : List ℕ
  pub codec_versions : List ℕ
  pub allowed_operations : List BrokerOperationName
  pub maximum_frame_bytes : ℕ  -- u32
  pub maximum_page_events : ℕ  -- u16
  pub maximum_active_scans : ℕ  -- u16
  pub provider : PlatformCapabilities

pub record ScanPage : Type 0 where
  pub events : List FilesystemEvent
  pub checkpoint : Option ProviderCheckpoint
  pub complete : Bool
  pub has_more : Bool

pub data BrokerPayload : Type 0 where
  capabilities : BrokerCapabilities → BrokerPayload
  volumes : List VolumeDescriptor → BrokerPayload
  scan_started : ℕ → BrokerPayload
  scan_page : ScanPage → BrokerPayload
  changes : List FilesystemEvent → ChangeBatch → BrokerPayload
  scan_cancelled : ℕ → BrokerPayload

pub data BrokerErrorCode : Type 0 where
  invalid_request unsupported_protocol_version unsupported_codec_version : BrokerErrorCode
  replay_rejected not_found permission_denied unsupported unavailable : BrokerErrorCode
  source_history_gap resource_exhausted deadline_exceeded cancelled internal : BrokerErrorCode

pub record BrokerWireError : Type 0 where
  pub code : BrokerErrorCode
  pub message : String

pub record BrokerResponse : Type 0 where
  pub protocol_version : ℕ  -- u32
  pub request_id : Text
  pub result : Option BrokerPayload
  pub error : Option BrokerWireError

abbrev page_outside : ℕ → Bool
page_outside maximum_events = maximum_events == 0 || ltb max_broker_page_events maximum_events

-- The `match` of `BrokerRequest::validate`; its first arm is a page out of bounds.
unfoldable pub validate_operation : BrokerOperation → Result ContractError (Unit {0})
validate_operation (BrokerOperation.read_scan_page scan_id maximum_events) =
    reject_if (page_outside maximum_events)
      (ContractError.invalid_request "event page exceeds policy")
validate_operation (BrokerOperation.read_changes checkpoint maximum_events) = do
  reject_if (page_outside maximum_events)
      (ContractError.invalid_request "event page exceeds policy")
  reject_if
      (ltb 65536 (length checkpoint.opaque)
        || ltb 64 (length checkpoint.provider_id)
        || length checkpoint.provider_id == 0)
      (ContractError.invalid_request "provider checkpoint exceeds policy")
validate_operation _ = ok tt

unfoldable pub validate : BrokerRequest → Result ContractError (Unit {0})
validate request = do
  reject_if (not (request.protocol_version == broker_protocol_version))
      ContractError.unsupported_protocol_version
  reject_if (not (request.codec_version == broker_codec_version))
      ContractError.unsupported_codec_version
  reject_if
      (length request.request_id == 0
        || ltb max_broker_request_id_bytes (length request.request_id))
      (ContractError.invalid_request "request_id is not bounded")
  reject_if (ltb max_broker_deadline_ms request.deadline_ms)
      (ContractError.invalid_request "deadline exceeds policy")
  validate_operation request.operation

unfoldable pub effective_deadline_ms : BrokerRequest → ℕ
effective_deadline_ms request =
    if request.deadline_ms == 0
    then default_broker_deadline_ms
    else min request.deadline_ms max_broker_deadline_ms

unfoldable pub success : Text → BrokerPayload → BrokerResponse
success request_id payload = record {
  protocol_version = broker_protocol_version;
  request_id = request_id;
  result = some payload;
  error = none;
}

unfoldable pub failure : Text → BrokerErrorCode → String → BrokerResponse
failure request_id code message = record {
  protocol_version = broker_protocol_version;
  request_id = request_id;
  result = none;
  error = some (record { code = code; message = message });
}

abbrev one_arm : Option BrokerPayload → Option BrokerWireError → Result ContractError (Unit {0})
one_arm (some result) none = ok tt
one_arm none (some error) = ok tt
one_arm _ _ = err ContractError.invalid_response

unfoldable pub validate_response : BrokerResponse → Result ContractError (Unit {0})
validate_response response = one_arm response.result response.error

module _ {A : Type 0} (json : Json A) where
  unfoldable pub encode_frame : A → Result ContractError (List ℕ)
  encode_frame = Frame.encode_frame max_broker_frame_bytes json

  unfoldable pub decode_frame : List ℕ → Result ContractError A
  decode_frame = Frame.decode_frame max_broker_frame_bytes json
