-- ===== src/BrokerService/Service.antt =====
-- The operations and the dispatcher of `BrokerService` (crates/fs-service/src/lib.rs).
use local_search.Prelude.{
  ℕ, ◌+◌, ◌%◌, ◌^◌, true, false, not, none, some, List, [], ◌∷◌, String, length, leb, if◌then◌else◌,
  u32_max, min, Result, ok, err, ◌>>=◌, ◌>>◌, reject_if, ok_or,
}
use local_search.Core.Ids.{VolumeId}
use local_search.Core.Models.{Text, FilesystemEvent}
use local_search.Platform.{
  VolumeDescriptor, PlatformError, PlatformResult, ProviderCheckpoint, ScanSummary, ChangeBatch,
}
use local_search.Wire.Frame.{ContractError}
use local_search.Wire.Broker.{
  BrokerErrorCode, BrokerPayload, BrokerOperation, BrokerOperationName, BrokerRequest,
  BrokerResponse, BrokerCapabilities, ScanMode, broker_protocol_version, broker_codec_version,
  max_broker_frame_bytes, max_broker_page_events, validate, effective_deadline_ms, success, failure,
}
use local_search.BrokerService.Replay.{admit}
use local_search.BrokerService.Scans.{
  ServiceError, platform_error, ScanState, PageStep, more, over, read_page,
}
use local_search.BrokerService.State.{
  max_active_scans, Provider, Poll, Polls, BrokerService, get, remove, insert, find,
}

abbrev service_error : BrokerErrorCode → String → ServiceError
service_error code message = record { code = code; message = message }

-- What a call of an operation leaves: the service and the answer.
abbrev pub Answer : Type 0
Answer = BrokerService × Result ServiceError BrokerPayload

-- An error before the service was changed, and the rest of the operation otherwise.
unfoldable pub checked {ℓ} :
    {A : Type ℓ} → BrokerService → Result ServiceError A → (A → Answer) → Answer
checked service (err reason) next = (service, err reason)
checked service (ok value) next = next value

unfoldable pub map_platform {ℓ} : {A : Type ℓ} → Result PlatformError A → Result ServiceError A
map_platform (ok value) = ok value
map_platform (err error) = err (platform_error error)

unfoldable pub check_request : Poll → ℕ → Result ServiceError (Unit {0})
check_request poll deadline = do
  reject_if poll.cancelled (service_error BrokerErrorCode.cancelled "broker request cancelled")
  reject_if (leb deadline poll.elapsed_ms)
      (service_error BrokerErrorCode.deadline_exceeded "broker request deadline exceeded")

abbrev all_operations : List BrokerOperationName
all_operations =
    BrokerOperationName.broker_get_capabilities ∷ BrokerOperationName.discover_volumes
    ∷ BrokerOperationName.start_scan ∷ BrokerOperationName.read_scan_page
    ∷ BrokerOperationName.cancel_scan ∷ BrokerOperationName.read_changes ∷ []

unfoldable pub capabilities : Provider → BrokerCapabilities
capabilities provider = record {
  protocol_versions = broker_protocol_version ∷ [];
  codec_versions = broker_codec_version ∷ [];
  allowed_operations = all_operations;
  maximum_frame_bytes = min max_broker_frame_bytes u32_max;
  maximum_page_events = max_broker_page_events;
  maximum_active_scans = min max_active_scans 65535;
  provider = provider.capabilities;
}

-- the volume that `start_scan` scans, and its tests before a worker is spawned
unfoldable pub admit_scan :
    Provider → VolumeId → Poll → ℕ → BrokerService → Result ServiceError VolumeDescriptor
admit_scan provider volume_id poll deadline service = do
  volumes ← map_platform provider.discover_volumes
  volume ←
      ok_or (find volume_id volumes)
        (service_error BrokerErrorCode.not_found "volume is unavailable")
  check_request poll deadline
  reject_if (leb max_active_scans (length service.scans))
      (service_error BrokerErrorCode.resource_exhausted "active scan limit reached")
  ok volume

-- `fetch_add` wraps around.
unfoldable pub spawn : Provider → VolumeDescriptor → ScanMode → BrokerService → BrokerService
spawn provider volume mode service =
    let state : ScanState = record {
      receiver = provider.open_scan volume mode;
      pending_terminal = none;
    } in
    record service {
      scans = insert service.next_scan_id state service.scans;
      next_scan_id = (service.next_scan_id + 1) % 2 ^ 64;
    }

unfoldable pub start_scan : Provider → VolumeId → ScanMode → Poll → ℕ → BrokerService → Answer
start_scan provider volume_id mode poll deadline service =
    checked service (admit_scan provider volume_id poll deadline service) (λ volume.
      (spawn provider volume mode service, ok (BrokerPayload.scan_started service.next_scan_id)))

abbrev open_page : List FilesystemEvent → BrokerPayload
open_page events =
    BrokerPayload.scan_page
      (record { events = events; checkpoint = none; complete = false; has_more = true })

abbrev last_page : ScanSummary → BrokerPayload
last_page summary = BrokerPayload.scan_page (record {
  events = [];
  checkpoint = some summary.checkpoint;
  complete = true;
  has_more = false;
})

-- what `read_scan_page` does with a scan after its loop
unfoldable pub answer_page : ℕ → BrokerService → PageStep → Answer
answer_page scan_id service (more s events) =
    (record service { scans = insert scan_id s service.scans }, ok (open_page events))
answer_page scan_id service (over (ok summary)) =
    (record service { scans = remove scan_id service.scans }, ok (last_page summary))
answer_page scan_id service (over (err error)) =
    (record service { scans = remove scan_id service.scans }, err (platform_error error))

abbrev pub active : ℕ → BrokerService → Result ServiceError ScanState
active scan_id service =
    ok_or (get scan_id service.scans) (service_error BrokerErrorCode.not_found "scan is not active")

unfoldable pub read_scan_page : ℕ → ℕ → BrokerService → Answer
read_scan_page scan_id maximum_events service =
    checked service (active scan_id service)
      (λ s. answer_page scan_id service (read_page maximum_events s))

-- The removed scan's worker is told to stop and joined.
unfoldable pub cancel_scan : ℕ → BrokerService → Answer
cancel_scan scan_id service = checked service (active scan_id service) (λ s. (
  record service { scans = remove scan_id service.scans },
  ok (BrokerPayload.scan_cancelled scan_id),
))

abbrev changes_of :
    List FilesystemEvent × PlatformResult ChangeBatch → Result ServiceError BrokerPayload
changes_of (events, result) = do
  batch ← map_platform result
  ok (BrokerPayload.changes events batch)

unfoldable pub read_changes : Provider → ProviderCheckpoint → ℕ → Result ServiceError BrokerPayload
read_changes provider checkpoint maximum_events =
    changes_of (provider.read_changes checkpoint maximum_events)

-- the `match` of `dispatch_operation`
unfoldable pub run_operation : Provider → BrokerOperation → Poll → ℕ → BrokerService → Answer
run_operation provider BrokerOperation.broker_get_capabilities poll deadline service =
    (service, ok (BrokerPayload.capabilities (capabilities provider)))
run_operation provider BrokerOperation.discover_volumes poll deadline service = (
  service,
  map_platform provider.discover_volumes >>= λ volumes. ok (BrokerPayload.volumes volumes),
)
run_operation provider (BrokerOperation.start_scan volume_id mode) poll deadline service =
    start_scan provider volume_id mode poll deadline service
run_operation provider (BrokerOperation.read_scan_page scan_id maximum) poll deadline service =
    read_scan_page scan_id maximum service
run_operation provider (BrokerOperation.cancel_scan scan_id) poll deadline service =
    cancel_scan scan_id service
run_operation provider (BrokerOperation.read_changes checkpoint maximum) poll deadline service =
    (service, read_changes provider checkpoint maximum)

unfoldable pub dispatch_operation : Provider → BrokerOperation → Polls → ℕ → BrokerService → Answer
dispatch_operation provider operation polls deadline service =
    checked service (check_request polls.at_operation deadline)
      (λ _. run_operation provider operation polls.at_spawn deadline service)

unfoldable pub contract_failure : Text → ContractError → BrokerResponse
contract_failure request_id ContractError.unsupported_protocol_version =
    failure request_id BrokerErrorCode.unsupported_protocol_version
      "broker request contract rejected"
contract_failure request_id ContractError.unsupported_codec_version =
    failure request_id BrokerErrorCode.unsupported_codec_version "broker request contract rejected"
contract_failure request_id _ =
    failure request_id BrokerErrorCode.invalid_request "broker request contract rejected"

unfoldable pub respond : Text → Result ServiceError BrokerPayload → BrokerResponse
respond request_id (ok payload) = success request_id payload
respond request_id (err error) = failure request_id error.code error.message

-- `dispatch` from the replay test on, of a request that is valid
unfoldable pub dispatch_valid :
    Provider → BrokerRequest → Text → Polls → BrokerService → BrokerService × BrokerResponse
dispatch_valid provider request request_id polls service =
    let (replay, fresh) = admit request.request_id service.replay in
    let admitted = record service { replay = replay } in
    if not fresh
    then (
      admitted,
      failure request_id BrokerErrorCode.replay_rejected
          "request identifier was replayed or replay state is unavailable",
    )
    else if polls.at_dispatch
    then (admitted, failure request_id BrokerErrorCode.cancelled "broker request cancelled")
    else (let (after, result) =
          dispatch_operation provider request.operation polls (effective_deadline_ms request)
            admitted in
        (after, respond request_id result))

abbrev pub dispatch_checked :
    Provider
    → BrokerRequest
    → Text
    → Polls
    → BrokerService
    → Result ContractError (Unit {0})
    → BrokerService × BrokerResponse
dispatch_checked provider request request_id polls service (err error) =
    (service, contract_failure request_id error)
dispatch_checked provider request request_id polls service (ok _) =
    dispatch_valid provider request request_id polls service

-- An identifier beyond 64 bytes is answered with an empty one.
abbrev pub echo : Text → Text
echo request_id = if leb (length request_id) 64 then request_id else []

unfoldable pub dispatch :
    Provider → BrokerRequest → Polls → BrokerService → BrokerService × BrokerResponse
dispatch provider request polls service =
    dispatch_checked provider request (echo request.request_id) polls service (validate request)
