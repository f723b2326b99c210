-- ===== src/BrokerService/Table.antt =====
-- What every request leaves of the scan table (crates/fs-service/src/lib.rs).
use local_search.Prelude.{
  ℕ, ◌≤◌, ◌<◌, ◌≡◌, refl, some, List, [], ◌∷◌, length, leb, ◌==◌, Result, ok, err, ok_or,
  ok_of-bind, ok_of-ok_or, arith, Bool-cases, inl, inr, reject_if,
}
use local_search.Platform.{VolumeDescriptor}
use local_search.Wire.Broker.{effective_deadline_ms, BrokerOperation, BrokerRequest, validate}
use local_search.BrokerService.Replay.{admit}
use local_search.Core.Models.{Text}
use local_search.Wire.Frame.{ContractError}
use local_search.BrokerService.Scans.{ServiceError, ScanState, PageStep, more, over, read_page}
use local_search.BrokerService.State.{
  max_active_scans, Provider, Poll, Polls, BrokerService, new, get, remove, insert, find,
}
use local_search.BrokerService.Service.{
  Answer, checked, admit_scan, spawn, start_scan, answer_page, read_scan_page, cancel_scan,
  run_operation, dispatch_operation, dispatch_valid, dispatch, dispatch_checked, active,
  map_platform, check_request,
}

length-remove :
    (scan_id : ℕ) (scans : List (ℕ × ScanState)) → length (remove scan_id scans) ≤ length scans
unfolding remove
length-remove scan_id [] = omega arith
length-remove scan_id ((key, s) ∷ scans) = ground (arith, length-remove scan_id scans)

length-remove_active :
    (scan_id : ℕ) (scans : List (ℕ × ScanState)) (s : ScanState)
    → get scan_id scans ≡ some s
    → length (remove scan_id scans) < length scans
unfolding get remove
length-remove_active scan_id [] s h = cc
length-remove_active scan_id ((key, t) ∷ scans) s h = elim (Bool-cases (key == scan_id)) [
  | inl e ↦ ground (arith, e, length-remove scan_id scans)
  | inr e ↦
      let g : get scan_id scans ≡ some s = ground (arith, e, h) in
      ground (arith, e, length-remove_active scan_id scans s g)
]

-- at most four scans
abbrev pub IsBounded : BrokerService → Type 0
IsBounded service = length service.scans ≤ max_active_scans

checked-IsBounded {ℓ} :
    {A : Type ℓ} (service : BrokerService) (r : Result ServiceError A) (next : A → Answer)
    → IsBounded service
    → ((a : A) → r ≡ ok a → IsBounded (next a).0)
    → IsBounded (checked service r next).0
unfolding checked
checked-IsBounded service (err reason) next b h = b
checked-IsBounded service (ok value) next b h = h value refl

-- A scan that may start found fewer than four in the table.
admit_scan_room :
    (provider : Provider) (volume_id : ℕ) (poll : Poll) (deadline : ℕ) (service : BrokerService)
    (volume : VolumeDescriptor)
    → admit_scan provider volume_id poll deadline service ≡ ok volume
    → length service.scans < max_active_scans
unfolding admit_scan
admit_scan_room provider volume_id poll deadline service volume h =
    let record { value = volumes; first = p; then = h1 } =
      ok_of-bind (map_platform provider.discover_volumes) _ h in
    let record { value = found; first = q; then = h2 } =
      ok_of-bind (ok_or (find volume_id volumes) _) _ h1 in
    let record { value = u; first = r; then = h3 } =
      ok_of-bind (check_request poll deadline) _ h2 in
    let record { value = v; first = room; then = h4 } =
      ok_of-bind (reject_if (leb max_active_scans (length service.scans)) _) _ h3 in
    ground (arith, room)

answer_page-IsBounded :
    (scan_id : ℕ) (service : BrokerService) (p : PageStep) (s : ScanState)
    → get scan_id service.scans ≡ some s
    → IsBounded service
    → IsBounded (answer_page scan_id service p).0
unfolding answer_page insert
answer_page-IsBounded scan_id service (more t es) s g b =
    omega (arith, b, length-remove_active scan_id service.scans s g)
answer_page-IsBounded scan_id service (over (ok summary)) s g b =
    omega (arith, b, length-remove scan_id service.scans)
answer_page-IsBounded scan_id service (over (err error)) s g b =
    omega (arith, b, length-remove scan_id service.scans)

run_operation-IsBounded :
    (provider : Provider) (operation : BrokerOperation) (poll : Poll) (deadline : ℕ)
    (service : BrokerService)
    → IsBounded service
    → IsBounded (run_operation provider operation poll deadline service).0
unfolding run_operation start_scan read_scan_page cancel_scan spawn insert
run_operation-IsBounded provider BrokerOperation.broker_get_capabilities poll deadline service b = b
run_operation-IsBounded provider BrokerOperation.discover_volumes poll deadline service b = b
run_operation-IsBounded provider (BrokerOperation.start_scan volume_id mode) poll deadline service
      b =
    checked-IsBounded service (admit_scan provider volume_id poll deadline service) _ b (λ volume h.
      omega (
        arith,
        length-remove service.next_scan_id service.scans,
        admit_scan_room provider volume_id poll deadline service volume h,
      ))
run_operation-IsBounded provider (BrokerOperation.read_scan_page scan_id maximum) poll deadline
      service b =
    checked-IsBounded service (active scan_id service) _ b
      (λ s h. answer_page-IsBounded scan_id service (read_page maximum s) s (ok_of-ok_or _ _ h) b)
run_operation-IsBounded provider (BrokerOperation.cancel_scan scan_id) poll deadline service b =
    checked-IsBounded service (active scan_id service) _ b
      (λ s h. omega (arith, b, length-remove scan_id service.scans))
run_operation-IsBounded provider (BrokerOperation.read_changes checkpoint maximum) poll deadline
      service b =
    b

dispatch_operation-IsBounded :
    (provider : Provider) (operation : BrokerOperation) (polls : Polls) (deadline : ℕ)
    (service : BrokerService)
    → IsBounded service
    → IsBounded (dispatch_operation provider operation polls deadline service).0
unfolding dispatch_operation
dispatch_operation-IsBounded provider operation polls deadline service b =
    checked-IsBounded service (check_request polls.at_operation deadline) _ b
      (λ u h. run_operation-IsBounded provider operation polls.at_spawn deadline service b)

dispatch_valid-IsBounded :
    (provider : Provider) (request : BrokerRequest) (id : Text) (polls : Polls)
    (service : BrokerService)
    → IsBounded service
    → IsBounded (dispatch_valid provider request id polls service).0
unfolding dispatch_valid
dispatch_valid-IsBounded provider request id polls service b =
    let replay = (admit request.request_id service.replay).0 in
    ground (
      arith,
      b,
      dispatch_operation-IsBounded provider request.operation polls (effective_deadline_ms request)
          (record service { replay = replay }) b,
    )

dispatch_checked-IsBounded :
    (provider : Provider) (request : BrokerRequest) (id : Text) (polls : Polls)
    (service : BrokerService) (r : Result ContractError (Unit {0}))
    → IsBounded service
    → IsBounded (dispatch_checked provider request id polls service r).0
dispatch_checked-IsBounded provider request id polls service (err e) b = b
dispatch_checked-IsBounded provider request id polls service (ok u) b =
    dispatch_valid-IsBounded provider request id polls service b

dispatch-IsBounded :
    (provider : Provider) (request : BrokerRequest) (polls : Polls) (service : BrokerService)
    → IsBounded service
    → IsBounded (dispatch provider request polls service).0
unfolding dispatch
dispatch-IsBounded provider request polls service b =
    dispatch_checked-IsBounded provider request _ polls service (validate request) b

-- One call of a service: what its provider answers, its request and the looks that it takes.
pub record Call : Type 0 where
  pub provider : Provider
  pub request : BrokerRequest
  pub polls : Polls

abbrev pub serve : BrokerService → List Call → BrokerService
serve service [] = service
serve service (call ∷ calls) =
    serve (dispatch call.provider call.request call.polls service).0 calls

serve-IsBounded :
    (service : BrokerService) (calls : List Call)
    → IsBounded service
    → IsBounded (serve service calls)
serve-IsBounded service [] b = b
serve-IsBounded service (call ∷ calls) b =
    serve-IsBounded (dispatch call.provider call.request call.polls service).0 calls
      (dispatch-IsBounded call.provider call.request call.polls service b)

-- Whatever a new service is asked, and whatever its provider does, it never holds more than four
-- scans.
pub active_scans_IsBounded : (calls : List Call) → length (serve new calls).scans ≤ max_active_scans
unfolding new
active_scans_IsBounded calls = serve-IsBounded new calls (omega arith)
