-- ===== src/BrokerService/Replays.antt =====
-- What a service remembers of its requests, and its refusal of replayed ones
-- (crates/fs-service/src/lib.rs).
use local_search.Prelude.{
  ℕ, ◌≡◌, refl, ap, sym, ◌∙◌, List, [], ◌∷◌, Result, ok, err, true, arith, subst,
}
use local_search.Core.Models.{Text}
use local_search.Wire.Frame.{ContractError}
use local_search.Wire.Broker.{
  BrokerErrorCode, BrokerOperation, BrokerRequest, validate, failure, effective_deadline_ms,
}
use local_search.BrokerService.Replay.{contains, admit}
use local_search.BrokerService.Replay
use local_search.BrokerService.ReplayHistory.{recent}
use local_search.BrokerService.ReplayLaws.{
  Represents, admitted, admit-Represents, new-Represents, present-recent,
}
use local_search.BrokerService.Scans.{ServiceError, PageStep, more, over, read_page}
use local_search.BrokerService.State.{
  Provider, Poll, Polls, BrokerService, new, replay_window_requests,
}
use local_search.BrokerService.Table.{Call, serve}
use local_search.BrokerService.Service.{
  dispatch_operation, dispatch_valid, dispatch_checked, dispatch, echo, checked, Answer,
  answer_page, run_operation, start_scan, read_scan_page, cancel_scan, spawn, admit_scan, active,
  check_request,
}

dispatch_valid_replayed :
    (provider : Provider) (request : BrokerRequest) (id : Text) (polls : Polls)
    (service : BrokerService)
    → contains request.request_id service.replay.present ≡ true
    → dispatch_valid provider request id polls service ≡ (
      service,
      failure id BrokerErrorCode.replay_rejected
          "request identifier was replayed or replay state is unavailable",
    )
unfolding dispatch_valid admit
dispatch_valid_replayed provider request id polls service h = rw h

answer_page-replay :
    (scan_id : ℕ) (service : BrokerService) (p : PageStep)
    → (answer_page scan_id service p).0.replay ≡ service.replay
unfolding answer_page
answer_page-replay scan_id service (more t es) = refl
answer_page-replay scan_id service (over (ok summary)) = refl
answer_page-replay scan_id service (over (err error)) = refl

checked-replay {ℓ} :
    {A : Type ℓ} (service : BrokerService) (r : Result ServiceError A) (next : A → Answer)
    → ((a : A) → (next a).0.replay ≡ service.replay)
    → (checked service r next).0.replay ≡ service.replay
unfolding checked
checked-replay service (err reason) next h = refl
checked-replay service (ok value) next h = h value

run_operation-replay :
    (provider : Provider) (operation : BrokerOperation) (poll : Poll) (deadline : ℕ)
    (service : BrokerService)
    → (run_operation provider operation poll deadline service).0.replay ≡ service.replay
unfolding run_operation start_scan read_scan_page cancel_scan spawn
run_operation-replay provider BrokerOperation.broker_get_capabilities poll deadline service = refl
run_operation-replay provider BrokerOperation.discover_volumes poll deadline service = refl
run_operation-replay provider (BrokerOperation.start_scan volume_id mode) poll deadline service =
    checked-replay service (admit_scan provider volume_id poll deadline service) _ (λ volume. refl)
run_operation-replay provider (BrokerOperation.read_scan_page scan_id maximum) poll deadline
      service =
    checked-replay service (active scan_id service) _
      (λ s. answer_page-replay scan_id service (read_page maximum s))
run_operation-replay provider (BrokerOperation.cancel_scan scan_id) poll deadline service =
    checked-replay service (active scan_id service) _ (λ s. refl)
run_operation-replay provider (BrokerOperation.read_changes checkpoint maximum) poll deadline
      service =
    refl

dispatch_valid-replay :
    (provider : Provider) (request : BrokerRequest) (id : Text) (polls : Polls)
    (service : BrokerService)
    → (dispatch_valid provider request id polls service).0.replay
      ≡ (admit request.request_id service.replay).0
unfolding dispatch_valid dispatch_operation
dispatch_valid-replay provider request id polls service =
    let replay = (admit request.request_id service.replay).0 in
    let after : BrokerService = record service { replay = replay } in
    let deadline = effective_deadline_ms request in
    ground (
      arith,
      checked-replay after (check_request polls.at_operation deadline)
          (λ _. run_operation provider request.operation polls.at_spawn deadline after)
          (λ _. run_operation-replay provider request.operation polls.at_spawn deadline after),
    )

-- The identifiers that a service has admitted, after one more request.
abbrev noted : List Text → Text → Result ContractError (Unit {0}) → List Text
noted history id (err error) = history
noted history id (ok u) = admitted replay_window_requests history id

-- The identifiers that a service admits in a sequence of calls, the last one at the end.
abbrev pub noted_all : List Text → List Call → List Text
noted_all history [] = history
noted_all history (call ∷ calls) =
    noted_all (noted history call.request.request_id (validate call.request)) calls

-- the window of a service that has admitted `history`
pub record Remembers (service : BrokerService) (history : List Text) : Type 0 where
  pub represents : Represents service.replay history
  pub full_size : service.replay.capacity ≡ replay_window_requests

dispatch_checked-Remembers :
    (call : Call) (id : Text) (service : BrokerService) (history : List Text)
    (r : Result ContractError (Unit {0}))
    → Remembers service history
    → Remembers
        (dispatch_checked call.provider call.request id call.polls service r).0
        (noted history call.request.request_id r)
dispatch_checked-Remembers call id service history (err error) m = m
dispatch_checked-Remembers call id service history (ok u) m =
    let same = dispatch_valid-replay call.provider call.request id call.polls service in
    let (flag, next, kept) =
      admit-Represents service.replay history call.request.request_id m.represents in
    record {
      represents =
          subst
            (λ w. Represents w (admitted replay_window_requests history call.request.request_id))
            (sym same)
            (subst
              (λ c.
                Represents (admit call.request.request_id service.replay).0
                  (admitted c history call.request.request_id))
              m.full_size next);
      full_size = ap (λ w. w.capacity) same ∙ kept ∙ m.full_size;
    }

serve-Remembers :
    (service : BrokerService) (calls : List Call) (history : List Text)
    → Remembers service history
    → Remembers (serve service calls) (noted_all history calls)
unfolding dispatch
serve-Remembers service [] history m = m
serve-Remembers service (call ∷ calls) history m =
    serve-Remembers (dispatch call.provider call.request call.polls service).0 calls
      (noted history call.request.request_id (validate call.request))
      (dispatch_checked-Remembers call _ service history (validate call.request) m)

new-Remembers : Remembers new []
unfolding new Replay.new
new-Remembers = record { represents = new-Represents replay_window_requests; full_size = refl }

-- After any calls of a new service, a valid request whose identifier is among the last 4,096 that it
-- has admitted is refused as a replay and leaves the service as it was: no scan is started, read or
-- cancelled.
pub dispatch_replayed :
    (calls : List Call) (call : Call)
    → contains call.request.request_id (recent replay_window_requests (noted_all [] calls)) ≡ true
    → validate call.request ≡ ok tt
    → let service = serve new calls in
      dispatch call.provider call.request call.polls service ≡ (
        service,
        failure
            (echo call.request.request_id)
            BrokerErrorCode.replay_rejected
            "request identifier was replayed or replay state is unavailable",
      )
unfolding dispatch
dispatch_replayed calls call h v =
    let m = serve-Remembers new calls [] new-Remembers in
    let known =
      present-recent _ _ call.request.request_id m.represents
      ∙ ap (λ c. contains call.request.request_id (recent c (noted_all [] calls))) m.full_size
      ∙ h in
    rw v (dispatch_valid_replayed call.provider call.request _ call.polls (serve new calls) known)
