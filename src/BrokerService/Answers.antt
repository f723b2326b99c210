-- ===== src/BrokerService/Answers.antt =====
-- What every request is answered
-- (crates/fs-service/src/lib.rs).
use local_search.Prelude.{
  ◌≡◌, ◌⊎◌, ◌≤◌, ◌<◌, refl, sym, subst, [], length, leb, none, arith, String, Result, ok, err,
  Bool-cases, inl, inr,
}
use local_search.Core.Models.{Text}
use local_search.Wire.Frame.{ContractError}
use local_search.Wire.Broker.{
  BrokerErrorCode, BrokerPayload, BrokerRequest, BrokerResponse, validate, validate_response,
  broker_protocol_version, success, failure,
}
use local_search.BrokerService.Replay.{admit}
use local_search.BrokerService.Scans.{ServiceError}
use local_search.BrokerService.State.{Provider, Polls, BrokerService}
use local_search.BrokerService.Service.{
  contract_failure, respond, dispatch_valid, dispatch_checked, dispatch, echo,
}

-- A response to `id`: of the broker's version, with its identifier, and with one arm.
abbrev IsAnswer : Text → BrokerResponse → Type 0
IsAnswer id response =
    (response.protocol_version ≡ broker_protocol_version)
    × (response.request_id ≡ id)
    × (validate_response response ≡ ok tt)

failure-IsAnswer :
    (id : Text) (code : BrokerErrorCode) (message : String) → IsAnswer id (failure id code message)
unfolding failure validate_response
failure-IsAnswer id code message = (refl, refl, refl)

respond-IsAnswer : (id : Text) (r : Result ServiceError BrokerPayload) → IsAnswer id (respond id r)
unfolding respond success validate_response
respond-IsAnswer id (ok payload) = (refl, refl, refl)
respond-IsAnswer id (err error) = failure-IsAnswer id error.code error.message

contract_failure-IsAnswer : (id : Text) (e : ContractError) → IsAnswer id (contract_failure id e)
unfolding contract_failure
contract_failure-IsAnswer id ContractError.unsupported_protocol_version = failure-IsAnswer id _ _
contract_failure-IsAnswer id ContractError.unsupported_codec_version = failure-IsAnswer id _ _
contract_failure-IsAnswer id ContractError.frame_too_large = failure-IsAnswer id _ _
contract_failure-IsAnswer id ContractError.incomplete_frame = failure-IsAnswer id _ _
contract_failure-IsAnswer id ContractError.invalid_json = failure-IsAnswer id _ _
contract_failure-IsAnswer id (ContractError.invalid_request m) = failure-IsAnswer id _ _
contract_failure-IsAnswer id ContractError.invalid_response = failure-IsAnswer id _ _

dispatch_valid-IsAnswer :
    (provider : Provider) (request : BrokerRequest) (id : Text) (polls : Polls)
    (service : BrokerService)
    → IsAnswer id (dispatch_valid provider request id polls service).1
unfolding dispatch_valid
dispatch_valid-IsAnswer provider request id polls service =
    elim (Bool-cases (admit request.request_id service.replay).1) [
      | inl fresh ↦ elim (Bool-cases polls.at_dispatch) [
        | inl gone ↦ simp (fresh, gone) (failure-IsAnswer id _ _)
        | inr here ↦ simp (fresh, here) (respond-IsAnswer id _)
      ]
      | inr replayed ↦ rw replayed (failure-IsAnswer id _ _)
    ]

dispatch_checked-IsAnswer :
    (provider : Provider) (request : BrokerRequest) (id : Text) (polls : Polls)
    (service : BrokerService) (r : Result ContractError (Unit {0}))
    → IsAnswer id (dispatch_checked provider request id polls service r).1
dispatch_checked-IsAnswer provider request id polls service (err e) = contract_failure-IsAnswer id e
dispatch_checked-IsAnswer provider request id polls service (ok u) =
    dispatch_valid-IsAnswer provider request id polls service

-- The identifier that answers a request: its own, or an empty one where that is too long.
abbrev pub Identifies : Text → Text → Type 0
Identifies own answered =
    ((length own ≤ 64) × (answered ≡ own)) ⊎ ((64 < length own) × (answered ≡ []))

echo-Identifies : (own : Text) → Identifies own (echo own)
echo-Identifies own = elim (Bool-cases (leb (length own) 64)) [
  | inl e ↦ rw e (inl (ground (arith, e), refl))
  | inr e ↦ rw e (inr (ground (arith, e), refl))
]

-- A request that the contract refuses has no result and leaves the service as it was.
abbrev pub Refuses : BrokerRequest → BrokerService → BrokerService × BrokerResponse → Type 0
Refuses request service answer =
    (validate request ≡ ok tt)
    ⊎ ((e : ContractError) × ((validate request ≡ err e)
          × (answer.0 ≡ service)
          × (answer.1.result ≡ none)))

contract_failure-result : (id : Text) (e : ContractError) → (contract_failure id e).result ≡ none
unfolding contract_failure failure
contract_failure-result id ContractError.unsupported_protocol_version = refl
contract_failure-result id ContractError.unsupported_codec_version = refl
contract_failure-result id ContractError.frame_too_large = refl
contract_failure-result id ContractError.incomplete_frame = refl
contract_failure-result id ContractError.invalid_json = refl
contract_failure-result id (ContractError.invalid_request m) = refl
contract_failure-result id ContractError.invalid_response = refl

dispatch_checked-Refuses :
    (provider : Provider) (request : BrokerRequest) (id : Text) (polls : Polls)
    (service : BrokerService) (r : Result ContractError (Unit {0}))
    → validate request ≡ r
    → Refuses request service (dispatch_checked provider request id polls service r)
dispatch_checked-Refuses provider request id polls service (ok u) e = inl e
dispatch_checked-Refuses provider request id polls service (err error) e =
    inr (error, (e, refl, contract_failure-result id error))

-- Every request to a service in any state is answered with one response that the contract accepts: of
-- the broker's version, with a result or an error and not both, and with the request's identifier
-- where that has at most 64 bytes, and an empty one where it is longer. A request that the contract
-- refuses gets no result, and the service stays as it was.
pub dispatch-IsAnswer :
    (provider : Provider) (request : BrokerRequest) (polls : Polls) (service : BrokerService)
    → let answer = dispatch provider request polls service in
      (answer.1.protocol_version ≡ broker_protocol_version)
      × Identifies request.request_id answer.1.request_id
      × (validate_response answer.1 ≡ ok tt)
      × Refuses request service answer
unfolding dispatch
dispatch-IsAnswer provider request polls service =
    let (version, id, one) =
      dispatch_checked-IsAnswer provider request (echo request.request_id) polls service
        (validate request) in
    (
      version,
      subst (Identifies request.request_id) (sym id) (echo-Identifies request.request_id),
      one,
      dispatch_checked-Refuses provider request _ polls service (validate request) refl,
    )
