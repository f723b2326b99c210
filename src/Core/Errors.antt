-- ===== src/Core/Errors.antt =====
-- The failures of the domain and their stable codes (crates/core/src/errors.rs).
use local_search.Prelude.{ℕ, String}
use local_search.Core.Ids.{IdParseError}

pub data ErrorCode : Type 0 where
  invalid_request unsupported_protocol_version unsupported_capability : ErrorCode
  unauthorized forbidden query_policy_rejected deadline_exceeded cancelled : ErrorCode
  not_found unavailable index_not_ready resource_exhausted internal : ErrorCode

-- The strings are the reason, the capability, the entity or the resource,
-- the numbers the requested and the supported version
pub data DomainError : Type 0 where
  invalid_id : IdParseError → DomainError
  invalid_request : String → DomainError
  unsupported_protocol_version : ℕ → ℕ → DomainError
  unsupported_capability : String → DomainError
  unauthorized forbidden : DomainError
  query_policy_rejected : String → DomainError
  deadline_exceeded cancelled : DomainError
  not_found unavailable : String → DomainError
  index_not_ready : DomainError
  resource_exhausted : String → DomainError
  internal : DomainError

unfoldable pub code : DomainError → ErrorCode
code (DomainError.invalid_id e) = ErrorCode.invalid_request
code (DomainError.invalid_request reason) = ErrorCode.invalid_request
code (DomainError.unsupported_protocol_version requested supported) =
    ErrorCode.unsupported_protocol_version
code (DomainError.unsupported_capability capability) = ErrorCode.unsupported_capability
code DomainError.unauthorized = ErrorCode.unauthorized
code DomainError.forbidden = ErrorCode.forbidden
code (DomainError.query_policy_rejected reason) = ErrorCode.query_policy_rejected
code DomainError.deadline_exceeded = ErrorCode.deadline_exceeded
code DomainError.cancelled = ErrorCode.cancelled
code (DomainError.not_found entity) = ErrorCode.not_found
code (DomainError.unavailable entity) = ErrorCode.unavailable
code DomainError.index_not_ready = ErrorCode.index_not_ready
code (DomainError.resource_exhausted resource) = ErrorCode.resource_exhausted
code DomainError.internal = ErrorCode.internal
