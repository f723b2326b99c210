-- ===== src/Wire/Agent.antt =====
-- The Agent contract (crates/agent-api/src/contract.rs and lib.rs): requests, responses, and the
-- bounds that `validate` checks before a request is dispatched.
pub mod Bounds
use local_search.Prelude.{
  ℕ, Bool, true, false, not, ◌&&◌, ◌||◌, Option, none, some, List, [], ◌∷◌, ℤ, String, length, ltb,
  leb, ◌==◌, if◌then◌else◌, min, Result, ok, err, ◌>>◌, ◌>>=◌, reject_if,
}
use local_search.Core.Ids.{DocumentId, FileLinkId, FileKey}
use local_search.Core.Models.{Text, SearchRequest, SearchResponse, FileKind, Availability}
use local_search.Wire.Frame.{ContractError}

abbrev pub agent_api_version : ℕ
agent_api_version = 2

abbrev pub agent_codec_version : ℕ
agent_codec_version = 1

abbrev pub max_frame_bytes : ℕ
max_frame_bytes = 1048576

abbrev pub max_request_id_bytes : ℕ
max_request_id_bytes = 64

abbrev pub max_query_bytes : ℕ
max_query_bytes = 1024

abbrev pub max_top_k : ℕ
max_top_k = 100

abbrev pub max_lookup_items : ℕ
max_lookup_items = 100

abbrev pub default_deadline_ms : ℕ
default_deadline_ms = 2000

abbrev pub max_deadline_ms : ℕ
max_deadline_ms = 10000

pub data Capability : Type 0 where
  search_catalog search_content read_metadata index_status : Capability

-- `granted` is a set; the model lists its members.
pub record Capabilities : Type 0 where
  pub agent_api_versions : List ℕ
  pub codec_versions : List ℕ
  pub granted : List Capability
  pub maximum_top_k : ℕ  -- u16
  pub maximum_frame_bytes : ℕ  -- u32
  pub ranking_version : ℕ  -- u32

pub record ContentSearchRequest : Type 0 where
  pub query : Text
  pub top_k : ℕ  -- u16

pub data RequestOperation : Type 0 where
  catalog_search : SearchRequest → RequestOperation
  content_search : ContentSearchRequest → RequestOperation
  catalog_get_item : DocumentId → RequestOperation
  catalog_get_items : List DocumentId → RequestOperation
  index_get_status agent_get_capabilities agent_get_health : RequestOperation

pub record AgentRequest : Type 0 where
  pub protocol_version : ℕ  -- u32
  pub codec_version : ℕ  -- u32
  pub request_id : Text
  pub deadline_ms : ℕ  -- u32
  pub operation : RequestOperation

pub record CatalogItem : Type 0 where
  pub document_id : DocumentId
  pub object_key : FileKey
  pub file_link_id : FileLinkId
  pub document_version : ℕ  -- u64
  pub name : Text
  pub resolved_path : Text
  pub extension : Option Text
  pub kind : FileKind
  pub size : ℕ  -- u64
  pub modified_at_unix_ms : Option ℤ
  pub availability : Availability

pub record ContentSearchHit : Type 0 where
  pub item : CatalogItem
  pub rank : ℕ  -- u32

pub record ContentSearchResponse : Type 0 where
  pub content_schema : Text
  pub took_micros : ℕ  -- u64
  pub hits : List ContentSearchHit

pub record IndexStatus : Type 0 where
  pub ready : Bool
  pub index_generation : Option ℕ  -- u64
  pub document_count : ℕ  -- u64
  pub durable_sequence : ℕ  -- u64
  pub applied_sequence : ℕ  -- u64
  pub backlog_mutations : ℕ  -- u64

pub record ServiceHealth : Type 0 where
  pub service_ready : Bool
  pub graph_ready : Bool
  pub index_ready : Bool

pub data ResponsePayload : Type 0 where
  search : SearchResponse → ResponsePayload
  content_search : ContentSearchResponse → ResponsePayload
  catalog_item : CatalogItem → ResponsePayload
  catalog_items : List CatalogItem → ResponsePayload
  index_status : IndexStatus → ResponsePayload
  capabilities : Capabilities → ResponsePayload
  health : ServiceHealth → ResponsePayload

pub data AgentErrorCode : Type 0 where
  invalid_request unsupported_protocol_version unsupported_codec_version : AgentErrorCode
  unsupported_capability unauthorized forbidden query_policy_rejected : AgentErrorCode
  deadline_exceeded cancelled not_found unavailable index_not_ready : AgentErrorCode
  resource_exhausted internal : AgentErrorCode

pub record AgentWireError : Type 0 where
  pub code : AgentErrorCode
  pub message : String

pub record AgentResponse : Type 0 where
  pub protocol_version : ℕ  -- u32
  pub request_id : Text
  pub result : Option ResponsePayload
  pub error : Option AgentWireError

-- members of a `BTreeSet` of the identifiers, in place of its order
unfoldable pub mem : DocumentId → List DocumentId → Bool
mem a [] = false
mem a (b ∷ bs) = a == b || mem a bs

unfoldable pub distinct : List DocumentId → List DocumentId
distinct [] = []
distinct (a ∷ bs) = let rest = distinct bs in if mem a bs then rest else a ∷ rest

-- The `match` of `AgentRequest::validate`.
unfoldable pub validate_operation : RequestOperation → Result ContractError (Unit {0})
validate_operation (RequestOperation.catalog_search request) = do
  reject_if (length request.query == 0 || ltb max_query_bytes (length request.query))
      (ContractError.invalid_request "query must be non-empty and bounded")
  reject_if (request.top_k == 0 || ltb max_top_k request.top_k)
      (ContractError.invalid_request "top_k must be within the v0.1 policy bound")
  reject_if (ltb 32 (length request.filters.extensions))
      (ContractError.invalid_request "too many extension filters")
validate_operation (RequestOperation.content_search request) = do
  reject_if (length request.query == 0 || ltb max_query_bytes (length request.query))
      (ContractError.invalid_request "content query must be non-empty and bounded")
  reject_if (request.top_k == 0 || ltb max_top_k request.top_k)
      (ContractError.invalid_request "content top_k must be within the policy bound")
validate_operation (RequestOperation.catalog_get_items document_ids) = do
  reject_if (length document_ids == 0 || ltb max_lookup_items (length document_ids))
      (ContractError.invalid_request "document lookup collection must be non-empty and bounded")
  reject_if (not (length (distinct document_ids) == length document_ids))
      (ContractError.invalid_request "document lookup IDs must be unique")
validate_operation _ = ok tt

unfoldable pub validate : AgentRequest → Result ContractError (Unit {0})
validate request = do
  reject_if (not (request.protocol_version == agent_api_version))
      ContractError.unsupported_protocol_version
  reject_if (not (request.codec_version == agent_codec_version))
      ContractError.unsupported_codec_version
  reject_if (length request.request_id == 0 || ltb max_request_id_bytes (length request.request_id))
      (ContractError.invalid_request "request_id must be non-empty and bounded")
  reject_if (ltb max_deadline_ms request.deadline_ms)
      (ContractError.invalid_request "deadline exceeds the v0.1 policy maximum")
  validate_operation request.operation

unfoldable pub effective_deadline_ms : AgentRequest → ℕ
effective_deadline_ms request =
    if request.deadline_ms == 0
    then default_deadline_ms
    else min request.deadline_ms max_deadline_ms

unfoldable pub success : Text → ResponsePayload → AgentResponse
success request_id payload = record {
  protocol_version = agent_api_version;
  request_id = request_id;
  result = some payload;
  error = none;
}

unfoldable pub failure : Text → AgentErrorCode → String → AgentResponse
failure request_id code message = record {
  protocol_version = agent_api_version;
  request_id = request_id;
  result = none;
  error = some (record { code = code; message = message });
}

abbrev one_arm : Option ResponsePayload → Option AgentWireError → Result ContractError (Unit {0})
one_arm (some result) none = ok tt
one_arm none (some error) = ok tt
one_arm _ _ = err ContractError.invalid_response

unfoldable pub validate_response : AgentResponse → Result ContractError (Unit {0})
validate_response response = one_arm response.result response.error
