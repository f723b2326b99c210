-- ===== src/Wire/Agent/Bounds.antt =====
-- What an accepted Agent request is (crates/agent-api/src/contract.rs).
use local_search.Prelude.{◌≤◌, ◌<◌, ◌≡◌, ◌⊎◌, ◌↔◌, refl, false, List, [], ◌∷◌, length, ok, arith}
use local_search.Core.Ids.{DocumentId}
use local_search.Wire.Agent.{
  AgentRequest, RequestOperation, mem, distinct, validate_operation, validate,
  effective_deadline_ms,
}

-- No identifier stands in the list twice.
abbrev pub IsDistinct : List DocumentId → Type 0
IsDistinct [] = Unit
IsDistinct (a ∷ bs) = (mem a bs ≡ false) × IsDistinct bs

length-distinct : (ids : List DocumentId) → length (distinct ids) ≤ length ids
unfolding distinct
length-distinct [] = omega arith
length-distinct (a ∷ bs) = ground (arith, length-distinct bs)

distinct-IsDistinct :
    (ids : List DocumentId) → (length (distinct ids) ≡ length ids) ↔ IsDistinct ids
unfolding distinct
distinct-IsDistinct [] = ((λ h. tt), (λ h. refl))
distinct-IsDistinct (a ∷ bs) = (
  (λ h. ground (arith, length-distinct bs, (distinct-IsDistinct bs).0)),
  (λ h. ground (arith, (distinct-IsDistinct bs).1 h.1)),
)

-- The bounds of each operation.
abbrev pub IsBounded : RequestOperation → Type 0
IsBounded (RequestOperation.catalog_search r) =
    (1 ≤ length r.query)
    × (length r.query ≤ 1024)
    × (1 ≤ r.top_k)
    × (r.top_k ≤ 100)
    × (length r.filters.extensions ≤ 32)
IsBounded (RequestOperation.content_search r) =
    (1 ≤ length r.query) × (length r.query ≤ 1024) × (1 ≤ r.top_k) × (r.top_k ≤ 100)
IsBounded (RequestOperation.catalog_get_items ids) =
    (1 ≤ length ids) × (length ids ≤ 100) × IsDistinct ids
IsBounded _ = Unit

pub record IsAcceptable (r : AgentRequest) : Type 0 where
  pub protocol : r.protocol_version ≡ 2
  pub codec : r.codec_version ≡ 1
  pub named : 1 ≤ length r.request_id
  pub name_bounded : length r.request_id ≤ 64
  pub deadline_bounded : r.deadline_ms ≤ 10000
  pub operation_bounded : IsBounded r.operation

validate_operation_iff : (o : RequestOperation) → (validate_operation o ≡ ok tt) ↔ IsBounded o
unfolding validate_operation
validate_operation_iff (RequestOperation.catalog_search r) = ground arith
validate_operation_iff (RequestOperation.content_search r) = ground arith
validate_operation_iff (RequestOperation.catalog_get_items ids) = (
  (λ h. ground (arith, (distinct-IsDistinct ids).0)),
  (λ h. ground (arith, (distinct-IsDistinct ids).1 h.2)),
)
validate_operation_iff (RequestOperation.catalog_get_item i) = ((λ h. tt), (λ h. refl))
validate_operation_iff RequestOperation.index_get_status = ((λ h. tt), (λ h. refl))
validate_operation_iff RequestOperation.agent_get_capabilities = ((λ h. tt), (λ h. refl))
validate_operation_iff RequestOperation.agent_get_health = ((λ h. tt), (λ h. refl))

-- A request is accepted exactly when its versions are the supported ones, its identifier, deadline,
-- query, result count, filters and lookup list are within their bounds, and no document is looked up
-- twice.
pub validate_request_iff : (r : AgentRequest) → (validate r ≡ ok tt) ↔ IsAcceptable r
unfolding validate
validate_request_iff r = (
  (λ h. ground (arith, (validate_operation_iff r.operation).0)),
  (λ h. ground (arith, (validate_operation_iff r.operation).1 h.operation_bounded)),
)

-- Whatever the client asks for, the effective deadline is between one millisecond and the maximum;
-- an accepted request that names one has exactly that.
pub effective_deadline_bounds :
    (r : AgentRequest)
    → (1 ≤ effective_deadline_ms r)
      × (effective_deadline_ms r ≤ 10000)
      × ((r.deadline_ms ≡ 0) ⊎ (10000 < r.deadline_ms) ⊎ (effective_deadline_ms r ≡ r.deadline_ms))
unfolding effective_deadline_ms
effective_deadline_bounds r = ground arith
