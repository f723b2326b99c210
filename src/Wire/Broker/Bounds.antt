-- ===== src/Wire/Broker/Bounds.antt =====
-- What an accepted broker request is (crates/broker-api/src/lib.rs).
use local_search.Prelude.{◌≤◌, ◌≡◌, ◌↔◌, refl, length, ok, arith}
use local_search.Wire.Broker.{BrokerRequest, BrokerOperation, validate_operation, validate}

-- The bounds of each operation.
abbrev pub IsBounded : BrokerOperation → Type 0
IsBounded (BrokerOperation.read_scan_page scan_id n) = (1 ≤ n) × (n ≤ 256)
IsBounded (BrokerOperation.read_changes c n) =
    (1 ≤ n)
    × (n ≤ 256)
    × (length c.opaque ≤ 65536)
    × (1 ≤ length c.provider_id)
    × (length c.provider_id ≤ 64)
IsBounded _ = Unit

pub record IsAcceptable (r : BrokerRequest) : Type 0 where
  pub protocol : r.protocol_version ≡ 1
  pub codec : r.codec_version ≡ 1
  pub named : 1 ≤ length r.request_id
  pub name_bounded : length r.request_id ≤ 64
  pub deadline_bounded : r.deadline_ms ≤ 30000
  pub operation_bounded : IsBounded r.operation

validate_operation_iff : (o : BrokerOperation) → (validate_operation o ≡ ok tt) ↔ IsBounded o
unfolding validate_operation
validate_operation_iff (BrokerOperation.read_scan_page s n) = ground arith
validate_operation_iff (BrokerOperation.read_changes c n) = ground arith
validate_operation_iff BrokerOperation.broker_get_capabilities = ((λ h. tt), (λ h. refl))
validate_operation_iff BrokerOperation.discover_volumes = ((λ h. tt), (λ h. refl))
validate_operation_iff (BrokerOperation.start_scan v m) = ((λ h. tt), (λ h. refl))
validate_operation_iff (BrokerOperation.cancel_scan s) = ((λ h. tt), (λ h. refl))

-- A request is accepted exactly when its versions are the supported ones and its identifier,
-- deadline, page size and checkpoint are within their bounds.
pub validate_broker_request_iff : (r : BrokerRequest) → (validate r ≡ ok tt) ↔ IsAcceptable r
unfolding validate
validate_broker_request_iff r = (
  (λ h. ground (arith, (validate_operation_iff r.operation).0)),
  (λ h. ground (arith, (validate_operation_iff r.operation).1 h.operation_bounded)),
)
