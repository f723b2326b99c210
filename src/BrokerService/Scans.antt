-- ===== src/BrokerService/Scans.antt =====
-- The scan table and its operations (crates/fs-service/src/lib.rs).
use local_search.Prelude.{ℕ, zero, suc, Option, none, some, List, [], ◌∷◌, String, err}
use local_search.Core.Models.{FilesystemEvent}
use local_search.Platform.{PlatformError, PlatformErrorKind, PlatformResult, ScanSummary}
use local_search.Wire.Broker.{BrokerErrorCode}

pub record ServiceError : Type 0 where
  pub code : BrokerErrorCode
  pub message : String

unfoldable pub error_code : PlatformErrorKind → BrokerErrorCode
error_code PlatformErrorKind.permission_denied = BrokerErrorCode.permission_denied
error_code PlatformErrorKind.unsupported = BrokerErrorCode.unsupported
error_code PlatformErrorKind.invalid_checkpoint = BrokerErrorCode.unsupported
error_code PlatformErrorKind.unavailable = BrokerErrorCode.unavailable
error_code PlatformErrorKind.io = BrokerErrorCode.unavailable
error_code PlatformErrorKind.source_history_gap = BrokerErrorCode.source_history_gap
error_code PlatformErrorKind.resource_exhausted = BrokerErrorCode.resource_exhausted
error_code PlatformErrorKind.cancelled = BrokerErrorCode.cancelled
error_code PlatformErrorKind.internal = BrokerErrorCode.internal

unfoldable pub platform_error : PlatformError → ServiceError
platform_error error = record {
  code = error_code error.kind;
  message = "filesystem metadata operation failed";
}

-- What a `try_recv` on a scan's queue gives: `ScanMessage`'s two members, or `Empty`.
pub data Received : Type 0 where
  event : FilesystemEvent → Received
  terminal : PlatformResult ScanSummary → Received
  empty : Received

-- `receiver` is what the next calls of `try_recv` give, in order; at its end the queue is
-- disconnected. What the worker puts there is the provider's, and with it the worker's handle and
-- its cancellation flag, which only the worker reads.
pub record ScanState : Type 0 where
  pub receiver : List Received
  pub pending_terminal : Option (PlatformResult ScanSummary)

abbrev pub stopped_without_terminal : PlatformResult ScanSummary
stopped_without_terminal = err (record {
  kind = PlatformErrorKind.internal;
  operation = "scan_worker";
  detail = "scan producer stopped without terminal state";
})

-- What the loop of `read_scan_page` leaves: its events, the queue, its terminal.
pub record Pulled : Type 0 where
  pub events : List FilesystemEvent
  pub receiver : List Received
  pub terminal : Option (PlatformResult ScanSummary)

-- The loop of `read_scan_page`, by the events that its page still has room for.
unfoldable pub pull : ℕ → List Received → Pulled
pull zero rs = record { events = []; receiver = rs; terminal = none }
pull (suc room) [] = record { events = []; receiver = []; terminal = some stopped_without_terminal }
pull (suc room) (empty ∷ rs) = record { events = []; receiver = rs; terminal = none }
pull (suc room) (terminal result ∷ rs) = record {
  events = [];
  receiver = rs;
  terminal = some result;
}
pull (suc room) (event e ∷ rs) = let rest = pull room rs in record rest { events = e ∷ rest.events }

-- `pending_terminal.take()` and the loop, which does not start with a terminal at hand
unfoldable pub take_page : Option (PlatformResult ScanSummary) → ℕ → List Received → Pulled
take_page none maximum_events receiver = pull maximum_events receiver
take_page (some result) maximum_events receiver = record {
  events = [];
  receiver = receiver;
  terminal = some result;
}

-- What a read leaves: the scan goes on, with a page; or it is over, with its outcome.
pub data PageStep : Type 0 where
  more : ScanState → List FilesystemEvent → PageStep
  over : PlatformResult ScanSummary → PageStep

-- the three ends of `read_scan_page`
unfoldable pub end_page :
    List FilesystemEvent → Option (PlatformResult ScanSummary) → List Received → PageStep
end_page events none receiver =
    more (record { receiver = receiver; pending_terminal = none }) events
end_page [] (some result) receiver = over result
end_page (e ∷ es) (some result) receiver =
    more (record { receiver = receiver; pending_terminal = some result }) (e ∷ es)

unfoldable pub read_page : ℕ → ScanState → PageStep
read_page maximum_events s =
    let pulled = take_page s.pending_terminal maximum_events s.receiver in
    end_page pulled.events pulled.terminal pulled.receiver
