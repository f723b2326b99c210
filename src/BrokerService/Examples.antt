-- ===== src/BrokerService/Examples.antt =====
-- The broker service's theorems at concrete inputs.
use local_search.Prelude.{
  ℕ, ◌≡◌, ◌≤◌, refl, some, none, true, false, List, [], ◌∷◌, length, ok, err, arith,
}
use local_search.Core.Models.{Text, FilesystemEvent}
use local_search.Platform.{
  PlatformFamily, InitialScanMode, ChangeTrackingMode, PrivilegeModel, PlatformErrorKind,
  VolumeDescriptor, ProviderCheckpoint, ScanSummary,
}
use local_search.Wire.Broker.{
  BrokerErrorCode, BrokerOperation, ScanMode, validate, validate_operation, validate_response,
  broker_protocol_version, failure,
}
use local_search.BrokerService.Replay.{new, contains, text_eq}
use local_search.BrokerService.ReplayLaws.{answers, replay_window_refines}
use local_search.BrokerService.Scans.{Received, ScanState}
use local_search.BrokerService.Delivery.{drain, drain_lem}
use local_search.BrokerService.State
use local_search.BrokerService.State.{Provider, Polls}
use local_search.BrokerService.Service.{dispatch}
use local_search.BrokerService.Table.{Call, serve, active_scans_IsBounded}
use local_search.BrokerService.Answers.{Identifies, Refuses, dispatch-IsAnswer}
use local_search.BrokerService.Replays.{dispatch_replayed}

abbrev a : Text
a = 97 ∷ []

abbrev b : Text
b = 98 ∷ []

abbrev c : Text
c = 99 ∷ []

replay_window_refines_example :
    answers (new 2) (a ∷ b ∷ a ∷ c ∷ a ∷ []) ≡ true ∷ true ∷ false ∷ true ∷ true ∷ []
unfolding contains text_eq
replay_window_refines_example = replay_window_refines 2 (a ∷ b ∷ a ∷ c ∷ a ∷ [])

abbrev gone : ℕ → FilesystemEvent
gone n = FilesystemEvent.object_removed (record { volume_id = 7; file_id = n })

abbrev checkpoint : ProviderCheckpoint
checkpoint = record { provider_id = a; format_version = 1; volume_id = 7; opaque = [] }

abbrev summary : ScanSummary
summary = record { checkpoint = checkpoint; emitted_events = 3 }

abbrev messages : List Received
messages =
    Received.event (gone 1)
    ∷ Received.event (gone 2)
    ∷ Received.empty
    ∷ Received.event (gone 3)
    ∷ Received.terminal (ok summary)
    ∷ []

abbrev scan : ScanState
scan = record { receiver = messages; pending_terminal = none }

drain_example : drain 6 2 scan ≡ some (gone 1 ∷ gone 2 ∷ gone 3 ∷ [], ok summary)
drain_example = drain_lem 6 2 scan (omega arith) (omega arith)

abbrev volume : VolumeDescriptor
volume = record {
  volume_id = 7;
  display_name = none;
  mount_points = [];
  filesystem = none;
  removable = false;
  local = true;
}

abbrev provider : Provider
provider = record {
  capabilities = record {
    platform = PlatformFamily.windows;
    initial_scan = InitialScanMode.fast_metadata_enumeration;
    change_tracking = ChangeTrackingMode.persistent_object_journal;
    privilege_model = PrivilegeModel.optional_broker;
    stable_object_ids = true;
    hard_links = true;
    persistent_history = true;
  };
  discover_volumes = ok (volume ∷ []);
  open_scan = λ v mode. messages;
  read_changes = λ start maximum. (
    [],
    err (record {
      kind = PlatformErrorKind.source_history_gap;
      operation = "test";
      detail = "test";
    }),
  );
}

abbrev polls : Polls
polls = record {
  at_dispatch = false;
  at_operation = record { cancelled = false; elapsed_ms = 1 };
  at_spawn = record { cancelled = false; elapsed_ms = 2 };
}

abbrev call_of : Text → BrokerOperation → Call
call_of id operation = record {
  provider = provider;
  request = record {
    protocol_version = 1;
    codec_version = 1;
    request_id = id;
    deadline_ms = 100;
    operation = operation;
  };
  polls = polls;
}

abbrev start : Text → Call
start id = call_of id (BrokerOperation.start_scan 7 ScanMode.initial)

active_scans_IsBounded_example :
    length
      (serve State.new (start a ∷ start b ∷ call_of c (BrokerOperation.cancel_scan 1) ∷ [])).scans
    ≤ 4
active_scans_IsBounded_example =
    active_scans_IsBounded (start a ∷ start b ∷ call_of c (BrokerOperation.cancel_scan 1) ∷ [])

dispatch-IsAnswer_example :
    let answer = dispatch provider (start a).request polls State.new in
    (answer.1.protocol_version ≡ broker_protocol_version)
    × Identifies a answer.1.request_id
    × (validate_response answer.1 ≡ ok tt)
    × Refuses (start a).request State.new answer
dispatch-IsAnswer_example = dispatch-IsAnswer provider (start a).request polls State.new

dispatch_replayed_example :
    dispatch provider (start a).request polls (serve State.new (start a ∷ start b ∷ [])) ≡ (
      serve State.new (start a ∷ start b ∷ []),
      failure a BrokerErrorCode.replay_rejected
          "request identifier was replayed or replay state is unavailable",
    )
unfolding validate validate_operation contains text_eq
dispatch_replayed_example = dispatch_replayed (start a ∷ start b ∷ []) (start a) refl refl
