-- ===== src/Platform.antt =====
-- The portable provider contracts (crates/platform-core/src/filesystem.rs and errors.rs).
use local_search.Prelude.{ℕ, Bool, Option, List, String, Result}
use local_search.Core.Ids.{VolumeId}
use local_search.Core.Models.{Text}

pub data PlatformFamily : Type 0 where
  windows mac_os linux : PlatformFamily

pub data InitialScanMode : Type 0 where
  fast_metadata_enumeration filesystem_crawl : InitialScanMode

pub data ChangeTrackingMode : Type 0 where
  snapshot_only persistent_object_journal persistent_path_stream : ChangeTrackingMode
  ephemeral_watchers : ChangeTrackingMode

pub data PrivilegeModel : Type 0 where
  optional_broker user_consent current_user : PrivilegeModel

pub record PlatformCapabilities : Type 0 where
  pub platform : PlatformFamily
  pub initial_scan : InitialScanMode
  pub change_tracking : ChangeTrackingMode
  pub privilege_model : PrivilegeModel
  pub stable_object_ids : Bool
  pub hard_links : Bool
  pub persistent_history : Bool

pub record VolumeDescriptor : Type 0 where
  pub volume_id : VolumeId
  pub display_name : Option Text
  pub mount_points : List Text
  pub filesystem : Option Text
  pub removable : Bool
  pub local : Bool

pub record ProviderCheckpoint : Type 0 where
  pub provider_id : Text
  pub format_version : ℕ  -- u32
  pub volume_id : VolumeId
  pub opaque : List ℕ

pub record ScanSummary : Type 0 where
  pub checkpoint : ProviderCheckpoint
  pub emitted_events : ℕ  -- u64

pub record ChangeBatch : Type 0 where
  pub checkpoint : ProviderCheckpoint
  pub emitted_events : ℕ  -- u32
  pub has_more : Bool

pub data PlatformErrorKind : Type 0 where
  permission_denied unsupported unavailable invalid_checkpoint : PlatformErrorKind
  source_history_gap resource_exhausted cancelled io internal : PlatformErrorKind

-- The diagnostic text of a native failure is whatever the system wrote.
pub record PlatformError : Type 0 where
  pub kind : PlatformErrorKind
  pub operation : String
  pub detail : String

abbrev pub PlatformResult : Type 0 → Type 0
PlatformResult A = Result PlatformError A
