-- ===== src/Core/Models.antt =====
-- The wire and domain models, and the sequencing contract of a mutation batch
-- (crates/core/src/models.rs). Text is the list of its UTF-8 bytes.
pub mod Batches
use local_search.Prelude.{
  ℕ, zero, suc, ◌+◌, Bool, not, Option, none, some, List, [], ◌∷◌, ℤ, String, leb, ◌==◌, u64_max,
  if◌then◌else◌, Result, ok, err, ◌>>=◌, ◌>>◌, reject_if, ok_or,
}
use local_search.Core.Ids.{VolumeId, FileLinkId, DocumentId, FileKey, CatalogIdentity}
use local_search.Core.Errors.{DomainError}

abbrev pub Text : Type 0
Text = List ℕ

pub data SearchScope : Type 0 where
  all files folders : SearchScope

pub record SearchFilter : Type 0 where
  pub extensions : List Text
  pub directory_prefix : Option Text
  pub minimum_size : Option ℕ  -- u64
  pub maximum_size : Option ℕ  -- u64

pub record SearchRequest : Type 0 where
  pub query : Text
  pub scope : SearchScope
  pub filters : SearchFilter
  pub top_k : ℕ  -- u16

pub data FileKind : Type 0 where
  file directory symlink special other : FileKind

pub data Availability : Type 0 where
  online offline unknown : Availability

pub record FileMetadata : Type 0 where
  pub kind : FileKind
  pub size : ℕ  -- u64
  pub created_at_unix_ms : Option ℤ
  pub modified_at_unix_ms : Option ℤ
  pub hidden : Bool
  pub availability : Availability

pub record FileObjectSnapshot : Type 0 where
  pub object_key : FileKey
  pub metadata : FileMetadata

pub record FileLinkSnapshot : Type 0 where
  pub file_link_id : FileLinkId
  pub object_key : FileKey
  pub parent_key : Option FileKey
  pub name : Text

pub data ReconciliationReason : Type 0 where
  source_history_unavailable event_overflow : ReconciliationReason
  inconsistent_snapshot provider_requested : ReconciliationReason

pub data FilesystemEvent : Type 0 where
  object_observed : FileObjectSnapshot → FilesystemEvent
  link_observed : FileLinkSnapshot → FilesystemEvent
  link_removed : FileLinkId → FileKey → FilesystemEvent
  object_removed : FileKey → FilesystemEvent
  reconciliation_required : VolumeId → ReconciliationReason → FilesystemEvent

pub data MatchType : Type 0 where
  exact_name prefix_name token_name substring_name path : MatchType

pub record CatalogDocument : Type 0 where
  pub identity : CatalogIdentity
  pub document_version : ℕ  -- u64
  pub name : Text
  pub resolved_path : Text
  pub extension : Option Text
  pub metadata : FileMetadata

pub record SearchHit : Type 0 where
  pub document_id : DocumentId
  pub object_key : FileKey
  pub file_link_id : FileLinkId
  pub name : Text
  pub resolved_path : Text
  pub extension : Option Text
  pub kind : FileKind
  pub size : ℕ  -- u64
  pub modified_at_unix_ms : Option ℤ
  pub availability : Availability
  pub match_type : MatchType
  pub rank : ℕ  -- u32
  pub ranking_version : ℕ  -- u32

pub record SearchResponse : Type 0 where
  pub index_generation : ℕ  -- u64
  pub took_micros : ℕ  -- u64
  pub hits : List SearchHit

pub data IndexMutation : Type 0 where
  upsert : CatalogDocument → IndexMutation
  delete : DocumentId → ℕ → IndexMutation

pub record SequencedMutation : Type 0 where
  pub sequence : ℕ  -- u64
  pub mutation : IndexMutation

pub record MutationBatch : Type 0 where
  pub mutations : List SequencedMutation

-- u64::checked_add(1)
abbrev checked_succ : ℕ → Option ℕ
checked_succ n = if leb u64_max n then none else some (n + 1)

-- The loop of `validate`, from the sequence that is expected next.
unfoldable pub validate_from : ℕ → List SequencedMutation → Result DomainError (Unit {0})
validate_from expected [] = ok tt
validate_from expected (m ∷ ms) = do
  reject_if (not (m.sequence == expected))
      (DomainError.invalid_request "mutation batch sequences must be strictly consecutive")
  next ← ok_or (checked_succ expected) (DomainError.invalid_request "mutation sequence overflow")
  validate_from next ms

abbrev first : List SequencedMutation → Option ℕ
first [] = none
first (m ∷ ms) = some m.sequence

abbrev last : List SequencedMutation → Option ℕ
last [] = none
last (m ∷ []) = some m.sequence
last (m ∷ k ∷ ms) = last (k ∷ ms)

abbrev validate_list : List SequencedMutation → Result DomainError (Unit {0})
validate_list [] = err (DomainError.invalid_request "mutation batch must not be empty")
validate_list (m ∷ ms) = validate_from m.sequence (m ∷ ms)

unfoldable pub validate : MutationBatch → Result DomainError (Unit {0})
validate batch = validate_list batch.mutations

unfoldable pub first_sequence : MutationBatch → Option ℕ
first_sequence batch = first batch.mutations

unfoldable pub last_sequence : MutationBatch → Option ℕ
last_sequence batch = last batch.mutations
