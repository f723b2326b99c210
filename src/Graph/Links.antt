-- ===== src/Graph/Links.antt =====
-- Objects and links of the graph: `upsert_object`, `upsert_link`, `remove_link` and
-- `tombstone_object` of crates/filesystem-graph/src/store.rs.
pub mod LiveRows
pub mod Known
pub mod Liveness
use local_search.Prelude.{
  ℕ, ◌+◌, ◌≡◌, Bool, true, false, not, ◌&&◌, ◌||◌, Option, none, some, List, [], ◌∷◌, ◌++◌, length,
  ltb, leb, ◌==◌, if◌then◌else◌, Result, ok, err, ◌>>=◌, ◌>>◌, reject_if, ok_or, is_some_and,
}
use local_search.Core.Ids.{FileLinkId, FileKey}
use local_search.Core.Models.{FileKind, FileObjectSnapshot, FileLinkSnapshot}
use local_search.Graph.Rows.{select, exists, find, delete, update, upsert}
use local_search.Graph.Types.{GraphError, GraphResult, ObservationScanPhase}
use local_search.Graph.Tables.{
  ObjectRow, LinkRow, SessionRow, FilesystemGraph, key_eq, parent_eq, text_eq, of_object, of_link,
  links_to, of_session, try_i64, volume_exists, enqueue_refresh,
}

abbrev pub phase_eq : ObservationScanPhase → ObservationScanPhase → Bool
phase_eq ObservationScanPhase.scanning ObservationScanPhase.scanning = true
phase_eq ObservationScanPhase.sweeping_links ObservationScanPhase.sweeping_links = true
phase_eq ObservationScanPhase.sweeping_objects ObservationScanPhase.sweeping_objects = true
phase_eq _ _ = false

abbrev is_directory_kind : FileKind → Bool
is_directory_kind FileKind.directory = true
is_directory_kind _ = false

abbrev pub set_tombstoned : Bool → FileKey → List ObjectRow → List ObjectRow
set_tombstoned value key objects =
    update (of_object key) (λ row. record row { tombstoned = value }) objects

-- The object's volume is a foreign key.
unfoldable pub upsert_object :
    FileObjectSnapshot → ℕ → FilesystemGraph → GraphResult FilesystemGraph
upsert_object object generation g = do
  size ← try_i64 object.metadata.size "file size"
  reject_if (not (volume_exists object.object_key.volume_id g)) GraphError.sqlite
  let row : ObjectRow = record {
    object_key = object.object_key;
    metadata = record object.metadata { size = size };
    tombstoned = false;
    observation_generation = generation;
  }
  ok (record g { objects = upsert (of_object object.object_key) (λ old. row) row g.objects })

unfoldable pub is_directory : FilesystemGraph → FileKey → GraphResult Bool
is_directory g object = do
  row ←
      ok_or (find (of_object object) g.objects)
        (GraphError.invariant "directory check references unknown object")
  ok (is_directory_kind row.metadata.kind)

-- The two columns that `query_row` reads; the directory's refresh.
abbrev pub refresh_if : Bool → FileKey → ℕ → FilesystemGraph → FilesystemGraph × ℕ
refresh_if test object generation g = if test then enqueue_refresh object generation g else (g, 0)

abbrev pub delete_link : FileLinkId → FilesystemGraph → FilesystemGraph
delete_link id g = record g { links = delete (of_link id) g.links }

-- An object whose last link is gone is tombstoned.
unfoldable pub tombstone_unlinked : FileKey → FilesystemGraph → FilesystemGraph
tombstone_unlinked object g =
    if length (select (links_to object) g.links) == 0
    then record g { objects = set_tombstoned true object g.objects }
    else g

unfoldable pub remove_found :
    FileLinkId → FileKey → ℕ → Bool → FilesystemGraph → LinkRow → GraphResult (FilesystemGraph × ℕ)
remove_found id expected generation refresh_directory_paths g existing = do
  reject_if (not (key_eq existing.object_key expected))
      (GraphError.invariant "link removal object identity does not match durable state")
  directory ← is_directory g expected
  ok (
      refresh_if (directory && refresh_directory_paths) expected generation
        (tombstone_unlinked expected (delete_link id g)))

abbrev pub remove_existing :
    FileLinkId
    → FileKey
    → ℕ
    → Bool
    → FilesystemGraph
    → Option LinkRow
    → GraphResult (FilesystemGraph × ℕ)
remove_existing id expected generation refresh_directory_paths g none = ok (g, 0)
remove_existing id expected generation refresh_directory_paths g (some existing) =
    remove_found id expected generation refresh_directory_paths g existing

unfoldable pub remove_link_internal :
    FileLinkId → FileKey → ℕ → Bool → FilesystemGraph → GraphResult (FilesystemGraph × ℕ)
remove_link_internal id expected generation refresh_directory_paths g =
    remove_existing id expected generation refresh_directory_paths g (find (of_link id) g.links)

unfoldable pub remove_link :
    FileLinkId → FileKey → ℕ → FilesystemGraph → GraphResult (FilesystemGraph × ℕ)
remove_link id expected generation g = remove_link_internal id expected generation true g

unfoldable pub tombstone_object : FileKey → FilesystemGraph → GraphResult FilesystemGraph
tombstone_object object g = do
  reject_if (not (length (select (links_to object) g.links) == 0))
      (GraphError.invariant "object cannot be tombstoned while namespace links remain")
  reject_if (not (exists (of_object object) g.objects))
      (GraphError.invariant "object tombstone references an unknown object")
  ok (record g { objects = set_tombstoned true object g.objects })

-- The name of a link is taken by another one: of the same parent, or of a root in the volume.
unfoldable pub name_conflict : FileLinkSnapshot → LinkRow → Bool
name_conflict link row =
    not (row.file_link_id == link.file_link_id)
    && parent_eq row.parent_key link.parent_key
    && (is_some_and link.parent_key (λ _. true)
        || row.object_key.volume_id == link.object_key.volume_id)
    && text_eq row.name link.name

abbrev pub scan_cutoff : List SessionRow → FileKey → Option ℕ
scan_cutoff [] object = none
scan_cutoff (s ∷ ss) object =
    if of_session object.volume_id s && phase_eq s.phase ObservationScanPhase.scanning
    then some s.scan_generation
    else scan_cutoff ss object

abbrev pub rebound : FileLinkSnapshot → ℕ → LinkRow → Bool
rebound link cutoff row =
    of_link link.file_link_id row
    && not (key_eq row.object_key link.object_key)
    && ltb row.observation_generation cutoff

abbrev pub as_conflict : Option LinkRow → List (FileLinkId × FileKey)
as_conflict none = []
as_conflict (some row) = (row.file_link_id, row.object_key) ∷ []

abbrev pub conflicts_before :
    FileLinkSnapshot → FilesystemGraph → Option ℕ → List (FileLinkId × FileKey)
conflicts_before link g none = []
conflicts_before link g (some cutoff) =
    as_conflict (find (rebound link cutoff) g.links)
    ++ as_conflict
        (find (λ row. name_conflict link row && ltb row.observation_generation cutoff) g.links)

unfoldable pub stale_observation_link_conflicts :
    FileLinkSnapshot → FilesystemGraph → List (FileLinkId × FileKey)
stale_observation_link_conflicts link g =
    conflicts_before link g (scan_cutoff g.sessions link.object_key)

unfoldable pub remove_conflicts :
    List (FileLinkId × FileKey) → ℕ → FilesystemGraph → GraphResult FilesystemGraph
remove_conflicts [] generation g = ok g
remove_conflicts ((stale_link, stale_object) ∷ rest) generation g = do
  (g', jobs) ← remove_link_internal stale_link stale_object generation false g
  remove_conflicts rest generation g'

-- the test of `upsert_link` on the link that is there, and its refresh
abbrev pub refresh_moved :
    FileLinkSnapshot → ℕ → FilesystemGraph → Option LinkRow → GraphResult (FilesystemGraph × ℕ)
refresh_moved link generation g none = ok (g, 0)
refresh_moved link generation g (some existing) = do
  reject_if (not (key_eq existing.object_key link.object_key))
      (GraphError.invariant "a file-link ID cannot be rebound to another object")
  let moved =
      not (parent_eq link.parent_key existing.parent_key) || not (text_eq existing.name link.name)
  directory ← if moved then is_directory g link.object_key else ok false
  ok (refresh_if (moved && directory) link.object_key generation g)

abbrev pub link_row : FileLinkSnapshot → Bool → ℕ → LinkRow
link_row link boundary generation = record {
  file_link_id = link.file_link_id;
  object_key = link.object_key;
  parent_key = link.parent_key;
  name = link.name;
  traversal_boundary = boundary;
  observation_generation = generation;
}

abbrev pub relinked : FileLinkSnapshot → Bool → ℕ → LinkRow → LinkRow
relinked link boundary generation old = record old {
  parent_key = link.parent_key;
  name = link.name;
  traversal_boundary = boundary;
  observation_generation = generation;
}

-- the insert of the link's row, and its object's revival
unfoldable pub write_link : FileLinkSnapshot → Bool → ℕ → FilesystemGraph → FilesystemGraph
write_link link boundary generation g = record g {
  links =
      upsert (of_link link.file_link_id) (relinked link boundary generation)
        (link_row link boundary generation) g.links;
  objects = set_tombstoned false link.object_key g.objects;
}

-- The names below one parent, and of the roots of a volume, are unique in the schema.
unfoldable pub upsert_link :
    FileLinkSnapshot → Bool → ℕ → FilesystemGraph → GraphResult (FilesystemGraph × ℕ)
upsert_link link boundary generation g = do
  reject_if (not (exists (of_object link.object_key) g.objects))
      (GraphError.invariant "link observation precedes its physical object")
  cleared ← remove_conflicts (stale_observation_link_conflicts link g) generation g
  (refreshed, refresh_jobs) ←
      refresh_moved link generation cleared (find (of_link link.file_link_id) cleared.links)
  reject_if (exists (name_conflict link) refreshed.links) GraphError.sqlite
  ok (write_link link boundary generation refreshed, refresh_jobs)
