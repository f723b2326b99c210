-- ===== src/Graph/Batch/Frame.antt =====
-- What the parts of a batch leave alone (crates/filesystem-graph/src/store.rs).
use local_search.Prelude.{
  ℕ, ◌≡◌, refl, ◌∙◌, Bool, true, false, not, ◌&&◌, ◌||◌, Option, none, some, List, [], ◌∷◌, String,
  length, ◌==◌, if◌then◌else◌, ok, reject_if, Ensures, bind-Ensures, Ensures-ok, Ensures-map, arith,
}
use local_search.Core.Ids.{VolumeId, FileLinkId, FileKey}
use local_search.Core.Models.{FileLinkSnapshot}
use local_search.Platform.{ProviderCheckpoint}
use local_search.Graph.Rows.{select, exists, find}
use local_search.Graph.Types.{GraphMutation, ProjectorCheckpoint}
use local_search.Graph.Tables.{
  VolumeRow, LinkRow, DocumentRow, OutboxRow, SessionRow, FilesystemGraph, key_eq, parent_eq,
  text_eq, of_object, of_volume, of_link, links_to, try_i64, volume_exists, enqueue_refresh,
  enqueue_volume_projection_refresh, upsert_volume,
}
use local_search.Graph.Links.{
  upsert_object, is_directory, refresh_if, delete_link, tombstone_unlinked, remove_found,
  remove_existing, remove_link_internal, remove_link, tombstone_object, remove_conflicts,
  stale_observation_link_conflicts, refresh_moved, name_conflict, write_link, upsert_link,
}
use local_search.Graph.Batch.{require_single_update, change_volume, apply_mutation}

-- The tables that no mutation writes.
pub record Aside : Type 0 where
  pub documents : List DocumentRow
  pub outbox : List OutboxRow
  pub sequence : ℕ
  pub consumers : List ProjectorCheckpoint
  pub sessions : List SessionRow
  pub checkpoints : List ProviderCheckpoint

abbrev pub aside : FilesystemGraph → Aside
aside g = record {
  documents = g.documents;
  outbox = g.outbox;
  sequence = g.sequence;
  consumers = g.consumers;
  sessions = g.sessions;
  checkpoints = g.checkpoints;
}

abbrev pub Keeps : FilesystemGraph → FilesystemGraph → Type 0
Keeps g g' = aside g' ≡ aside g

abbrev KeepsFst : FilesystemGraph → FilesystemGraph × ℕ → Type 0
KeepsFst g p = Keeps g p.0

refresh_if-aside :
    (test : Bool) (object : FileKey) (generation : ℕ) (g : FilesystemGraph)
    → aside (refresh_if test object generation g).0 ≡ aside g
unfolding enqueue_refresh
refresh_if-aside test object generation g = ground arith

tombstone_unlinked-aside :
    (object : FileKey) (g : FilesystemGraph) → aside (tombstone_unlinked object g) ≡ aside g
unfolding tombstone_unlinked
tombstone_unlinked-aside object g = ground arith

remove_existing-Keeps :
    (id : FileLinkId) (expected : FileKey) (generation : ℕ) (refresh : Bool) (g : FilesystemGraph)
    (existing : Option LinkRow)
    → Ensures (KeepsFst g) (remove_existing id expected generation refresh g existing)
unfolding remove_found
remove_existing-Keeps id expected generation refresh g none = refl
remove_existing-Keeps id expected generation refresh g (some existing) =
    bind-Ensures (KeepsFst g) (reject_if (not (key_eq existing.object_key expected)) _) _ λ u r.
      bind-Ensures (KeepsFst g) (is_directory g expected) _ λ directory e.
        refresh_if-aside (directory && refresh) expected generation
          (tombstone_unlinked expected (delete_link id g))
        ∙ tombstone_unlinked-aside expected (delete_link id g)

pub remove_link_internal-Keeps :
    (id : FileLinkId) (expected : FileKey) (generation : ℕ) (refresh : Bool) (g : FilesystemGraph)
    → Ensures (KeepsFst g) (remove_link_internal id expected generation refresh g)
unfolding remove_link_internal
remove_link_internal-Keeps id expected generation refresh g =
    remove_existing-Keeps id expected generation refresh g (find (of_link id) g.links)

remove_conflicts-Keeps :
    (conflicts : List (FileLinkId × FileKey)) (generation : ℕ) (g : FilesystemGraph)
    → Ensures (Keeps g) (remove_conflicts conflicts generation g)
unfolding remove_conflicts
remove_conflicts-Keeps [] generation g = refl
remove_conflicts-Keeps ((id, object) ∷ rest) generation g =
    bind-Ensures (Keeps g) (remove_link_internal id object generation false g) _ λ p e.
      let first =
        Ensures-ok (KeepsFst g) _ p (remove_link_internal-Keeps id object generation false g) e in
      Ensures-map (remove_conflicts rest generation p.0) (λ g' later. later ∙ first)
        (remove_conflicts-Keeps rest generation p.0)

refresh_moved-Keeps :
    (link : FileLinkSnapshot) (generation : ℕ) (g : FilesystemGraph) (existing : Option LinkRow)
    → Ensures (KeepsFst g) (refresh_moved link generation g existing)
refresh_moved-Keeps link generation g none = refl
refresh_moved-Keeps link generation g (some existing) =
    bind-Ensures (KeepsFst g) (reject_if (not (key_eq existing.object_key link.object_key)) _) _
      λ u r.
        let moved =
          not (parent_eq link.parent_key existing.parent_key)
          || not (text_eq existing.name link.name) in
        bind-Ensures (KeepsFst g) (if moved then is_directory g link.object_key else ok false) _
          λ directory e. refresh_if-aside (moved && directory) link.object_key generation g

upsert_link-Keeps :
    (link : FileLinkSnapshot) (boundary : Bool) (generation : ℕ) (g : FilesystemGraph)
    → Ensures (KeepsFst g) (upsert_link link boundary generation g)
unfolding upsert_link write_link
upsert_link-Keeps link boundary generation g =
    let conflicts = stale_observation_link_conflicts link g in
    bind-Ensures (KeepsFst g) (reject_if (not (exists (of_object link.object_key) g.objects)) _) _
      λ u there. bind-Ensures (KeepsFst g) (remove_conflicts conflicts generation g) _ λ cleared c.
        let existing = find (of_link link.file_link_id) cleared.links in
        bind-Ensures (KeepsFst g) (refresh_moved link generation cleared existing) _ λ refreshed r.
          bind-Ensures (KeepsFst g) (reject_if (exists (name_conflict link) refreshed.0.links) _) _
            λ v free.
              Ensures-ok (KeepsFst cleared) _ refreshed
                (refresh_moved-Keeps link generation cleared existing) r
              ∙ Ensures-ok (Keeps g) _ cleared (remove_conflicts-Keeps conflicts generation g) c

change_volume-Keeps :
    (id : VolumeId) (change : VolumeRow → VolumeRow) (message : String) (generation : ℕ)
    (g : FilesystemGraph)
    → Ensures (KeepsFst g) (change_volume id change message generation g)
unfolding change_volume enqueue_volume_projection_refresh
change_volume-Keeps id change message generation g =
    bind-Ensures (KeepsFst g)
      (require_single_update (length (select (of_volume id) g.volumes)) message) _ λ u r. refl

-- A mutation writes volumes, objects, links and refresh jobs, and no other table.
pub apply_mutation-Keeps :
    (m : GraphMutation) (generation : ℕ) (g : FilesystemGraph)
    → Ensures (λ p. Keeps g p.0) (apply_mutation m generation g)
unfolding apply_mutation upsert_volume upsert_object tombstone_object remove_link
apply_mutation-Keeps (GraphMutation.upsert_volume descriptor) generation g = refl
apply_mutation-Keeps (GraphMutation.set_volume_state id state) generation g =
    change_volume-Keeps id _ _ generation g
apply_mutation-Keeps (GraphMutation.upsert_object object) generation g =
    bind-Ensures (KeepsFst g) (upsert_object object generation g) _ λ g' e.
      Ensures-ok (Keeps g) (upsert_object object generation g) g'
        (bind-Ensures (Keeps g) (try_i64 object.metadata.size _) _ λ size s.
          bind-Ensures (Keeps g) (reject_if (not (volume_exists object.object_key.volume_id g)) _) _
            λ u r. refl)
        e
apply_mutation-Keeps (GraphMutation.upsert_link link boundary) generation g =
    upsert_link-Keeps link boundary generation g
apply_mutation-Keeps (GraphMutation.remove_link id object) generation g =
    remove_link_internal-Keeps id object generation true g
apply_mutation-Keeps (GraphMutation.tombstone_object object) generation g =
    bind-Ensures (KeepsFst g) (tombstone_object object g) _ λ g' e.
      Ensures-ok (Keeps g) (tombstone_object object g) g'
        (bind-Ensures (Keeps g) (reject_if (not (length (select (links_to object) g.links) == 0)) _)
          _
          λ u r.
            bind-Ensures (Keeps g) (reject_if (not (exists (of_object object) g.objects)) _) _
              λ v s. refl)
        e
apply_mutation-Keeps (GraphMutation.require_reconciliation id reason) generation g =
    change_volume-Keeps id _ _ generation g
