-- ===== src/Graph/Links/Liveness.antt =====
-- No link of the graph leads to a tombstoned object: objects and links
-- (crates/filesystem-graph/src/store.rs).
use local_search.Prelude.{
  ℕ, ◌≡◌, refl, Bool, true, false, not, ◌&&◌, ◌||◌, Option, none, some, List, [], ◌∷◌, length, ◌==◌,
  if◌then◌else◌, ok, reject_if, Ensures, bind-Ensures, Ensures-ok, arith, Bool-cases, inl, inr,
}
use local_search.Core.Ids.{FileLinkId, FileKey}
use local_search.Core.Models.{FileObjectSnapshot, FileLinkSnapshot}
use local_search.Graph.Rows.{select, exists, find}
use local_search.Graph.Tables.{
  ObjectRow, LinkRow, FilesystemGraph, key_eq, parent_eq, text_eq, of_object, of_link, links_to,
  enqueue_refresh, volume_exists, try_i64,
}
use local_search.Graph.Links.{
  set_tombstoned, upsert_object, is_directory, refresh_if, delete_link, tombstone_unlinked,
  remove_found, remove_existing, remove_link_internal, tombstone_object, remove_conflicts,
  stale_observation_link_conflicts, refresh_moved, name_conflict, link_row, write_link, upsert_link,
}
use local_search.Graph.Links.LiveRows.{
  AllLive, LinksLive, is_live-revive, is_live-revive_self, is_live-update, is_live-append,
  AllLive-map, AllLive-select, AllLive-append, AllLive-relinked, AllLive-tombstone,
}
use local_search.Graph.Links.Known.{Knows, remove_conflicts-Knows, refresh_moved-Knows}

pub upsert_object-LinksLive :
    (object : FileObjectSnapshot) (generation : ℕ) (g : FilesystemGraph)
    → LinksLive g
    → Ensures LinksLive (upsert_object object generation g)
unfolding upsert_object
upsert_object-LinksLive object generation g h =
    bind-Ensures LinksLive (try_i64 object.metadata.size _) _ λ size e.
      bind-Ensures LinksLive (reject_if (not (volume_exists object.object_key.volume_id g)) _) _
        λ u r.
          AllLive-map g.objects _ g.links
            (λ k live.
              let row : ObjectRow = record {
                object_key = object.object_key;
                metadata = record object.metadata { size = size };
                tombstoned = false;
                observation_generation = generation;
              } in
              ground (
                arith,
                is_live-update row k g.objects refl live,
                is_live-append row k g.objects live,
              ))
            h

enqueue_refresh-LinksLive :
    (object : FileKey) (generation : ℕ) (g : FilesystemGraph)
    → LinksLive g
    → LinksLive (enqueue_refresh object generation g).0
unfolding enqueue_refresh
enqueue_refresh-LinksLive object generation g h = ground (arith, h)

refresh_if-LinksLive :
    (test : Bool) (object : FileKey) (generation : ℕ) (g : FilesystemGraph)
    → LinksLive g
    → LinksLive (refresh_if test object generation g).0
refresh_if-LinksLive true object generation g h = enqueue_refresh-LinksLive object generation g h
refresh_if-LinksLive false object generation g h = h

tombstone_unlinked-LinksLive :
    (object : FileKey) (g : FilesystemGraph) → LinksLive g → LinksLive (tombstone_unlinked object g)
unfolding tombstone_unlinked
tombstone_unlinked-LinksLive object g h =
    elim (Bool-cases (length (select (links_to object) g.links) == 0)) [
      | inl none_left ↦ rw none_left (AllLive-tombstone object g.objects g.links none_left h)
      | inr some_left ↦ rw some_left h
    ]

remove_found-LinksLive :
    (id : FileLinkId) (expected : FileKey) (generation : ℕ) (refresh : Bool) (g : FilesystemGraph)
    (existing : LinkRow)
    → LinksLive g
    → Ensures (λ p. LinksLive p.0) (remove_found id expected generation refresh g existing)
unfolding remove_found
remove_found-LinksLive id expected generation refresh g existing h =
    bind-Ensures (λ p. LinksLive p.0) (reject_if (not (key_eq existing.object_key expected)) _) _
      λ u r.
        bind-Ensures (λ p. LinksLive p.0) (is_directory g expected) _
          λ directory e. refresh_if-LinksLive (directory && refresh) expected generation _ (
            tombstone_unlinked-LinksLive expected (delete_link id g)
              (AllLive-select g.objects _ g.links h))

remove_existing-LinksLive :
    (id : FileLinkId) (expected : FileKey) (generation : ℕ) (refresh : Bool) (g : FilesystemGraph)
    (existing : Option LinkRow)
    → LinksLive g
    → Ensures (λ p. LinksLive p.0) (remove_existing id expected generation refresh g existing)
remove_existing-LinksLive id expected generation refresh g none h = h
remove_existing-LinksLive id expected generation refresh g (some existing) h =
    remove_found-LinksLive id expected generation refresh g existing h

pub remove_link_internal-LinksLive :
    (id : FileLinkId) (expected : FileKey) (generation : ℕ) (refresh : Bool) (g : FilesystemGraph)
    → LinksLive g
    → Ensures (λ p. LinksLive p.0) (remove_link_internal id expected generation refresh g)
unfolding remove_link_internal
remove_link_internal-LinksLive id expected generation refresh g h =
    remove_existing-LinksLive id expected generation refresh g (find (of_link id) g.links) h

pub tombstone_object-LinksLive :
    (object : FileKey) (g : FilesystemGraph)
    → LinksLive g
    → Ensures LinksLive (tombstone_object object g)
unfolding tombstone_object
tombstone_object-LinksLive object g h =
    bind-Ensures LinksLive (reject_if (not (length (select (links_to object) g.links) == 0)) _) _
      λ u r.
        bind-Ensures LinksLive (reject_if (not (exists (of_object object) g.objects)) _) _
          λ v s. AllLive-tombstone object g.objects g.links (ground (arith, r)) h

remove_conflicts-LinksLive :
    (conflicts : List (FileLinkId × FileKey)) (generation : ℕ) (g : FilesystemGraph)
    → LinksLive g
    → Ensures LinksLive (remove_conflicts conflicts generation g)
unfolding remove_conflicts
remove_conflicts-LinksLive [] generation g h = h
remove_conflicts-LinksLive ((id, object) ∷ rest) generation g h =
    bind-Ensures LinksLive (remove_link_internal id object generation false g) _ λ p e.
      remove_conflicts-LinksLive rest generation p.0 (
        Ensures-ok (λ p. LinksLive p.0) _ p
          (remove_link_internal-LinksLive id object generation false g h) e)

refresh_moved-LinksLive :
    (link : FileLinkSnapshot) (generation : ℕ) (g : FilesystemGraph) (existing : Option LinkRow)
    → LinksLive g
    → Ensures (λ p. LinksLive p.0) (refresh_moved link generation g existing)
refresh_moved-LinksLive link generation g none h = h
refresh_moved-LinksLive link generation g (some existing) h =
    bind-Ensures (λ p. LinksLive p.0)
      (reject_if (not (key_eq existing.object_key link.object_key)) _) _
      λ u r.
        let moved =
          not (parent_eq link.parent_key existing.parent_key)
          || not (text_eq existing.name link.name) in
        bind-Ensures (λ p. LinksLive p.0)
          (if moved then is_directory g link.object_key else ok false) _
          λ directory e. refresh_if-LinksLive (moved && directory) link.object_key generation g h

write_link-LinksLive :
    (link : FileLinkSnapshot) (boundary : Bool) (generation : ℕ) (g : FilesystemGraph)
    → exists (of_object link.object_key) g.objects ≡ true
    → LinksLive g
    → LinksLive (write_link link boundary generation g)
unfolding write_link
write_link-LinksLive link boundary generation g x h =
    let objects = set_tombstoned false link.object_key g.objects in
    let kept : AllLive objects g.links =
      AllLive-map g.objects objects g.links (λ k. is_live-revive link.object_key k g.objects) h in
    elim (Bool-cases (exists (of_link link.file_link_id) g.links)) [
      | inl old ↦ rw old (AllLive-relinked objects g.links _ link boundary generation kept)
      | inr new ↦ rw new (
          AllLive-append objects g.links (link_row link boundary generation) kept
            (is_live-revive_self link.object_key g.objects x))
    ]

pub upsert_link-LinksLive :
    (link : FileLinkSnapshot) (boundary : Bool) (generation : ℕ) (g : FilesystemGraph)
    → LinksLive g
    → Ensures (λ p. LinksLive p.0) (upsert_link link boundary generation g)
unfolding upsert_link
upsert_link-LinksLive link boundary generation g h =
    let P = λ (p : FilesystemGraph × ℕ). LinksLive p.0 in
    let K = λ (p : FilesystemGraph × ℕ). Knows link.object_key p.0 in
    let conflicts = stale_observation_link_conflicts link g in
    bind-Ensures P (reject_if (not (exists (of_object link.object_key) g.objects)) _) _ λ u there.
      bind-Ensures P (remove_conflicts conflicts generation g) _ λ cleared c.
        let existing = find (of_link link.file_link_id) cleared.links in
        bind-Ensures P (refresh_moved link generation cleared existing) _ λ refreshed r.
          bind-Ensures P (reject_if (exists (name_conflict link) refreshed.0.links) _) _ λ v free.
            let live =
              Ensures-ok LinksLive _ cleared (remove_conflicts-LinksLive conflicts generation g h)
                c in
            let known : Knows link.object_key g = ground (arith, there) in
            let known' =
              Ensures-ok (Knows link.object_key) _ cleared
                (remove_conflicts-Knows link.object_key conflicts generation g known) c in
            write_link-LinksLive link boundary generation refreshed.0
              (Ensures-ok K _ refreshed
                (refresh_moved-Knows link.object_key link generation cleared existing known') r)
              (Ensures-ok P _ refreshed
                (refresh_moved-LinksLive link generation cleared existing live) r)
