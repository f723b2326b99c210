-- ===== src/Graph/Links/Known.antt =====
-- No operation on links deletes an object
-- (crates/filesystem-graph/src/store.rs).
use local_search.Prelude.{
  ℕ, ◌≡◌, refl, ◌∙◌, ap, Bool, true, false, not, ◌&&◌, ◌||◌, Option, none, some, List, [], ◌∷◌,
  if◌then◌else◌, ok, reject_if, Ensures, bind-Ensures, Ensures-ok, arith,
}
use local_search.Core.Ids.{FileLinkId, FileKey}
use local_search.Core.Models.{FileLinkSnapshot}
use local_search.Graph.Rows.{exists, find}
use local_search.Graph.Tables.{
  ObjectRow, LinkRow, FilesystemGraph, key_eq, parent_eq, text_eq, of_object, of_link,
  enqueue_refresh,
}
use local_search.Graph.Links.{
  set_tombstoned, is_directory, refresh_if, delete_link, tombstone_unlinked, remove_found,
  remove_existing, remove_link_internal, remove_conflicts, refresh_moved,
}

pub exists_update :
    (key k : FileKey) (value : Bool) (objects : List ObjectRow)
    → exists (of_object key) (set_tombstoned value k objects) ≡ exists (of_object key) objects
exists_update key k value [] = refl
exists_update key k value (o ∷ os) = ground (arith, exists_update key k value os)

-- An object that is there: no operation on links deletes one.
abbrev pub Knows : FileKey → FilesystemGraph → Type 0
Knows key g = exists (of_object key) g.objects ≡ true

refresh_if-objects :
    (test : Bool) (object : FileKey) (generation : ℕ) (g : FilesystemGraph)
    → (refresh_if test object generation g).0.objects ≡ g.objects
unfolding enqueue_refresh
refresh_if-objects test object generation g = ground arith

pub tombstone_unlinked-Knows :
    (key object : FileKey) (g : FilesystemGraph)
    → Knows key g
    → Knows key (tombstone_unlinked object g)
unfolding tombstone_unlinked
tombstone_unlinked-Knows key object g h = ground (arith, exists_update key object true g.objects)

pub remove_found-Knows :
    (key : FileKey) (id : FileLinkId) (expected : FileKey) (generation : ℕ) (refresh : Bool)
    (g : FilesystemGraph) (existing : LinkRow)
    → Knows key g
    → Ensures (λ p. Knows key p.0) (remove_found id expected generation refresh g existing)
unfolding remove_found
remove_found-Knows key id expected generation refresh g existing h =
    bind-Ensures (λ p. Knows key p.0) (reject_if (not (key_eq existing.object_key expected)) _) _
      λ u r.
        bind-Ensures (λ p. Knows key p.0) (is_directory g expected) _
          λ directory e.
            ap (exists (of_object key)) (
              refresh_if-objects (directory && refresh) expected generation
                (tombstone_unlinked expected (delete_link id g)))
            ∙ tombstone_unlinked-Knows key expected (delete_link id g) h

pub remove_existing-Knows :
    (key : FileKey) (id : FileLinkId) (expected : FileKey) (generation : ℕ) (refresh : Bool)
    (g : FilesystemGraph) (existing : Option LinkRow)
    → Knows key g
    → Ensures (λ p. Knows key p.0) (remove_existing id expected generation refresh g existing)
remove_existing-Knows key id expected generation refresh g none h = h
remove_existing-Knows key id expected generation refresh g (some existing) h =
    remove_found-Knows key id expected generation refresh g existing h

pub remove_conflicts-Knows :
    (key : FileKey) (conflicts : List (FileLinkId × FileKey)) (generation : ℕ) (g : FilesystemGraph)
    → Knows key g
    → Ensures (Knows key) (remove_conflicts conflicts generation g)
unfolding remove_conflicts remove_link_internal
remove_conflicts-Knows key [] generation g h = h
remove_conflicts-Knows key ((id, object) ∷ rest) generation g h =
    bind-Ensures (Knows key) (remove_link_internal id object generation false g) _ λ p e.
      remove_conflicts-Knows key rest generation p.0 (
        Ensures-ok (λ p. Knows key p.0) _ p
          (remove_existing-Knows key id object generation false g (find (of_link id) g.links) h) e)

pub refresh_moved-Knows :
    (key : FileKey) (link : FileLinkSnapshot) (generation : ℕ) (g : FilesystemGraph)
    (existing : Option LinkRow)
    → Knows key g
    → Ensures (λ p. Knows key p.0) (refresh_moved link generation g existing)
refresh_moved-Knows key link generation g none h = h
refresh_moved-Knows key link generation g (some existing) h =
    bind-Ensures (λ p. Knows key p.0)
      (reject_if (not (key_eq existing.object_key link.object_key)) _) _
      λ u r.
        let moved =
          not (parent_eq link.parent_key existing.parent_key)
          || not (text_eq existing.name link.name) in
        bind-Ensures (λ p. Knows key p.0)
          (if moved then is_directory g link.object_key else ok false) _
          λ directory e.
            ap (exists (of_object key))
              (refresh_if-objects (moved && directory) link.object_key generation g)
            ∙ h
