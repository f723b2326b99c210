-- ===== src/Graph/Sweep/Removes.antt =====
-- A sweep of links removes exactly the links with the identifiers of its rows
-- (crates/filesystem-graph/src/store.rs).
use local_search.Prelude.{
  ℕ, ◌≡◌, refl, ap, ◌∙◌, Bool, not, ◌&&◌, Option, none, some, List, [], ◌∷◌, ◌==◌, reject_if,
  Ensures, bind-Ensures, Ensures-ok, Ensures-map, arith, false,
}
use local_search.Core.Ids.{FileLinkId, FileKey}
use local_search.Graph.Rows.{select, exists, find, delete}
use local_search.Graph.Tables.{LinkRow, FilesystemGraph, key_eq, of_link, enqueue_refresh}
use local_search.Graph.Links.{
  is_directory, refresh_if, delete_link, tombstone_unlinked, remove_found, remove_existing,
  remove_link_internal,
}
use local_search.Graph.Projection.{durable, Encoding, sync_catalog_projection}
use local_search.Graph.Batch.Live.{Files, sync-files}
use local_search.Graph.Sweep.{sweep_links}

abbrev pub same_id : LinkRow → LinkRow → Bool
same_id l s = s.file_link_id == l.file_link_id

refresh_if-links :
    (test : Bool) (object : FileKey) (generation : ℕ) (g : FilesystemGraph)
    → (refresh_if test object generation g).0.links ≡ g.links
unfolding enqueue_refresh
refresh_if-links test object generation g = ground arith

tombstone_unlinked-links :
    (object : FileKey) (g : FilesystemGraph) → (tombstone_unlinked object g).links ≡ g.links
unfolding tombstone_unlinked
tombstone_unlinked-links object g = ground arith

delete-absent :
    (id : FileLinkId) (links : List LinkRow)
    → find (of_link id) links ≡ none
    → links ≡ delete (of_link id) links
delete-absent id [] f = refl
delete-absent id (l ∷ ls) f = ground (arith, f, delete-absent id ls)

remove_existing-links :
    (id : FileLinkId) (expected : FileKey) (generation : ℕ) (refresh : Bool) (g : FilesystemGraph)
    (existing : Option LinkRow)
    → find (of_link id) g.links ≡ existing
    → Ensures
        (λ p. p.0.links ≡ delete (of_link id) g.links)
        (remove_existing id expected generation refresh g existing)
unfolding remove_found
remove_existing-links id expected generation refresh g none f = delete-absent id g.links f
remove_existing-links id expected generation refresh g (some existing) f =
    let P = λ (p : FilesystemGraph × ℕ). p.0.links ≡ delete (of_link id) g.links in
    bind-Ensures P (reject_if (not (key_eq existing.object_key expected)) _) _ λ u r.
      bind-Ensures P (is_directory g expected) _ λ directory e.
        refresh_if-links (directory && refresh) expected generation
          (tombstone_unlinked expected (delete_link id g))
        ∙ tombstone_unlinked-links expected (delete_link id g)

remove-links :
    (id : FileLinkId) (expected : FileKey) (generation : ℕ) (refresh : Bool) (g : FilesystemGraph)
    → Ensures
        (λ p. p.0.links ≡ delete (of_link id) g.links)
        (remove_link_internal id expected generation refresh g)
unfolding remove_link_internal
remove-links id expected generation refresh g =
    remove_existing-links id expected generation refresh g (find (of_link id) g.links) refl

-- The links without those of the rows.
abbrev pub without : List LinkRow → List LinkRow → List LinkRow
without pending links = select (λ l. not (exists (same_id l) pending)) links

without-nil : (links : List LinkRow) → links ≡ without [] links
without-nil [] = refl
without-nil (l ∷ ls) = ap (λ ls. l ∷ ls) (without-nil ls)

without-cons :
    (s : LinkRow) (pending links : List LinkRow)
    → without pending (delete (of_link s.file_link_id) links) ≡ without (s ∷ pending) links
without-cons s pending [] = refl
without-cons s pending (l ∷ ls) = ground (arith, without-cons s pending ls)

module _ (encoding : Encoding) where
  pub sweep_links-without :
      (pending : List LinkRow) (generation : ℕ) (g : FilesystemGraph)
      → Ensures
          (λ g'. g'.links ≡ without pending g.links)
          (sweep_links encoding pending generation g)
  unfolding sweep_links
  sweep_links-without [] generation g = without-nil g.links
  sweep_links-without (s ∷ ss) generation g =
      let P = λ (g' : FilesystemGraph). g'.links ≡ without (s ∷ ss) g.links in
      bind-Ensures P (remove_link_internal s.file_link_id s.object_key generation false g) _ λ p e.
        let removed =
          Ensures-ok (λ p. p.0.links ≡ delete (of_link s.file_link_id) g.links) _ p
            (remove-links s.file_link_id s.object_key generation false g) e in
        bind-Ensures P (sync_catalog_projection encoding s.file_link_id generation durable p.0) _
          λ q w.
            let same =
              Ensures-ok _ _ q (sync-files encoding s.file_link_id generation durable p.0) w in
            let kept : q.0.links ≡ delete (of_link s.file_link_id) g.links =
              ap (λ (f : Files). f.links) same ∙ removed in
            Ensures-map (sweep_links encoding ss generation q.0)
              (λ g' rest. rest ∙ ap (without ss) kept ∙ without-cons s ss g.links)
              (sweep_links-without ss generation q.0)
