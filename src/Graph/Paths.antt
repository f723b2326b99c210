-- ===== src/Graph/Paths.antt =====
-- Path resolution: `resolve_path_connection` of crates/filesystem-graph/src/store.rs, which walks the
-- links of the parents up to a root.
pub mod Chain
pub mod Complete
use local_search.Prelude.{
  ℕ, zero, suc, ◌+◌, Bool, true, false, not, ◌&&◌, ◌||◌, Option, none, some, List, [], ◌∷◌, ◌++◌,
  ◌==◌, if◌then◌else◌, Result, ok, err, ◌>>=◌, ◌>>◌, reject_if, ok_or,
}
use local_search.Core.Ids.{FileLinkId, FileKey}
use local_search.Core.Models.{Text}
use local_search.Graph.Rows.{select, exists, find}
use local_search.Graph.Types.{GraphError, GraphResult, ResolvedPath}
use local_search.Graph.Tables.{LinkRow, FilesystemGraph, key_eq, of_link, links_to}

-- `ORDER BY file_link_id LIMIT 2`: the order shows only where there are two, and then it is an error.
abbrev pub only_link : FileKey → List LinkRow → GraphResult LinkRow
only_link object [] = err (GraphError.missing_parent object)
only_link object (link ∷ []) = ok link
only_link object (link ∷ other ∷ rest) = err (GraphError.ambiguous_parent object)

unfoldable pub load_only_link_for_object : FilesystemGraph → FileKey → GraphResult LinkRow
load_only_link_for_object g object = only_link object (select (links_to object) g.links)

module _ (g : FilesystemGraph) (limit : ℕ) where
  -- From the parent of a link on: `walk` is the next round.
  abbrev pub climb :
      (List FileKey → LinkRow → List Text → GraphResult (List Text))
      → List FileKey
      → Option FileKey
      → List Text
      → GraphResult (List Text)
  climb walk seen none components = ok components
  climb walk seen (some parent) components = do
    reject_if (exists (key_eq parent) seen) (GraphError.parent_cycle parent)
    next ← load_only_link_for_object g parent
    walk (parent ∷ seen) next components

  -- The loop, by the components that it may still push. `components` is the source's vector from
  -- its end, so that it needs no `reverse`.
  unfoldable pub walk : ℕ → Bool → List FileKey → LinkRow → List Text → GraphResult (List Text)
  walk zero is_target seen current components = err (GraphError.depth_limit limit)
  walk (suc room) is_target seen current components = do
    reject_if (current.traversal_boundary && not is_target)
        (GraphError.traversal_boundary current.file_link_id)
    climb (walk room false) seen current.parent_key (current.name ∷ components)

unfoldable pub resolve_path_connection : FilesystemGraph → FileLinkId → ℕ → GraphResult ResolvedPath
resolve_path_connection g file_link_id depth_limit = do
  reject_if (depth_limit == 0) (GraphError.depth_limit 0)
  current ← ok_or (find (of_link file_link_id) g.links) (GraphError.link_not_found file_link_id)
  components ← walk g depth_limit depth_limit true [] current []
  ok (record { components = components })

unfoldable pub resolve_path : FilesystemGraph → FileLinkId → ℕ → GraphResult ResolvedPath
resolve_path g file_link_id depth_limit = do
  reject_if (depth_limit == 0) (GraphError.depth_limit 0)
  resolve_path_connection g file_link_id depth_limit

-- `join("/")`
unfoldable pub display : List Text → Text
display [] = []
display (c ∷ []) = c
display (c ∷ d ∷ ds) = c ++ b'/' ∷ display (d ∷ ds)
