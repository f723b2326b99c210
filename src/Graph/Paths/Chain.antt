-- ===== src/Graph/Paths/Chain.antt =====
-- What a resolved path is (crates/filesystem-graph/src/store.rs).
use local_search.Prelude.{
  ℕ, zero, suc, ◌≤◌, ◌≡◌, refl, sym, ◌∙◌, Bool, false, not, ◌&&◌, Option, none, some, List, [], ◌∷◌,
  ◌++◌, length, length-append, append_assoc, ok, reject_if, Ensures, bind-Ensures, Ensures-map,
  arith,
}
use local_search.Core.Ids.{FileKey}
use local_search.Core.Models.{Text}
use local_search.Graph.Rows.{select, exists}
use local_search.Graph.Tables.{LinkRow, FilesystemGraph, key_eq, links_to}
use local_search.Graph.Paths.{only_link, load_only_link_for_object, climb, walk}

-- The names from a root of the volume down to a link: each parent is the object of exactly one link,
-- and that link is no traversal boundary.
pub data Chain (g : FilesystemGraph) : LinkRow → List Text → Type 0 where
  root : (link : LinkRow) → link.parent_key ≡ none → Chain g link (link.name ∷ [])
  below :
      (link above : LinkRow) (parent : FileKey) (names : List Text)
      → link.parent_key ≡ some parent
      → select (links_to parent) g.links ≡ above ∷ []
      → above.traversal_boundary ≡ false
      → Chain g above names
      → Chain g link (names ++ link.name ∷ [])

-- What the walk adds to its components is a chain that fits its room.
abbrev pub Walked : FilesystemGraph → ℕ → LinkRow → List Text → List Text → Type 0
Walked g room current components result =
    (names : List Text) × Chain g current names
    × (result ≡ names ++ components)
    × (length names ≤ room)

only_link-ok :
    (object : FileKey) (links : List LinkRow) (link : LinkRow)
    → only_link object links ≡ ok link
    → links ≡ link ∷ []
only_link-ok object [] link h = cc
only_link-ok object (l ∷ []) link h = cc
only_link-ok object (l ∷ k ∷ ks) link h = cc

-- One more name above a chain's end.
Walked-below :
    (g : FilesystemGraph) (room : ℕ) (current above : LinkRow) (parent : FileKey)
    (components result : List Text)
    → current.parent_key ≡ some parent
    → select (links_to parent) g.links ≡ above ∷ []
    → above.traversal_boundary ≡ false
    → Walked g room above (current.name ∷ components) result
    → Walked g (suc room) current components result
Walked-below g room current above parent components result p o b (names, c, e, l) = (
  names ++ current.name ∷ [],
  below current above parent names p o b c,
  e ∙ sym (append_assoc names (current.name ∷ []) components),
  omega (arith, l, length-append names (current.name ∷ [])),
)

module _ (g : FilesystemGraph) (limit : ℕ) where
  climb-Walked :
      (room : ℕ) (seen : List FileKey) (current : LinkRow) (parent : Option FileKey)
      (components : List Text)
      → current.parent_key ≡ parent
      → ((seen' : List FileKey) (above : LinkRow)
          → Ensures
              (λ result.
                Walked g room above (current.name ∷ components) result
                × (above.traversal_boundary ≡ false))
              (walk g limit room false seen' above (current.name ∷ components)))
      → Ensures
          (Walked g (suc room) current components)
          (climb g limit (walk g limit room false) seen parent (current.name ∷ components))
  unfolding load_only_link_for_object
  climb-Walked room seen current none components p ih =
      (current.name ∷ [], root current p, refl, omega arith)
  climb-Walked room seen current (some parent) components p ih =
      let P = Walked g (suc room) current components in
      bind-Ensures P (reject_if (exists (key_eq parent) seen) _) _ λ u r.
        bind-Ensures P (load_only_link_for_object g parent) _ λ above o.
          Ensures-map (walk g limit room false (parent ∷ seen) above (current.name ∷ components))
            (λ result w.
              Walked-below g room current above parent components result p
                (only_link-ok parent (select (links_to parent) g.links) above o) w.1 w.0)
            (ih (parent ∷ seen) above)

  pub walk-Walked :
      (room : ℕ) (is_target : Bool) (seen : List FileKey) (current : LinkRow)
      (components : List Text)
      → Ensures
          (λ result.
            Walked g room current components result
            × (is_target ≡ false → current.traversal_boundary ≡ false))
          (walk g limit room is_target seen current components)
  unfolding walk
  walk-Walked zero is_target seen current components = tt
  walk-Walked (suc room) is_target seen current components =
      bind-Ensures
        (λ result.
          Walked g (suc room) current components result
          × (is_target ≡ false → current.traversal_boundary ≡ false))
        (reject_if (current.traversal_boundary && not is_target) _) _
        λ u r.
          Ensures-map
            (climb g limit (walk g limit room false) seen current.parent_key
              (current.name ∷ components))
            (λ result w. (w, λ t. ground (arith, r, t)))
            (climb-Walked room seen current current.parent_key components refl (λ seen' above.
              Ensures-map (walk g limit room false seen' above (current.name ∷ components))
                (λ result w. (w.0, w.1 refl))
                (walk-Walked room false seen' above (current.name ∷ components))))
