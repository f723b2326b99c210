-- ===== src/Graph/Paths/Complete.antt =====
-- Every chain that fits the limit is resolved, and nothing else
-- (`resolve_path` of crates/filesystem-graph/src/store.rs).
use local_search.Prelude.{
  ℕ, zero, suc, ◌+◌, ◌≤◌, ◌<◌, ◌≡◌, ◌↔◌, refl, sym, ap, subst, ◌∙◌, inl, inr, Bool, true, false,
  not, ◌&&◌, Option, none, some, List, [], ◌∷◌, ◌++◌, length, length-append, append_assoc,
  append-nil, ◌==◌, ok, err, reject_if, ok_or, ok_of-bind, ok_of-ok_or, Ensures-ok, arith,
  Bool-cases,
}
use local_search.Core.Ids.{FileLinkId, FileKey}
use local_search.Core.Models.{Text}
use local_search.Graph.Rows.{select, exists, find, All}
use local_search.Graph.Types.{GraphResult, ResolvedPath}
use local_search.Graph.Tables.{LinkRow, FilesystemGraph, key_eq, of_link, links_to}
use local_search.Graph.Paths.{
  load_only_link_for_object, walk, resolve_path_connection, resolve_path,
}
use local_search.Graph.Paths.Chain.{Chain, root, below, Walked, walk-Walked}

module _ (g : FilesystemGraph) where
  -- What a chain is, by the parent of its link.
  abbrev Shape : LinkRow → List Text → Option FileKey → Type 0
  Shape link names none = names ≡ link.name ∷ []
  Shape link names (some parent) =
      (above : LinkRow) × (rest : List Text) × (select (links_to parent) g.links ≡ above ∷ [])
      × Chain g above rest
      × (names ≡ rest ++ link.name ∷ [])

  Chain-Shape :
      {link : LinkRow} {names : List Text} (parent : Option FileKey)
      → Chain g link names
      → link.parent_key ≡ parent
      → Shape link names parent
  Chain-Shape none (root link p) e = refl
  Chain-Shape none (below link above parent names p o b c) e = cc
  Chain-Shape (some q) (root link p) e = cc
  Chain-Shape (some q) (below link above parent names p o b c) e =
      let same : parent ≡ q = ground (arith, p, e) in
      (above, names, subst (λ k. select (links_to k) g.links ≡ above ∷ []) same o, c, refl)

  only-eq : (links : List LinkRow) (a b : LinkRow) → links ≡ a ∷ [] → links ≡ b ∷ [] → a ≡ b
  only-eq links a b p q = cc

  -- A link has one chain at most.
  Chain-unique :
      {link : LinkRow} {names : List Text} (others : List Text)
      → Chain g link names
      → Chain g link others
      → names ≡ others
  Chain-unique others (root link p) d = sym (Chain-Shape none d p)
  Chain-unique others (below link above parent names p o b c) d =
      let (above', rest, o', c', e) = Chain-Shape (some parent) d p in
      let same = only-eq (select (links_to parent) g.links) above' above o' o in
      let shorter = Chain-unique rest c (subst (λ l. Chain g l rest) same c') in
      ap (λ ns. ns ++ link.name ∷ []) shorter ∙ sym e

  -- An object whose only link stands above at least `n` names.
  abbrev Higher : ℕ → FileKey → Type 0
  Higher n key =
      (above : LinkRow) × (names : List Text) × (select (links_to key) g.links ≡ above ∷ [])
      × Chain g above names
      × (n ≤ length names)

  All-Higher : (n m : ℕ) (seen : List FileKey) → m ≤ n → All (Higher n) seen → All (Higher m) seen
  All-Higher n m [] l h = tt
  All-Higher n m (s ∷ ss) l ((above, names, o, c, k), rest) =
      ((above, names, o, c, omega (arith, k)), All-Higher n m ss l rest)

  key_eq-eq : (a b : FileKey) → key_eq a b ≡ true → a ≡ b
  key_eq-eq a b h = ground (arith, h)

  -- A parent of a shorter chain was not met before.
  not_seen :
      (parent : FileKey) (above : LinkRow) (names : List Text) (seen : List FileKey)
      → select (links_to parent) g.links ≡ above ∷ []
      → Chain g above names
      → All (Higher (length names + 1)) seen
      → exists (key_eq parent) seen ≡ false
  not_seen parent above names [] o c h = refl
  not_seen parent above names (s ∷ ss) o c ((above', names', o', c', k), rest) =
      elim (Bool-cases (key_eq parent s)) [
        | inl e ↦
            let same_key = key_eq-eq parent s e in
            let same =
              only-eq (select (links_to s) g.links) above' above o'
                (subst (λ q. select (links_to q) g.links ≡ above ∷ []) same_key o) in
            let equal = Chain-unique names (subst (λ l. Chain g l names') same c') c in
            absurd (omega (arith, k, ap length equal))
        | inr e ↦ ground (arith, e, not_seen parent above names ss o c rest)
      ]

  module _ (limit : ℕ) where
    walk_complete :
        {current : LinkRow} {names : List Text} (room : ℕ) (is_target : Bool) (seen : List FileKey)
        (components : List Text)
        → Chain g current names
        → length names ≤ room
        → (current.traversal_boundary && not is_target) ≡ false
        → All (Higher (length names)) seen
        → walk g limit room is_target seen current components ≡ ok (names ++ components)
    unfolding walk load_only_link_for_object
    walk_complete zero is_target seen components (root link p) l b h = absurd (omega arith)
    walk_complete (suc room) is_target seen components (root link p) l b h = rw (b, p)
    walk_complete zero is_target seen components (below link above parent names p o c d) l b h =
        absurd (omega (arith, l, length-append names (link.name ∷ [])))
    walk_complete (suc room) is_target seen components (below link above parent names p o c d) l b
          h =
        let grown = length-append names (link.name ∷ []) in
        let higher =
          All-Higher (length (names ++ link.name ∷ [])) (length names + 1) seen
            (omega (arith, grown)) h in
        let fresh = not_seen parent above names seen o d higher in
        rw (b, p, fresh, o)
          (walk_complete room false (parent ∷ seen) (link.name ∷ components) d
              (omega (arith, l, grown)) (ground (arith, c))
              (
                (above, names, o, d, omega arith),
                All-Higher (length names + 1) (length names) seen (omega arith) higher,
              )
            ∙ ap ok (sym (append_assoc names (link.name ∷ []) components)))

-- A link with its chain of names, within a limit.
abbrev pub Resolves : FilesystemGraph → FileLinkId → ℕ → List Text → Type 0
Resolves g id limit names =
    (link : LinkRow) × (find (of_link id) g.links ≡ some link)
    × Chain g link names
    × (length names ≤ limit)

Chain-positive :
    {g : FilesystemGraph} {link : LinkRow} {names : List Text}
    → Chain g link names
    → 0 < length names
Chain-positive (root link p) = omega arith
Chain-positive (below link above parent names p o b c) =
    omega (arith, length-append names (link.name ∷ []))

abbrev components_of : GraphResult ResolvedPath → List Text
components_of (ok path) = path.components
components_of (err error) = []

Resolves-of :
    (g : FilesystemGraph) (id : FileLinkId) (limit : ℕ) (link : LinkRow) (names : List Text)
    (path : ResolvedPath)
    → find (of_link id) g.links ≡ some link
    → Walked g limit link [] names
    → names ≡ path.components
    → Resolves g id limit path.components
Resolves-of g id limit link names path f (chained, c, e, l) same =
    let equal = sym (append-nil chained) ∙ sym e ∙ same in
    (link, f, subst (Chain g link) equal c, subst (λ ns. length ns ≤ limit) equal l)

resolve_path_sound :
    (g : FilesystemGraph) (id : FileLinkId) (limit : ℕ) (path : ResolvedPath)
    → resolve_path g id limit ≡ ok path
    → Resolves g id limit path.components
unfolding resolve_path resolve_path_connection
resolve_path_sound g id limit path h =
    let record { value = u; first = p; then = h1 } = ok_of-bind (reject_if (limit == 0) _) _ h in
    let record { value = v; first = q; then = h2 } = ok_of-bind (reject_if (limit == 0) _) _ h1 in
    let record { value = link; first = f; then = h3 } =
      ok_of-bind (ok_or (find (of_link id) g.links) _) _ h2 in
    let record { value = names; first = w; then = h4 } =
      ok_of-bind (walk g limit limit true [] link []) _ h3 in
    let walked =
      Ensures-ok _ (walk g limit limit true [] link []) names
        (walk-Walked g limit limit true [] link []) w in
    Resolves-of g id limit link names path (ok_of-ok_or _ _ f) walked.0 (ap components_of h4)

-- A link resolves to a path exactly when the path's components are the names of its chain from a root
-- of the volume, and there are at most `limit` of them: each parent on the way is the object of
-- exactly one link, and that link is no traversal boundary.
pub resolve_path_iff :
    (g : FilesystemGraph) (id : FileLinkId) (limit : ℕ) (path : ResolvedPath)
    → (resolve_path g id limit ≡ ok path) ↔ Resolves g id limit path.components
unfolding resolve_path resolve_path_connection
resolve_path_iff g id limit path = (
  resolve_path_sound g id limit path,
  λ r.
      let (link, f, c, l) = r in
      let positive = Chain-positive c in
      let some_limit : (limit == 0) ≡ false = ground (arith, l, positive) in
      rw (some_limit, f, walk_complete g limit limit true [] [] c l (ground arith) tt)
        (ap (λ names. ok (record { components = names })) (append-nil path.components)),
)
