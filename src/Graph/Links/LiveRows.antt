-- ===== src/Graph/Links/LiveRows.antt =====
-- No link of the graph leads to a tombstoned object: the rows of the two tables
-- (crates/filesystem-graph/src/store.rs).
use local_search.Prelude.{
  ℕ, ◌≡◌, Bool, true, false, not, ◌&&◌, List, [], ◌∷◌, ◌++◌, length, ◌==◌, arith, Bool-cases, inl,
  inr,
}
use local_search.Core.Ids.{FileKey}
use local_search.Core.Models.{FileLinkSnapshot}
use local_search.Graph.Rows.{select, exists, update, All}
use local_search.Graph.Tables.{ObjectRow, LinkRow, FilesystemGraph, key_eq, of_object, links_to}
use local_search.Graph.Links.{set_tombstoned, relinked}

abbrev pub is_live : List ObjectRow → FileKey → Bool
is_live objects key = exists (λ row. of_object key row && not row.tombstoned) objects

abbrev pub AllLive : List ObjectRow → List LinkRow → Type 0
AllLive objects links = All (λ l. is_live objects l.object_key ≡ true) links

-- Every link leads to an object that is there and is not tombstoned.
abbrev pub LinksLive : FilesystemGraph → Type 0
LinksLive g = AllLive g.objects g.links

pub is_live-revive :
    (key k : FileKey) (objects : List ObjectRow)
    → is_live objects k ≡ true
    → is_live (set_tombstoned false key objects) k ≡ true
is_live-revive key k [] h = h
is_live-revive key k (o ∷ os) h = ground (arith, is_live-revive key k os)

pub is_live-revive_self :
    (key : FileKey) (objects : List ObjectRow)
    → exists (of_object key) objects ≡ true
    → is_live (set_tombstoned false key objects) key ≡ true
is_live-revive_self key [] h = h
is_live-revive_self key (o ∷ os) h = ground (arith, is_live-revive_self key os)

pub is_live-tombstone :
    (key k : FileKey) (objects : List ObjectRow)
    → key_eq k key ≡ false
    → is_live objects k ≡ true
    → is_live (set_tombstoned true key objects) k ≡ true
is_live-tombstone key k [] n h = h
is_live-tombstone key k (o ∷ os) n h = ground (arith, is_live-tombstone key k os n)

pub is_live-update :
    (row : ObjectRow) (k : FileKey) (objects : List ObjectRow)
    → row.tombstoned ≡ false
    → is_live objects k ≡ true
    → is_live (update (of_object row.object_key) (λ old. row) objects) k ≡ true
is_live-update row k [] t h = h
is_live-update row k (o ∷ os) t h = ground (arith, is_live-update row k os t)

pub is_live-append :
    (row : ObjectRow) (k : FileKey) (objects : List ObjectRow)
    → is_live objects k ≡ true
    → is_live (objects ++ row ∷ []) k ≡ true
is_live-append row k [] h = cc
is_live-append row k (o ∷ os) h = ground (arith, is_live-append row k os)

pub AllLive-map :
    (objects later : List ObjectRow) (links : List LinkRow)
    → ((k : FileKey) → is_live objects k ≡ true → is_live later k ≡ true)
    → AllLive objects links
    → AllLive later links
AllLive-map objects later [] f h = tt
AllLive-map objects later (l ∷ ls) f (here, rest) =
    (f l.object_key here, AllLive-map objects later ls f rest)

pub AllLive-select :
    (objects : List ObjectRow) (p : LinkRow → Bool) (links : List LinkRow)
    → AllLive objects links
    → AllLive objects (select p links)
AllLive-select objects p [] h = tt
AllLive-select objects p (l ∷ ls) (here, rest) =
    ground (arith, here, AllLive-select objects p ls rest)

pub AllLive-append :
    (objects : List ObjectRow) (links : List LinkRow) (l : LinkRow)
    → AllLive objects links
    → is_live objects l.object_key ≡ true
    → AllLive objects (links ++ l ∷ [])
AllLive-append objects [] l h e = (e, tt)
AllLive-append objects (k ∷ ks) l (here, rest) e = (here, AllLive-append objects ks l rest e)

pub AllLive-relinked :
    (objects : List ObjectRow) (links : List LinkRow) (p : LinkRow → Bool) (link : FileLinkSnapshot)
    (boundary : Bool) (generation : ℕ)
    → AllLive objects links
    → AllLive objects (update p (relinked link boundary generation) links)
AllLive-relinked objects [] p link boundary generation h = tt
AllLive-relinked objects (l ∷ ls) p link boundary generation (here, rest) =
    ground (arith, here, AllLive-relinked objects ls p link boundary generation rest)

-- A tombstoned object without links is the target of none.
pub AllLive-tombstone :
    (key : FileKey) (objects : List ObjectRow) (links : List LinkRow)
    → (length (select (links_to key) links) == 0) ≡ true
    → AllLive objects links
    → AllLive (set_tombstoned true key objects) links
AllLive-tombstone key objects [] n h = tt
AllLive-tombstone key objects (l ∷ ls) n (here, rest) = elim (Bool-cases (links_to key l)) [
  | inl e ↦ ground (arith, e, n)
  | inr e ↦
      let few : (length (select (links_to key) ls) == 0) ≡ true = ground (arith, e, n) in
      (is_live-tombstone key l.object_key objects e here, AllLive-tombstone key objects ls few rest)
]
