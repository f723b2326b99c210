-- ===== src/Catalog/Index.antt =====
-- The writer of one catalog generation (crates/catalog-index/src/index.rs). Tantivy is a parameter.
use local_search.Prelude.{
  Bool, not, Option, none, some, List, [], ◌∷◌, ◌≡◌, ◌==◌, String, if◌then◌else◌, Result, ok, ◌>>=◌,
  ◌>>◌, reject_if,
}
use local_search.Core.Ids.{DocumentId}
use local_search.Core.Models.{Text, CatalogDocument, IndexMutation, SequencedMutation}

-- What the source tells apart of the failures; what Tantivy and the filesystem say is dropped.
pub data CatalogIndexError : Type 0 where
  tantivy io serialization : CatalogIndexError
  schema_mismatch : Text → CatalogIndexError
  missing_field poison : String → CatalogIndexError
  invalid_document_id short_substring : CatalogIndexError

abbrev pub CatalogIndexResult : Type 0 → Type 0
CatalogIndexResult A = Result CatalogIndexError A

-- A Tantivy index as the catalog uses it: the documents that a writer has, and what a query for the
-- term of an identifier finds of them once they are committed.
pub record Tantivy : Type 1 where
  pub Store : Type 0
  pub empty : Store
  pub delete_term : DocumentId → Store → Store
  pub add_document : CatalogDocument → Store → Store
  pub lookup : DocumentId → Store → Option CatalogDocument

-- The documented behaviour: a new index is empty; a deletion takes what was added before it under
-- the term, and nothing else; a document that is added is found, where the term has no other one.
pub record Lawful (t : Tantivy) : Type 0 where
  pub lookup_empty : (id : DocumentId) → t.lookup id t.empty ≡ none
  pub lookup_deleted :
      (k id : DocumentId) (s : t.Store)
      → t.lookup id (t.delete_term k s) ≡ (if k == id then none else t.lookup id s)
  pub lookup_added :
      (d : CatalogDocument) (id : DocumentId) (s : t.Store)
      → t.lookup d.identity.document_id s ≡ none
      → t.lookup id (t.add_document d s)
        ≡ (if d.identity.document_id == id then some d else t.lookup id s)

-- How a generation and its writer fare in one use: creating or opening it, acquiring the writer,
-- taking a document, committing, waiting for the merges.
pub record Attempt : Type 0 where
  pub creates : CatalogIndexResult (Unit {0})
  pub opens : CatalogIndexResult (Unit {0})
  pub acquires : CatalogIndexResult (Unit {0})
  pub takes : CatalogDocument → CatalogIndexResult (Unit {0})
  pub commits : CatalogIndexResult (Unit {0})
  pub merges : CatalogIndexResult (Unit {0})

abbrev pub document_id_from_link : CatalogDocument → DocumentId
document_id_from_link document = document.identity.file_link_id

abbrev pub poisoned : CatalogDocument → Bool
poisoned document = not (document.identity.document_id == document_id_from_link document)

module _ (t : Tantivy) (a : Attempt) where
  -- CatalogWriter::apply
  unfoldable pub apply : IndexMutation → t.Store → CatalogIndexResult t.Store
  apply (IndexMutation.upsert document) s = do
    reject_if (poisoned document)
        (CatalogIndexError.poison "document ID must be derived from the file-link ID")
    a.takes document
    ok (t.add_document document (t.delete_term document.identity.document_id s))
  apply (IndexMutation.delete document_id version) s = ok (t.delete_term document_id s)

  -- CatalogWriter::add_current
  unfoldable pub add_current : CatalogDocument → t.Store → CatalogIndexResult t.Store
  add_current document s = do
    reject_if (poisoned document)
        (CatalogIndexError.poison "document ID must be derived from the file-link ID")
    a.takes document
    ok (t.add_document document s)

  -- The loops over a batch and over a page.
  unfoldable pub apply_all : List SequencedMutation → t.Store → CatalogIndexResult t.Store
  apply_all [] s = ok s
  apply_all (m ∷ ms) s = do s' ← apply m.mutation s; apply_all ms s'

  unfoldable pub add_all : List CatalogDocument → t.Store → CatalogIndexResult t.Store
  add_all [] s = ok s
  add_all (d ∷ ds) s = do s' ← add_current d s; add_all ds s'
