-- ===== src/Graph/Desired/Live.antt =====
-- No link of the graph leads to a tombstoned object: the compaction of older payloads
-- (crates/filesystem-graph/src/store.rs).
use local_search.Prelude.{
  take, ℕ, ◌||◌, none, some, List, [], ◌∷◌, ltb, ◌==◌, reject_if, Ensures, bind-Ensures, Ensures-ok,
}
use local_search.Graph.Types.{DesiredPayloadMaintenanceSummary}
use local_search.Graph.Tables.{DocumentRow, Payload, compact, legacy, FilesystemGraph}
use local_search.Graph.Links.LiveRows.{LinksLive}
use local_search.Graph.Projection.{Encoding}
use local_search.Graph.Desired.{
  is_legacy, by_document_id, compact_payload, compact_rows, compact_legacy,
}
use local_search.Graph.Rows.{select}

module _ (encoding : Encoding) where
  compact_payload-LinksLive :
      (row : DocumentRow) (payload : Payload) (g : FilesystemGraph)
      → LinksLive g
      → Ensures LinksLive (compact_payload encoding row payload g)
  compact_payload-LinksLive row (compact path fingerprint) g h = h
  compact_payload-LinksLive row (legacy none) g h = tt
  compact_payload-LinksLive row (legacy (some document)) g h = h

  compact_rows-LinksLive :
      (rows : List DocumentRow) (g : FilesystemGraph)
      → LinksLive g
      → Ensures LinksLive (compact_rows encoding rows g)
  unfolding compact_rows
  compact_rows-LinksLive [] g h = h
  compact_rows-LinksLive (row ∷ rows) g h =
      bind-Ensures LinksLive (compact_payload encoding row row.payload g) _ λ g' e.
        compact_rows-LinksLive rows g'
          (Ensures-ok LinksLive _ g' (compact_payload-LinksLive row row.payload g h) e)

  pub compact_legacy-LinksLive :
      (maximum_rows : ℕ) (g : FilesystemGraph)
      → LinksLive g
      → Ensures (λ p. LinksLive p.0) (compact_legacy encoding maximum_rows g)
  unfolding compact_legacy
  compact_legacy-LinksLive maximum_rows g h =
      let P = λ (p : FilesystemGraph × DesiredPayloadMaintenanceSummary). LinksLive p.0 in
      let rows = take maximum_rows (by_document_id (select is_legacy g.documents)) in
      bind-Ensures P (reject_if (maximum_rows == 0 || ltb 100000 maximum_rows) _) _ λ u r.
        bind-Ensures P (compact_rows encoding rows g) _
          λ g' e. Ensures-ok LinksLive _ g' (compact_rows-LinksLive rows g h) e
