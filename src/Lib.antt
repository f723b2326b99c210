-- ===== src/Lib.antt =====
-- LocalSearch: the policy and contract core of the workspace, modelled and verified.
--
-- The program keeps a durable graph of the filesystem and projects it into search indexes. A
-- resource governor decides when background projection may run. Clients ask the Agent over a framed
-- JSON contract; the Agent reads filesystem changes from an elevated broker over a contract of the
-- same form. Identifiers, models and the mutation-batch contract are shared by all of them.
--
-- The parts and their files:
--
-- * Governor (crates/resource-governor/src/lib.rs, with the measurements of
--   crates/platform-core/src/resources.rs). Types has the data and defaults, `SystemPressure::from`
--   and its memory ratio. State has the governor's record, `new`, the table of `budget`, `decision`
--   and `transition`. Machine has the methods on `&mut self`, each a function to the new governor;
--   the source's `evaluate` with its early returns is `evaluate`, `evaluate_recovery`,
--   `evaluate_pressure`, `evaluate_workload` and `evaluate_healthy`, each the rest of the method from
--   one of its tests on. `Event`, `step` and `run` are any sequence of calls. u8 and u64 counters
--   saturate as in the source. The proofs stand in Frame, Invariant, Budget, Safety, Boost, Hold,
--   Recovery, Sequence, Settle and Measures.
-- * Core (crates/core/src). Ids prints and parses 128-bit identifiers (`parse_id`, `Display`), Models
--   has the domain data and `MutationBatch::validate`, Errors the domain errors and their codes.
-- * Platform (crates/platform-core/src/filesystem.rs and errors.rs): the data of the provider
--   boundary.
-- * Wire. Frame is `encode_frame` and `decode_frame`, written once for the two crates that have them;
--   Agent is crates/agent-api/src/contract.rs and lib.rs; Broker is crates/broker-api/src/lib.rs.
-- * BrokerService (crates/fs-service/src/lib.rs). Replay has `ReplayWindow`; Scans has the scan's state
--   and the loop and the three ends of `read_scan_page`; State has the service and what a call meets
--   from outside; Service has the operations and `dispatch`, with the provider as an argument. The
--   proofs stand in ReplayHistory and ReplayLaws, Delivery, Table, Answers and Replays.
-- * Windows (crates/windows-fs/src/record.rs): `decode_v2` and `decode_page` of USN records. The loop
--   of `decode_page` is `decode_records` on what is left of the input; its fuel is the input's length
--   and one, enough since a record takes at least 60 bytes. The proofs stand in Record/Bounds.
-- * Graph (crates/filesystem-graph/src). Types is domain.rs and error.rs; Rows reads an SQL statement
--   on a list of rows; Tables has the tables of migrations.rs, their keys and the statements that several
--   operations share. Links is `upsert_object`, `upsert_link`, `remove_link_internal` and
--   `tombstone_object`; Paths is `resolve_path_connection`, whose loop `walk` recurs on the components
--   that the depth limit leaves; Projection is `sync_catalog_projection` with the outbox's append;
--   Batch is `apply_batch_with_outbox_mode`; Outbox is reading, acknowledging and pruning; Scan is the
--   observation session with its pages and Sweep the end of it; Refresh is the deferred refreshes;
--   Desired is the queries of the desired catalog, compaction, counts and the audit. `Operation`,
--   `step` and `run` of Operations are any sequence of the calls that write. An operation on the store
--   takes the graph and gives the new one with its result: a transaction that fails leaves the graph
--   as it was. The proofs stand in the child modules of each.
-- * Observation (crates/agent/src/observation.rs). Selection is `selected_volumes`; State has the
--   controller and what a step meets from outside; Outcomes has the small functions of a step, the
--   discovery and the drop; Controller has `step` and its parts, each given the progress so far: the
--   controller, the graph under its path and the calls of the source. Decisions is
--   a table of the calls of the store that a step is to make. The proofs stand in Ends and Calls,
--   Turns and Store, Scans, and Gap.
-- * Catalog (crates/catalog-index/src). Index is the writer of index.rs; Types, Worker and Recovery are
--   projector.rs: Worker has the turns of the loop of `run`, Recovery has `rebuild`, `recover` and `run`
--   itself. A run is given the graph and the directory of generations, and gives them back also where
--   it fails. The loop of `run` recurs on the batches that are left to it; the search for an unused
--   generation on the greatest one, which is enough as Fuel proves; the pages of a rebuild on the number
--   of desired documents and one, more than there are pages, since each page but the last one moves
--   the cursor past a document. The proofs stand in Replay, Cursor, Consistency, Runs, Pipeline, Fuel.
--
-- Conventions. Numbers are native naturals, with the Rust width beside each field; text is the list
-- of its UTF-8 bytes, since the source measures it in bytes; an identifier is the u128 of its bytes
-- outside of Core.Ids. A `BTreeSet` or `HashSet` is a list with its membership test. A static message
-- is a string. The code's loops are structural recursion, on lists or on a number; on fuel run only
-- the loop of `decode_page` in Windows.Record and the consumer of pages in BrokerService.Delivery, for
-- which `reads` there is enough.
--
-- Parameters. serde_json is `Json` of Wire.Frame: two functions, with the law that it reads back what
-- it wrote of a value as a hypothesis where a theorem needs it.
-- A filesystem provider is `Provider` of BrokerService.State, what it answers during one call; no law
-- of it is assumed. What a scan's worker puts into its queue is `open_scan`, as the outcomes of the
-- later `try_recv` calls. The clock and the caller's cancellation are the looks of `Polls`.
-- The broker as the controller meets it is `ObservationSource` of Observation.State, in `Surroundings`
-- with the clock and the outcome of opening the graph; each step has its own, without a law.
-- Tantivy is `Tantivy` of Catalog.Index, with what the writer relies on as `Lawful`; how each use of it
-- fares is `Attempt`.
-- The conversion of UTF-16 text is `Utf16` of Windows.Record, without a law.
-- The fingerprint of a document's content (SHA-256 of its JSON) and `str::to_lowercase` are `Encoding`
-- of Graph.Projection, without a law. SQLite is read by its documented behaviour: an upsert by the
-- primary key, unique indexes and foreign keys as refusals, AUTOINCREMENT beyond every earlier row,
-- rollback of a transaction that fails. Its input and output errors are not modelled.
--
-- Not modelled: serialisation attributes, clocks and sampling (their results are arguments), the
-- Win32 and named-pipe layers, the broker's worker threads and poisoned locks, the graph's
-- migrations and page allocation, the schema and the queries of the Tantivy indexes, the directory
-- that a failed creation of a generation may leave, the desktop interface and the experiments under
-- crates/*-spike.
pub mod Prelude
pub mod BrokerService
pub mod Catalog
pub mod Core
pub mod Governor
pub mod Graph
pub mod Observation
pub mod Platform
pub mod Windows
pub mod Wire
