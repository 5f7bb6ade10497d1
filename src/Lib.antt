-- ===== src/Lib.antt =====
-- jrag: a code intelligence layer for Java services. A model of its logic, with theorems about it.
--
-- The program (src/java_codebase_rag of the repository) keeps a graph of symbols and a vector index,
-- answers queries about them, and can run a watch daemon that keeps both fresh. Its parts here:
--   Base      shared names: tests on numbers, lists, texts, lines of bytes, stable sorting, JSON values, floats.
--   Watch     the daemon. Watch/Lock is `ProjectLock` (watch/lock.py): `acquire`, `release`, `is_holder` and
--             `read_holder` as whole calls, and `step` as one system call of a process, so that a
--             list of steps is an interleaving. Watch/Warm is `WarmResources` (watch/warm.py) over the
--             singleton of `LadybugGraph.get` (graph/ladybug_queries.py). Watch/Reindex is
--             `SourceWatcher.reindex` (watch/watcher.py), which uses Watch/Warm for its snapshot, and
--             Watch/Debounce the collector of changes in front of it, as steps of its threads. Watch/Protocol is
--             the codec of watch/protocol.py, Watch/Server a connection of `WatchServer` (watch/server.py) and
--             Watch/Client `request` and `get_payload` (watch/client.py); Watch/Client/Transparent puts the
--             client and the server together.
--   Resolve   `resolve_v2` (analysis/resolve_service.py): `_resolve_dedupe_candidates` is `dedupe`,
--             `_resolve_rank_candidates` is `rank`, `_resolve_finalize_success` is `finalize` and
--             `_resolve_assert_invariants` is `assert_invariants`.
--   Diff      `map_hunks_to_symbols` (analysis/pr_analysis.py), whose changes Risk scores.
--   Risk      `compute_risk` (analysis/pr_analysis.py).
--   Progress  progress.py: `parse_progress_line`; Progress/Relay is `ProgressRelay`, with `is_noise_line`
--             (cli_format.py); Progress/Bar is `IndexProgressRenderer`.
--   Vocab     absence/absence_vocab.py: `VocabularyIndex`, with its sidecar and cache.
--   Calls     pass 3 of graph/build_ast_graph.py, which turns call sites into edges of the graph: Calls/Names is
--             `_resolve_simple` and `_scope_table`, Calls/Receiver `_resolve_receiver_type`, Calls/Lookup
--             `_lookup_method_candidates` and the walks over supertypes, which Calls/Queue carries, and Calls/Emit
--             `_resolve_and_emit_call` and the loops around it.
--   Enrich    the roles and capabilities of types (graph/graph_enrich.py, with the tables and the built-in
--             inference of ast/ast_java.py): Enrich/Roles is `infer_role_for_type` and
--             `infer_capabilities_for_type`, Enrich/Resolve `resolve_role_and_capabilities`, and Enrich/Chain
--             `_build_meta_chain`, whose result the resolver takes.
--   Paths     `LayeredIgnore` (graph/path_filtering.py), whose `is_ignored` the watcher and the indexer ask.
--   Search    `_build_extra_predicates`, `_build_path_predicate`, `_combine_predicates` and `_rrf_merge`
--             (search/search_lancedb.py), `_dedup_by_fqn` (search/search_scoring.py).
--   Envelope  the id-free output of a command: `Envelope._to_idfree_dict`, `_edge_to_idfree`, `node_key` and
--             `_strip_graph_id_fields` (jrag_envelope.py).
--   Metrics   eval/metrics.py: recall, precision and reciprocal rank.
-- The modules named Examples or DaemonExamples hold runs and the theorems at concrete inputs.
--
-- State is passed explicitly. Dictionaries are lists in insertion order (by phase or by file:
-- functions), sets of lines and of kinds are sorted lists, sets of annotations and capabilities lists
-- without repetitions, in the order in which they are iterated. Recursion is structural;
-- only the loops over the lines in a buffer, of the relay's `feed` and of the server's `_handle`, run
-- on fuel, the length of the buffer: every turn takes at least one byte from it; and the search for an
-- unused key in `_to_idfree_dict`, on one more than the number of used keys, of which each turn passes
-- one. The rounds of `_build_meta_chain` are bounded by the code itself, by `max_depth`. The loops
-- over a queue of types (Calls/Queue) run on its length and all types next to any type, and the loop
-- outwards of `_resolve_simple` on one more than the length of the outer name. The floats of
-- the risk score and of the fused scores are arguments; other floats are scaled integers (confidences
-- in hundredths) or quotients of numbers, without rounding. The file system of
-- the lock has inodes with contents and the owner of the exclusive flock; each system call is atomic,
-- and the four that record a pid are one.
-- Arguments of the model: the answers of the graph database, of subprocesses, of `os.kill` and of the
-- message catalogue, what the absence diagnosis raises, the tasks of the terminal library, and what
-- Python reads, prints and lowers as text; the JSON library, the ids of phantoms, the matcher of
-- gitignore lines, the socket, payload functions and floats with their operations.
-- Not modelled: parsing by tree-sitter, the databases and their query texts, embedding, terminal
-- output, sockets and signals.
pub mod Base
pub mod Calls
pub mod Diff
pub mod Enrich
pub mod Envelope
pub mod Metrics
pub mod Paths
pub mod Progress
pub mod Resolve
pub mod Risk
pub mod Search
pub mod Vocab
pub mod Watch
