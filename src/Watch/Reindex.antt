-- ===== src/Watch/Reindex.antt =====
-- `SourceWatcher.reindex` and the debounce collector of src/java_codebase_rag/watch/watcher.py.
-- The subprocesses and the clock are arguments: what a run of `run_cocoindex_update` and of
-- `run_incremental_graph` ends in, the latter with the graph file that it leaves.
pub mod Outcome
use text.Mathlib.Text.{◌==◌ as str_eq}
use jrag.Base.{
  ℕ, zero, suc, Bool, true, false, Option, none, some, List, [], ◌∷◌, ◌++◌, String, ◌==◌,
  if◌then◌else◌, not, ◌||◌,
}
use jrag.Watch.Warm.{
  Graph, Warm, Result, ok, err, begin_graph_snapshot, commit_graph_snapshot, happen, rewrite,
}

-- How a subprocess wrapper ends: with a return code, or by raising.
pub data Run : Type 0 where
  exited : ℕ → Run
  crashed : Run

-- The detail of `_emit("error", …)`: the phase that failed.
pub data Phase : Type 0 where
  vectors_phase graph_phase reindex_phase : Phase

-- The calls of `_emit`, with the phases of `indexing_done`.
pub data Emitted : Type 0 where
  indexing_started vectors graph : List String → Emitted
  failed : Phase → Emitted
  indexing_done : List String → (with_vectors with_graph : Bool) → Emitted

-- `emitted` holds the newest event first.
pub record Watcher : Type 0 where
  pub warm : Warm
  pub last_reindex : Option (ℕ × List String)
  pub emitted : List Emitted

unfoldable pub member : String → List String → Bool
member k [] = false
member k (j ∷ js) = str_eq j k || member k js

-- `kinds & _GRAPH_INDEXED_KINDS`, as a test.
pub meets : List String → List String → Bool
unfolding member
meets [] indexed = false
meets (k ∷ ks) indexed = member k indexed || meets ks indexed

abbrev emit : Emitted → Watcher → Watcher
emit e s = record s { emitted = e ∷ s.emitted }

-- What the world does during one reindex.
pub record Environment : Type 0 where
  pub vector_enabled : Bool
  pub cocoindex : Run
  pub incremental : Run
  pub written : Option Graph
  pub unlinks : Bool
  pub now : ℕ

-- The `try` round the graph build, and its `finally`: the return code, or a raise.
abbrev build_graph : Environment → Result (Unit {0}) × Warm → Run × Warm
build_graph env (err e, w) = (crashed, commit_graph_snapshot env.unlinks w)
build_graph env (ok _, w) =
    (env.incremental, commit_graph_snapshot env.unlinks (happen 0 (rewrite env.written) w).1)

abbrev pub is_some : Option ℕ → Bool
is_some none = false
is_some (some _) = true

-- The checks of the return codes and the bookkeeping of a success.
abbrev conclude : Environment → List String → Bool → Option ℕ → ℕ → Watcher → Watcher
conclude env kinds in_graph (some (suc v)) g s = emit (failed vectors_phase) s
conclude env kinds in_graph vres (suc g) s = emit (failed graph_phase) s
conclude env kinds in_graph vres zero s =
    emit (indexing_done kinds (is_some vres) in_graph)
      (record s { last_reindex = some (env.now, kinds) })

abbrev after_graph : Environment → List String → Option ℕ → Run → Watcher → Watcher
after_graph env kinds vres crashed s = emit (failed reindex_phase) s
after_graph env kinds vres (exited g) s = conclude env kinds true vres g s

abbrev graph_part : Environment → List String → Bool → Option ℕ → Watcher → Watcher
graph_part env kinds false vres s = conclude env kinds false vres 0 s
graph_part env kinds true vres s =
    let (rc, w) = build_graph env (begin_graph_snapshot s.warm) in
    after_graph env kinds vres rc (record (emit (graph kinds) s) { warm = w })

abbrev after_vectors : Environment → List String → Bool → Run → Watcher → Watcher
after_vectors env kinds in_graph crashed s = emit (failed reindex_phase) s
after_vectors env kinds in_graph (exited v) s = graph_part env kinds in_graph (some v) s

abbrev vectors_part : Environment → List String → Bool → Bool → Watcher → Watcher
vectors_part env kinds in_graph false s = graph_part env kinds in_graph none s
vectors_part env kinds in_graph true s =
    after_vectors env kinds in_graph env.cocoindex (emit (vectors kinds) s)

-- `reindex` of the sorted kinds; `indexed` is `_GRAPH_INDEXED_KINDS`.
pub reindex : Environment → List String → List String → Watcher → Watcher
unfolding meets
reindex env indexed [] s = s
reindex env indexed (k ∷ ks) s =
    let kinds = k ∷ ks in
    vectors_part env kinds (meets kinds indexed) env.vector_enabled
      (emit (indexing_started kinds) s)
