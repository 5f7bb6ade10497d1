-- ===== src/Watch/Reindex/Outcome.antt =====
-- How a reindex ends, on every path.
use jrag.Base.{
  zero, ◌≡◌, refl, Bool, true, false, Option, none, some, List, [], ◌∷◌, String, arith,
  if◌then◌else◌, ◌&&◌,
}
use jrag.Watch.Warm.{Graph, Warm, original, begin_graph_snapshot, commit_graph_snapshot, happen}
use jrag.Watch.Reindex.{
  Run, exited, Emitted, failed, indexing_done, Watcher, Environment, meets, reindex,
}

abbrev run_ok : Run → Bool
run_ok (exited zero) = true
run_ok _ = false

abbrev exists : Option Graph → Bool
exists none = false
exists (some _) = true

-- The vectors were skipped or went through, and so did the graph, whose snapshot needs a graph file.
abbrev pub succeeds : Environment → Bool → Warm → Bool
succeeds env in_graph w =
    (if env.vector_enabled then run_ok env.cocoindex else true)
    && (if in_graph then run_ok env.incremental && exists (w.files original) else true)

abbrev pub latest : List Emitted → Option Emitted
latest [] = none
latest (e ∷ es) = some e

abbrev pub is_failure : Option Emitted → Bool
is_failure (some (failed _)) = true
is_failure _ = false

abbrev pub Reports : Environment → List String → Bool → Bool → List Emitted → Type 0
Reports env kinds in_graph true es =
    latest es ≡ some (indexing_done kinds env.vector_enabled in_graph)
Reports env kinds in_graph false es = is_failure (latest es) ≡ true

module _ (env : Environment) (indexed : List String) (k : String) (ks : List String) (s : Watcher)
    (idle : s.warm.snapshot ≡ none) where
  abbrev pub result : Watcher
  result = reindex env indexed (k ∷ ks) s

  abbrev pub in_graph : Bool
  in_graph = meets (k ∷ ks) indexed

  reindex_snapshot : result.warm.snapshot ≡ none
  unfolding reindex begin_graph_snapshot commit_graph_snapshot happen
  reindex_snapshot = ground arith

  reindex_done :
      (b : Bool)
      → succeeds env in_graph s.warm ≡ b
      → (result.last_reindex ≡ (if b then some (env.now, k ∷ ks) else s.last_reindex))
        × Reports env (k ∷ ks) in_graph b result.emitted
  unfolding reindex begin_graph_snapshot commit_graph_snapshot happen
  reindex_done true h = ground arith
  reindex_done false h = ground arith

  -- Of a nonempty set of kinds, started with no snapshot active: whatever the subprocesses do (also
  -- where one raises, the graph file is missing or the sidecar cannot be unlinked), no snapshot is left
  -- active. Where the vectors (unless they are disabled) and the graph (if a kind is indexed by it) both go
  -- through, `last_reindex` is set and the last event is `indexing_done` with those phases; else
  -- `last_reindex` is what it was and the last event is an error.
  pub reindex_outcome :
      (result.warm.snapshot ≡ none)
      × (result.last_reindex
          ≡ (if succeeds env in_graph s.warm then some (env.now, k ∷ ks) else s.last_reindex))
      × Reports env (k ∷ ks) in_graph (succeeds env in_graph s.warm) result.emitted
  reindex_outcome =
      let (a, b) = reindex_done (succeeds env in_graph s.warm) refl in (reindex_snapshot, a, b)
