-- ===== src/Watch/Examples.antt =====
-- Runs of the watch daemon's models, and the theorems about them at concrete inputs.
use jrag.Base.{
  ℕ, ◌≡◌, refl, true, false, Option, none, some, List, [], ◌∷◌, String, arith, if◌then◌else◌,
}
use jrag.Watch.Lock.{
  System, Call, acquire_call, release_call, run, start, is_holder, read_holder, sent, no_permission,
  returned, raised, step, step_at,
}
use jrag.Watch.Lock.Exclusion.{run_exclusive}
use jrag.Watch.Lock.Sequential.{calls, mutex_calls, Shows, calls-refine-mutex, queries_agree}
use jrag.Watch.Lock.Race.{
  stale_unlink, stale_unlink_two_holders, late_creation, late_creation_hides_holder,
}
use jrag.Watch.Warm.{
  Graph, GraphPath, original, sidecar, Event, read, begin, rewrite, commit, history,
}
use jrag.Watch.Warm.Lifecycle.{view_history, cold, history-refines-view}
use jrag.Watch.Reindex.{Environment, exited, Watcher}
use jrag.Watch.Reindex.Outcome.{result, in_graph, succeeds, Reports, reindex_outcome}

abbrev schedule : List (ℕ × Call)
schedule =
    (7, acquire_call)
    ∷ (8, acquire_call)
    ∷ (7, acquire_call)
    ∷ (8, acquire_call)
    ∷ (7, acquire_call)
    ∷ (8, acquire_call)
    ∷ (7, acquire_call)
    ∷ (8, acquire_call)
    ∷ []

run_exclusive_example : ◌≡◌ {A = ℕ} 7 7
unfolding run step step_at
run_exclusive_example = run_exclusive schedule 7 7 0 refl refl

abbrev two_calls : List (ℕ × Call)
two_calls = (7, acquire_call) ∷ (8, acquire_call) ∷ (7, release_call) ∷ (8, acquire_call) ∷ []

calls-refine-mutex_example :
    ((calls two_calls start).0 ≡ (mutex_calls two_calls none).0)
    × Shows (mutex_calls two_calls none).1 (calls two_calls start).1
calls-refine-mutex_example = calls-refine-mutex two_calls

two_calls_outcomes :
    (mutex_calls two_calls none).0
    ≡ some returned ∷ some (raised (some 7)) ∷ some returned ∷ some returned ∷ []
two_calls_outcomes = refl

abbrev held : System
held = (calls two_calls start).1

queries_agree_example :
    (is_holder 8 held.world ≡ true) × (read_holder (λ _. no_permission) held.world ≡ some 8)
queries_agree_example =
    queries_agree (some 8) held 8 (λ _. no_permission) (calls-refine-mutex two_calls).1

stale_unlink_two_holders_example :
    (((run (stale_unlink 7 8 9) start).process 8).fh ≡ some 0)
    × (((run (stale_unlink 7 8 9) start).process 9).fh ≡ some 1)
stale_unlink_two_holders_example =
    stale_unlink_two_holders 7 8 9 (omega arith) (omega arith) (omega arith)

late_creation_hides_holder_example :
    (((run (late_creation 7 8) start).process 7).fh ≡ some 0)
    × (is_holder 7 (run (late_creation 7 8) start).world ≡ false)
    × (read_holder (λ _. sent) (run (late_creation 7 8) start).world ≡ none)
late_creation_hides_holder_example = late_creation_hides_holder 7 8 (λ _. sent) (omega arith)

-- A reindex that begins a snapshot, is read while the graph is rewritten, and commits without being able to
-- unlink the sidecar.
abbrev graph_of : ℕ → Option Graph
graph_of n = some (record { content = n; version = 17; meta_error = false })

abbrev files : GraphPath → Option Graph
files original = graph_of 1
files sidecar = none

abbrev events : List Event
events = read ∷ begin ∷ read ∷ rewrite (graph_of 2) ∷ read ∷ commit false ∷ read ∷ []

history-refines-view_example :
    (history 17 events (cold files)).0
    ≡ (view_history 17 events (record { current = graph_of 1; frozen = none })).0
history-refines-view_example = history-refines-view 17 events files (
  tt,
  (
    refl,
    (tt, ((record { content = 1; version = 17; meta_error = false }, refl), (tt, (tt, (tt, tt))))),
  ),
)

abbrev environment : Environment
environment = record {
  vector_enabled = true;
  cocoindex = exited 0;
  incremental = exited 1;
  written = graph_of 2;
  unlinks = true;
  now = 100;
}

abbrev watcher : Watcher
watcher = record { warm = cold files; last_reindex = none; emitted = [] }

abbrev indexed : List String
indexed = "java" ∷ "kotlin" ∷ []

reindex_outcome_example :
    ((result environment indexed "java" [] watcher refl).warm.snapshot ≡ none)
    × ((result environment indexed "java" [] watcher refl).last_reindex ≡ (
        if succeeds environment (in_graph environment indexed "java" [] watcher refl) watcher.warm
        then some (100, "java" ∷ [])
        else none))
    × Reports environment
        ("java" ∷ [])
        (in_graph environment indexed "java" [] watcher refl)
        (succeeds environment (in_graph environment indexed "java" [] watcher refl) watcher.warm)
        (result environment indexed "java" [] watcher refl).emitted
reindex_outcome_example = reindex_outcome environment indexed "java" [] watcher refl
