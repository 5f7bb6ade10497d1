-- ===== src/Watch/Debounce.antt =====
-- The collector of changes of `SourceWatcher` in src/java_codebase_rag/watch/watcher.py: the observer thread
-- (`on_any_event`, `_classify`, `_schedule`), the debounce worker (`_debounce_loop`) and `stop`, as interleaved
-- steps. A step is what a thread does between two points where another may run: one call on an event, one locked
-- block. A timeout of the wait is possible whenever the event is not set.
pub mod Kept
pub mod Prompt
use text.Mathlib.Text.{◌==◌ as str_eq}
use jrag.Base.{
  ℕ, zero, suc, Bool, true, false, not, Option, none, some, List, [], ◌∷◌, ◌++◌, ◌≡◌, String,
  if◌then◌else◌, ◌&&◌, ◌||◌,
}
use jrag.Watch.Reindex.{member}

-- What `_classify` asks of a path: whether `is_ignored` says so (`none`: it raises), whether the path is under the
-- source root, and the language of the backend for it.
pub record PathFacts : Type 0 where
  pub ignored : Option Bool
  pub inside : Bool
  pub language : Option String

abbrev singleton : Option String → List String
singleton none = []
singleton (some l) = l ∷ []

abbrev classify_inside : Bool → Option String → List String
classify_inside inside language = if inside then singleton language else []

unfoldable pub classify : PathFacts → List String
classify p = elim (p.ignored) [
  | none ↦ []
  | some ignored ↦ if ignored then [] else classify_inside p.inside p.language
]

abbrev scheduled_path : Option PathFacts → List (List String)
scheduled_path none = []
scheduled_path (some p) = elim (classify p) [ [] ↦ [] | k ∷ ks ↦ (k ∷ ks) ∷ [] ]

-- The calls of `_schedule` for one event: of its path, and of its destination if it has one.
unfoldable pub on_any_event : Bool → PathFacts → Option PathFacts → List (List String)
unfolding classify
on_any_event is_directory src dest =
    if is_directory then [] else scheduled_path (some src) ++ scheduled_path dest

-- Where the worker is in `_debounce_loop`: before the test of the outer loop, in the first wait, behind it, before
-- the test of the inner loop, in its wait, behind the inner loop, before the locked block, and in `reindex`.
pub data Worker : Type 0 where
  outer waiting woken inner quieting quiet taking reindexing ended : Worker

-- A thread that has changed the state and is about to set the event, or not.
pub data Setter : Type 0 where
  idle about_to_set : Setter

-- `batches` are the calls of `reindex`, in order.
pub record Collector : Type 0 where
  pub pending : List String
  pub activity : Bool
  pub stop : Bool
  pub observer : Setter
  pub stopper : Setter
  pub worker : Worker
  pub batches : List (List String)

abbrev add_kind : String → List String → List String
add_kind k ks = if member k ks then ks else k ∷ ks

-- `self._pending |= kinds`
unfoldable pub union : List String → List String → List String
union [] pending = pending
union (k ∷ ks) pending = add_kind k (union ks pending)

-- `_schedule` of kinds that are not empty, its locked block
abbrev collect : List String → Setter → Collector → Collector
collect ks about_to_set s = s
collect [] idle s = s
collect (k ∷ ks) idle s = record s { pending = union (k ∷ ks) s.pending; observer = about_to_set }

abbrev set_by_observer : Setter → Collector → Collector
set_by_observer idle s = s
set_by_observer about_to_set s = record s { activity = true; observer = idle }

abbrev set_by_stopper : Setter → Collector → Collector
set_by_stopper idle s = s
set_by_stopper about_to_set s = record s { activity = true; stopper = idle }

abbrev take_pending : List String → Collector → Collector
take_pending [] s = record s { worker = outer }
take_pending (k ∷ ks) s = record s {
  pending = [];
  worker = reindexing;
  batches = s.batches ++ ((k ∷ ks) ∷ []);
}

-- One step of the worker; a wait that is not over leaves it where it is, but the wait with a timeout ends.
unfoldable pub work : Worker → Collector → Collector
work outer s = record s { worker = if s.stop then ended else waiting }
work waiting s = record s { worker = if s.activity then woken else waiting }
work woken s = record s { worker = if s.stop then ended else inner }
work inner s =
    if s.stop then record s { worker = quiet } else record s { worker = quieting; activity = false }
work quieting s = record s { worker = if s.activity then inner else quiet }
work quiet s = record s { worker = if s.stop then ended else taking }
work taking s = take_pending s.pending s
work reindexing s = record s { worker = outer }
work ended s = s

pub data Label : Type 0 where
  schedule : List String → Label
  observer_sets stop_called stopper_sets worker_runs : Label

unfoldable pub step : Label → Collector → Collector
unfolding work union
step (schedule ks) s = collect ks s.observer s
step observer_sets s = set_by_observer s.observer s
step stop_called s = record s { stop = true; stopper = about_to_set }
step stopper_sets s = set_by_stopper s.stopper s
step worker_runs s = work s.worker s

abbrev pub run : List Label → Collector → Collector
run [] s = s
run (l ∷ ls) s = run ls (step l s)

abbrev pub fresh : Collector
fresh = record {
  pending = [];
  activity = false;
  stop = false;
  observer = idle;
  stopper = idle;
  worker = outer;
  batches = [];
}
