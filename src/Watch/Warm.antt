-- ===== src/Watch/Warm.antt =====
-- The warm graph reader: `WarmResources` of src/java_codebase_rag/watch/warm.py over the singleton
-- of `LadybugGraph` (src/java_codebase_rag/graph/ladybug_queries.py). A method runs under its lock and is
-- one step. Paths are taken as resolved, and opening a database reads what its file holds then.
pub mod Lifecycle
use jrag.Base.{
  ℕ, Bool, true, false, Option, none, some, List, [], ◌∷◌, ltb, if◌then◌else◌, ◌&&◌, not,
}

-- The graph file and the sidecar copy, `ladybug_path` and its `.lbug.snapshot`.
pub data GraphPath : Type 0 where
  original sidecar : GraphPath

abbrev same_path : GraphPath → GraphPath → Bool
same_path original original = true
same_path sidecar sidecar = true
same_path _ _ = false

-- What a graph file holds: some content, its `ontology_version`, and whether `meta()` reports an error.
pub record Graph : Type 0 where
  pub content : ℕ
  pub version : ℕ
  pub meta_error : Bool

pub data Error : Type 0 where
  no_file outdated : Error

pub data Result {ℓ} (A : Type ℓ) : Type ℓ where
  ok : A → Result A
  err : Error → Result A

-- `cached` is the singleton: its path and what it read when it was opened. `snapshot` is
-- `_snapshot_path`.
pub record Warm : Type 0 where
  pub files : GraphPath → Option Graph
  pub cached : Option (GraphPath × Graph)
  pub snapshot : Option GraphPath

abbrev write : (GraphPath → Option Graph) → GraphPath → Option Graph → GraphPath → Option Graph
write files p g q = if same_path p q then g else files q

module _ (required : ℕ) where
  abbrev open_graph : GraphPath → Warm → Option Graph → Result Graph × Warm
  open_graph p s none = (err no_file, s)
  open_graph p s (some g) =
      if not g.meta_error && ltb g.version required
      then (err outdated, s)
      else (ok g, record s { cached = some (p, g) })

  abbrev get_cached : GraphPath → Warm → Option (GraphPath × Graph) → Result Graph × Warm
  get_cached p s none = open_graph p s (s.files p)
  get_cached p s (some (q, g)) = if same_path q p then (ok g, s) else open_graph p s (s.files p)

  -- `LadybugGraph.get`; `required` is the ontology version that the code wants.
  pub get : GraphPath → Warm → Result Graph × Warm
  get p s = get_cached p s s.cached

  abbrev graph_at : Warm → Option GraphPath → Result Graph × Warm
  graph_at s none = get original s
  graph_at s (some p) = get p s

  -- `WarmResources.graph`.
  pub graph : Warm → Result Graph × Warm
  unfolding get
  graph s = graph_at s s.snapshot

abbrev cached_after : GraphPath → Option (GraphPath × Graph) → Option (GraphPath × Graph)
cached_after p none = none
cached_after p (some (q, g)) = if same_path q p then none else some (q, g)

-- `LadybugGraph.reset_for_path`, at a path.
pub reset_for_path : GraphPath → Warm → Warm
reset_for_path p s = record s { cached = cached_after p s.cached }

-- `shutil.copy2` raises on a missing original, before anything is changed.
abbrev begin_at : Warm → Option Graph → Result (Unit {0}) × Warm
begin_at s none = (err no_file, s)
begin_at s (some g) =
    let s' = reset_for_path original (record s { files = write s.files sidecar (some g) }) in
    (ok tt, record s' { snapshot = some sidecar })

unfoldable pub begin_graph_snapshot : Warm → Result (Unit {0}) × Warm
unfolding reset_for_path
begin_graph_snapshot s = begin_at s (s.files original)

abbrev commit_at : Bool → Warm → Option GraphPath → Warm
commit_at unlinks s none = s
commit_at unlinks s (some p) =
    let s' = reset_for_path p s in
    let files = if unlinks then write s'.files p none else s'.files in
    reset_for_path original (record s' { files = files; snapshot = none })

-- `commit_graph_snapshot`; `unlinks` says whether the sidecar's unlink goes through.
unfoldable pub commit_graph_snapshot : Bool → Warm → Warm
unfolding reset_for_path
commit_graph_snapshot unlinks s = commit_at unlinks s s.snapshot

-- What happens to the reader: a read, the two ends of a snapshot, and the reindex process writing the
-- graph file (or leaving none).
pub data Event : Type 0 where
  read begin : Event
  rewrite : Option Graph → Event
  commit : (unlinks : Bool) → Event

-- The state after an event, and what a read returned.
unfoldable pub happen : ℕ → Event → Warm → Option (Result Graph) × Warm
unfolding graph begin_graph_snapshot commit_graph_snapshot
happen required read s = let (r, s') = graph required s in (some r, s')
happen required begin s = (none, (begin_graph_snapshot s).1)
happen required (rewrite g) s = (none, record s { files = write s.files original g })
happen required (commit unlinks) s = (none, commit_graph_snapshot unlinks s)

pub history : ℕ → List Event → Warm → List (Option (Result Graph)) × Warm
history required [] s = ([], s)
history required (e ∷ es) s =
    let (r, s') = happen required e s in let (rs, t) = history required es s' in (r ∷ rs, t)
