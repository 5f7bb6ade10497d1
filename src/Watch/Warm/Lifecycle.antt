-- ===== src/Watch/Warm/Lifecycle.antt =====
-- What a reader sees through the snapshot lifecycle.
use mathlib.Core.Path.{ap₂}
use jrag.Base.{
  ℕ, ◌≡◌, refl, false, Option, none, some, List, [], ◌∷◌, ltb, if◌then◌else◌, ◌&&◌, not, arith,
}
use jrag.Watch.Warm.{
  GraphPath, original, sidecar, Graph, Result, ok, err, no_file, outdated, Warm, Event, read, begin,
  rewrite, commit, happen, history,
}

-- The abstract reader: the graph as it is on disk, and the copy that is served while it is rewritten.
pub record View : Type 0 where
  pub current : Option Graph
  pub frozen : Option Graph

-- What is served: the frozen copy if there is one.
abbrev served : View → Option Graph
served v = elim v.frozen [ none ↦ v.current | some g ↦ some g ]

abbrev opened : ℕ → Option Graph → Result Graph
opened required none = err no_file
opened required (some g) = if not g.meta_error && ltb g.version required then err outdated else ok g

abbrev pub view_event : ℕ → Event → View → Option (Result Graph) × View
view_event required read v = (some (opened required (served v)), v)
view_event required begin v = (none, record v { frozen = v.current })
view_event required (rewrite g) v = (none, record v { current = g })
view_event required (commit _) v = (none, record v { frozen = none })

abbrev pub view_history : ℕ → List Event → View → List (Option (Result Graph)) × View
view_history required [] v = ([], v)
view_history required (e ∷ es) v =
    let (r, v') = view_event required e v in
    let (rs, w) = view_history required es v' in (r ∷ rs, w)

-- The watcher's use: it begins a snapshot where none is active, and rewrites the graph only under one.
abbrev pub Allowed : Event → View → Type 0
Allowed begin v = v.frozen ≡ none
Allowed (rewrite g) v = (f : Graph) × (v.frozen ≡ some f)
Allowed _ v = Unit

abbrev pub AllAllowed : ℕ → List Event → View → Type 0
AllAllowed required [] v = Unit
AllAllowed required (e ∷ es) v = Allowed e v × AllAllowed required es (view_event required e v).1

-- The cached reader is open on the file that is to be served, and has read what that file holds.
abbrev Cached : ℕ → GraphPath → Option Graph → Option (GraphPath × Graph) → Type 0
Cached required p g none = Unit
Cached required p g (some (q, h)) =
    (q ≡ p) × (g ≡ some h) × ((not h.meta_error && ltb h.version required) ≡ false)

abbrev Serves : ℕ → Option Graph → Warm → Type 0
Serves required none s = (s.snapshot ≡ none) × Cached required original (s.files original) s.cached
Serves required (some f) s =
    (s.snapshot ≡ some sidecar)
    × (s.files sidecar ≡ some f)
    × Cached required sidecar (some f) s.cached

abbrev pub Shows : ℕ → View → Warm → Type 0
Shows required v s = (s.files original ≡ v.current) × Serves required v.frozen s

happen-Shows :
    (required : ℕ) (e : Event) (v : View) (s : Warm)
    → Allowed e v
    → Shows required v s
    → ((happen required e s).0 ≡ (view_event required e v).0)
      × Shows required (view_event required e v).1 (happen required e s).1
unfolding happen
happen-Shows required read v s a h = ground arith
happen-Shows required begin v s a h = ground arith
happen-Shows required (rewrite g) v s a h = ground arith
happen-Shows required (commit u) v s a h = ground arith

history-Shows :
    (required : ℕ) (es : List Event) (v : View) (s : Warm)
    → AllAllowed required es v
    → Shows required v s
    → ((history required es s).0 ≡ (view_history required es v).0)
      × Shows required (view_history required es v).1 (history required es s).1
unfolding history
history-Shows required [] v s a h = (refl, h)
history-Shows required (e ∷ es) v s a h =
    let now = happen-Shows required e v s a.0 h in
    let later =
      history-Shows required es (view_event required e v).1 (happen required e s).1 a.1 now.1 in
    (ap₂ ◌∷◌ now.0 later.0, later.1)

-- Nothing cached, no snapshot; a sidecar file may have been left behind.
abbrev pub cold : (GraphPath → Option Graph) → Warm
cold files = record { files = files; cached = none; snapshot = none }

-- From a cold start, through any sequence of reads, snapshots begun where none is active, rewrites of
-- the graph file under a snapshot, and commits (also ones whose unlink fails), every read returns
-- what the abstract reader returns: the graph as it was when the snapshot began while one is active, and else
-- the graph that is on disk now, or the error of opening it.
pub history-refines-view :
    (required : ℕ) (es : List Event) (files : GraphPath → Option Graph)
    → AllAllowed required es (record { current = files original; frozen = none })
    → (history required es (cold files)).0
      ≡ (view_history required es (record { current = files original; frozen = none })).0
history-refines-view required es files a =
    (history-Shows required es _ (cold files) a (refl, (refl, tt))).0
