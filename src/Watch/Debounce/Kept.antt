-- ===== src/Watch/Debounce/Kept.antt =====
-- No change is lost and none is invented: the collector of src/java_codebase_rag/watch/watcher.py.
use text.Mathlib.Text.{◌==◌ as str_eq}
use text.Mathlib.TextEquality.{eq_iff}
use jrag.Base.{Bool, true, List, [], ◌∷◌, ◌++◌, ◌≡◌, refl, ap, arith, append-nil, String, ◌||◌}
use jrag.Watch.Reindex.{member}
use jrag.Watch.Debounce.{
  Collector, Label, schedule, observer_sets, stop_called, stopper_sets, worker_runs, Setter, idle,
  about_to_set, Worker, taking, union, collect, take_pending, work, step, run, fresh,
}

-- The kinds that a step schedules: those of an observer that is not still busy with the event before.
abbrev accepted : Label → Setter → List String
accepted (schedule ks) idle = ks
accepted _ _ = []

-- The kinds that a run schedules.
abbrev pub asked : List Label → Collector → List String
asked [] s = []
asked (l ∷ ls) s = accepted l s.observer ++ asked ls (step l s)

abbrev pub joined : List (List String) → List String
joined [] = []
joined (b ∷ bs) = b ++ joined bs

member-append : (k : String) (l m : List String) → member k (l ++ m) ≡ (member k l || member k m)
unfolding member
member-append k [] m = refl
member-append k (x ∷ l) m = ground (arith, member-append k l m)

member_same : (x k : String) (u : List String) → str_eq x k ≡ true → member x u ≡ member k u
member_same x k u h = ap (λ t. member t u) ((eq_iff x k).0 h)

member-union :
    (k : String) (ks p : List String) → member k (union ks p) ≡ (member k ks || member k p)
unfolding union member
member-union k [] p = refl
member-union k (x ∷ ks) p = ground (arith, member-union k ks p, member_same x k (union ks p))

joined-snoc :
    (bs : List (List String)) (b : List String) (k : String)
    → member k (joined (bs ++ (b ∷ []))) ≡ (member k (joined bs) || member k b)
unfolding member
joined-snoc [] b k = ground (arith, append-nil b)
joined-snoc (c ∷ bs) b k = ground (
  arith,
  member-append k c (joined (bs ++ (b ∷ []))),
  member-append k c (joined bs),
  joined-snoc bs b k,
)

abbrev pub has : String → Collector → Bool
has k s = member k s.pending || member k (joined s.batches)

take-has :
    (k : String) (p : List String) (s : Collector)
    → s.pending ≡ p
    → has k (take_pending p s) ≡ has k s
unfolding member
take-has k [] s h = ground arith
take-has k (j ∷ js) s h = ground (arith, joined-snoc s.batches (j ∷ js) k)

work-has : (k : String) (w : Worker) (s : Collector) → has k (work w s) ≡ has k s
unfolding work
work-has k taking s = take-has k s.pending s refl
work-has k _ s = ground arith

collect-has :
    (k : String) (ks : List String) (o : Setter) (s : Collector)
    → has k (collect ks o s) ≡ (member k (accepted (schedule ks) o) || has k s)
unfolding member
collect-has k ks about_to_set s = refl
collect-has k [] idle s = refl
collect-has k (j ∷ js) idle s = ground (arith, member-union k (j ∷ js) s.pending)

step-has :
    (k : String) (l : Label) (s : Collector)
    → has k (step l s) ≡ (member k (accepted l s.observer) || has k s)
unfolding step member
step-has k (schedule ks) s = collect-has k ks s.observer s
step-has k observer_sets s = ground arith
step-has k stop_called s = ground arith
step-has k stopper_sets s = ground arith
step-has k worker_runs s = work-has k s.worker s

run-has :
    (k : String) (ls : List Label) (s : Collector)
    → has k (run ls s) ≡ (member k (asked ls s) || has k s)
unfolding member
run-has k [] s = refl
run-has k (l ∷ ls) s = ground (
  arith,
  run-has k ls (step l s),
  step-has k l s,
  member-append k (accepted l s.observer) (asked ls (step l s)),
)

-- After any interleaving of the observer, the worker and stop, the kinds that were scheduled are exactly those that
-- wait in the collector or were handed to reindex in a batch.
pub run-keeps :
    (k : String) (ls : List Label)
    → (member k (run ls fresh).pending || member k (joined (run ls fresh).batches))
      ≡ member k (asked ls fresh)
unfolding member
run-keeps k ls = ground (arith, run-has k ls fresh)
