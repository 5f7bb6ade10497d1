-- ===== src/Watch/Debounce/Prompt.antt =====
-- The worker is always woken: `_debounce_loop` of src/java_codebase_rag/watch/watcher.py.
use jrag.Base.{
  ℕ, zero, suc, Bool, true, false, not, List, [], ◌∷◌, ◌++◌, ◌≡◌, ◌≢◌, refl, arith, String, ◌||◌,
  ◌&&◌, subst,
}
use jrag.Watch.Debounce.{
  Collector, Label, schedule, worker_runs, Setter, idle, about_to_set, Worker, outer, waiting,
  taking, reindexing, ended, collect, take_pending, work, step, run, fresh,
}

abbrev pub is_empty : List String → Bool
is_empty [] = true
is_empty (k ∷ ks) = false

abbrev is_about : Setter → Bool
is_about idle = false
is_about about_to_set = true

-- Between being woken and taking what is pending.
abbrev is_awake : Worker → Bool
is_awake outer = false
is_awake waiting = false
is_awake reindexing = false
is_awake ended = false
is_awake _ = true

abbrev has_ended : Worker → Bool
has_ended ended = true
has_ended _ = false

-- Unless it is stopped, the worker has not ended, and what is pending has woken it or is about to.
abbrev alert_at : List String → Bool → Bool → Setter → Worker → Bool
alert_at p activity stop observer w =
    stop || (not (has_ended w) && (is_empty p || (activity || (is_about observer || is_awake w))))

abbrev alert : Collector → Bool
alert s = alert_at s.pending s.activity s.stop s.observer s.worker

take-alert : (p : List String) (s : Collector) → s.pending ≡ p → alert (take_pending p s) ≡ true
take-alert [] s e = ground arith
take-alert (k ∷ ks) s e = ground arith

work-alert : (w : Worker) (s : Collector) → s.worker ≡ w → alert s ≡ true → alert (work w s) ≡ true
unfolding work
work-alert taking s e h = take-alert s.pending s refl
work-alert _ s e h = ground arith

collect-alert :
    (ks : List String) (o : Setter) (s : Collector)
    → s.observer ≡ o
    → alert s ≡ true
    → alert (collect ks o s) ≡ true
collect-alert ks about_to_set s e h = h
collect-alert [] idle s e h = h
collect-alert (k ∷ ks) idle s e h = ground arith

step-alert : (l : Label) (s : Collector) → alert s ≡ true → alert (step l s) ≡ true
unfolding step
step-alert (schedule ks) s h = collect-alert ks s.observer s refl h
step-alert worker_runs s h = work-alert s.worker s refl h
step-alert _ s h = ground arith

run-alert : (ls : List Label) (s : Collector) → alert s ≡ true → alert (run ls s) ≡ true
run-alert [] s h = h
run-alert (l ∷ ls) s h = run-alert ls (step l s) (step-alert l s h)

abbrev pub worker_steps : ℕ → List Label
worker_steps zero = []
worker_steps (suc n) = worker_runs ∷ worker_steps n

-- The nine steps, on a state by its fields.
abbrev from_fields : List String → Bool → Setter → Worker → List (List String) → Collector
from_fields p a sp w bs = record {
  pending = p;
  activity = a;
  stop = false;
  observer = idle;
  stopper = sp;
  worker = w;
  batches = bs;
}

nine_steps :
    (p : List String) (a : Bool) (sp : Setter) (w : Worker) (bs : List (List String))
    → alert_at p a false idle w ≡ true
    → p ≢ []
    → ((run (worker_steps 9) (from_fields p a sp w bs)).batches ≡ bs ++ (p ∷ []))
      × ((run (worker_steps 9) (from_fields p a sp w bs)).pending ≡ [])
unfolding step
nine_steps [] a sp w bs h n = absurd (n refl)
nine_steps (k ∷ ks) false sp outer bs h n = ground arith
nine_steps (k ∷ ks) false sp waiting bs h n = ground arith
nine_steps (k ∷ ks) false sp reindexing bs h n = ground arith
nine_steps (k ∷ ks) a sp ended bs h n = ground arith
nine_steps (k ∷ ks) false sp _ bs h n = (refl, refl)
nine_steps (k ∷ ks) true sp _ bs h n = (refl, refl)

-- From any state that a run reaches, unless stop was called: if something is pending and the observer is not busy,
-- then within nine steps of the worker, when no further event comes, all of it is handed to reindex in one batch.
pub run_prompt :
    (ls : List Label)
    → (run ls fresh).stop ≡ false
    → (run ls fresh).observer ≡ idle
    → (run ls fresh).pending ≢ []
    → ((run (worker_steps 9) (run ls fresh)).batches
        ≡ (run ls fresh).batches ++ ((run ls fresh).pending ∷ []))
      × ((run (worker_steps 9) (run ls fresh)).pending ≡ [])
run_prompt ls t o p =
    let s = run ls fresh in
    let a = run-alert ls fresh refl in
    subst
      (λ (r : Collector).
        ((run (worker_steps 9) r).batches ≡ s.batches ++ (s.pending ∷ []))
        × ((run (worker_steps 9) r).pending ≡ []))
      (ground arith) (nine_steps s.pending s.activity s.stopper s.worker s.batches (ground arith) p)
