-- ===== src/Progress/Examples.antt =====
-- The properties of the progress components at concrete inputs.
use jrag.Base.{
  join, Text, text_of, ℕ, true, false, Option, none, some, List, [], ◌∷◌, ◌++◌, ◌≡◌, refl, ◌==◌,
}
use jrag.Progress.{
  Readings, ProgressEvent, vectors, graph, Status, running, done, parse_progress_line,
}
use jrag.Progress.Relay.{Setup, Memory, flush}
use jrag.Progress.Relay.Chunks
use jrag.Progress.Bar.{same_kind, TaskOps, Printer, Renderer, apply, format_concise}
use jrag.Progress.Bar.Tasks
use jrag.Progress.Bar.Printed

abbrev digits : Text → Option ℕ
digits [] = none
digits (c ∷ cs) = some c

abbrev readings : Readings
readings = record { decode = λ t. t; is_space = λ c. c == 32; int_of = digits; float_of = digits }

-- A progress line, read into its event.
progress_line :
    parse_progress_line readings (text_of "JCIRAG_PROGRESS kind=graph  pass=3/6 done=7 status=done")
    ≡ some (record {
      kind = graph;
      phase = none;
      pass = some (text_of "3/6");
      done_count = some 55;
      total = none;
      status = done;
      elapsed = none;
    })
unfolding parse_progress_line
progress_line = refl

abbrev setup : Setup
setup = record { readings = readings; attached = true; verbose = false }

abbrev fresh : Memory
fresh = record { suppress_next = false; sent = [] }

abbrev chunks : List (List ℕ)
chunks =
    text_of "a\nb FutureWarning"
    ∷ text_of " x\n  at\nJCIRAG_PROGRESS kind="
    ∷ text_of "graph\nlast"
    ∷ []

feed_all-flush_example :
    flush setup (Chunks.feed_all setup (record { buf = []; memory = fresh }) chunks)
    ≡ record { buf = []; memory = Chunks.route_lines setup fresh (Chunks.all_lines (join chunks)) }
feed_all-flush_example = Chunks.feed_all-flush setup fresh chunks

abbrev Shown : Type 0
Shown = Option ℕ × ℕ

abbrev ops : TaskOps Shown
ops = record {
  started = λ t. true;
  total = λ t. t.0;
  completed = λ t. t.1;
  start_task = λ t. t;
  show_task = λ t. t;
  set_total = λ n t. (some n, t.1);
  set_completed = λ n t. (t.0, n);
  describe = λ s t. t;
  stop_task = λ t. t;
}

laws : Tasks.TaskLaws ops
laws = record {
  completed-set = λ n t. refl;
  completed-total = λ n t. refl;
  completed-start = λ t. refl;
  completed-show = λ t. refl;
  completed-describe = λ s t. refl;
  completed-stop = λ t. refl;
  total-set = λ n t. refl;
  total-total = λ n t. refl;
  total-start = λ t. refl;
  total-show = λ t. refl;
  total-describe = λ s t. refl;
  total-stop = λ t. refl;
}

abbrev step : Option ℕ → Option ℕ → Status → ProgressEvent
step d n s = record {
  kind = vectors;
  phase = none;
  pass = none;
  done_count = d;
  total = n;
  status = s;
  elapsed = none;
}

abbrev printer : Printer
printer = record { str = λ n. n ∷ []; seconds = λ n. n ∷ []; percent = λ d n. d }

abbrev quiet : Renderer Shown
quiet = record {
  is_started = true;
  fallback = true;
  tasks = λ k. some (none, 0);
  memos = λ k. record { last_print_at = 0; last_total = none; last_elapsed = none };
  printed = [];
}

abbrev history : List (ℕ × ProgressEvent)
history = (100, step (some 1) (some 40) running) ∷ (200, step (some 2) (some 50) running) ∷ []

apply_all-done_example :
    (apply ops printer 300
      (step none none done)
      (Printed.apply_all ops printer history quiet)).printed
    ≡ (Printed.apply_all ops printer history quiet).printed
      ++ (format_concise printer (step none none done) (some 50) none ∷ [])
unfolding same_kind
apply_all-done_example =
    Printed.apply_all-done ops printer history quiet (refl, refl) 300 (step none none done) refl
