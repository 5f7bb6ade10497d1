-- ===== src/Progress/Bar.antt =====
-- The renderer of progress: `IndexProgressRenderer.apply`, `_fallback_apply` and `_format_concise` of
-- src/java_codebase_rag/progress.py. The tasks of the terminal library and the printing of numbers are arguments;
-- times are milliseconds.
pub mod Tasks
pub mod Printed
use jrag.Base.{
  Text, text_of, ℕ, zero, suc, ◌-◌, Bool, true, false, not, Option, none, some, List, [], ◌∷◌, ◌++◌,
  ◌≡◌, leb, ltb, ◌==◌, max, if◌then◌else◌, ◌&&◌, ◌||◌,
}
use jrag.Progress.{Kind, vectors, graph, optimize, Status, running, done, failed, ProgressEvent}

unfoldable pub same_kind : Kind → Kind → Bool
same_kind vectors vectors = true
same_kind graph graph = true
same_kind optimize optimize = true
same_kind _ _ = false

pub same_status : Status → Status → Bool
same_status running running = true
same_status done done = true
same_status failed failed = true
same_status _ _ = false

-- `d[k] = v` on a dictionary by phase
unfoldable pub set_at {ℓ} : {A : Type ℓ} → Kind → A → (Kind → A) → Kind → A
set_at k v d j = if same_kind k j then v else d j

-- The operations of the terminal library that are used, on a task of it.
pub record TaskOps (T : Type 0) : Type 0 where
  pub started : T → Bool
  pub total : T → Option ℕ
  pub completed : T → ℕ
  pub start_task : T → T
  pub show_task : T → T
  pub set_total : ℕ → T → T
  pub set_completed : ℕ → T → T
  pub describe : Status → T → T
  pub stop_task : T → T

-- How numbers are printed: `str`, `:.1f` and the rounded percentage.
pub record Printer : Type 0 where
  pub str : ℕ → Text
  pub seconds : ℕ → Text
  pub percent : ℕ → ℕ → ℕ

-- `_last_print_at`, `_last_total` and `_last_elapsed` of one phase
pub record Memo : Type 0 where
  pub last_print_at : ℕ
  pub last_total : Option ℕ
  pub last_elapsed : Option ℕ

pub record Renderer (T : Type 0) : Type 0 where
  pub is_started : Bool
  pub fallback : Bool
  pub tasks : Kind → Option T
  pub memos : Kind → Memo
  pub printed : List Text

abbrev pub or_else : Option ℕ → Option ℕ → Option ℕ
or_else none y = y
or_else (some x) y = some x

pub kind_text : Kind → Text
kind_text vectors = text_of "vectors"
kind_text graph = text_of "graph"
kind_text optimize = text_of "optimize"

abbrev dot : Text
dot = 32 ∷ 183 ∷ 32 ∷ []

abbrev or_empty : (ℕ → Text) → Option ℕ → Text
or_empty f none = []
or_empty f (some n) = f n

-- `bits.append(x)` of a text that is not empty, then `" · ".join`
abbrev with_bit : Text → Text → Text
with_bit t [] = t
with_bit t (c ∷ cs) = t ++ dot ++ (c ∷ cs)

abbrev done_text : Printer → Kind → Option ℕ → Option ℕ → Text
done_text p k total elapsed =
    with_bit (with_bit (kind_text k ++ dot ++ text_of "done") (or_empty p.str total))
      (or_empty (λ e. p.seconds e ++ text_of "s") elapsed)

abbrev running_text : Printer → Kind → Option ℕ → Option ℕ → Text
running_text p k none total = kind_text k
running_text p k (some d) none = kind_text k ++ text_of " " ++ p.str d
running_text p k (some d) (some n) =
    if ltb 0 n
    then kind_text k
      ++ text_of " "
      ++ p.str d
      ++ text_of "/"
      ++ p.str n
      ++ text_of " ("
      ++ p.str (p.percent d n)
      ++ text_of "%)"
    else kind_text k ++ text_of " " ++ p.str d

unfoldable pub format_concise : Printer → ProgressEvent → Option ℕ → Option ℕ → Text
format_concise p ev total elapsed = elim (ev.status) [
  | done ↦ done_text p ev.kind total elapsed
  | failed ↦ kind_text ev.kind ++ text_of " failed"
  | running ↦ running_text p ev.kind ev.done_count ev.total
]

-- `_FALLBACK_THROTTLE_S`
abbrev pub throttle : ℕ
throttle = 5000

-- The clock does not go back below the last print, so the difference of the source is the difference of numbers.
abbrev pub suppressed : ProgressEvent → ℕ → ℕ → Bool
suppressed ev now last =
    same_status ev.status running && not (leb throttle (now - last)) && not (last == 0)

-- What the event carries, kept for later events.
abbrev carry : ProgressEvent → ℕ → Memo → Memo
carry ev at memo = record {
  last_print_at = at;
  last_total = or_else ev.total memo.last_total;
  last_elapsed = or_else ev.elapsed memo.last_elapsed;
}

module _ {T : Type 0} where
  unfoldable pub fallback_apply : Printer → ℕ → ProgressEvent → Renderer T → Renderer T
  unfolding same_status
  fallback_apply p now ev s =
      let memo = s.memos ev.kind in
      if suppressed ev now memo.last_print_at
      then record {
        is_started = s.is_started;
        fallback = s.fallback;
        tasks = s.tasks;
        memos = set_at ev.kind (carry ev memo.last_print_at memo) s.memos;
        printed = s.printed;
      }
      else record {
        is_started = s.is_started;
        fallback = s.fallback;
        tasks = s.tasks;
        memos = set_at ev.kind (carry ev now memo) s.memos;
        printed =
            s.printed
            ++ (format_concise p ev (or_else ev.total memo.last_total)
                  (or_else ev.elapsed memo.last_elapsed)
                ∷ []);
      }

  abbrev pub promote : TaskOps T → T → T
  promote o t = if o.started t then t else o.show_task (o.start_task t)

  abbrev pub with_total : TaskOps T → Option ℕ → T → T
  with_total o none t = t
  with_total o (some n) t = o.set_total n t

  abbrev pub with_done : TaskOps T → Option ℕ → T → T
  with_done o none t = t
  with_done o (some n) t = o.set_completed (max (o.completed t) n) t

  abbrev pub fill : TaskOps T → Option ℕ → T → T
  fill o none t = t
  fill o (some n) t = if o.completed t == n then t else o.set_completed n t

  abbrev pub conclude_task : TaskOps T → Status → T → T
  conclude_task o running t = t
  conclude_task o done t = o.stop_task (o.describe done (fill o (o.total t) t))
  conclude_task o failed t = o.stop_task (o.describe failed t)

  -- The part of `apply` on the task of the event's kind.
  unfoldable pub apply_task : TaskOps T → ProgressEvent → T → T
  apply_task o ev t =
      conclude_task o ev.status (with_done o ev.done_count (with_total o ev.total (promote o t)))

  abbrev put_task : TaskOps T → ProgressEvent → Option T → Renderer T → Renderer T
  put_task o ev none s = s
  put_task o ev (some t) s = record {
    is_started = s.is_started;
    fallback = s.fallback;
    tasks = set_at ev.kind (some (apply_task o ev t)) s.tasks;
    memos = s.memos;
    printed = s.printed;
  }

  -- `IndexProgressRenderer.apply`
  unfoldable pub apply : TaskOps T → Printer → ℕ → ProgressEvent → Renderer T → Renderer T
  apply o p now ev s =
      if not s.is_started
      then s
      else if s.fallback
      then fallback_apply p now ev s
      else put_task o ev (s.tasks ev.kind) s
