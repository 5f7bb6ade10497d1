-- ===== src/Progress/Bar/Tasks.antt =====
-- What the bar of a phase shows: `IndexProgressRenderer.apply` of src/java_codebase_rag/progress.py on a terminal.
use jrag.Base.{ℕ, Option, none, some, ◌≡◌, refl, ◌∙◌, arith, max, ◌==◌, Bool-cases, inl, inr}
use jrag.Progress.{Status, running, done, failed, ProgressEvent}
use jrag.Progress.Bar.{
  TaskOps, apply_task, or_else, promote, with_total, with_done, fill, conclude_task,
}

-- What the renderer relies on of the terminal library: a task's total and count are what was last set.
pub record TaskLaws {T : Type 0} (o : TaskOps T) : Type 0 where
  pub completed-set : (n : ℕ) (t : T) → o.completed (o.set_completed n t) ≡ n
  pub completed-total : (n : ℕ) (t : T) → o.completed (o.set_total n t) ≡ o.completed t
  pub completed-start : (t : T) → o.completed (o.start_task t) ≡ o.completed t
  pub completed-show : (t : T) → o.completed (o.show_task t) ≡ o.completed t
  pub completed-describe : (s : Status) (t : T) → o.completed (o.describe s t) ≡ o.completed t
  pub completed-stop : (t : T) → o.completed (o.stop_task t) ≡ o.completed t
  pub total-set : (n : ℕ) (t : T) → o.total (o.set_completed n t) ≡ o.total t
  pub total-total : (n : ℕ) (t : T) → o.total (o.set_total n t) ≡ some n
  pub total-start : (t : T) → o.total (o.start_task t) ≡ o.total t
  pub total-show : (t : T) → o.total (o.show_task t) ≡ o.total t
  pub total-describe : (s : Status) (t : T) → o.total (o.describe s t) ≡ o.total t
  pub total-stop : (t : T) → o.total (o.stop_task t) ≡ o.total t

abbrev pub count_of : Option ℕ → ℕ → ℕ
count_of none c = c
count_of (some n) c = max c n

-- The count that an event leaves, from the total and the count that its own numbers give.
abbrev pub final_count : Status → Option ℕ → ℕ → ℕ
final_count running total c = c
final_count failed total c = c
final_count done none c = c
final_count done (some n) c = n

module _ {T : Type 0} (o : TaskOps T) (laws : TaskLaws o) where
  face : T → Option ℕ × ℕ
  face t = (o.total t, o.completed t)

  face-promote : (t : T) → face (promote o t) ≡ face t
  unfolding face
  face-promote t = elim (Bool-cases (o.started t)) [
    | inl e ↦ ground arith
    | inr e ↦ ground (
      arith,
      laws.total-show (o.start_task t),
      laws.total-start t,
      laws.completed-show (o.start_task t),
      laws.completed-start t,
    )
  ]

  face-with_total :
      (n : Option ℕ) (t : T) → face (with_total o n t) ≡ (or_else n (o.total t), o.completed t)
  unfolding face
  face-with_total none t = refl
  face-with_total (some n) t = ground (arith, laws.total-total n t, laws.completed-total n t)

  face-with_done :
      (n : Option ℕ) (t : T) → face (with_done o n t) ≡ (o.total t, count_of n (o.completed t))
  unfolding face
  face-with_done none t = refl
  face-with_done (some n) t = ground (
    arith,
    laws.total-set (max (o.completed t) n) t,
    laws.completed-set (max (o.completed t) n) t,
  )

  face-set : (n : ℕ) (t : T) → o.total t ≡ some n → face (fill o (o.total t) t) ≡ (some n, n)
  unfolding face
  face-set n t h = rw h (elim (Bool-cases (o.completed t == n)) [
    | inl e ↦ ground arith
    | inr e ↦ ground (arith, laws.total-set n t, laws.completed-set n t)
  ])

  face-fill :
      (m : Option ℕ) (t : T)
      → o.total t ≡ m
      → face (fill o (o.total t) t) ≡ (m, final_count done m (o.completed t))
  unfolding face
  face-fill none t h = rw h (ground arith)
  face-fill (some n) t h = face-set n t h

  face-end : (s : Status) (t : T) → face (o.stop_task (o.describe s t)) ≡ face t
  unfolding face
  face-end s t = ground (
    arith,
    laws.total-stop (o.describe s t),
    laws.total-describe s t,
    laws.completed-stop (o.describe s t),
    laws.completed-describe s t,
  )

  face-conclude :
      (s : Status) (t : T)
      → face (conclude_task o s t) ≡ (o.total t, final_count s (o.total t) (o.completed t))
  unfolding face
  face-conclude running t = refl
  face-conclude failed t = face-end failed t
  face-conclude done t = face-end done (fill o (o.total t) t) ∙ face-fill (o.total t) t refl

  -- After an event the total of its task is the event's, if it has one; the count is the larger of the task's and
  -- the event's, except that an event of a phase that is done sets it to the total, where one is known.
  pub apply_task_lem :
      (ev : ProgressEvent) (t : T)
      → (o.total (apply_task o ev t) ≡ or_else ev.total (o.total t))
        × (o.completed (apply_task o ev t)
            ≡ final_count ev.status
                (or_else ev.total (o.total t))
                (count_of ev.done_count (o.completed t)))
  unfolding apply_task face
  apply_task_lem ev t =
      let p = promote o t in
      let q = with_total o ev.total p in
      let r = with_done o ev.done_count q in
      ground (
        arith,
        face-promote t,
        face-with_total ev.total p,
        face-with_done ev.done_count q,
        face-conclude ev.status r,
      )
