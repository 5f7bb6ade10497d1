-- ===== src/Progress/Bar/Printed.antt =====
-- The concise lines where there is no terminal: `_fallback_apply` of src/java_codebase_rag/progress.py.
use jrag.Base.{
  ℕ, true, Option, none, some, List, [], ◌∷◌, ◌++◌, ◌≡◌, refl, sym, ap, ◌∙◌, subst, arith,
  if◌then◌else◌,
}
use jrag.Progress.{Kind, done, ProgressEvent}
use jrag.Progress.Bar.{
  TaskOps, Printer, Renderer, apply, fallback_apply, set_at, same_kind, format_concise, or_else,
}

module _ {T : Type 0} (o : TaskOps T) (p : Printer) where
  -- Events in the order in which they are applied, each with the time of the clock.
  abbrev pub apply_all : List (ℕ × ProgressEvent) → Renderer T → Renderer T
  apply_all [] s = s
  apply_all ((now, ev) ∷ es) s = apply_all es (apply o p now ev s)

-- The last value that an event of a kind gives.
abbrev pub latest : (ProgressEvent → Option ℕ) → Kind → List (ℕ × ProgressEvent) → Option ℕ
latest f k [] = none
latest f k ((now, ev) ∷ es) = or_else (latest f k es) (if same_kind ev.kind k then f ev else none)

-- The renderer has started and there is no terminal.
abbrev pub IsConcise : {T : Type 0} → Renderer T → Type 0
IsConcise s = (s.is_started ≡ true) × (s.fallback ≡ true)

or_else_assoc : (a b c : Option ℕ) → or_else (or_else a b) c ≡ or_else a (or_else b c)
or_else_assoc none b c = refl
or_else_assoc (some a) b c = refl

module _ {T : Type 0} (o : TaskOps T) (p : Printer) where
  apply_fallback :
      (now : ℕ) (ev : ProgressEvent) (s : Renderer T)
      → IsConcise s
      → apply o p now ev s ≡ fallback_apply p now ev s
  unfolding apply
  apply_fallback now ev s h = ground arith

  fallback-IsConcise :
      (now : ℕ) (ev : ProgressEvent) (s : Renderer T)
      → IsConcise s
      → IsConcise (fallback_apply p now ev s)
  unfolding fallback_apply
  fallback-IsConcise now ev s h = ground arith

  -- One event's effect on what is kept of a phase.
  kept_step :
      (now : ℕ) (ev : ProgressEvent) (s : Renderer T) (k : Kind)
      → (((fallback_apply p now ev s).memos k).last_total
          ≡ or_else (if same_kind ev.kind k then ev.total else none) ((s.memos k).last_total))
        × (((fallback_apply p now ev s).memos k).last_elapsed
            ≡ or_else (if same_kind ev.kind k then ev.elapsed else none) ((s.memos k).last_elapsed))
  unfolding fallback_apply set_at same_kind
  kept_step now ev s k = ground arith

  kept_all :
      (es : List (ℕ × ProgressEvent)) (s : Renderer T)
      → IsConcise s
      → (k : Kind)
      → IsConcise (apply_all o p es s)
        × (((apply_all o p es s).memos k).last_total
            ≡ or_else (latest (λ e. e.total) k es) ((s.memos k).last_total))
        × (((apply_all o p es s).memos k).last_elapsed
            ≡ or_else (latest (λ e. e.elapsed) k es) ((s.memos k).last_elapsed))
  kept_all [] s h k = (h, refl, refl)
  kept_all ((now, ev) ∷ es) s h k =
      let t = apply o p now ev s in
      let c = subst IsConcise (sym (apply_fallback now ev s h)) (fallback-IsConcise now ev s h) in
      let r = kept_all es t c k in
      let q = kept_step now ev s k in
      let e = apply_fallback now ev s h in
      (
        r.0,
        r.1
            ∙ ap (or_else (latest (λ e. e.total) k es)) (ap (λ u. (u.memos k).last_total) e ∙ q.0)
            ∙ sym (
                or_else_assoc (latest (λ e. e.total) k es)
                  (if same_kind ev.kind k then ev.total else none) ((s.memos k).last_total)),
        r.2
            ∙ ap (or_else (latest (λ e. e.elapsed) k es))
                (ap (λ u. (u.memos k).last_elapsed) e ∙ q.1)
            ∙ sym (
                or_else_assoc (latest (λ e. e.elapsed) k es)
                  (if same_kind ev.kind k then ev.elapsed else none) ((s.memos k).last_elapsed)),
      )

  -- Where there is no terminal and the renderer has started: whatever events were applied before and whatever was
  -- suppressed, an event that a phase is done is printed, with the last total and the last elapsed time that it or
  -- an earlier event of the phase carried.
  pub apply_all-done :
      (es : List (ℕ × ProgressEvent)) (s : Renderer T)
      → IsConcise s
      → (now : ℕ) (ev : ProgressEvent) → ev.status ≡ done
      → (apply o p now ev (apply_all o p es s)).printed
        ≡ (apply_all o p es s).printed
          ++ (format_concise p ev
                (or_else ev.total
                  (or_else (latest (λ e. e.total) ev.kind es) ((s.memos ev.kind).last_total)))
                (or_else ev.elapsed
                  (or_else (latest (λ e. e.elapsed) ev.kind es) ((s.memos ev.kind).last_elapsed)))
              ∷ [])
  unfolding fallback_apply
  apply_all-done es s h now ev e =
      let t = apply_all o p es s in
      let k = kept_all es s h ev.kind in
      ap (λ u. u.printed) (apply_fallback now ev t k.0) ∙ ground arith
