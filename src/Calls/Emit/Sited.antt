-- ===== src/Calls/Emit/Sited.antt =====
-- What pass 3 of src/java_codebase_rag/graph/build_ast_graph.py writes for one call.
use mathlib.Core.List.{Memᴰ}
use mathlib.Core.List.Memᴰ
use jrag.Base.{
  strip, ℕ, ◌≤◌, Bool, true, false, not, Option, none, some, List, [], ◌∷◌, ◌++◌, map, ◌≡◌, ◌⊎◌,
  refl, sym, ap, ◌∙◌, subst, arith, if◌then◌else◌, ◌&&◌, length, All, Bool-cases, inl, inr, Text,
  append-nil, append_assoc, one_of,
}
use jrag.Calls.Emit.Part.{IsPart, IsLocal, own_service-IsPart, collapsed-IsPart}
use jrag.Calls.{get, has, CallSite, MemberEntry, Tables, FileAst}
use jrag.Calls.Names.{Scope, has_char}
use jrag.Calls.Receiver.{
  Strategy, chained_receiver, overload_ambiguous, Receiver, resolve_receiver_type,
  resolve_expression, is_empty, is_effectively_static, by_static_import, by_wildcard,
  static_wildcard_resolve, found, static_import, static_import_wildcard, or_try, before_last_dot,
}
use jrag.Calls.Lookup.{lookup_method_candidates}
use jrag.Calls.Lookup.Found.{Answers, Selects, lookup_method_candidates_lem}
use jrag.Calls.Emit.{
  CallsRow, SiteReason, chained, unresolved_receiver, Output, same_strategy,
  emit_unresolved_call_site, emit_call_edge, emit_all, own_service, edge_strategy, candidate_rows,
  resolved_row, unresolved_row, collapsed, phantom_fqn, add_phantom, count_skipped, emit_candidates,
  emit_on_type, emit_typed, emit_or_skip, resolve_and_emit_call,
}

emit_all-calls :
    (rows : List CallsRow) (o : Output) → (emit_all rows o).calls_rows ≡ o.calls_rows ++ rows
unfolding emit_all emit_call_edge
emit_all-calls [] o = sym (append-nil o.calls_rows)
emit_all-calls (r ∷ rows) o =
    emit_all-calls rows (emit_call_edge r o) ∙ append_assoc o.calls_rows (r ∷ []) rows

emit_all-sites : (rows : List CallsRow) (o : Output) → (emit_all rows o).site_rows ≡ o.site_rows
unfolding emit_all emit_call_edge
emit_all-sites [] o = refl
emit_all-sites (r ∷ rows) o = emit_all-sites rows (emit_call_edge r o)

-- A row of the call, at its place.
abbrev pub IsFrom : MemberEntry → CallSite → CallsRow → Type 0
IsFrom m call row = (row.src_id ≡ m.node_id) × (row.line ≡ call.line) × (row.byte ≡ call.byte)

-- An unresolved row: no method answers to the call. A resolved one: it leads to a method that does, and in the caller's
-- microservice if the lookup finds any there.
abbrev pub IsEdge : Tables → Text → MemberEntry → CallSite → CallsRow → Type 0
IsEdge tables recv m call row =
    let Fits = Answers tables recv call.callee_simple call.arg_count in
    let all = (lookup_method_candidates tables recv call.callee_simple call.arg_count).0 in
    IsFrom m call row
    × (((row.resolved ≡ false) × ((c : MemberEntry) → Fits c → ⊥))
        ⊎ ((row.resolved ≡ true)
            × (c : MemberEntry) × (c.node_id ≡ row.dst_id)
            × Fits c
            × IsLocal m all c))

-- At least one row of the call is added, and no site.
pub record Emits (tables : Tables) (recv : Text) (m : MemberEntry) (call : CallSite) (o p : Output)
    : Type 0 where
  pub rows : List CallsRow
  pub added : p.calls_rows ≡ o.calls_rows ++ rows
  pub not_empty : 1 ≤ length rows
  pub edges : All (IsEdge tables recv m call) rows
  pub same_sites : p.site_rows ≡ o.site_rows

Selects-Answers :
    (tables : Tables) (recv callee : Text) (args : Option ℕ) (p : List MemberEntry × Bool)
    → Selects tables recv callee args p
    → (c : MemberEntry) → Memᴰ c p.0
    → Answers tables recv callee args c
Selects-Answers tables recv callee args ([], b) h c m = absurd (Memᴰ.not-nil m)
Selects-Answers tables recv callee args (x ∷ xs, false) h c m = ((h c).0 m).0
Selects-Answers tables recv callee args (x ∷ xs, true) h c m = (h c).0.0 m

Selects-none :
    (tables : Tables) (recv callee : Text) (args : Option ℕ) (p : List MemberEntry × Bool)
    → Selects tables recv callee args p
    → (1 ≤ length p.0 → ⊥)
    → (c : MemberEntry) → Answers tables recv callee args c
    → ⊥
Selects-none tables recv callee args ([], false) h n c a = h c a
Selects-none tables recv callee args ([], true) h n c a = h
Selects-none tables recv callee args (x ∷ xs, b) h n c a = n (omega arith)

rows-All :
    (P : CallsRow → Type 0) (f : MemberEntry → CallsRow) (cs : List MemberEntry)
    → ((c : MemberEntry) → Memᴰ c cs → P (f c))
    → All P (map f cs)
rows-All P f [] h = tt
rows-All P f (c ∷ cs) h = (h c (Memᴰ.head refl), rows-All P f cs (λ d k. h d (Memᴰ.tail k)))

candidate_rows-All :
    (P : CallsRow → Type 0) (m : MemberEntry) (call : CallSite) (s : Strategy × ℕ)
    (cs : List MemberEntry)
    → ((c : MemberEntry) (t : Strategy) → Memᴰ c cs → P (resolved_row m call t s.1 c))
    → All P (candidate_rows m call s cs)
candidate_rows-All P m call s [] h = tt
candidate_rows-All P m call s (c ∷ []) h = (h c s.0 (Memᴰ.head refl), tt)
candidate_rows-All P m call s (c ∷ d ∷ cs) h =
    rows-All P (λ x. resolved_row m call overload_ambiguous s.1 x) (c ∷ d ∷ cs)
      (λ x k. h x overload_ambiguous k)

length-candidate_rows :
    (m : MemberEntry) (call : CallSite) (s : Strategy × ℕ) (cs : List MemberEntry)
    → 1 ≤ length cs
    → 1 ≤ length (candidate_rows m call s cs)
length-candidate_rows m call s [] h = h
length-candidate_rows m call s (c ∷ []) h = h
length-candidate_rows m call s (c ∷ d ∷ cs) h = omega arith

add_phantom-rows :
    (pid fqn : Text) (o : Output)
    → ((add_phantom pid fqn o).calls_rows ≡ o.calls_rows)
      × ((add_phantom pid fqn o).site_rows ≡ o.site_rows)
add_phantom-rows pid fqn o =
    elim (Bool-cases (one_of pid (map (λ (p : Text × Text). p.0) o.phantoms))) [
      | inl e ↦ rw e (refl, refl)
      | inr e ↦ rw e (refl, refl)
    ]

module _ (phantom_id : Text → Text) (tables : Tables) (ast : FileAst) where
  emit_candidates-Emits :
      (m : MemberEntry) (call : CallSite) (recv : Text) (s : Strategy × ℕ) (cs : List MemberEntry)
      (o : Output)
      → let all = (lookup_method_candidates tables recv call.callee_simple call.arg_count).0 in
        IsPart (IsLocal m all) all cs
        → Emits tables recv m call o (emit_candidates phantom_id tables ast m call recv s cs o)
  unfolding emit_candidates emit_call_edge
  emit_candidates-Emits m call recv s [] o part =
      let fqn = phantom_fqn recv call.callee_simple in
      let args = call.arg_count in
      let found = lookup_method_candidates_lem tables recv call.callee_simple args in
      let (c, k) = add_phantom-rows (phantom_id fqn) fqn o in
      record {
        rows = unresolved_row m call (phantom_id fqn) s ∷ [];
        added = ap (λ (l : List CallsRow). l ++ (unresolved_row m call (phantom_id fqn) s ∷ [])) c;
        not_empty = omega arith;
        edges = (
          (
            (refl, refl, refl),
            inl (
              refl,
              Selects-none tables recv call.callee_simple args
                  (lookup_method_candidates tables recv call.callee_simple args) found
                  (λ n. omega (arith, part.some_left n)),
            ),
          ),
          tt,
        );
        same_sites = k;
      }
  emit_candidates-Emits m call recv s (c ∷ cs) o part =
      let args = call.arg_count in
      let found = lookup_method_candidates_lem tables recv call.callee_simple args in
      let all = lookup_method_candidates tables recv call.callee_simple args in
      let kept = collapsed tables recv call s.0 (c ∷ cs) in
      let less = collapsed-IsPart tables recv call s.0 (c ∷ cs) in
      record {
        rows = candidate_rows m call s kept;
        added = emit_all-calls (candidate_rows m call s kept) o;
        not_empty = length-candidate_rows m call s kept (less.some_left (omega arith));
        edges = candidate_rows-All (IsEdge tables recv m call) m call s kept (λ d t k.
            let (l, is_local) = part.fits d (less.fits d k).0 in
            (
              (refl, refl, refl),
              inr (
                refl,
                d,
                refl,
                Selects-Answers tables recv call.callee_simple args all found d l,
                is_local,
              ),
            ));
        same_sites = emit_all-sites (candidate_rows m call s kept) o;
      }

  emit_on_type-Emits :
      (m : MemberEntry) (call : CallSite) (r : Receiver) (recv : Text) (o : Output)
      → Emits tables recv m call o (emit_on_type phantom_id tables ast m call r recv o)
  unfolding emit_on_type
  emit_on_type-Emits m call r recv o =
      let found = lookup_method_candidates tables recv call.callee_simple call.arg_count in
      let own = own_service m found.0 in
      let e =
        emit_candidates-Emits m call recv (edge_strategy m call r found.1 own.0) own.0
          (count_skipped own.1 o) (own_service-IsPart m found.0) in
      record {
        rows = e.rows;
        added = e.added;
        not_empty = e.not_empty;
        edges = e.edges;
        same_sites = e.same_sites;
      }

  -- One site of the call is added, and no row.
  abbrev pub IsSite : MemberEntry → CallSite → Output → Output → Type 0
  IsSite m call o p =
      (p.calls_rows ≡ o.calls_rows)
      × ((why : SiteReason) × (p.site_rows
            ≡ o.site_rows ++ (record { caller_id = m.node_id; call = call; reason = why } ∷ [])))

  abbrev pub Writes : MemberEntry → CallSite → Receiver → Output → Output → Type 0
  Writes m call r o p =
      (((same_strategy r.strategy chained_receiver ≡ true) ⊎ (r.type_fqn ≡ none))
        × IsSite m call o p)
      ⊎ ((recv : Text) × (r.type_fqn ≡ some recv) × Emits tables recv m call o p)

  site_Writes :
      (m : MemberEntry) (call : CallSite) (r : Receiver) (why : SiteReason) (o : Output)
      → (same_strategy r.strategy chained_receiver ≡ true) ⊎ (r.type_fqn ≡ none)
      → Writes m call r o (emit_unresolved_call_site m.node_id call why o)
  unfolding emit_unresolved_call_site
  site_Writes m call r chained o h = inl (h, (refl, (chained, refl)))
  site_Writes m call r unresolved_receiver o h = inl (h, (refl, (unresolved_receiver, refl)))

  typed_Writes :
      (m : MemberEntry) (call : CallSite) (r : Receiver) (t : Option Text) (o : Output)
      → r.type_fqn ≡ t
      → Writes m call r o (emit_typed phantom_id tables ast m call r t o)
  typed_Writes m call r none o e = site_Writes m call r unresolved_receiver o (inr e)
  typed_Writes m call r (some recv) o e = inr (recv, e, emit_on_type-Emits m call r recv o)

  received_Writes :
      (m : MemberEntry) (call : CallSite) (r : Receiver) (o : Output)
      → Writes m call r o (emit_or_skip phantom_id tables ast m call (some r) o)
  received_Writes m call r o =
      let site = emit_unresolved_call_site m.node_id call chained o in
      let typed = emit_typed phantom_id tables ast m call r r.type_fqn o in
      elim (Bool-cases (same_strategy r.strategy chained_receiver)) [
        | inl e ↦
            subst (λ (b : Bool). Writes m call r o (if b then site else typed)) (sym e)
              (site_Writes m call r chained o (inl e))
        | inr e ↦
            subst (λ (b : Bool). Writes m call r o (if b then site else typed)) (sym e)
              (typed_Writes m call r r.type_fqn o refl)
      ]

  by_wildcard-some :
      (m : MemberEntry) (callee : Text) (other : Receiver)
      → has m.parent_fqn tables.types ≡ true
      → (r : Receiver) × (by_wildcard tables ast m callee other ≡ some r)
  by_wildcard-some m callee other h = (
    or_try (static_wildcard_resolve tables callee ast.static_wildcards)
        (λ t. found t static_import_wildcard 85) other,
    rw h refl,
  )

  by_import_some :
      (m : MemberEntry) (callee : Text) (full : Option Text) (other : Receiver)
      → has m.parent_fqn tables.types ≡ true
      → (r : Receiver) × (by_static_import tables ast m callee full other ≡ some r)
  by_import_some m callee none other h = by_wildcard-some m callee other h
  by_import_some m callee (some full) other h = elim (Bool-cases (has_char b'.' full)) [
    | inl e ↦ (found (before_last_dot full) static_import 95, rw e refl)
    | inr e ↦ let (r, k) = by_wildcard-some m callee other h in (r, rw e k)
  ]

  resolves :
      (scope : Scope) (m : MemberEntry) (call : CallSite)
      → has m.parent_fqn tables.types ≡ true
      → (r : Receiver) × (resolve_receiver_type tables ast scope m call ≡ some r)
  unfolding resolve_receiver_type
  resolves scope m call h =
      let expr = strip call.receiver_expr in
      let rest =
        resolve_expression tables ast scope m (is_effectively_static scope call expr) expr in
      elim (Bool-cases (is_empty expr && not call.is_static_call)) [
        | inl e ↦
            let (r, k) =
              by_import_some m call.callee_simple (get call.callee_simple ast.static_methods) rest
                h in
            (r, rw e k)
        | inr e ↦ (rest, rw e refl)
      ]

  -- Of a call in a member whose type is in the tables the receiver is resolved, and one of two things is written. Where
  -- its strategy is the chained one or it has no type: one site of the call and no row. Else rows of the call, at least
  -- one, and no site: an unresolved row only if no method on a type that can be reached from the receiver's answers to
  -- the callee's name, and a resolved row leads to such a method, which is in the caller's microservice, if it has one,
  -- where the lookup finds any there.
  pub resolve_and_emit_call-Writes :
      (scope : Scope) (m : MemberEntry) (call : CallSite) (o : Output)
      → has m.parent_fqn tables.types ≡ true
      → (r : Receiver) × (resolve_receiver_type tables ast scope m call ≡ some r)
        × Writes m call r o (resolve_and_emit_call phantom_id tables ast scope m call o)
  unfolding resolve_and_emit_call
  resolve_and_emit_call-Writes scope m call o h =
      let (r, e) = resolves scope m call h in
      (
        r,
        e,
        subst (λ q. Writes m call r o (emit_or_skip phantom_id tables ast m call q o)) (sym e)
            (received_Writes m call r o),
      )
