-- ===== src/Calls/Emit/Counted.antt =====
-- The statistics of pass 3 in src/java_codebase_rag/graph/build_ast_graph.py count the rows that it writes.
use jrag.Base.{
  map, one_of, ℕ, ◌+◌, Bool, true, false, Option, none, some, List, [], ◌∷◌, ◌++◌, ◌≡◌, refl, arith,
  if◌then◌else◌, length, length-append, Bool-cases, inl, inr, Text, same_text,
}
use jrag.Calls.{CallSite, MemberEntry, Tables, FileAst}
use jrag.Calls.Names.{Scope, scope_table}
use jrag.Calls.Receiver.{Strategy, chained_receiver, Receiver, resolve_receiver_type}
use jrag.Calls.Lookup.{lookup_method_candidates}
use jrag.Calls.Emit.{
  add_phantom, count_skipped, unresolved_row, emit_typed, CallsRow, SiteRow, SiteReason, chained,
  unresolved_receiver, Output, same_strategy, emit_unresolved_call_site, emit_call_edge, emit_all,
  own_service, edge_strategy, candidate_rows, collapsed, phantom_fqn, emit_candidates, emit_on_type,
  emit_or_skip, resolve_and_emit_call, emit_calls, resolve_method_calls, process_file_calls,
  pass3_calls, no_output,
}

pub count_strategy : Strategy → List CallsRow → ℕ
count_strategy s [] = 0
count_strategy s (r ∷ rows) = (if same_strategy s r.strategy then 1 else 0) + count_strategy s rows

pub count_unresolved : List CallsRow → ℕ
count_unresolved [] = 0
count_unresolved (r ∷ rows) = (if r.resolved then 0 else 1) + count_unresolved rows

abbrev pub is_chained : SiteReason → Bool
is_chained chained = true
is_chained unresolved_receiver = false

pub count_chained : List SiteRow → ℕ
count_chained [] = 0
count_chained (r ∷ rows) = (if is_chained r.reason then 1 else 0) + count_chained rows

pub record IsCounted (o : Output) : Type 0 where
  pub total : o.stats.total ≡ length o.calls_rows
  pub strategies : (s : Strategy) → o.stats.by_strategy s ≡ count_strategy s o.calls_rows
  pub unresolved : o.stats.callee_unresolved ≡ count_unresolved o.calls_rows
  pub chained_sites : o.stats.phantom_chained ≡ count_chained o.site_rows
  pub sites : o.stats.phantom_chained + o.stats.phantom_other ≡ length o.site_rows

count_strategy-append :
    (s : Strategy) (xs ys : List CallsRow)
    → count_strategy s (xs ++ ys) ≡ count_strategy s xs + count_strategy s ys
unfolding count_strategy
count_strategy-append s [] ys = omega arith
count_strategy-append s (r ∷ rows) ys = omega (arith, count_strategy-append s rows ys)

count_unresolved-append :
    (xs ys : List CallsRow)
    → count_unresolved (xs ++ ys) ≡ count_unresolved xs + count_unresolved ys
unfolding count_unresolved
count_unresolved-append [] ys = omega arith
count_unresolved-append (r ∷ rows) ys = omega (arith, count_unresolved-append rows ys)

count_chained-append :
    (xs ys : List SiteRow) → count_chained (xs ++ ys) ≡ count_chained xs + count_chained ys
unfolding count_chained
count_chained-append [] ys = omega arith
count_chained-append (r ∷ rows) ys = omega (arith, count_chained-append rows ys)

emit_call_edge-IsCounted :
    (row : CallsRow) (o : Output) → IsCounted o → IsCounted (emit_call_edge row o)
unfolding emit_call_edge count_strategy count_unresolved
emit_call_edge-IsCounted row o h = record {
  total = omega (arith, h.total, length-append o.calls_rows (row ∷ []));
  strategies = λ s. ground (arith, h.strategies s, count_strategy-append s o.calls_rows (row ∷ []));
  unresolved = ground (arith, h.unresolved, count_unresolved-append o.calls_rows (row ∷ []));
  chained_sites = h.chained_sites;
  sites = h.sites;
}

emit_site-IsCounted :
    (caller : Text) (call : CallSite) (why : SiteReason) (o : Output)
    → IsCounted o
    → IsCounted (emit_unresolved_call_site caller call why o)
unfolding emit_unresolved_call_site count_chained
emit_site-IsCounted caller call chained o h =
    let row : SiteRow = record { caller_id = caller; call = call; reason = chained } in
    record {
      total = h.total;
      strategies = h.strategies;
      unresolved = h.unresolved;
      chained_sites = omega (arith, h.chained_sites, count_chained-append o.site_rows (row ∷ []));
      sites = omega (arith, h.sites, length-append o.site_rows (row ∷ []));
    }
emit_site-IsCounted caller call unresolved_receiver o h =
    let row : SiteRow = record { caller_id = caller; call = call; reason = unresolved_receiver } in
    record {
      total = h.total;
      strategies = h.strategies;
      unresolved = h.unresolved;
      chained_sites = omega (arith, h.chained_sites, count_chained-append o.site_rows (row ∷ []));
      sites = omega (arith, h.sites, length-append o.site_rows (row ∷ []));
    }

emit_all-IsCounted : (rows : List CallsRow) (o : Output) → IsCounted o → IsCounted (emit_all rows o)
unfolding emit_all
emit_all-IsCounted [] o h = h
emit_all-IsCounted (row ∷ rows) o h =
    emit_all-IsCounted rows (emit_call_edge row o) (emit_call_edge-IsCounted row o h)

add_phantom-IsCounted :
    (pid fqn : Text) (o : Output) → IsCounted o → IsCounted (add_phantom pid fqn o)
add_phantom-IsCounted pid fqn o h =
    elim (Bool-cases (one_of pid (map (λ (p : Text × Text). p.0) o.phantoms))) [
      | inl e ↦ rw e h
      | inr e ↦ rw e (record {
        total = h.total;
        strategies = h.strategies;
        unresolved = h.unresolved;
        chained_sites = h.chained_sites;
        sites = h.sites;
      })
    ]

count_skipped-IsCounted : (n : ℕ) (o : Output) → IsCounted o → IsCounted (count_skipped n o)
count_skipped-IsCounted n o h = record {
  total = h.total;
  strategies = h.strategies;
  unresolved = h.unresolved;
  chained_sites = h.chained_sites;
  sites = h.sites;
}

module _ (phantom_id : Text → Text) (tables : Tables) (ast : FileAst) where
  emit_candidates-IsCounted :
      (m : MemberEntry) (call : CallSite) (recv : Text) (s : Strategy × ℕ) (cs : List MemberEntry)
      (o : Output)
      → IsCounted o
      → IsCounted (emit_candidates phantom_id tables ast m call recv s cs o)
  unfolding emit_candidates
  emit_candidates-IsCounted m call recv s [] o h =
      let fqn = phantom_fqn recv call.callee_simple in
      emit_call_edge-IsCounted (unresolved_row m call (phantom_id fqn) s)
        (add_phantom (phantom_id fqn) fqn o) (add_phantom-IsCounted (phantom_id fqn) fqn o h)
  emit_candidates-IsCounted m call recv s (c ∷ cs) o h =
      emit_all-IsCounted (candidate_rows m call s (collapsed tables recv call s.0 (c ∷ cs))) o h

  emit_on_type-IsCounted :
      (m : MemberEntry) (call : CallSite) (r : Receiver) (recv : Text) (o : Output)
      → IsCounted o
      → IsCounted (emit_on_type phantom_id tables ast m call r recv o)
  unfolding emit_on_type
  emit_on_type-IsCounted m call r recv o h =
      let found = lookup_method_candidates tables recv call.callee_simple call.arg_count in
      let own = own_service m found.0 in
      emit_candidates-IsCounted m call recv (edge_strategy m call r found.1 own.0) own.0
        (count_skipped own.1 o) (count_skipped-IsCounted own.1 o h)

  emit_typed-IsCounted :
      (m : MemberEntry) (call : CallSite) (r : Receiver) (recv : Option Text) (o : Output)
      → IsCounted o
      → IsCounted (emit_typed phantom_id tables ast m call r recv o)
  emit_typed-IsCounted m call r none o h =
      emit_site-IsCounted m.node_id call unresolved_receiver o h
  emit_typed-IsCounted m call r (some recv) o h = emit_on_type-IsCounted m call r recv o h

  emit_or_skip-IsCounted :
      (m : MemberEntry) (call : CallSite) (r : Option Receiver) (o : Output)
      → IsCounted o
      → IsCounted (emit_or_skip phantom_id tables ast m call r o)
  emit_or_skip-IsCounted m call none o h = h
  emit_or_skip-IsCounted m call (some r) o h =
      elim (Bool-cases (same_strategy r.strategy chained_receiver)) [
        | inl e ↦ rw e (emit_site-IsCounted m.node_id call chained o h)
        | inr e ↦ rw e (emit_typed-IsCounted m call r r.type_fqn o h)
      ]

  emit_calls-IsCounted :
      (scope : Scope) (m : MemberEntry) (calls : List CallSite) (o : Output)
      → IsCounted o
      → IsCounted (emit_calls phantom_id tables ast scope m calls o)
  unfolding emit_calls resolve_and_emit_call
  emit_calls-IsCounted scope m [] o h = h
  emit_calls-IsCounted scope m (call ∷ calls) o h =
      emit_calls-IsCounted scope m calls _
        (emit_or_skip-IsCounted m call (resolve_receiver_type tables ast scope m call) o h)

  process_file_calls-IsCounted :
      (path : Text) (ms : List MemberEntry) (o : Output)
      → IsCounted o
      → IsCounted (process_file_calls phantom_id tables ast path ms o)
  unfolding process_file_calls resolve_method_calls
  process_file_calls-IsCounted path [] o h = h
  process_file_calls-IsCounted path (m ∷ ms) o h = elim (Bool-cases (same_text m.file_path path)) [
    | inl e ↦ rw e (
        process_file_calls-IsCounted path ms (resolve_method_calls phantom_id tables ast m o)
          (emit_calls-IsCounted (scope_table tables ast m) m m.decl.call_sites o h))
    | inr e ↦ rw e (process_file_calls-IsCounted path ms o h)
  ]

pass3-IsCounted :
    (phantom_id : Text → Text) (tables : Tables) (asts : List (Text × FileAst)) (o : Output)
    → IsCounted o
    → IsCounted (pass3_calls phantom_id tables asts o)
unfolding pass3_calls
pass3-IsCounted phantom_id tables [] o h = h
pass3-IsCounted phantom_id tables ((path, ast) ∷ asts) o h =
    pass3-IsCounted phantom_id tables asts
      (process_file_calls phantom_id tables ast path tables.members o)
      (process_file_calls-IsCounted phantom_id tables ast path tables.members o h)

-- Whatever the tables and the files are, the statistics that pass 3 reports agree with the rows it has written: the
-- total, the rows of each strategy, the unresolved callees, the chained sites, and all sites without a receiver.
pub pass3_calls-IsCounted :
    (phantom_id : Text → Text) (tables : Tables) (asts : List (Text × FileAst))
    → IsCounted (pass3_calls phantom_id tables asts no_output)
unfolding count_strategy count_unresolved count_chained
pass3_calls-IsCounted phantom_id tables asts =
    pass3-IsCounted phantom_id tables asts no_output (record {
      total = refl;
      strategies = λ s. refl;
      unresolved = refl;
      chained_sites = refl;
      sites = refl;
    })
