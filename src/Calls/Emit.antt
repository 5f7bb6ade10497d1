-- ===== src/Calls/Emit.antt =====
-- The rows of calls: `_resolve_and_emit_call`, `_resolve_method_calls`, `_process_file_calls` and `pass3_calls` of
-- src/java_codebase_rag/graph/build_ast_graph.py. Arguments: the id of a phantom for its name, and `str` of a number.
pub mod Counted
pub mod Part
pub mod Sited
use jrag.Base.{
  ℕ, zero, suc, ◌+◌, Bool, true, false, not, Option, none, some, List, [], ◌∷◌, ◌++◌, map,
  if◌then◌else◌, ◌&&◌, ◌||◌, ◌==◌, length, take, Text, text_of, same_text, one_of,
}
use jrag.Calls.{Table, keep, CallSite, MethodDecl, MemberEntry, Tables, FileAst}
use jrag.Calls.Names.{Scope, scope_table}
use jrag.Calls.Lookup.{lookup_method_candidates, collapse_supertype_duplicates}
use jrag.Calls.Receiver.{
  Strategy, static_import, static_import_wildcard, chained_receiver, phantom, import_map,
  unique_type_name, suffix, this_super, implicit_super, same_module, method_reference, constructor,
  overload_ambiguous, Receiver, resolve_receiver_type,
}

pub record CallsRow : Type 0 where
  pub src_id : Text
  pub dst_id : Text
  pub line : ℕ
  pub byte : ℕ
  pub arg_count : Option ℕ
  pub confidence : ℕ
  pub strategy : Strategy
  pub resolved : Bool

pub data SiteReason : Type 0 where
  chained unresolved_receiver : SiteReason

-- `UnresolvedCallSiteRow`; its id is made of the caller's and the place.
pub record SiteRow : Type 0 where
  pub caller_id : Text
  pub call : CallSite
  pub reason : SiteReason

pub record Stats : Type 0 where
  pub total : ℕ
  pub by_strategy : Strategy → ℕ
  pub phantom_chained : ℕ
  pub phantom_other : ℕ
  pub callee_unresolved : ℕ
  pub skipped_cross_service : ℕ

-- What the pass writes: rows of both kinds, in order, and the phantoms by id and name.
pub record Output : Type 0 where
  pub calls_rows : List CallsRow
  pub site_rows : List SiteRow
  pub phantoms : List (Text × Text)
  pub stats : Stats

-- The number of a strategy, by which two are compared.
abbrev pub strategy_number : Strategy → ℕ
strategy_number static_import = 0
strategy_number static_import_wildcard = 1
strategy_number chained_receiver = 2
strategy_number phantom = 3
strategy_number import_map = 4
strategy_number unique_type_name = 5
strategy_number suffix = 6
strategy_number this_super = 7
strategy_number implicit_super = 8
strategy_number same_module = 9
strategy_number method_reference = 10
strategy_number constructor = 11
strategy_number overload_ambiguous = 12

abbrev pub same_strategy : Strategy → Strategy → Bool
same_strategy s t = strategy_number s == strategy_number t

-- `_emit_unresolved_call_site`
unfoldable pub emit_unresolved_call_site : Text → CallSite → SiteReason → Output → Output
emit_unresolved_call_site caller call chained o = record o {
  site_rows = o.site_rows ++ (record { caller_id = caller; call = call; reason = chained } ∷ []);
  stats = record o.stats { phantom_chained = suc o.stats.phantom_chained };
}
emit_unresolved_call_site caller call unresolved_receiver o = record o {
  site_rows =
      o.site_rows
      ++ (record { caller_id = caller; call = call; reason = unresolved_receiver } ∷ []);
  stats = record o.stats { phantom_other = suc o.stats.phantom_other };
}

-- `_emit_call_edge`
unfoldable pub emit_call_edge : CallsRow → Output → Output
emit_call_edge row o = record o {
  calls_rows = o.calls_rows ++ (row ∷ []);
  stats = record o.stats {
    total = suc o.stats.total;
    by_strategy = λ s.
        (if same_strategy s row.strategy
          then suc (o.stats.by_strategy s)
          else o.stats.by_strategy s);
    callee_unresolved =
        if row.resolved then o.stats.callee_unresolved else suc o.stats.callee_unresolved;
  };
}

unfoldable pub emit_all : List CallsRow → Output → Output
unfolding emit_call_edge
emit_all [] o = o
emit_all (row ∷ rows) o = emit_all rows (emit_call_edge row o)

abbrev pub same_service : MemberEntry → MemberEntry → Bool
same_service m c = same_text c.microservice m.microservice

abbrev pub is_text : Text → Bool
is_text [] = false
is_text (c ∷ cs) = true

-- Candidates of another microservice, which are counted where they are left out.
abbrev pub is_foreign : MemberEntry → MemberEntry → Bool
is_foreign m c = is_text c.microservice && not (same_service m c)

-- `if same_ms and len(same_ms) != len(candidates)`
abbrev pub narrow : MemberEntry → List MemberEntry → List MemberEntry → List MemberEntry × ℕ
narrow m [] candidates = (candidates, 0)
narrow m (s ∷ same_ms) candidates =
    if length (s ∷ same_ms) == length candidates
    then (candidates, 0)
    else (s ∷ same_ms, length (keep (is_foreign m) candidates))

-- The candidates of the caller's microservice, if it has one and there are any, and how many are skipped.
unfoldable pub own_service : MemberEntry → List MemberEntry → List MemberEntry × ℕ
unfolding keep
own_service m candidates =
    if is_text m.microservice
    then narrow m (keep (same_service m) candidates) candidates
    else (candidates, 0)

abbrev is_init : CallSite → Bool
is_init call = same_text call.callee_simple (text_of "<init>")

-- The call that the parser puts in for an implicit `super()`.
abbrev is_implicit_super : MemberEntry → CallSite → Bool
is_implicit_super m call =
    is_init call
    && (same_text call.receiver_expr (text_of "super")
        && (call.byte == m.decl.start_byte && call.line == m.decl.start_line))

abbrev is_several : List MemberEntry → Bool
is_several (c ∷ d ∷ cs) = true
is_several _ = false

-- The strategy and the confidence of the edge.
unfoldable pub edge_strategy :
    MemberEntry → CallSite → Receiver → Bool → List MemberEntry → Strategy × ℕ
edge_strategy m call r name_only candidates = elim call.arg_count [
  | none ↦ (method_reference, r.confidence)
  | some n ↦
      if is_implicit_super m call
      then (implicit_super, 90)
      else if is_init call
      then (constructor, r.confidence)
      else if name_only && is_several candidates
      then (overload_ambiguous, r.confidence)
      else (r.strategy, r.confidence)
]

abbrev reference_arity : CallSite → MemberEntry → Option ℕ
reference_arity call c = elim call.arg_count [
  | none ↦ some (length c.decl.parameters)
  | some n ↦ some n
]

abbrev pub resolved_row : MemberEntry → CallSite → Strategy → ℕ → MemberEntry → CallsRow
resolved_row m call strategy confidence c = record {
  src_id = m.node_id;
  dst_id = c.node_id;
  line = call.line;
  byte = call.byte;
  arg_count = reference_arity call c;
  confidence = confidence;
  strategy = strategy;
  resolved = true;
}

abbrev pub unresolved_row : MemberEntry → CallSite → Text → Strategy × ℕ → CallsRow
unresolved_row m call pid s = record {
  src_id = m.node_id;
  dst_id = pid;
  line = call.line;
  byte = call.byte;
  arg_count = call.arg_count;
  confidence = s.1;
  strategy = s.0;
  resolved = false;
}

-- The rows for the candidates, several of which are ambiguous.
abbrev pub candidate_rows : MemberEntry → CallSite → Strategy × ℕ → List MemberEntry → List CallsRow
candidate_rows m call s (c ∷ []) = resolved_row m call s.0 s.1 c ∷ []
candidate_rows m call s cs = map (λ c. resolved_row m call overload_ambiguous s.1 c) cs

abbrev pub collapsed : Tables → Text → CallSite → Strategy → List MemberEntry → List MemberEntry
collapsed tables recv call s candidates =
    if same_strategy s overload_ambiguous
    then candidates
    else collapse_supertype_duplicates tables recv call candidates

abbrev pub count_skipped : ℕ → Output → Output
count_skipped n o = record o {
  stats = record o.stats { skipped_cross_service = o.stats.skipped_cross_service + n };
}

abbrev pub add_phantom : Text → Text → Output → Output
add_phantom pid fqn o =
    if one_of pid (map (λ p. p.0) o.phantoms)
    then o
    else record o { phantoms = o.phantoms ++ ((pid, fqn) ∷ []) }

-- `_phantom_method_id` of a resolved receiver
abbrev pub phantom_fqn : Text → Text → Text
phantom_fqn recv callee = recv ++ (b'#' ∷ (callee ++ text_of "(?)"))

module _ (phantom_id : Text → Text) (tables : Tables) (ast : FileAst) where
  -- Behind the empty-candidates check.
  unfoldable pub emit_candidates :
      MemberEntry → CallSite → Text → Strategy × ℕ → List MemberEntry → Output → Output
  unfolding emit_all emit_call_edge collapse_supertype_duplicates one_of
  emit_candidates m call recv s [] o =
      let fqn = phantom_fqn recv call.callee_simple in
      let pid = phantom_id fqn in
      emit_call_edge (unresolved_row m call pid s) (add_phantom pid fqn o)
  emit_candidates m call recv s (c ∷ cs) o =
      emit_all (candidate_rows m call s (collapsed tables recv call s.0 (c ∷ cs))) o

  -- A call on a receiver of a known type.
  unfoldable pub emit_on_type : MemberEntry → CallSite → Receiver → Text → Output → Output
  unfolding lookup_method_candidates own_service edge_strategy emit_candidates
  emit_on_type m call r recv o =
      let (all, name_only) =
        lookup_method_candidates tables recv call.callee_simple call.arg_count in
      let (candidates, skipped) = own_service m all in
      emit_candidates m call recv (edge_strategy m call r name_only candidates) candidates
        (count_skipped skipped o)

  abbrev pub emit_typed : MemberEntry → CallSite → Receiver → Option Text → Output → Output
  emit_typed m call r none o = emit_unresolved_call_site m.node_id call unresolved_receiver o
  emit_typed m call r (some recv) o = emit_on_type m call r recv o

  -- A receiver that the strategy calls chained has no type.
  abbrev pub emit_received : MemberEntry → CallSite → Receiver → Output → Output
  emit_received m call r o =
      if same_strategy r.strategy chained_receiver
      then emit_unresolved_call_site m.node_id call chained o
      else emit_typed m call r r.type_fqn o

  abbrev pub emit_or_skip : MemberEntry → CallSite → Option Receiver → Output → Output
  emit_or_skip m call none o = o
  emit_or_skip m call (some r) o = emit_received m call r o

  -- `_resolve_and_emit_call`, with the `except` around it: where resolving the receiver raises, nothing is emitted.
  unfoldable pub resolve_and_emit_call : Scope → MemberEntry → CallSite → Output → Output
  unfolding resolve_receiver_type emit_unresolved_call_site emit_on_type
  resolve_and_emit_call scope m call o =
      emit_or_skip m call (resolve_receiver_type tables ast scope m call) o

  unfoldable pub emit_calls : Scope → MemberEntry → List CallSite → Output → Output
  unfolding resolve_and_emit_call
  emit_calls scope m [] o = o
  emit_calls scope m (call ∷ calls) o =
      emit_calls scope m calls (resolve_and_emit_call scope m call o)

  -- `_resolve_method_calls`
  unfoldable pub resolve_method_calls : MemberEntry → Output → Output
  unfolding scope_table emit_calls
  resolve_method_calls m o = emit_calls (scope_table tables ast m) m m.decl.call_sites o

  -- `_process_file_calls`
  unfoldable pub process_file_calls : Text → List MemberEntry → Output → Output
  unfolding resolve_method_calls
  process_file_calls path [] o = o
  process_file_calls path (m ∷ ms) o =
      process_file_calls path ms
        (if same_text m.file_path path then resolve_method_calls m o else o)

-- The loop of `pass3_calls` over the parsed files.
unfoldable pub pass3_calls : (Text → Text) → Tables → List (Text × FileAst) → Output → Output
unfolding process_file_calls
pass3_calls phantom_id tables [] o = o
pass3_calls phantom_id tables ((path, ast) ∷ asts) o =
    pass3_calls phantom_id tables asts
      (process_file_calls phantom_id tables ast path tables.members o)

abbrev pub no_output : Output
no_output = record {
  calls_rows = [];
  site_rows = [];
  phantoms = [];
  stats = record {
    total = 0;
    by_strategy = λ s. 0;
    phantom_chained = 0;
    phantom_other = 0;
    callee_unresolved = 0;
    skipped_cross_service = 0;
  };
}
