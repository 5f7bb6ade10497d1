-- ===== src/Calls/Lookup.antt =====
-- The walks over supertypes: `_lookup_method_candidates`, `_is_strict_supertype_of` and
-- `_collapse_supertype_duplicates` of src/java_codebase_rag/graph/build_ast_graph.py. Each loop over a queue runs on
-- fuel, which is enough by the lemmas of Queue/Reached.
pub mod Climb
pub mod Found
use jrag.Base.{
  ℕ, zero, suc, ◌+◌, Bool, true, false, not, Option, none, some, List, [], ◌∷◌, ◌++◌, ◌≡◌,
  if◌then◌else◌, ◌&&◌, ◌||◌, ◌==◌, length, Text, text_of, same_text, one_of, contains,
}
use jrag.Calls.Queue.{visits, enough, append_unseen}
use jrag.Calls.{
  Table, get, has, keep, CallSite, MethodDecl, TypeEntry, MemberEntry, Tables, methods_of,
  direct_supertype_fqns,
}

abbrev outer_text : Option Text → List Text
outer_text none = []
outer_text (some []) = []
outer_text (some (c ∷ cs)) = (c ∷ cs) ∷ []

-- What the loop looks at behind a type: its supertypes, and behind an anonymous class the type around it.
unfoldable pub entry_successors : Tables → Text → TypeEntry → List Text
unfolding contains
entry_successors tables t entry =
    direct_supertype_fqns tables entry
    ++ (if contains (text_of ".<anon:") t then outer_text entry.outer_fqn else [])

abbrev pub of_entry : (TypeEntry → List Text) → Option TypeEntry → List Text
of_entry f none = []
of_entry f (some entry) = f entry

unfoldable pub successors : Tables → Text → List Text
unfolding get entry_successors
successors tables t = of_entry (entry_successors tables t) (get t tables.types)

-- Whether a method answers to the name of the callee.
abbrev pub is_called : Text → MemberEntry → Bool
is_called callee m =
    if same_text callee (text_of "<init>")
    then m.decl.is_constructor
    else not m.decl.is_constructor && same_text m.decl.name callee

abbrev pub has_arity : Option ℕ → MemberEntry → Bool
has_arity none m = false
has_arity (some n) m = length m.decl.parameters == n

-- `collect_on_type` for the visited types: the exact matches and the others, in order
unfoldable pub collect : Tables → Text → Option ℕ → List Text → List MemberEntry × List MemberEntry
unfolding methods_of keep
collect tables callee args [] = ([], [])
collect tables callee args (t ∷ ts) =
    let called = keep (is_called callee) (methods_of t tables.members) in
    let (exact, name_only) = collect tables callee args ts in
    (keep (has_arity args) called ++ exact, keep (λ m. not (has_arity args m)) called ++ name_only)

abbrev pub choose : List MemberEntry × List MemberEntry → List MemberEntry × Bool
choose ([], []) = ([], false)
choose ([], m ∷ ms) = (m ∷ ms, true)
choose (m ∷ ms, name_only) = (m ∷ ms, false)

-- `_lookup_method_candidates`: the candidates and `used_name_only_fallback`
unfoldable pub lookup_method_candidates : Tables → Text → Text → Option ℕ → List MemberEntry × Bool
unfolding visits collect append_unseen successors
lookup_method_candidates tables type_fqn callee args =
    let next = successors tables in
    let queue = type_fqn ∷ [] in
    choose (
      collect tables callee args
        (visits tables.types next append_unseen (enough next tables.types queue) [] queue))

unfoldable pub supertypes : Tables → Text → List Text
unfolding get
supertypes tables t = of_entry (direct_supertype_fqns tables) (get t tables.types)

-- The loop of `_is_strict_supertype_of`
unfoldable pub climbs : Tables → Text → ℕ → List Text → List Text → Bool
unfolding has one_of supertypes
climbs tables super zero visited queue = false
climbs tables super (suc fuel) visited [] = false
climbs tables super (suc fuel) visited (t ∷ queue) =
    let skipped = climbs tables super fuel visited queue in
    let visiting = climbs tables super fuel (t ∷ visited) (queue ++ supertypes tables t) in
    if same_text t super
    then true
    else if one_of t visited || not (has t tables.types)
    then skipped
    else visiting

unfoldable pub is_strict_supertype_of : Tables → Text → Text → Bool
unfolding climbs supertypes
is_strict_supertype_of tables super subtype =
    if same_text super subtype
    then false
    else climbs tables super (enough (supertypes tables) tables.types (supertypes tables subtype))
        [] (supertypes tables subtype)

abbrev pub matches_call : MemberEntry → CallSite → Bool
matches_call m call = elim call.arg_count [ none ↦ true | some n ↦ length m.decl.parameters == n ]

-- The loop body of the two lists; a member is known by its place, so that `c is not concrete` is by position.
abbrev pub is_duplicate : Tables → Text → MemberEntry → MemberEntry → Bool
is_duplicate tables recv concrete c =
    is_strict_supertype_of tables c.parent_fqn recv
    && same_text c.decl.signature concrete.decl.signature

abbrev pub all_allowed : List Text → List MemberEntry → Bool
all_allowed ids [] = true
all_allowed ids (c ∷ cs) = one_of c.node_id ids && all_allowed ids cs

abbrev pub ids_of : List MemberEntry → List Text
ids_of [] = []
ids_of (c ∷ cs) = c.node_id ∷ ids_of cs

abbrev pub collapse_to : MemberEntry → List MemberEntry → List MemberEntry → List MemberEntry
collapse_to concrete [] candidates = candidates
collapse_to concrete (s ∷ ss) candidates =
    if all_allowed (concrete.node_id ∷ ids_of (s ∷ ss)) candidates
    then concrete ∷ []
    else candidates

-- With the candidates of the receiver's own type that match the call. The one candidate is no strict supertype of its
-- own type, so that `c is not concrete` removes nothing.
abbrev pub collapse_on : Tables → Text → List MemberEntry → List MemberEntry → List MemberEntry
collapse_on tables recv (concrete ∷ []) candidates =
    collapse_to concrete (keep (is_duplicate tables recv concrete) candidates) candidates
collapse_on tables recv _ candidates = candidates

-- `_collapse_supertype_duplicates`
unfoldable pub collapse_supertype_duplicates :
    Tables → Text → CallSite → List MemberEntry → List MemberEntry
unfolding keep one_of is_strict_supertype_of
collapse_supertype_duplicates tables recv call [] = []
collapse_supertype_duplicates tables recv call (c ∷ []) = c ∷ []
collapse_supertype_duplicates tables recv call (c ∷ d ∷ cs) =
    collapse_on tables recv
      (keep (λ m. same_text m.parent_fqn recv && matches_call m call) (c ∷ d ∷ cs)) (c ∷ d ∷ cs)
