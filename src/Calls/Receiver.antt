-- ===== src/Calls/Receiver.antt =====
-- The type of a call's receiver: `_resolve_receiver_type` of src/java_codebase_rag/graph/build_ast_graph.py. A
-- confidence is in hundredths.
use jrag.Base.{
  ℕ, Bool, true, false, not, Option, none, some, List, [], ◌∷◌, if◌then◌else◌, ◌&&◌, ◌||◌, ◌==◌,
  Text, text_of, same_text, strip, ends_with,
}
use jrag.Calls.{
  Table, get, has, CallSite, TypeEntry, MemberEntry, Tables, FileAst, methods_of,
  first_supertype_fqn,
}
use jrag.Calls.Names.{
  Scope, bare_name, dotted, has_char, resolve_simple, resolve_this_super_field_chain,
}

pub data Strategy : Type 0 where
  static_import static_import_wildcard chained_receiver phantom import_map unique_type_name suffix
        this_super implicit_super same_module method_reference constructor overload_ambiguous :
      Strategy

-- `(receiver_type_fqn_or_none, strategy, confidence)`
pub record Receiver : Type 0 where
  pub type_fqn : Option Text
  pub strategy : Strategy
  pub confidence : ℕ

abbrev pub found : Text → Strategy → ℕ → Receiver
found t s c = record { type_fqn = some t; strategy = s; confidence = c }

abbrev pub unknown : Strategy → Receiver
unknown s = record { type_fqn = none; strategy = s; confidence = 0 }

-- `_is_chained_receiver_text`
unfoldable pub is_chained_receiver_text : Text → Bool
unfolding has_char
is_chained_receiver_text expr = has_char b'(' (strip expr) && has_char b')' (strip expr)

-- `_static_wildcard_resolve`
abbrev pub declares_static : Text → List MemberEntry → Bool
declares_static callee [] = false
declares_static callee (m ∷ ms) =
    (same_text m.decl.name callee && (not m.decl.is_constructor && m.decl.is_static))
    || declares_static callee ms

unfoldable pub static_wildcard_resolve : Tables → Text → List Text → Option Text
unfolding has methods_of
static_wildcard_resolve tables callee [] = none
static_wildcard_resolve tables callee (t ∷ ts) =
    let rest = static_wildcard_resolve tables callee ts in
    if has t tables.types && declares_static callee (methods_of t tables.members)
    then some t
    else rest

abbrev only_fqn : Option (List TypeEntry) → Option Text
only_fqn (some (e ∷ [])) = some e.fqn
only_fqn _ = none

-- `_unique_type_simple_resolve`
unfoldable pub unique_type_simple_resolve : Tables → Text → Option Text
unfolding get
unique_type_simple_resolve tables simple = only_fqn (get simple tables.by_simple_name)

unfoldable pub types_ending : Text → Table TypeEntry → List Text
unfolding ends_with
types_ending p [] = []
types_ending p ((t, entry) ∷ types) =
    let rest = types_ending p types in if ends_with p t then t ∷ rest else rest

abbrev only_text : List Text → Option Text
only_text (t ∷ []) = some t
only_text _ = none

-- `_suffix_resolve`
unfoldable pub suffix_resolve : Tables → Text → Option Text
unfolding types_ending
suffix_resolve tables simple = only_text (types_ending (b'.' ∷ simple) tables.types)

-- `full.rsplit(".", 1)[0]`
unfoldable pub before_last_dot : Text → Text
unfolding has_char
before_last_dot [] = []
before_last_dot (c ∷ t) = if c == b'.' && not (has_char b'.' t) then [] else c ∷ before_last_dot t

abbrev pub or_try : {A : Type 0} → Option Text → (Text → A) → A → A
or_try (some t) f other = f t
or_try none f other = other

abbrev by_entry : Option TypeEntry → (Text → Receiver) → Receiver → Receiver
by_entry (some e) f other = f e.fqn
by_entry none f other = other

-- `uq`, then `sf`
abbrev by_name : Tables → Text → Receiver
by_name tables name =
    or_try (unique_type_simple_resolve tables name) (λ t. found t unique_type_name 75)
      (or_try (suffix_resolve tables name) (λ t. found t suffix 55) (unknown phantom))

-- A static call with a qualifier.
abbrev static_receiver : Tables → FileAst → Text → Option TypeEntry → Receiver
static_receiver tables ast expr none = unknown chained_receiver
static_receiver tables ast expr (some entry) =
    by_entry (resolve_simple tables entry ast (bare_name expr)) (λ t. found t import_map 95)
      (or_try (get (bare_name expr) ast.explicit_imports) (λ t. found t import_map 95)
        (by_name tables expr))

abbrev of_package : Tables → Text → Text → Receiver → Receiver
of_package tables [] bare other = other
of_package tables (c ∷ cs) bare other =
    if has (dotted (c ∷ cs) bare) tables.types
    then found (dotted (c ∷ cs) bare) same_module 90
    else other

-- A variable, a chain of fields, or the name of a type.
abbrev named_receiver : Tables → FileAst → Scope → MemberEntry → Text → Option TypeEntry → Receiver
named_receiver tables ast scope m expr none = unknown phantom
named_receiver tables ast scope m expr (some entry) =
    let bare = bare_name expr in
    or_try (get bare scope) (λ t. found t import_map 95)
      (or_try (resolve_this_super_field_chain tables ast m expr) (λ t. found t import_map 95)
        (by_entry (resolve_simple tables entry ast bare) (λ t. found t import_map 95)
          (of_package tables entry.package_name bare (by_name tables bare))))

abbrev pub is_empty : Text → Bool
is_empty [] = true
is_empty (c ∷ cs) = false

abbrev super_receiver : Option Text → Receiver
super_receiver (some t) = found t this_super 95
super_receiver none = found (text_of "java.lang.Object") implicit_super 90

-- The part of the function behind the static imports.
unfoldable pub resolve_expression : Tables → FileAst → Scope → MemberEntry → Bool → Text → Receiver
unfolding get has is_chained_receiver_text resolve_simple bare_name unique_type_simple_resolve
    suffix_resolve first_supertype_fqn resolve_this_super_field_chain
resolve_expression tables ast scope m effective_static expr =
    let entry = get m.parent_fqn tables.types in
    if effective_static && not (is_empty expr)
    then (if is_chained_receiver_text expr
        then unknown chained_receiver
        else static_receiver tables ast expr entry)
    else if is_empty expr || same_text expr (text_of "this")
    then found m.parent_fqn this_super 95
    else if same_text expr (text_of "super")
    then super_receiver (first_supertype_fqn tables m.parent_fqn)
    else if is_chained_receiver_text expr
    then unknown chained_receiver
    else named_receiver tables ast scope m expr entry

-- A static call on a variable in scope is none.
abbrev pub is_effectively_static : Scope → CallSite → Text → Bool
is_effectively_static scope call expr =
    let bare = bare_name expr in
    call.is_static_call
    && not (
        not (is_empty expr)
        && (not (is_chained_receiver_text expr)
            && (not (is_empty bare) && (not (has_char b'.' bare) && has bare scope))))

-- An unqualified call by a static import; `none`: the function raises, as the member's type is not in the tables.
abbrev pub by_wildcard : Tables → FileAst → MemberEntry → Text → Receiver → Option Receiver
by_wildcard tables ast m callee other =
    if has m.parent_fqn tables.types
    then some (
        or_try (static_wildcard_resolve tables callee ast.static_wildcards)
          (λ t. found t static_import_wildcard 85) other)
    else none

abbrev pub by_static_import :
    Tables → FileAst → MemberEntry → Text → Option Text → Receiver → Option Receiver
by_static_import tables ast m callee none other = by_wildcard tables ast m callee other
by_static_import tables ast m callee (some full) other =
    if has_char b'.' full
    then some (found (before_last_dot full) static_import 95)
    else by_wildcard tables ast m callee other

-- `_resolve_receiver_type`
unfoldable pub resolve_receiver_type :
    Tables → FileAst → Scope → MemberEntry → CallSite → Option Receiver
unfolding get has has_char bare_name is_chained_receiver_text static_wildcard_resolve
    before_last_dot resolve_expression
resolve_receiver_type tables ast scope m call =
    let expr = strip call.receiver_expr in
    let rest = resolve_expression tables ast scope m (is_effectively_static scope call expr) expr in
    if is_empty expr && not call.is_static_call
    then by_static_import tables ast m call.callee_simple
        (get call.callee_simple ast.static_methods) rest
    else some rest
