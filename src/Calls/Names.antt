-- ===== src/Calls/Names.antt =====
-- The types that names stand for: `_resolve_simple`, `_resolve_this_super_field_chain` and `_scope_table` of
-- src/java_codebase_rag/graph/build_ast_graph.py. The loop outwards runs on fuel, one more than the length of the
-- name of the outer type, and each turn takes a shorter one.
pub mod Outwards
use jrag.Base.{
  ℕ, zero, suc, ◌+◌, Bool, true, false, not, Option, none, some, List, [], ◌∷◌, ◌++◌, ◌≡◌,
  if◌then◌else◌, ◌&&◌, ◌||◌, ◌==◌, length, Text, text_of, same_text, one_of, strip,
}
use jrag.Calls.Queue.{visits, enough, extend_front}
use jrag.Calls.Lookup.{supertypes}
use jrag.Calls.{
  Table, get, has, first, Variable, MethodDecl, TypeEntry, MemberEntry, Tables, FileAst, EdgeRow,
  direct_supertype_fqns, first_supertype_fqn,
}

-- `s.split(c, 1)[0]`
unfoldable pub before : ℕ → Text → Text
before c [] = []
before c (d ∷ t) = let rest = before c t in if d == c then [] else d ∷ rest

-- `name.split("<", 1)[0].strip()`
unfoldable pub bare_name : Text → Text
unfolding before
bare_name name = strip (before b'<' name)

abbrev pub dotted : Text → Text → Text
dotted a b = a ++ (b'.' ∷ b)

abbrev pub text_length : Option Text → ℕ
text_length none = 0
text_length (some t) = length t

infixl 5 ◌>>=◌
abbrev pub ◌>>=◌ : {A B : Type 0} → Option A → (A → Option B) → Option B
none >>= f = none
some a >>= f = f a

abbrev pub or_else : {A : Type 0} → Option A → Option A → Option A
or_else (some a) other = some a
or_else none other = other

abbrev pub outer_of : Option TypeEntry → Option Text
outer_of none = none
outer_of (some entry) = entry.outer_fqn

-- `while outer is not None and outer in tables.types`
unfoldable pub nested_in : Table TypeEntry → Text → ℕ → Option Text → Option TypeEntry
unfolding get
nested_in types bare zero outer = none
nested_in types bare (suc fuel) none = none
nested_in types bare (suc fuel) (some o) =
    let further = nested_in types bare fuel (outer_of (get o types)) in
    elim (get o types) [ none ↦ none | some entry ↦ or_else (get (dotted o bare) types) further ]

abbrev parent_of : Option Text → Text → Text
parent_of none p = p
parent_of (some []) p = p
parent_of (some (c ∷ cs)) p = c ∷ cs

abbrev list_or_nil : {A : Type 0} → Option (List A) → List A
list_or_nil none = []
list_or_nil (some l) = l

-- Same-file siblings
abbrev pub sibling : Tables → TypeEntry → Text → Option TypeEntry
sibling tables current bare =
    first
      (λ (e : TypeEntry).
        same_text e.file_path current.file_path
        && same_text (parent_of e.outer_fqn e.package_name)
            (parent_of current.outer_fqn current.package_name))
      (list_or_nil (get bare tables.by_simple_name))

abbrev pub in_package : Tables → Text → Text → Option TypeEntry
in_package tables [] bare = none
in_package tables (c ∷ cs) bare = get (dotted (c ∷ cs) bare) tables.types

unfoldable pub in_wildcards : Tables → Text → List Text → Option TypeEntry
unfolding get
in_wildcards tables bare [] = none
in_wildcards tables bare (w ∷ ws) =
    or_else (get (dotted w bare) tables.types) (in_wildcards tables bare ws)

abbrev pub imported : Tables → Option Text → Option TypeEntry → Option TypeEntry
imported tables (some fq) other = get fq tables.types
imported tables none other = other

abbrev pub resolve_bare : Tables → TypeEntry → FileAst → Text → Option TypeEntry
resolve_bare tables current ast bare =
    or_else (nested_in tables.types bare (suc (text_length current.outer_fqn)) current.outer_fqn) (
      or_else (sibling tables current bare) (
        imported tables (get bare ast.explicit_imports) (
          or_else (in_package tables current.package_name bare)
            (in_wildcards tables bare ast.wildcard_imports))))

abbrev when_text : Text → Option TypeEntry → Option TypeEntry
when_text [] o = none
when_text (c ∷ cs) o = o

-- `_resolve_simple`
unfoldable pub resolve_simple : Tables → TypeEntry → FileAst → Text → Option TypeEntry
unfolding bare_name nested_in first get in_wildcards
resolve_simple tables current ast name =
    when_text (bare_name name) (resolve_bare tables current ast (bare_name name))

-- The scope is a dictionary; a later entry wins.
abbrev pub Scope : Type 0
Scope = Table Text

abbrev note : Text → Option TypeEntry → Scope → Scope
note name none scope = scope
note name (some t) scope = (name, t.fqn) ∷ scope

-- Fields, parameters and locals: each is noted if its type is resolved.
unfoldable pub add_variables : Tables → TypeEntry → FileAst → List Variable → Scope → Scope
unfolding resolve_simple
add_variables tables entry ast [] scope = scope
add_variables tables entry ast (v ∷ vs) scope =
    add_variables tables entry ast vs
      (note v.name (resolve_simple tables entry ast v.type_name) scope)

-- The fields of a supertype, those that the scope has not.
unfoldable pub add_inherited : Tables → TypeEntry → FileAst → List Variable → Scope → Scope
unfolding resolve_simple has
add_inherited tables entry ast [] scope = scope
add_inherited tables entry ast (v ∷ vs) scope = add_inherited tables entry ast vs (
    if has v.name scope
    then scope
    else note v.name (resolve_simple tables entry ast v.type_name) scope)

abbrev inherit : Tables → FileAst → Option TypeEntry → Scope → Scope
inherit tables ast none scope = scope
inherit tables ast (some e) scope = add_inherited tables e ast e.fields scope

-- `add_inherited` for the supertypes that the loop visits.
unfoldable pub inherit_all : Tables → FileAst → List Text → Scope → Scope
unfolding get add_inherited
inherit_all tables ast [] scope = scope
inherit_all tables ast (t ∷ ts) scope =
    inherit_all tables ast ts (inherit tables ast (get t tables.types) scope)

-- The supertypes that the loop visits, which takes the last of the queue first.
unfoldable pub inherited_types : Tables → MemberEntry → TypeEntry → List Text
unfolding visits extend_front supertypes
inherited_types tables m entry =
    let queue = extend_front [] [] (direct_supertype_fqns tables entry) in
    let next = supertypes tables in
    visits tables.types next extend_front (enough next tables.types queue) (m.parent_fqn ∷ []) queue

abbrev scope_of : Tables → FileAst → MemberEntry → Option TypeEntry → Scope
scope_of tables ast m none = []
scope_of tables ast m (some entry) =
    let fields = add_variables tables entry ast entry.fields [] in
    let inherited = inherit_all tables ast (inherited_types tables m entry) fields in
    add_variables tables entry ast m.decl.local_vars
      (add_variables tables entry ast m.decl.parameters inherited)

-- `_scope_table`
unfoldable pub scope_table : Tables → FileAst → MemberEntry → Scope
unfolding get add_variables inherit_all inherited_types
scope_table tables ast m = scope_of tables ast m (get m.parent_fqn tables.types)

-- `s.split(".")`
abbrev onto_first : ℕ → List Text → List Text
onto_first c [] = (c ∷ []) ∷ []
onto_first c (t ∷ ts) = (c ∷ t) ∷ ts

unfoldable pub split_dots : Text → List Text
split_dots [] = [] ∷ []
split_dots (c ∷ t) = let rest = split_dots t in if c == b'.' then [] ∷ rest else onto_first c rest

-- The loop of `_resolve_this_super_field_chain`
unfoldable pub follow_fields : Tables → FileAst → TypeEntry → List Text → Option Text
unfolding first resolve_simple
follow_fields tables ast current [] = some current.fqn
follow_fields tables ast current (f ∷ fs) = do
  v ← first (λ (v : Variable). same_text v.name f) current.fields
  t ← resolve_simple tables current ast v.type_name
  follow_fields tables ast t fs

unfoldable pub has_char : ℕ → Text → Bool
has_char c [] = false
has_char c (d ∷ t) = d == c || has_char c t

abbrev from_super : Tables → Option Text → Option TypeEntry
from_super tables none = none
from_super tables (some sup) = get sup tables.types

abbrev chain_from : Tables → FileAst → MemberEntry → TypeEntry → List Text → Option Text
chain_from tables ast m entry [] = none
chain_from tables ast m entry (root ∷ fs) =
    if same_text root (text_of "this")
    then follow_fields tables ast entry fs
    else if same_text root (text_of "super")
    then (do
      sup ← from_super tables (first_supertype_fqn tables m.parent_fqn)
      follow_fields tables ast sup fs)
    else none

-- `_resolve_this_super_field_chain`
unfoldable pub resolve_this_super_field_chain : Tables → FileAst → MemberEntry → Text → Option Text
unfolding get first_supertype_fqn follow_fields has_char split_dots
resolve_this_super_field_chain tables ast m expr =
    let s = strip expr in
    if has_char b'(' s || (has_char b')' s || not (has_char b'.' s))
    then none
    else (do entry ← get m.parent_fqn tables.types; chain_from tables ast m entry (split_dots s))
