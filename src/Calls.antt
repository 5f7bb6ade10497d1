-- ===== src/Calls.antt =====
-- Call resolution: pass 3 of src/java_codebase_rag/graph/build_ast_graph.py. The tables that pass 1 and pass 2 fill,
-- and the supertypes that they give a type.
pub mod Queue
pub mod Names
pub mod Lookup
pub mod Receiver
pub mod Emit
mod Examples
unfoldable pub use jrag.Base.Tables.{Table, get, has, first, keep}
use jrag.Base.{
  ℕ, Bool, true, false, Option, none, some, List, [], ◌∷◌, ◌++◌, ◌≡◌, if◌then◌else◌, ◌&&◌, Text,
  same_text,
}

-- `FieldDecl` and `ParamDecl`: a name and the name of its type.
pub record Variable : Type 0 where
  pub name : Text
  pub type_name : Text

-- A call; a method reference has no number of arguments (`arg_count < 0`).
pub record CallSite : Type 0 where
  pub callee_simple : Text
  pub receiver_expr : Text
  pub arg_count : Option ℕ
  pub is_static_call : Bool
  pub line : ℕ
  pub byte : ℕ

pub record MethodDecl : Type 0 where
  pub name : Text
  pub signature : Text
  pub is_constructor : Bool
  pub is_static : Bool
  pub parameters : List Variable
  pub local_vars : List Variable
  pub call_sites : List CallSite
  pub start_line : ℕ
  pub start_byte : ℕ

-- `TypeIndexEntry`, with `decl.fqn` and `decl.fields`
pub record TypeEntry : Type 0 where
  pub fqn : Text
  pub fields : List Variable
  pub file_path : Text
  pub microservice : Text
  pub package_name : Text
  pub outer_fqn : Option Text
  pub node_id : Text

pub record MemberEntry : Type 0 where
  pub decl : MethodDecl
  pub parent_fqn : Text
  pub file_path : Text
  pub microservice : Text
  pub node_id : Text

-- An edge to a supertype.
pub record EdgeRow : Type 0 where
  pub src_id : Text
  pub dst_fqn : Text

pub record Tables : Type 0 where
  pub types : Table TypeEntry
  pub by_simple_name : Table (List TypeEntry)
  pub members : List MemberEntry
  pub extends_rows : List EdgeRow
  pub implements_rows : List EdgeRow

-- What is asked of `JavaFileAst`.
pub record FileAst : Type 0 where
  pub explicit_imports : Table Text
  pub wildcard_imports : List Text
  pub static_methods : Table Text
  pub static_wildcards : List Text

-- `tables.methods_by_type.get(t, ())`, as `_build_member_indexes` fills it
unfoldable pub methods_of : Text → List MemberEntry → List MemberEntry
methods_of t [] = []
methods_of t (m ∷ members) =
    let rest = methods_of t members in if same_text m.parent_fqn t then m ∷ rest else rest

unfoldable pub targets : Tables → Text → List EdgeRow → List Text
targets tables src [] = []
targets tables src (r ∷ rows) =
    let rest = targets tables src rows in
    if same_text r.src_id src && has r.dst_fqn tables.types then r.dst_fqn ∷ rest else rest

unfoldable pub direct_supertype_fqns : Tables → TypeEntry → List Text
unfolding targets
direct_supertype_fqns tables entry =
    targets tables entry.node_id tables.extends_rows
    ++ targets tables entry.node_id tables.implements_rows

abbrev first_text : List Text → Option Text
first_text [] = none
first_text (t ∷ ts) = some t

abbrev pub first_supertype_of : Tables → Option TypeEntry → Option Text
first_supertype_of tables none = none
first_supertype_of tables (some entry) = first_text (direct_supertype_fqns tables entry)

-- `_first_supertype_fqn`
unfoldable pub first_supertype_fqn : Tables → Text → Option Text
unfolding get direct_supertype_fqns
first_supertype_fqn tables t = first_supertype_of tables (get t tables.types)
