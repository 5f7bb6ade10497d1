-- ===== src/Enrich/Resolve.antt =====
-- `resolve_role_and_capabilities` of src/java_codebase_rag/graph/graph_enrich.py: five steps that change a working role
-- and a working set of capabilities. A frozen set of the meta chain is a list in the order in which it is iterated.
-- Warnings that the code prints are left out.
pub mod Capabilities
pub mod Role
pub mod Config
use jrag.Base.{
  Bool, true, false, not, Option, none, some, List, [], ◌∷◌, if◌then◌else◌, ◌&&◌, Text, text_of,
  same_text, one_of,
}
use jrag.Base.Order.{sort}
use jrag.Base.Tables.{Table, get}
use jrag.Enrich.{
  AnnotationRef, MethodDecl, TypeDecl, role_annotations, method_ann_to_capability,
  type_ann_to_capability, valid_roles, valid_capabilities, names_of,
}
use jrag.Enrich.Sets.{each, add, add_mapped, text_leb}
use jrag.Enrich.Roles.{
  other, first_mapped, or_else, infer_role_for_type, infer_capabilities_for_type,
}

pub record Overrides : Type 0 where
  pub annotation_to_role : Table Text
  pub annotation_to_capabilities : Table (List Text)
  pub fqn_role : Table Text
  pub fqn_capabilities : Table (List Text)

-- `table.get(name, ())`
unfoldable pub get_all : Table (List Text) → Text → List Text
unfolding get
get_all table name = elim (get name table) [ none ↦ [] | some cs ↦ cs ]

abbrev pub is_other : Text → Bool
is_other role = same_text role other

-- Step 2: the annotation map of the configuration.
unfoldable pub config_role : Overrides → TypeDecl → Text → Text
unfolding same_text other first_mapped
config_role o t role =
    if is_other role
    then or_else (first_mapped o.annotation_to_role (names_of t.annotations)) role
    else role

unfoldable pub config_capabilities : Overrides → TypeDecl → List Text → List Text
unfolding each add get_all
config_capabilities o t caps =
    let on_annotation = λ (name : Text). each add (get_all o.annotation_to_capabilities name) in
    each (λ (m : MethodDecl). each on_annotation (names_of m.annotations)) t.methods
      (each on_annotation (names_of t.annotations) caps)

-- Step 3: the annotations of annotations. The role of the first annotation that leads to one.
unfoldable pub meta_mapped : Table (List Text) → List Text → Text → Text
unfolding same_text other first_mapped get_all role_annotations
meta_mapped chain [] role = role
meta_mapped chain (n ∷ names) role =
    let found = or_else (first_mapped role_annotations (get_all chain n)) role in
    let later = meta_mapped chain names found in if not (is_other found) then found else later

unfoldable pub meta_role : Option (Table (List Text)) → TypeDecl → Text → Text
unfolding same_text other meta_mapped
meta_role none t role = role
meta_role (some chain) t role =
    if is_other role then meta_mapped chain (names_of t.annotations) role else role

unfoldable pub meta_capabilities : Option (Table (List Text)) → TypeDecl → List Text → List Text
unfolding each add_mapped get_all type_ann_to_capability method_ann_to_capability
meta_capabilities none t caps = caps
meta_capabilities (some chain) t caps =
    let caps =
      each (λ name. each (add_mapped type_ann_to_capability) (get_all chain name))
        (names_of t.annotations) caps in
    each
      (λ (m : MethodDecl).
        each (λ name. each (add_mapped method_ann_to_capability) (get_all chain name))
          (names_of m.annotations))
      t.methods caps

-- The text of an argument, where it is an enum constant among those that are valid.
abbrev pub valid_enum : List Text → Option Text → Option Text → Option Text
valid_enum valid (some v) (some kind) =
    if same_text kind (text_of "enum") && one_of v valid then some v else none
valid_enum valid _ _ = none

abbrev pub argument_enum : List Text → AnnotationRef → Option Text
argument_enum valid a =
    valid_enum valid (get (text_of "value") a.arguments) (get (text_of "value") a.argument_kinds)

-- Step 4: `@CodebaseRole` and `@CodebaseCapability` in the source.
unfoldable pub source_role_of : AnnotationRef → Option Text
unfolding get one_of same_text valid_roles
source_role_of a =
    if same_text a.name (text_of "CodebaseRole") then argument_enum valid_roles a else none

-- The capabilities that an annotation in the source names.
unfoldable pub source_capabilities_of : AnnotationRef → List Text → List Text
unfolding get one_of same_text valid_capabilities each add
source_capabilities_of a caps =
    if same_text a.name (text_of "CodebaseRole")
    then caps
    else if same_text a.name (text_of "CodebaseCapability")
    then elim (argument_enum valid_capabilities a) [ none ↦ caps | some v ↦ add v caps ]
    else if same_text a.name (text_of "CodebaseCapabilities")
    then each
        (λ entry caps. elim (valid_enum valid_capabilities (some entry.0) (some entry.1)) [
          | none ↦ caps
          | some v ↦ add v caps
        ])
        a.container_capabilities caps
    else caps

unfoldable pub source_step : AnnotationRef → Text × List Text → Text × List Text
unfolding source_role_of source_capabilities_of
source_step a (role, caps) = (or_else (source_role_of a) role, source_capabilities_of a caps)

-- The role and the set of capabilities that the five steps leave.
unfoldable pub resolved :
    (overrides : Overrides)
    → (meta_chain : Option (Table (List Text))) → TypeDecl
    → Text × List Text
unfolding get get_all each add source_step infer_role_for_type infer_capabilities_for_type
    config_role config_capabilities meta_role meta_capabilities
resolved o chain t =
    let role = infer_role_for_type t in
    let caps = infer_capabilities_for_type t in
    let role = config_role o t role in
    let caps = config_capabilities o t caps in
    let role = meta_role chain t role in
    let caps = meta_capabilities chain t caps in
    let (role, caps) = each source_step t.annotations (role, caps) in
    (or_else (get t.fqn o.fqn_role) role, each add (get_all o.fqn_capabilities t.fqn) caps)

unfoldable pub resolve_role_and_capabilities :
    (overrides : Overrides)
    → (meta_chain : Option (Table (List Text))) → TypeDecl
    → Text × List Text
unfolding resolved sort text_leb
resolve_role_and_capabilities o chain t =
    let (role, caps) = resolved o chain t in (role, sort text_leb caps)
