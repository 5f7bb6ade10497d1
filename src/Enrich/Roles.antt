-- ===== src/Enrich/Roles.antt =====
-- The built-in inference of src/java_codebase_rag/ast/ast_java.py.
pub mod Mapped
use jrag.Base.{
  Bool, true, false, not, Option, none, some, List, [], ◌∷◌, ◌++◌, if◌then◌else◌, ◌&&◌, ◌||◌, Text,
  text_of, same_text, ends_with, one_of,
}
use jrag.Base.Order.{sort}
use jrag.Base.Tables.{Table, get, has}
use jrag.Enrich.{
  AnnotationRef, FieldDecl, ParamDecl, MethodDecl, TypeDecl, dto_name_suffixes,
  dto_lombok_annotations, role_annotations, method_ann_to_capability, type_ann_to_capability,
  injected_types_to_capability, supertype_to_capability, names_of,
}
use jrag.Enrich.Sets.{each, is_blank_text, add_mapped, text_leb}

unfoldable pub other : Text
other = text_of "OTHER"

-- `mapped = …; if mapped: …; break`: the text that is found, where it is not blank.
unfoldable pub pick : Option Text → Option Text → Option Text
pick none later = later
pick (some role) later = if is_blank_text role then later else some role

-- The first text of a table that is found for a name, and not blank.
unfoldable pub first_mapped : Table Text → List Text → Option Text
unfolding get pick
first_mapped table [] = none
first_mapped table (n ∷ names) = pick (get n table) (first_mapped table names)

abbrev pub or_else : Option Text → Text → Text
or_else none role = role
or_else (some r) role = r

unfoldable pub infer_role : List Text → Text
unfolding first_mapped role_annotations other
infer_role annotation_names = or_else (first_mapped role_annotations annotation_names) other

unfoldable pub any_of : {A : Type 0} → (A → Bool) → List A → Bool
any_of p [] = false
any_of p (x ∷ xs) = p x || any_of p xs

unfoldable pub type_injects_messaging : TypeDecl → Bool
unfolding any_of has injected_types_to_capability
type_injects_messaging t =
    any_of (λ (f : FieldDecl). has f.type_name injected_types_to_capability) t.fields
    || any_of
        (λ (m : MethodDecl).
          m.is_constructor
          && any_of (λ (p : ParamDecl). has p.type_name injected_types_to_capability) m.parameters)
        t.methods

unfoldable pub infer_role_for_type : TypeDecl → Text
unfolding infer_role other any_of one_of same_text ends_with type_injects_messaging
    dto_name_suffixes dto_lombok_annotations
infer_role_for_type t =
    let base = infer_role (names_of t.annotations) in
    if not (same_text base other)
    then base
    else if same_text t.kind (text_of "record")
    then text_of "DTO"
    else if any_of (λ a. one_of a dto_lombok_annotations) (names_of t.annotations)
    then text_of "DTO"
    else if any_of (λ s. ends_with s t.name && not (same_text t.name s)) dto_name_suffixes
    then text_of "DTO"
    else if type_injects_messaging t
    then text_of "CLIENT"
    else other

-- The set that `infer_capabilities_for_type` sorts.
unfoldable pub inferred : TypeDecl → List Text
unfolding each add_mapped type_ann_to_capability method_ann_to_capability
    injected_types_to_capability supertype_to_capability
inferred t =
    let caps = each (add_mapped type_ann_to_capability) (names_of t.annotations) [] in
    let caps =
      each (λ (m : MethodDecl). each (add_mapped method_ann_to_capability) (names_of m.annotations))
        t.methods caps in
    let caps =
      each (λ (f : FieldDecl). add_mapped injected_types_to_capability f.type_name) t.fields caps in
    let caps =
      each
        (λ (m : MethodDecl) caps.
          if m.is_constructor
          then each (λ (p : ParamDecl). add_mapped injected_types_to_capability p.type_name)
              m.parameters caps
          else caps)
        t.methods caps in
    each (add_mapped supertype_to_capability) (t.extends ++ t.implements) caps

unfoldable pub infer_capabilities_for_type : TypeDecl → List Text
unfolding inferred sort text_leb
infer_capabilities_for_type t = sort text_leb (inferred t)
