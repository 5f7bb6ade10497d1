-- ===== src/Enrich/Resolve/Capabilities.antt =====
-- What the layers of `resolve_role_and_capabilities` of src/java_codebase_rag/graph/graph_enrich.py give a type.
pub mod Steps
pub mod Source
pub mod Given
pub mod Valid
use jrag.Base.{
  Bool, true, false, Option, none, some, List, [], ◌∷◌, ◌++◌, ◌≡◌, ◌↔◌, ◌⊎◌, ◌||◌, refl, ◌∙◌, sym,
  ap, subst, arith, Bool-cases, Option-cases, inl, inr, Text, text_of, same_text, one_of,
}
use jrag.Base.Order.{sort, insert}
use jrag.Base.Tables.{Table, get}
use jrag.Enrich.{
  AnnotationRef, FieldDecl, ParamDecl, MethodDecl, TypeDecl, method_ann_to_capability,
  type_ann_to_capability, injected_types_to_capability, supertype_to_capability, valid_capabilities,
  names_of,
}
use jrag.Enrich.Sets.{each, add, add_mapped, text_leb}
use jrag.Enrich.Sets.Added.{
  Adds, Mapped, Some, same-Adds, add-Adds, add_mapped-Adds, seq-Adds, each-Adds, all-Adds,
  when-Adds,
}
use jrag.Enrich.Roles.{or_else, inferred, infer_capabilities_for_type}
use jrag.Enrich.Resolve.{
  Overrides, get_all, config_capabilities, meta_capabilities, argument_enum, valid_enum,
  source_role_of, source_capabilities_of, source_step, resolved, resolve_role_and_capabilities,
}

-- What the built-in inference gives a type.
pub data Infers (t : TypeDecl) (c : Text) : Type 0 where
  type_annotation : Some (Mapped type_ann_to_capability) (names_of t.annotations) c → Infers t c
  method_annotation :
      Some
        (λ (m : MethodDecl). Some (Mapped method_ann_to_capability) (names_of m.annotations))
        t.methods
        c
      → Infers t c
  injected_field :
      Some (λ (f : FieldDecl). Mapped injected_types_to_capability f.type_name) t.fields c
      → Infers t c
  injected_parameter :
      Some
        (λ (m : MethodDecl) c.
          (m.is_constructor ≡ true)
          × Some
              (λ (p : ParamDecl). Mapped injected_types_to_capability p.type_name)
              m.parameters
              c)
        t.methods
        c
      → Infers t c
  supertype : Some (Mapped supertype_to_capability) (t.extends ++ t.implements) c → Infers t c

-- What an annotation in the source names.
pub data Names (a : AnnotationRef) (c : Text) : Type 0 where
  one :
      same_text a.name (text_of "CodebaseCapability") ≡ true
      → argument_enum valid_capabilities a ≡ some c
      → Names a c
  several :
      same_text a.name (text_of "CodebaseCapabilities") ≡ true
      → Some
          (λ (e : Text × Text) c. valid_enum valid_capabilities (some e.0) (some e.1) ≡ some c)
          a.container_capabilities
          c
      → Names a c

-- No meta chain is an empty one.
abbrev pub table_of : Option (Table (List Text)) → Table (List Text)
table_of none = []
table_of (some table) = table

-- What the built-in inference, the annotations of annotations, the map of the configuration and the type's own entry give it.
pub data Gives (o : Overrides) (chain : Option (Table (List Text))) (t : TypeDecl) (c : Text)
    : Type 0 where
  built_in : Infers t c → Gives o chain t c
  config_on_type :
      Some
        (λ name c. one_of c (get_all o.annotation_to_capabilities name) ≡ true)
        (names_of t.annotations)
        c
      → Gives o chain t c
  config_on_method :
      Some
        (λ (m : MethodDecl).
          Some
            (λ name c. one_of c (get_all o.annotation_to_capabilities name) ≡ true)
            (names_of m.annotations))
        t.methods
        c
      → Gives o chain t c
  meta_on_type :
      Some
        (λ name. Some (Mapped type_ann_to_capability) (get_all (table_of chain) name))
        (names_of t.annotations)
        c
      → Gives o chain t c
  meta_on_method :
      Some
        (λ (m : MethodDecl).
          Some
            (λ name. Some (Mapped method_ann_to_capability) (get_all (table_of chain) name))
            (names_of m.annotations))
        t.methods
        c
      → Gives o chain t c
  in_source : Some Names t.annotations c → Gives o chain t c
  for_fqn : one_of c (get_all o.fqn_capabilities t.fqn) ≡ true → Gives o chain t c
