-- ===== src/Enrich/Resolve/Capabilities/Valid.antt =====
-- The roles and capabilities that `resolve_role_and_capabilities` of src/java_codebase_rag/graph/graph_enrich.py returns
-- are valid ones.
use jrag.Base.{true, ◌||◌, Option, some, List, ◌∷◌, ◌++◌, ◌≡◌, arith, Text, one_of, one_of-append}
use jrag.Base.Tables.{Table}
use jrag.Enrich.{
  AnnotationRef, TypeDecl, values, method_ann_to_capability, type_ann_to_capability,
  injected_types_to_capability, supertype_to_capability, valid_roles, valid_capabilities,
}
use jrag.Enrich.Sets.Added.{Mapped}
use jrag.Enrich.Roles.{other}
use jrag.Enrich.Roles.Mapped.{get-values}
use jrag.Enrich.Resolve.{Overrides, resolve_role_and_capabilities}
use jrag.Enrich.Resolve.Capabilities.{
  Infers, type_annotation, method_annotation, injected_field, injected_parameter, supertype, Names,
  one, several, Gives, built_in, config_on_type, config_on_method, meta_on_type, meta_on_method,
  in_source, for_fqn,
}
use jrag.Enrich.Resolve.Capabilities.Given.{resolve_role_and_capabilities_iff}
use jrag.Enrich.Resolve.Config.{IsValid, valid_enum_valid}
use jrag.Enrich.Resolve.Role.Valid.{role_valid}

-- The capabilities of methods' annotations, of types' annotations, of injected types and of supertypes.
module _ (c : Text) where
  abbrev by_method : List Text
  by_method = values method_ann_to_capability

  abbrev by_type : List Text
  by_type = values type_ann_to_capability

  abbrev by_injected : List Text
  by_injected = values injected_types_to_capability

  abbrev by_supertype : List Text
  by_supertype = values supertype_to_capability

  of_tables : one_of c valid_capabilities ≡ (
      one_of c by_method || (one_of c by_type || (one_of c by_injected || one_of c by_supertype)))
  unfolding valid_capabilities
  of_tables = ground (
    arith,
    one_of-append c by_method (by_type ++ by_injected ++ by_supertype),
    one_of-append c by_type (by_injected ++ by_supertype),
    one_of-append c by_injected by_supertype,
  )

  method_valid :
      (n : Text) → Mapped method_ann_to_capability n c → one_of c valid_capabilities ≡ true
  method_valid n m = ground (arith, of_tables, get-values n c method_ann_to_capability m.found)

  type_valid : (n : Text) → Mapped type_ann_to_capability n c → one_of c valid_capabilities ≡ true
  type_valid n m = ground (arith, of_tables, get-values n c type_ann_to_capability m.found)

  injected_valid :
      (n : Text) → Mapped injected_types_to_capability n c → one_of c valid_capabilities ≡ true
  injected_valid n m =
      ground (arith, of_tables, get-values n c injected_types_to_capability m.found)

  supertype_valid :
      (n : Text) → Mapped supertype_to_capability n c → one_of c valid_capabilities ≡ true
  supertype_valid n m = ground (arith, of_tables, get-values n c supertype_to_capability m.found)

  inferred_valid : (t : TypeDecl) → Infers t c → one_of c valid_capabilities ≡ true
  inferred_valid t (type_annotation s) = type_valid s.element s.holds
  inferred_valid t (method_annotation s) = method_valid s.holds.element s.holds.holds
  inferred_valid t (injected_field s) = injected_valid s.element.type_name s.holds
  inferred_valid t (injected_parameter s) =
      injected_valid s.holds.1.element.type_name s.holds.1.holds
  inferred_valid t (supertype s) = supertype_valid s.element s.holds

  named_valid : (a : AnnotationRef) → Names a c → one_of c valid_capabilities ≡ true
  named_valid a (one e h) = valid_enum_valid valid_capabilities _ _ c h
  named_valid a (several e s) =
      valid_enum_valid valid_capabilities (some s.element.0) (some s.element.1) c s.holds

  given_valid :
      (o : Overrides) (chain : Option (Table (List Text))) (t : TypeDecl)
      → IsValid o
      → Gives o chain t c
      → one_of c valid_capabilities ≡ true
  given_valid o chain t v (built_in g) = inferred_valid t g
  given_valid o chain t v (config_on_type s) = v.annotation_capabilities s.element c s.holds
  given_valid o chain t v (config_on_method s) =
      v.annotation_capabilities s.holds.element c s.holds.holds
  given_valid o chain t v (meta_on_type s) = type_valid s.holds.element s.holds.holds
  given_valid o chain t v (meta_on_method s) =
      method_valid s.holds.holds.element s.holds.holds.holds
  given_valid o chain t v (in_source s) = named_valid s.element s.holds
  given_valid o chain t v (for_fqn h) = v.fqn_capabilities_valid t.fqn c h

-- Where the configuration has valid roles and capabilities only, the resolver returns OTHER or a valid role, and valid
-- capabilities.
pub resolve_role_and_capabilities-IsValid :
    (o : Overrides) (chain : Option (Table (List Text))) (t : TypeDecl)
    → IsValid o
    → (one_of ((resolve_role_and_capabilities o chain t).0) (other ∷ valid_roles) ≡ true)
      × ((c : Text)
          → one_of c ((resolve_role_and_capabilities o chain t).1) ≡ true
          → one_of c valid_capabilities ≡ true)
resolve_role_and_capabilities-IsValid o chain t v = (
  role_valid o chain t v,
  λ c h. given_valid c o chain t v ((resolve_role_and_capabilities_iff o chain t c).0 h),
)
