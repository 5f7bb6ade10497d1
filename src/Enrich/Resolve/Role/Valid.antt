-- ===== src/Enrich/Resolve/Role/Valid.antt =====
-- The roles that `resolve_role_and_capabilities` of src/java_codebase_rag/graph/graph_enrich.py returns
-- are valid ones.
use jrag.Base.{
  Bool, true, false, not, ◌&&◌, Option, none, some, List, [], ◌∷◌, ◌≡◌, ◌⊎◌, refl, ap, ◌∙◌, arith,
  if◌then◌else◌, inl, inr, Text, text_of, same_text, ends_with, one_of, one_of-append,
}
use jrag.Base.Tables.{Table, get}
use jrag.Enrich.{
  AnnotationRef, TypeDecl, dto_name_suffixes, dto_lombok_annotations, values, role_annotations,
  valid_roles, names_of,
}
use jrag.Enrich.Roles.{
  other, first_mapped, or_else, infer_role, infer_role_for_type, any_of, type_injects_messaging,
}
use jrag.Enrich.Roles.Mapped.{first_mapped-values, first_mapped-found}
use jrag.Enrich.Resolve.{
  Overrides, is_other, argument_enum, source_role_of, resolve_role_and_capabilities,
}
use jrag.Enrich.Resolve.Config.{IsValid, if_some, valid_enum_valid}
use jrag.Enrich.Resolve.Capabilities.{table_of}
use jrag.Enrich.Resolve.Role.{
  last_given, first_settled, built_ins, guesses, resolve_role_and_capabilities_lem,
}

record IsIn (valid : List Text) (r : Text) : Type 0 where
  found : one_of r valid ≡ true

if_IsIn :
    {valid : List Text} {r s : Text} (b : Bool)
    → IsIn valid r
    → IsIn valid s
    → IsIn valid (if b then r else s)
if_IsIn true h k = h
if_IsIn false h k = k

or_else_valid :
    (valid : List Text) (o : Option Text) (s : Text)
    → ((r : Text) → o ≡ some r → one_of r valid ≡ true)
    → one_of s valid ≡ true
    → one_of (or_else o s) valid ≡ true
or_else_valid valid none s h k = k
or_else_valid valid (some r) s h k = h r refl

source_role_valid :
    (a : AnnotationRef) (r : Text) → source_role_of a ≡ some r → one_of r valid_roles ≡ true
unfolding source_role_of
source_role_valid a r h =
    valid_enum_valid valid_roles (get (text_of "value") a.arguments)
      (get (text_of "value") a.argument_kinds) r
      ((if_some (same_text a.name (text_of "CodebaseRole")) (argument_enum valid_roles a) r h).1)

or_later :
    (o p : Option Text) (r : Text)
    → (elim o [ none ↦ p | some s ↦ some s ]) ≡ some r
    → (o ≡ some r) ⊎ (p ≡ some r)
or_later none p r h = inr h
or_later (some s) p r h = inl h

last_given_valid :
    (xs : List AnnotationRef) (r : Text)
    → last_given source_role_of xs ≡ some r
    → one_of r valid_roles ≡ true
last_given_valid [] r h = cc h
last_given_valid (a ∷ xs) r h =
    elim (or_later (last_given source_role_of xs) (source_role_of a) r h) [
      | inl e ↦ last_given_valid xs r e
      | inr e ↦ source_role_valid a r e
    ]

-- OTHER and the valid roles.
abbrev roles : List Text
roles = other ∷ valid_roles

built_in_valid :
    (names : List Text) (r : Text)
    → first_mapped role_annotations names ≡ some r
    → one_of r roles ≡ true
unfolding valid_roles one_of
built_in_valid names r h = ground (
  arith,
  one_of-append r (values role_annotations) (text_of "DTO" ∷ []),
  first_mapped-values role_annotations names r h,
)

other-IsIn : IsIn roles other
unfolding one_of same_text other
other-IsIn = record { found = refl }

dto-IsIn : IsIn roles (text_of "DTO")
unfolding one_of same_text other role_annotations values valid_roles
dto-IsIn = record { found = refl }

client-IsIn : IsIn roles (text_of "CLIENT")
unfolding one_of same_text other role_annotations values valid_roles
client-IsIn = record { found = refl }

infer_role-IsIn : (names : List Text) → IsIn roles (infer_role names)
unfolding infer_role
infer_role-IsIn names = record {
  found =
      or_else_valid roles (first_mapped role_annotations names) other (built_in_valid names)
        other-IsIn.found;
}

infer_role_for_type-IsIn : (t : TypeDecl) → IsIn roles (infer_role_for_type t)
unfolding infer_role_for_type
infer_role_for_type-IsIn t =
    let names = names_of t.annotations in
    let messaging = if_IsIn (type_injects_messaging t) client-IsIn other-IsIn in
    let suffix =
      if_IsIn (any_of (λ s. ends_with s t.name && not (same_text t.name s)) dto_name_suffixes)
        dto-IsIn messaging in
    let lombok = if_IsIn (any_of (λ a. one_of a dto_lombok_annotations) names) dto-IsIn suffix in
    let by_kind = if_IsIn (same_text t.kind (text_of "record")) dto-IsIn lombok in
    if_IsIn (not (same_text (infer_role names) other)) (infer_role-IsIn names) by_kind

-- A valid role is one of the roles.
wider : (r : Text) → one_of r valid_roles ≡ true → one_of r roles ≡ true
unfolding one_of
wider r h = ground (arith, h)

guesses-IsIn :
    (o : Overrides) (chain : Option (Table (List Text))) (t : TypeDecl)
    → IsValid o
    → IsIn roles (first_settled (guesses o chain t))
guesses-IsIn o chain t v =
    let names = names_of t.annotations in
    let built_in_names = built_ins (table_of chain) names in
    let config : IsIn roles (or_else (first_mapped o.annotation_to_role names) other) = record {
      found =
          or_else_valid roles (first_mapped o.annotation_to_role names) other
            (λ r h.
              let f = first_mapped-found o.annotation_to_role names r h in
              wider r (v.annotation_roles f.0 r f.1))
            other-IsIn.found;
    } in
    let meta : IsIn roles (or_else (first_mapped role_annotations built_in_names) other) = record {
      found =
          or_else_valid roles (first_mapped role_annotations built_in_names) other
            (built_in_valid built_in_names) other-IsIn.found;
    } in
    let meta_text = or_else (first_mapped role_annotations built_in_names) other in
    let config_text = or_else (first_mapped o.annotation_to_role names) other in
    let later =
      if_IsIn (is_other config_text) (if_IsIn (is_other meta_text) other-IsIn meta) config in
    if_IsIn (is_other (infer_role_for_type t)) later (infer_role_for_type-IsIn t)

pub role_valid :
    (o : Overrides) (chain : Option (Table (List Text))) (t : TypeDecl)
    → IsValid o
    → one_of ((resolve_role_and_capabilities o chain t).0) roles ≡ true
role_valid o chain t v =
    ap (λ r. one_of r roles) (resolve_role_and_capabilities_lem o chain t)
    ∙ or_else_valid roles (get t.fqn o.fqn_role)
        (or_else (last_given source_role_of t.annotations) (first_settled (guesses o chain t)))
        (λ r h. wider r (v.fqn_roles t.fqn r h))
        (or_else_valid roles (last_given source_role_of t.annotations)
          (first_settled (guesses o chain t)) (λ r h. wider r (last_given_valid t.annotations r h))
          (guesses-IsIn o chain t v).found)
