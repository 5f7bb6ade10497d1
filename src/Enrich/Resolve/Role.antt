-- ===== src/Enrich/Resolve/Role.antt =====
-- The role that `resolve_role_and_capabilities` of src/java_codebase_rag/graph/graph_enrich.py finds.
pub mod Valid
use jrag.Base.{
  Bool, true, false, not, Option, none, some, List, [], ◌∷◌, ◌++◌, ◌≡◌, ◌⊎◌, refl, sym, ap, ◌∙◌,
  arith, if◌then◌else◌, Bool-cases, Option-cases, inl, inr, Text, text_of, same_text,
  same_text_refl, same_text_eq, one_of, one_of-append,
}
use jrag.Base.Tables.{Table, get}
use jrag.Enrich.{AnnotationRef, TypeDecl, values, role_annotations, valid_roles, names_of}
use jrag.Enrich.Sets.{each, is_blank_text}
use jrag.Enrich.Roles.{other, pick, first_mapped, or_else, infer_role, infer_role_for_type}
use jrag.Enrich.Roles.Mapped.{first_mapped-append, first_mapped-values}
use jrag.Enrich.Resolve.{
  Overrides, get_all, is_other, config_role, meta_mapped, meta_role, source_role_of, source_step,
  resolved, resolve_role_and_capabilities,
}
use jrag.Enrich.Resolve.Capabilities.{table_of}
use jrag.Enrich.Resolve.Capabilities.Source.{each-source_step}

-- The last text that the elements of a list give.
abbrev pub last_given : {A : Type 0} → (A → Option Text) → List A → Option Text
last_given f [] = none
last_given f (x ∷ xs) = elim (last_given f xs) [ none ↦ f x | some r ↦ some r ]

-- The first role that is not OTHER.
abbrev pub first_settled : List Text → Text
first_settled [] = other
first_settled (r ∷ rs) = if is_other r then first_settled rs else r

-- The built-in annotations that the annotations of a type lead to, in order.
abbrev pub built_ins : Table (List Text) → List Text → List Text
built_ins chain [] = []
built_ins chain (n ∷ names) = get_all chain n ++ built_ins chain names

-- The roles that the three first steps look for, each on its own.
abbrev pub guesses : Overrides → Option (Table (List Text)) → TypeDecl → List Text
guesses o chain t =
    infer_role_for_type t
    ∷ or_else (first_mapped o.annotation_to_role (names_of t.annotations)) other
    ∷ or_else (first_mapped role_annotations (built_ins (table_of chain) (names_of t.annotations)))
        other
    ∷ []

each-last_given :
    {A : Type 0} (f : A → Option Text) (xs : List A) (role : Text)
    → each (λ a role. or_else (f a) role) xs role ≡ or_else (last_given f xs) role
unfolding each
each-last_given f [] role = refl
each-last_given f (x ∷ xs) role = elim (Option-cases (last_given f xs)) [
  | inl e ↦ rw e (each-last_given f xs (or_else (f x) role) ∙ rw e refl)
  | inr (r, e) ↦ rw e (each-last_given f xs (or_else (f x) role) ∙ rw e refl)
]

-- No built-in annotation has the role OTHER.
first_mapped_settled :
    (names : List Text) (r : Text)
    → first_mapped role_annotations names ≡ some r
    → is_other r ≡ false
unfolding one_of values role_annotations same_text other
first_mapped_settled names r h = elim (Bool-cases (is_other r)) [
  | inl e ↦
      let v = first_mapped-values role_annotations names r h in
      ground
        (arith, sym (ap (λ s. one_of s (values role_annotations)) (same_text_eq r other e)) ∙ v)
  | inr e ↦ e
]

meta_mapped_lem :
    (chain : Table (List Text)) (names : List Text) (role : Text)
    → is_other role ≡ true
    → meta_mapped chain names role
      ≡ or_else (first_mapped role_annotations (built_ins chain names)) role
unfolding meta_mapped first_mapped
meta_mapped_lem chain [] role h = refl
meta_mapped_lem chain (n ∷ names) role h =
    let parts =
      first_mapped-append role_annotations (get_all chain n) (built_ins chain names) role in
    elim (Option-cases (first_mapped role_annotations (get_all chain n))) [
      | inl e ↦ rw (parts, or_else, e, h) (meta_mapped_lem chain names role h)
      | inr (r, e) ↦ rw (parts, or_else, e, first_mapped_settled (get_all chain n) r e) refl
    ]

built_ins_none : (names : List Text) → built_ins [] names ≡ []
unfolding get_all get
built_ins_none [] = refl
built_ins_none (n ∷ names) = built_ins_none names

meta_role_lem :
    (chain : Option (Table (List Text))) (t : TypeDecl)
    → meta_role chain t other
      ≡ or_else
          (first_mapped role_annotations (built_ins (table_of chain) (names_of t.annotations)))
          other
unfolding meta_role first_mapped same_text other
meta_role_lem none t = rw (built_ins_none (names_of t.annotations)) refl
meta_role_lem (some chain) t = meta_mapped_lem chain (names_of t.annotations) other refl

meta_role_kept :
    (chain : Option (Table (List Text))) (t : TypeDecl) (role : Text)
    → is_other role ≡ false
    → meta_role chain t role ≡ role
unfolding meta_role
meta_role_kept none t role h = refl
meta_role_kept (some chain) t role h = rw h refl

settled_or_other : (role : Text) → role ≡ (if is_other role then other else role)
settled_or_other role = elim (Bool-cases (is_other role)) [
  | inl h ↦ rw h (same_text_eq role other h)
  | inr h ↦ rw h refl
]

first_settled_config :
    (chain : Option (Table (List Text))) (t : TypeDecl) (config : Text)
    → meta_role chain t config ≡ first_settled (config ∷ meta_role chain t other ∷ [])
first_settled_config chain t config = elim (Bool-cases (is_other config)) [
  | inl h ↦ rw h (
      ap (meta_role chain t) (same_text_eq config other h)
      ∙ settled_or_other (meta_role chain t other))
  | inr h ↦ rw h (meta_role_kept chain t config h)
]

first_settled_base :
    (o : Overrides) (chain : Option (Table (List Text))) (t : TypeDecl) (base : Text)
    → meta_role chain t (config_role o t base)
      ≡ first_settled (
          base
          ∷ or_else (first_mapped o.annotation_to_role (names_of t.annotations)) other
          ∷ meta_role chain t other
          ∷ [])
unfolding config_role
first_settled_base o chain t base = elim (Bool-cases (is_other base)) [
  | inl h ↦
      let config = first_mapped o.annotation_to_role (names_of t.annotations) in
      rw h (
        ap (λ b. meta_role chain t (or_else config b)) (same_text_eq base other h)
        ∙ first_settled_config chain t (or_else config other))
  | inr h ↦ rw h (meta_role_kept chain t base h)
]

-- The role that the resolver returns for a type is the one that the configuration has for its name; else the last one
-- that an annotation of the code base in the source has; else the first that is not OTHER of the built-in inference,
-- the configuration's map of the type's annotations and the built-in annotations that these lead to; else OTHER.
pub resolve_role_and_capabilities_lem :
    (o : Overrides) (chain : Option (Table (List Text))) (t : TypeDecl)
    → (resolve_role_and_capabilities o chain t).0
      ≡ or_else
          (get t.fqn o.fqn_role)
          (or_else (last_given source_role_of t.annotations) (first_settled (guesses o chain t)))
unfolding resolve_role_and_capabilities resolved
resolve_role_and_capabilities_lem o chain t =
    let base = infer_role_for_type t in
    let start = meta_role chain t (config_role o t base) in
    let config = or_else (first_mapped o.annotation_to_role (names_of t.annotations)) other in
    ap (or_else (get t.fqn o.fqn_role)) (
      ap (λ s. s.0) (each-source_step t.annotations start _)
      ∙ each-last_given source_role_of t.annotations start
      ∙ ap (or_else (last_given source_role_of t.annotations)) (
          first_settled_base o chain t base
          ∙ ap (λ m. first_settled (base ∷ config ∷ m ∷ [])) (meta_role_lem chain t)))
