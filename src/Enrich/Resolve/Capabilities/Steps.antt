-- ===== src/Enrich/Resolve/Capabilities/Steps.antt =====
-- What each step of src/java_codebase_rag/graph/graph_enrich.py and of the built-in inference of
-- src/java_codebase_rag/ast/ast_java.py adds to the set of capabilities.
use mathlib.Core.List.Memᴰ
use jrag.Base.{
  true, false, Option, none, some, List, [], ◌∷◌, ◌++◌, ◌≡◌, ◌⊎◌, refl, ◌∙◌, sym, arith, Bool-cases,
  inl, inr, Text, same_text, one_of,
}
use jrag.Base.Order.{sort, insert}
use jrag.Base.Tables.{Table, get}
use jrag.Enrich.{
  FieldDecl, ParamDecl, MethodDecl, TypeDecl, method_ann_to_capability, type_ann_to_capability,
  injected_types_to_capability, supertype_to_capability, names_of,
}
use jrag.Enrich.Sets.{text_leb}
use jrag.Enrich.Sets.Added.{
  Adds, IsDistinct, Mapped, Some, same-Adds, add_mapped-Adds, seq-Adds, each-Adds, all-Adds,
  when-Adds,
}
use jrag.Enrich.Roles.{inferred}
use jrag.Enrich.Resolve.{Overrides, get_all, config_capabilities, meta_capabilities}
use jrag.Enrich.Resolve.Capabilities.{
  Infers, type_annotation, method_annotation, injected_field, injected_parameter, supertype,
  table_of,
}

same_text_swap : (s t : Text) → same_text s t ≡ same_text t s
unfolding same_text
same_text_swap [] [] = refl
same_text_swap [] (b ∷ t) = refl
same_text_swap (a ∷ s) [] = refl
same_text_swap (a ∷ s) (b ∷ t) = ground (arith, same_text_swap s t)

one_of-insert : (c d : Text) (xs : List Text) → one_of c (insert text_leb d xs) ≡ one_of c (d ∷ xs)
unfolding insert one_of
one_of-insert c d [] = refl
one_of-insert c d (x ∷ xs) = ground (arith, one_of-insert c d xs)

pub one_of-sort : (c : Text) (xs : List Text) → one_of c (sort text_leb xs) ≡ one_of c xs
unfolding sort one_of
one_of-sort c [] = refl
one_of-sort c (x ∷ xs) = ground (arith, one_of-insert c x (sort text_leb xs), one_of-sort c xs)

insert-IsDistinct :
    (d : Text) (xs : List Text)
    → one_of d xs ≡ false
    → IsDistinct xs
    → IsDistinct (insert text_leb d xs)
unfolding insert one_of
insert-IsDistinct d [] h k = (h, k)
insert-IsDistinct d (x ∷ xs) h k = elim (Bool-cases (text_leb d x)) [
  | inl e ↦ rw e (h, k)
  | inr e ↦ rw e (
    ground (arith, one_of-insert x d xs, k.0, h, same_text_swap d x),
    insert-IsDistinct d xs (ground (arith, h)) k.1,
  )
]

pub sort-IsDistinct : (xs : List Text) → IsDistinct xs → IsDistinct (sort text_leb xs)
unfolding sort one_of
sort-IsDistinct [] h = h
sort-IsDistinct (x ∷ xs) h =
    insert-IsDistinct x (sort text_leb xs) (one_of-sort x xs ∙ h.0) (sort-IsDistinct xs h.1)

pub sort-Adds :
    {P : Text → Type 0} {before : List Text}
    → (after : List Text) → Adds P before after
    → Adds P before (sort text_leb after)
sort-Adds after a = record {
  gained = λ c h. a.gained c (sym (one_of-sort c after) ∙ h);
  kept = λ c h. one_of-sort c after ∙ a.kept c h;
  gets = λ c p. one_of-sort c after ∙ a.gets c p;
  distinct = λ d. sort-IsDistinct after (a.distinct d);
}

pub inferred-Adds : (t : TypeDecl) → Adds (Infers t) [] (inferred t)
unfolding inferred one_of
inferred-Adds t =
    let a =
      seq-Adds
        (seq-Adds
          (seq-Adds
            (seq-Adds
              (each-Adds (add_mapped-Adds type_ann_to_capability) (names_of t.annotations) [])
              (each-Adds
                (λ (m : MethodDecl).
                  each-Adds (add_mapped-Adds method_ann_to_capability) (names_of m.annotations))
                t.methods _))
            (each-Adds (λ (f : FieldDecl). add_mapped-Adds injected_types_to_capability f.type_name)
              t.fields _))
          (each-Adds
            (λ (m : MethodDecl) caps. when-Adds m.is_constructor caps _ (
              each-Adds
                (λ (p : ParamDecl). add_mapped-Adds injected_types_to_capability p.type_name)
                m.parameters caps))
            t.methods _))
        (each-Adds (add_mapped-Adds supertype_to_capability) (t.extends ++ t.implements) _) in
    record {
      gained = λ c h. elim (a.gained c h) [
        | inl k ↦ inl k
        | inr (inl (inl (inl (inl k)))) ↦ inr (type_annotation k)
        | inr (inl (inl (inl (inr k)))) ↦ inr (method_annotation k)
        | inr (inl (inl (inr k))) ↦ inr (injected_field k)
        | inr (inl (inr k)) ↦ inr (injected_parameter k)
        | inr (inr k) ↦ inr (supertype k)
      ];
      kept = a.kept;
      gets = λ c g. elim g [
        | type_annotation k ↦ a.gets c (inl (inl (inl (inl k))))
        | method_annotation k ↦ a.gets c (inl (inl (inl (inr k))))
        | injected_field k ↦ a.gets c (inl (inl (inr k)))
        | injected_parameter k ↦ a.gets c (inl (inr k))
        | supertype k ↦ a.gets c (inr k)
      ];
      distinct = a.distinct;
    }

pub config_capabilities-Adds :
    (o : Overrides) (t : TypeDecl) (caps : List Text)
    → Adds
        (λ c.
          Some
            (λ name c. one_of c (get_all o.annotation_to_capabilities name) ≡ true)
            (names_of t.annotations)
            c
          ⊎ Some
              (λ (m : MethodDecl).
                Some
                  (λ name c. one_of c (get_all o.annotation_to_capabilities name) ≡ true)
                  (names_of m.annotations))
              t.methods
              c)
        caps
        (config_capabilities o t caps)
unfolding config_capabilities
config_capabilities-Adds o t caps =
    let on_annotation = λ (name : Text). all-Adds (get_all o.annotation_to_capabilities name) in
    seq-Adds (each-Adds on_annotation (names_of t.annotations) caps)
      (each-Adds (λ (m : MethodDecl). each-Adds on_annotation (names_of m.annotations)) t.methods _)

pub meta_capabilities-Adds :
    (chain : Option (Table (List Text))) (t : TypeDecl) (caps : List Text)
    → Adds
        (λ c.
          Some
            (λ name. Some (Mapped type_ann_to_capability) (get_all (table_of chain) name))
            (names_of t.annotations)
            c
          ⊎ Some
              (λ (m : MethodDecl).
                Some
                  (λ name. Some (Mapped method_ann_to_capability) (get_all (table_of chain) name))
                  (names_of m.annotations))
              t.methods
              c)
        caps
        (meta_capabilities chain t caps)
unfolding meta_capabilities get_all get
meta_capabilities-Adds none t caps =
    same-Adds
      (λ c p. elim p [
        | inl s ↦ Memᴰ.not-nil s.holds.member
        | inr s ↦ Memᴰ.not-nil s.holds.holds.member
      ])
      caps
meta_capabilities-Adds (some chain) t caps =
    seq-Adds
      (each-Adds (λ name. each-Adds (add_mapped-Adds type_ann_to_capability) (get_all chain name))
        (names_of t.annotations) caps)
      (each-Adds
        (λ (m : MethodDecl).
          each-Adds
            (λ name. each-Adds (add_mapped-Adds method_ann_to_capability) (get_all chain name))
            (names_of m.annotations))
        t.methods _)
