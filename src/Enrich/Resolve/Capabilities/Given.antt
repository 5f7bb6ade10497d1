-- ===== src/Enrich/Resolve/Capabilities/Given.antt =====
-- The capabilities that `resolve_role_and_capabilities` of src/java_codebase_rag/graph/graph_enrich.py returns.
use jrag.Base.{
  true, false, Option, List, [], ◌∷◌, ◌≡◌, ◌↔◌, refl, ◌∙◌, sym, ap, subst, arith, inl, inr, Text,
  one_of,
}
use jrag.Base.Order.{sort, IsSorted, sort-IsSorted}
use jrag.Base.Tables.{Table}
use jrag.Enrich.{TypeDecl}
use jrag.Enrich.Sets.{each, add, text_leb}
use jrag.Enrich.Sets.Added.{Adds, IsDistinct, seq-Adds, each-Adds, all-Adds}
use jrag.Enrich.Roles.{inferred, infer_capabilities_for_type}
use jrag.Enrich.Resolve.{
  Overrides, get_all, config_capabilities, meta_capabilities, source_capabilities_of, resolved,
  resolve_role_and_capabilities,
}
use jrag.Enrich.Resolve.Capabilities.{
  Gives, built_in, config_on_type, config_on_method, meta_on_type, meta_on_method, in_source,
  for_fqn,
}
use jrag.Enrich.Resolve.Capabilities.Source.{source_capabilities_of-Adds, each-source_step}
use jrag.Enrich.Resolve.Capabilities.Steps.{
  one_of-sort, sort-Adds, sort-IsDistinct, inferred-Adds, config_capabilities-Adds,
  meta_capabilities-Adds,
}

-- The set that the five steps leave.
kept_set : Overrides → Option (Table (List Text)) → TypeDecl → List Text
unfolding each add config_capabilities meta_capabilities infer_capabilities_for_type
    source_capabilities_of get_all
kept_set o chain t =
    let config = config_capabilities o t (infer_capabilities_for_type t) in
    let meta = meta_capabilities chain t config in
    each add (get_all o.fqn_capabilities t.fqn) (each source_capabilities_of t.annotations meta)

resolved_set :
    (o : Overrides) (chain : Option (Table (List Text))) (t : TypeDecl)
    → (resolved o chain t).1 ≡ kept_set o chain t
unfolding resolved kept_set
resolved_set o chain t =
    ap (λ s. each add (get_all o.fqn_capabilities t.fqn) s.1) (each-source_step t.annotations _ _)

resolved-Adds :
    (o : Overrides) (chain : Option (Table (List Text))) (t : TypeDecl)
    → Adds (Gives o chain t) [] (kept_set o chain t)
unfolding kept_set infer_capabilities_for_type
resolved-Adds o chain t =
    let built = sort-Adds (inferred t) (inferred-Adds t) in
    let config = config_capabilities-Adds o t (sort text_leb (inferred t)) in
    let meta = meta_capabilities-Adds chain t _ in
    let source = each-Adds source_capabilities_of-Adds t.annotations _ in
    let fqn = all-Adds (get_all o.fqn_capabilities t.fqn) _ in
    let a = seq-Adds (seq-Adds (seq-Adds (seq-Adds built config) meta) source) fqn in
    record {
      gained = λ c h. elim (a.gained c h) [
        | inl k ↦ inl k
        | inr (inl (inl (inl (inl k)))) ↦ inr (built_in k)
        | inr (inl (inl (inl (inr (inl k))))) ↦ inr (config_on_type k)
        | inr (inl (inl (inl (inr (inr k))))) ↦ inr (config_on_method k)
        | inr (inl (inl (inr (inl k)))) ↦ inr (meta_on_type k)
        | inr (inl (inl (inr (inr k)))) ↦ inr (meta_on_method k)
        | inr (inl (inr k)) ↦ inr (in_source k)
        | inr (inr k) ↦ inr (for_fqn k)
      ];
      kept = a.kept;
      gets = λ c g. a.gets c (elim g [
        | built_in k ↦ inl (inl (inl (inl k)))
        | config_on_type k ↦ inl (inl (inl (inr (inl k))))
        | config_on_method k ↦ inl (inl (inl (inr (inr k))))
        | meta_on_type k ↦ inl (inl (inr (inl k)))
        | meta_on_method k ↦ inl (inl (inr (inr k)))
        | in_source k ↦ inl (inr k)
        | for_fqn k ↦ inr k
      ]);
      distinct = a.distinct;
    }

-- The capabilities that the resolver returns for a type are exactly those that one of the layers gives it: the
-- built-in inference, the configuration's map of annotations on the type or its methods, the annotations of these
-- annotations, the annotations of the code base in the source, or the configuration's entry for the type.
pub resolve_role_and_capabilities_iff :
    (o : Overrides) (chain : Option (Table (List Text))) (t : TypeDecl) (c : Text)
    → (one_of c ((resolve_role_and_capabilities o chain t).1) ≡ true) ↔ Gives o chain t c
unfolding resolve_role_and_capabilities one_of
resolve_role_and_capabilities_iff o chain t c =
    let a = resolved-Adds o chain t in
    let e =
      one_of-sort c (resolved o chain t).1 ∙ ap (λ caps. one_of c caps) (resolved_set o chain t) in
    (
      λ h. elim (a.gained c (sym e ∙ h)) [ inl k ↦ ground (arith, k) | inr g ↦ g ],
      λ g. e ∙ a.gets c g,
    )

text_leb_trans : (s t u : Text) → text_leb s t ≡ true → text_leb t u ≡ true → text_leb s u ≡ true
unfolding text_leb
text_leb_trans [] t u h k = refl
text_leb_trans (a ∷ s) [] u h k = ground arith
text_leb_trans (a ∷ s) (b ∷ t) [] h k = ground arith
text_leb_trans (a ∷ s) (b ∷ t) (c ∷ u) h k = ground (arith, text_leb_trans s t u)

text_leb_total : (s t : Text) → text_leb s t ≡ false → text_leb t s ≡ true
unfolding text_leb
text_leb_total [] t h = ground arith
text_leb_total (a ∷ s) [] h = refl
text_leb_total (a ∷ s) (b ∷ t) h = ground (arith, text_leb_total s t)

-- The capabilities that the resolver returns stand in the order of their codes, and none stands there twice.
resolve_role_and_capabilities-IsSorted :
    (o : Overrides) (chain : Option (Table (List Text))) (t : TypeDecl)
    → IsSorted text_leb ((resolve_role_and_capabilities o chain t).1)
      × IsDistinct ((resolve_role_and_capabilities o chain t).1)
unfolding resolve_role_and_capabilities
resolve_role_and_capabilities-IsSorted o chain t = (
  sort-IsSorted text_leb text_leb_trans text_leb_total (resolved o chain t).1,
  sort-IsDistinct (resolved o chain t).1
      (subst IsDistinct (sym (resolved_set o chain t)) ((resolved-Adds o chain t).distinct tt)),
)
