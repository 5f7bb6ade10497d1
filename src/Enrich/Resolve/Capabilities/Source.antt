-- ===== src/Enrich/Resolve/Capabilities/Source.antt =====
-- What the annotations of the code base in the source add to the set of capabilities in
-- src/java_codebase_rag/graph/graph_enrich.py.
use jrag.Base.{
  true, false, Option, none, some, List, [], ◌∷◌, ◌≡◌, ◌||◌, refl, ◌∙◌, ap, arith, Bool-cases, inl,
  inr, Text, text_of, same_text, same_text_eq,
}
use jrag.Enrich.{AnnotationRef, valid_capabilities}
use jrag.Enrich.Sets.{each, add}
use jrag.Enrich.Sets.Added.{Adds, same-Adds, add-Adds, each-Adds}
use jrag.Enrich.Roles.{or_else}
use jrag.Enrich.Resolve.{
  argument_enum, valid_enum, source_role_of, source_capabilities_of, source_step,
}
use jrag.Enrich.Resolve.Capabilities.{Names, one, several}

given-Adds :
    (o : Option Text) (caps : List Text)
    → Adds (λ c. o ≡ some c) caps (elim o [ none ↦ caps | some v ↦ add v caps ])
given-Adds none caps = same-Adds (λ c p. cc p) caps
given-Adds (some v) caps =
    let a = add-Adds v caps in
    record {
      gained = λ c h. elim (a.gained c h) [ inl k ↦ inl k | inr k ↦ inr (ap some k) ];
      kept = a.kept;
      gets = λ c p. a.gets c (cc p);
      distinct = a.distinct;
    }

-- A text is not two texts.
apart : (n s t : Text) → same_text s t ≡ false → same_text n s ≡ true → same_text n t ≡ false
apart n s t e h = ap (λ u. same_text u t) (same_text_eq n s h) ∙ e

abbrev role_name : Text
role_name = text_of "CodebaseRole"

abbrev one_name : Text
one_name = text_of "CodebaseCapability"

abbrev several_name : Text
several_name = text_of "CodebaseCapabilities"

-- Only an annotation of one of two names is read.
Names-named :
    (a : AnnotationRef) (c : Text)
    → Names a c
    → (same_text a.name one_name || same_text a.name several_name) ≡ true
Names-named a c (one h e) = ground (arith, h)
Names-named a c (several h e) = ground (arith, h)

pub source_capabilities_of-Adds :
    (a : AnnotationRef) (caps : List Text) → Adds (Names a) caps (source_capabilities_of a caps)
unfolding source_capabilities_of same_text
source_capabilities_of-Adds a caps = elim (Bool-cases (same_text a.name role_name)) [
  | inl h ↦
      let not_one = apart a.name role_name one_name refl h in
      let not_several = apart a.name role_name several_name refl h in
      rw h (same-Adds (λ c p. ground (arith, Names-named a c p, not_one, not_several)) caps)
  | inr h ↦ elim (Bool-cases (same_text a.name one_name)) [
    | inl k ↦
        let not_several = apart a.name one_name several_name refl k in
        let g = given-Adds (argument_enum valid_capabilities a) caps in
        rw (h, k)
          (record {
            gained = λ c e. elim (g.gained c e) [ inl l ↦ inl l | inr l ↦ inr (one k l) ];
            kept = g.kept;
            gets = λ c p. elim p [
              | one _ l ↦ g.gets c l
              | several l _ ↦ ground (arith, l, not_several)
            ];
            distinct = g.distinct;
          })
    | inr k ↦ elim (Bool-cases (same_text a.name several_name)) [
      | inl l ↦
          let g =
            each-Adds
              (λ (e : Text × Text).
                given-Adds (valid_enum valid_capabilities (some e.0) (some e.1)))
              a.container_capabilities caps in
          rw (h, k, l)
            (record {
              gained = λ c e. elim (g.gained c e) [ inl m ↦ inl m | inr m ↦ inr (several l m) ];
              kept = g.kept;
              gets = λ c p. elim p [ one m _ ↦ ground (arith, m, k) | several _ m ↦ g.gets c m ];
              distinct = g.distinct;
            })
      | inr l ↦ rw (h, k, l) (same-Adds (λ c p. ground (arith, Names-named a c p, k, l)) caps)
    ]
  ]
]

pub each-source_step :
    (xs : List AnnotationRef) (role : Text) (caps : List Text)
    → each source_step xs (role, caps) ≡ (
      each (λ a role. or_else (source_role_of a) role) xs role,
      each source_capabilities_of xs caps,
    )
unfolding each source_step
each-source_step [] role caps = refl
each-source_step (a ∷ xs) role caps =
    each-source_step xs (or_else (source_role_of a) role) (source_capabilities_of a caps)
