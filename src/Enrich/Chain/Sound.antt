-- ===== src/Enrich/Chain/Sound.antt =====
-- `_build_meta_chain` of src/java_codebase_rag/graph/graph_enrich.py only finds what the annotations lead to.
use mathlib.Core.List.{Memᴰ}
use jrag.Base.{
  ℕ, zero, suc, Bool, true, false, List, [], ◌∷◌, ◌≡◌, refl, sym, subst, arith, Bool-cases, inl,
  inr, Text, same_text, same_text_eq, one_of,
}
use jrag.Base.Tables.{Table}
use jrag.Enrich.Sets.{each}
use jrag.Enrich.Resolve.{get_all}
use jrag.Enrich.Chain.{AnnotationDecl, seeds, is_new, reach_of, grow, rounds}
use jrag.Enrich.Chain.Leads.{
  Leads, built_in, through, gives, gives-seeds, gives-update, reach_of-Adds,
}

module _ (decls : List AnnotationDecl) (builtins : List Text) where
  -- Everything in a table is what a name leads to.
  abbrev pub IsSound : Table (List Text) → Type 0
  IsSound chain = (n b : Text) → gives chain n b ≡ true → (hops : ℕ) × Leads decls builtins hops n b

  pub seeds-IsSound : IsSound (seeds builtins)
  seeds-IsSound n b h =
      let (same, known) = gives-seeds builtins n b h in
      (zero, subst (λ m. Leads decls builtins zero m b) (sym same) (built_in known))

  grow-IsSound :
      (d : AnnotationDecl) (chain : Table (List Text)) (changed : Bool)
      → Memᴰ d decls
      → IsSound chain
      → IsSound ((grow d (chain, changed)).0)
  unfolding grow one_of
  grow-IsSound d chain changed m s =
      let reach = reach_of chain d.meta_annotations in
      elim (Bool-cases (is_new reach (get_all chain d.simple))) [
        | inl e ↦ rw e (λ n b h. elim (Bool-cases (gives chain n b)) [
          | inl k ↦ s n b k
          | inr k ↦
              let added = gives-update d.simple reach chain n b in
              let found : one_of b reach ≡ true = ground (arith, h, added, k) in
              let named : same_text d.simple n ≡ true = ground (arith, h, added, k) in
              elim ((reach_of-Adds chain d.meta_annotations).gained b found) [
                | inl l ↦ ground (arith, l)
                | inr p ↦
                    let (hops, leads) = s p.element b p.holds in
                    (
                      suc hops,
                      subst (λ t. Leads decls builtins (suc hops) t b)
                          (same_text_eq d.simple n named) (through d m p.member leads),
                    )
              ]
        ])
        | inr e ↦ rw e s
      ]

  each-IsSound :
      (ds : List AnnotationDecl) (chain : Table (List Text)) (changed : Bool)
      → ((d : AnnotationDecl) → Memᴰ d ds → Memᴰ d decls)
      → IsSound chain
      → IsSound ((each grow ds (chain, changed)).0)
  unfolding each
  each-IsSound [] chain changed m s = s
  each-IsSound (d ∷ ds) chain changed m s =
      each-IsSound ds ((grow d (chain, changed)).0) ((grow d (chain, changed)).1)
        (λ e k. m e (Memᴰ.tail k)) (grow-IsSound d chain changed (m d (Memᴰ.head refl)) s)

  pub rounds-IsSound :
      (depth : ℕ) (chain : Table (List Text)) → IsSound chain → IsSound (rounds depth decls chain)
  unfolding rounds
  rounds-IsSound zero chain s = s
  rounds-IsSound (suc depth) chain s =
      let next = each-IsSound decls chain false (λ d m. m) s in
      elim (Bool-cases ((each grow decls (chain, false)).1)) [
        | inl e ↦ rw e (rounds-IsSound depth ((each grow decls (chain, false)).0) next)
        | inr e ↦ rw e next
      ]
