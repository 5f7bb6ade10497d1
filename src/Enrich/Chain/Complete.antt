-- ===== src/Enrich/Chain/Complete.antt =====
-- `_build_meta_chain` of src/java_codebase_rag/graph/graph_enrich.py finds what the annotations lead to, in as many
-- hops as it has rounds.
pub mod Found
use mathlib.Core.List.{Memᴰ}
use mathlib.Core.List.Memᴰ
use jrag.Base.{
  ℕ, zero, suc, ◌+◌, ◌≤◌, Bool, true, false, not, List, [], ◌∷◌, map, ◌≡◌, refl, sym, ap, ◌∙◌,
  subst, arith, ◌&&◌, ◌||◌, if◌then◌else◌, Bool-cases, inl, inr, Text, same_text, same_text_refl,
  same_text_eq, one_of,
}
use jrag.Base.Tables.{Table, get, has}
use jrag.Enrich.Sets.{each}
use jrag.Enrich.Sets.Added.{Some}
use jrag.Enrich.Resolve.{get_all}
use jrag.Enrich.Chain.{AnnotationDecl, seeds, is_new, is_subset, update, reach_of, grow, rounds}
use jrag.Enrich.Chain.Leads.{
  Leads, built_in, through, gives, seeds-gives, gives-update, reach_of-Adds,
}

-- A table has what another has.
abbrev IsWithin : Table (List Text) → Table (List Text) → Type 0
IsWithin small large = (n b : Text) → gives small n b ≡ true → gives large n b ≡ true

one_of_larger :
    (b : Text) (s t : List Text) → is_subset s t ≡ true → one_of b s ≡ true → one_of b t ≡ true
unfolding is_subset one_of
one_of_larger b [] t h k = ground arith
one_of_larger b (x ∷ s) t h k = elim (Bool-cases (same_text x b)) [
  | inl e ↦ subst (λ u. one_of u t ≡ true) (same_text_eq x b e) (ground (arith, h))
  | inr e ↦ one_of_larger b s t (ground (arith, h)) (ground (arith, k, e))
]

-- What is not new is there.
old_one_of :
    (b : Text) (reach known : List Text)
    → is_new reach known ≡ false
    → one_of b reach ≡ true
    → one_of b known ≡ true
unfolding one_of
old_one_of b [] known h k = ground arith
old_one_of b (x ∷ reach) known h k = one_of_larger b (x ∷ reach) known (ground (arith, h)) k

grow-IsWithin :
    (d : AnnotationDecl) (chain : Table (List Text)) (changed : Bool)
    → IsWithin chain ((grow d (chain, changed)).0)
unfolding grow
grow-IsWithin d chain changed n b h =
    let reach = reach_of chain d.meta_annotations in
    elim (Bool-cases (is_new reach (get_all chain d.simple))) [
      | inl e ↦ rw e (ground (arith, gives-update d.simple reach chain n b, h))
      | inr e ↦ rw e h
    ]

-- A declaration has what one of its parents had before.
grow_takes :
    (d : AnnotationDecl) (chain : Table (List Text)) (changed : Bool) (p b : Text)
    → Memᴰ p d.meta_annotations
    → gives chain p b ≡ true
    → gives ((grow d (chain, changed)).0) d.simple b ≡ true
unfolding grow
grow_takes d chain changed p b m h =
    let reach = reach_of chain d.meta_annotations in
    let reached =
      (reach_of-Adds chain d.meta_annotations).gets b
        (record { element = p; member = m; holds = h }) in
    elim (Bool-cases (is_new reach (get_all chain d.simple))) [
      | inl e ↦ rw e (
          ground
            (arith, gives-update d.simple reach chain d.simple b, reached, same_text_refl d.simple))
      | inr e ↦ rw e (old_one_of b reach (get_all chain d.simple) e reached)
    ]

each-IsWithin :
    (ds : List AnnotationDecl) (chain : Table (List Text)) (changed : Bool)
    → IsWithin chain ((each grow ds (chain, changed)).0)
unfolding each
each-IsWithin [] chain changed n b h = h
each-IsWithin (d ∷ ds) chain changed n b h =
    each-IsWithin ds ((grow d (chain, changed)).0) ((grow d (chain, changed)).1) n b
      (grow-IsWithin d chain changed n b h)

-- After a round, each declaration has what one of its parents had before.
each_takes :
    (ds : List AnnotationDecl) (chain : Table (List Text)) (changed : Bool) (d : AnnotationDecl)
    (p b : Text)
    → Memᴰ d ds
    → Memᴰ p d.meta_annotations
    → gives chain p b ≡ true
    → gives ((each grow ds (chain, changed)).0) d.simple b ≡ true
unfolding each
each_takes [] chain changed d p b m k h = absurd (Memᴰ.not-nil m)
each_takes (e ∷ ds) chain changed d p b m k h =
    let after = (grow e (chain, changed)).0 in
    let so_far = (grow e (chain, changed)).1 in
    elim (Memᴰ.cases_cons m) [
      | inl same ↦ each-IsWithin ds after so_far d.simple b (
          subst (λ (x : AnnotationDecl). gives ((grow x (chain, changed)).0) d.simple b ≡ true) same
            (grow_takes d chain changed p b k h))
      | inr later ↦ each_takes ds after so_far d p b later k (grow-IsWithin e chain changed p b h)
    ]

abbrev chosen : Bool → Table (List Text) → Table (List Text) → Bool → Table (List Text) × Bool
chosen b next chain changed = if b then (next, true) else (chain, changed)

if_same :
    (b : Bool) (next chain : Table (List Text)) (changed : Bool)
    → (chosen b next chain changed).1 ≡ false
    → (changed ≡ false) × ((chosen b next chain changed).0 ≡ chain)
if_same true next chain changed h = ground (arith, h)
if_same false next chain changed h = (h, refl)

-- A declaration that changes nothing leaves the table.
grow_same :
    (d : AnnotationDecl) (chain : Table (List Text)) (changed : Bool)
    → (grow d (chain, changed)).1 ≡ false
    → (changed ≡ false) × ((grow d (chain, changed)).0 ≡ chain)
unfolding grow
grow_same d chain changed h =
    let reach = reach_of chain d.meta_annotations in
    if_same (is_new reach (get_all chain d.simple)) (update d.simple reach chain) chain changed h

-- A round that changes nothing leaves the table.
each_same :
    (ds : List AnnotationDecl) (chain : Table (List Text)) (changed : Bool)
    → (each grow ds (chain, changed)).1 ≡ false
    → (changed ≡ false) × ((each grow ds (chain, changed)).0 ≡ chain)
unfolding each
each_same [] chain changed h = (h, refl)
each_same (d ∷ ds) chain changed h =
    let (step, rest) = each_same ds ((grow d (chain, changed)).0) ((grow d (chain, changed)).1) h in
    let (before, first) = grow_same d chain changed step in (before, rest ∙ first)

module _ (decls : List AnnotationDecl) (builtins : List Text) where
  -- A table has what leads in so many hops.
  abbrev pub Covers : ℕ → Table (List Text) → Type 0
  Covers most chain =
      (hops : ℕ) (n b : Text) → hops ≤ most → Leads decls builtins hops n b → gives chain n b ≡ true

  pub seeds-Covers : Covers 0 (seeds builtins)
  seeds-Covers zero n b h (built_in k) = seeds-gives builtins n k
  seeds-Covers (suc hops) n b h leads = ground arith

  each_round :
      (most : ℕ) (chain : Table (List Text))
      → Covers most chain
      → Covers (suc most) ((each grow decls (chain, false)).0)
  each_round most chain c zero n b h leads =
      each-IsWithin decls chain false n b (c zero n b (omega arith) leads)
  each_round most chain c (suc hops) n b h (through {p = p} d m k leads) =
      each_takes decls chain false d p b m k (c hops p b (omega (arith, h)) leads)

  -- A table that a round leaves has everything.
  when_closed :
      (chain : Table (List Text))
      → Covers 0 chain
      → (each grow decls (chain, false)).0 ≡ chain
      → (most : ℕ) → Covers most chain
  when_closed chain c same zero = c
  when_closed chain c same (suc most) =
      subst (Covers (suc most)) same (each_round most chain (when_closed chain c same most))

  pub rounds-Covers :
      (depth most : ℕ) (chain : Table (List Text))
      → Covers most chain
      → Covers (most + depth) (rounds depth decls chain)
  unfolding rounds
  rounds-Covers zero most chain c hops n b h leads = c hops n b (omega (arith, h)) leads
  rounds-Covers (suc depth) most chain c hops n b h leads =
      let next = each_round most chain c in
      elim (Bool-cases ((each grow decls (chain, false)).1)) [
        | inl e ↦ rw e (
            rounds-Covers depth (suc most) ((each grow decls (chain, false)).0) next hops n b
              (omega (arith, h)) leads)
        | inr e ↦
            let same = (each_same decls chain false e).1 in
            let none_left =
              when_closed chain (λ i m a k l. c i m a (omega (arith, k)) l) same hops hops n b
                (omega arith) leads in
            rw e
              (subst (λ (table : Table (List Text)). gives table n b ≡ true) (sym same) none_left)
      ]
