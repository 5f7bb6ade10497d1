-- ===== src/Calls/Lookup/Found.antt =====
-- The candidates of `_lookup_method_candidates` in src/java_codebase_rag/graph/build_ast_graph.py.
use mathlib.Core.List.{Memᴰ}
use mathlib.Core.List.Memᴰ
use jrag.Base.{
  ℕ, Bool, true, false, not, Option, List, [], ◌∷◌, ◌++◌, ◌≡◌, ◌↔◌, refl, sym, ap, ◌∙◌, subst,
  arith, Bool-cases, inl, inr, Text, same_text, same_text_refl, same_text_eq, one_of,
}
use jrag.Calls.{keep, MemberEntry, Tables, methods_of}
use jrag.Calls.Lookup.{successors, is_called, has_arity, collect, choose, lookup_method_candidates}
use jrag.Calls.Queue.{visits, enough, append_unseen}
use jrag.Calls.Queue.Reached.{Reach, append_unseen-IsJoin, visits_iff}

pub mem-keep :
    {A : Type 0}
    → (test : A → Bool) (a : A) (xs : List A) → Memᴰ a (keep test xs)
    → Memᴰ a xs × (test a ≡ true)
unfolding keep
mem-keep test a [] m = absurd (Memᴰ.not-nil m)
mem-keep {A} test a (x ∷ xs) m = elim (Bool-cases (test x)) [
  | inl e ↦ elim (Memᴰ.cases_cons (subst (λ (l : List A). Memᴰ a l) (rw e refl) m)) [
    | inl h ↦ (Memᴰ.head h, rw h e)
    | inr t ↦ let r = mem-keep test a xs t in (Memᴰ.tail r.0, r.1)
  ]
  | inr e ↦
      let r = mem-keep test a xs (subst (λ (l : List A). Memᴰ a l) (rw e refl) m) in
      (Memᴰ.tail r.0, r.1)
]

pub keep-mem :
    {A : Type 0}
    → (test : A → Bool) (a : A) (xs : List A) → Memᴰ a xs
    → test a ≡ true
    → Memᴰ a (keep test xs)
unfolding keep
keep-mem test a [] m h = absurd (Memᴰ.not-nil m)
keep-mem test a (x ∷ xs) (Memᴰ.head e) h = rw (ap test (sym e) ∙ h) (Memᴰ.head e)
keep-mem test a (x ∷ xs) (Memᴰ.tail m) h = elim (Bool-cases (test x)) [
  | inl e ↦ rw e (Memᴰ.tail (keep-mem test a xs m h))
  | inr e ↦ rw e (keep-mem test a xs m h)
]

mem-methods_of :
    (t : Text) (c : MemberEntry) (ms : List MemberEntry)
    → Memᴰ c (methods_of t ms)
    → Memᴰ c ms × (same_text c.parent_fqn t ≡ true)
unfolding methods_of
mem-methods_of t c [] m = absurd (Memᴰ.not-nil m)
mem-methods_of t c (x ∷ ms) m = elim (Bool-cases (same_text x.parent_fqn t)) [
  | inl e ↦ elim (Memᴰ.cases_cons (subst (λ (l : List MemberEntry). Memᴰ c l) (rw e refl) m)) [
    | inl h ↦ (Memᴰ.head h, ap (λ (y : MemberEntry). same_text y.parent_fqn t) h ∙ e)
    | inr k ↦ let r = mem-methods_of t c ms k in (Memᴰ.tail r.0, r.1)
  ]
  | inr e ↦
      let r = mem-methods_of t c ms (subst (λ (l : List MemberEntry). Memᴰ c l) (rw e refl) m) in
      (Memᴰ.tail r.0, r.1)
]

methods_of-mem :
    (t : Text) (c : MemberEntry) (ms : List MemberEntry)
    → Memᴰ c ms
    → same_text c.parent_fqn t ≡ true
    → Memᴰ c (methods_of t ms)
unfolding methods_of
methods_of-mem t c [] m h = absurd (Memᴰ.not-nil m)
methods_of-mem t c (x ∷ ms) (Memᴰ.head e) h =
    let k : same_text x.parent_fqn t ≡ true =
      ap (λ (y : MemberEntry). same_text y.parent_fqn t) (sym e) ∙ h in
    rw k (Memᴰ.head e)
methods_of-mem t c (x ∷ ms) (Memᴰ.tail m) h = elim (Bool-cases (same_text x.parent_fqn t)) [
  | inl e ↦ rw e (Memᴰ.tail (methods_of-mem t c ms m h))
  | inr e ↦ rw e (methods_of-mem t c ms m h)
]

module _ (tables : Tables) (callee : Text) where
  -- A method of the tables that answers to the callee's name, on one of the types.
  abbrev On : List Text → MemberEntry → Type 0
  On ts c = Memᴰ c tables.members × (one_of c.parent_fqn ts ≡ true) × (is_called callee c ≡ true)

  abbrev gathered : (MemberEntry → Bool) → List Text → List MemberEntry
  gathered test [] = []
  gathered test (t ∷ ts) =
      keep test (keep (is_called callee) (methods_of t tables.members)) ++ gathered test ts

  collect-gathered :
      (args : Option ℕ) (ts : List Text)
      → collect tables callee args ts
        ≡ (gathered (has_arity args) ts, gathered (λ m. not (has_arity args m)) ts)
  unfolding collect
  collect-gathered args [] = refl
  collect-gathered args (t ∷ ts) =
      let found = keep (is_called callee) (methods_of t tables.members) in
      ap
        (λ (p : List MemberEntry × List MemberEntry).
          (keep (has_arity args) found ++ p.0, keep (λ m. not (has_arity args m)) found ++ p.1))
        (collect-gathered args ts)

  gathered-On :
      (test : MemberEntry → Bool) (c : MemberEntry) (ts : List Text)
      → Memᴰ c (gathered test ts)
      → On ts c × (test c ≡ true)
  unfolding one_of
  gathered-On test c [] m = absurd (Memᴰ.not-nil m)
  gathered-On test c (t ∷ ts) m =
      elim (Memᴰ.append_cases (keep test (keep (is_called callee) (methods_of t tables.members)))
        m) [
          | inl a ↦
              let (k, h) =
                mem-keep test c (keep (is_called callee) (methods_of t tables.members)) a in
              let (l, g) = mem-keep (is_called callee) c (methods_of t tables.members) k in
              let (n, p) = mem-methods_of t c tables.members l in
              ((n, rw (same_text_eq c.parent_fqn t p) (ground (arith, same_text_refl t)), g), h)
          | inr b ↦ let (o, h) = gathered-On test c ts b in ((o.0, ground (arith, o.1), o.2), h)
        ]

  On-gathered :
      (test : MemberEntry → Bool) (c : MemberEntry) (ts : List Text)
      → On ts c
      → test c ≡ true
      → Memᴰ c (gathered test ts)
  unfolding one_of
  On-gathered test c [] (n, o, g) h = ground arith
  On-gathered test c (t ∷ ts) (n, o, g) h = elim (Bool-cases (same_text t c.parent_fqn)) [
    | inl e ↦
        let p : same_text c.parent_fqn t ≡ true =
          rw (same_text_eq t c.parent_fqn e) (same_text_refl c.parent_fqn) in
        Memᴰ.append_left (gathered test ts) (
          keep-mem test c (keep (is_called callee) (methods_of t tables.members))
            (keep-mem (is_called callee) c (methods_of t tables.members)
              (methods_of-mem t c tables.members n p) g)
            h)
    | inr e ↦
        Memᴰ.append_right (keep test (keep (is_called callee) (methods_of t tables.members)))
          (On-gathered test c ts (n, ground (arith, o), g) h)
  ]

-- The types that the lookup visits.
order_from : Tables → Text → List Text
order_from tables src =
    let next = successors tables in
    visits tables.types next append_unseen (enough next tables.types (src ∷ [])) [] (src ∷ [])

module _ (tables : Tables) (src callee : Text) (args : Option ℕ) where
  -- A method that answers to the callee's name on a type that can be reached.
  abbrev pub Answers : MemberEntry → Type 0
  Answers c =
      Memᴰ c tables.members
      × Reach tables.types (successors tables) append_unseen append_unseen-IsJoin (src ∷ [])
          c.parent_fqn
      × (is_called callee c ≡ true)

  -- No candidates: no answers. With the flag of the name-only fallback false: the answers with the arity of the call.
  -- With the flag: the answers, none of which has that arity.
  abbrev pub Selects : List MemberEntry × Bool → Type 0
  Selects ([], false) = (c : MemberEntry) → Answers c → ⊥
  Selects ([], true) = ⊥
  Selects (m ∷ found, false) =
      (c : MemberEntry) → Memᴰ c (m ∷ found) ↔ (Answers c × (has_arity args c ≡ true))
  Selects (m ∷ found, true) =
      (c : MemberEntry) → (Memᴰ c (m ∷ found) ↔ Answers c) × (Answers c → has_arity args c ≡ false)

  abbrev Gathers : List MemberEntry → (MemberEntry → Bool) → Type 0
  Gathers found test = (c : MemberEntry) → Memᴰ c found ↔ (Answers c × (test c ≡ true))

  choose-Selects :
      (exact others : List MemberEntry)
      → Gathers exact (has_arity args)
      → Gathers others (λ m. not (has_arity args m))
      → Selects (choose (exact, others))
  choose-Selects [] [] e o = λ c a. elim (Bool-cases (has_arity args c)) [
    | inl h ↦ Memᴰ.not-nil ((e c).1 (a, h))
    | inr h ↦ Memᴰ.not-nil ((o c).1 (a, ap not h))
  ]
  choose-Selects (m ∷ ms) others e o = e
  choose-Selects [] (m ∷ ms) e o = λ c.
      let none_exact : Answers c → has_arity args c ≡ false = λ a.
        elim (Bool-cases (has_arity args c)) [
          | inl h ↦ absurd (Memᴰ.not-nil ((e c).1 (a, h)))
          | inr h ↦ h
        ] in
      ((λ k. ((o c).0 k).0, λ a. (o c).1 (a, ap not (none_exact a))), none_exact)

  gathers :
      (test : MemberEntry → Bool)
      → Gathers (gathered tables callee test (order_from tables src)) test
  unfolding order_from
  gathers test c =
      let order = order_from tables src in
      let iff =
        visits_iff tables.types (successors tables) append_unseen append_unseen-IsJoin (src ∷ []) in
      (
        λ m.
            let (o, h) = gathered-On tables callee test c order m in
            ((o.0, (iff c.parent_fqn).0 o.1, o.2), h),
        λ (a, h). On-gathered tables callee test c order (a.0, (iff c.parent_fqn).1 a.1, a.2) h,
      )

  pub lookup_method_candidates_lem : Selects (lookup_method_candidates tables src callee args)
  unfolding lookup_method_candidates order_from
  lookup_method_candidates_lem =
      let order = order_from tables src in
      subst (λ p. Selects (choose p)) (sym (collect-gathered tables callee args order))
        (choose-Selects _ _ (gathers (has_arity args)) (gathers (λ m. not (has_arity args m))))
