-- ===== src/Calls/Lookup/Climb.antt =====
-- `_is_strict_supertype_of` of src/java_codebase_rag/graph/build_ast_graph.py.
use jrag.Base.{
  ℕ, zero, suc, true, false, Option, none, some, List, [], ◌∷◌, ◌++◌, ◌≡◌, ◌↔◌, refl, ap, arith,
  Bool-cases, inl, inr, Text, same_text, same_text_refl, same_text_eq, one_of, one_of-append,
  one_of_same,
}
use jrag.Calls.{get, has, EdgeRow, TypeEntry, Tables, targets, direct_supertype_fqns}
use jrag.Calls.Queue.{visits, enough, extend_back}
use jrag.Calls.Queue.Reached.{Reach, extend_back-IsJoin, visits_iff}
use jrag.Calls.Lookup.{of_entry, supertypes, climbs, is_strict_supertype_of}

targets-has :
    (tables : Tables) (src u : Text) (rows : List EdgeRow)
    → one_of u (targets tables src rows) ≡ true
    → has u tables.types ≡ true
unfolding targets one_of
targets-has tables src u [] h = ground arith
targets-has tables src u (r ∷ rows) h = elim (Bool-cases (same_text r.dst_fqn u)) [
  | inl e ↦ ground (
    arith,
    h,
    targets-has tables src u rows,
    ap (λ t. has t tables.types) (same_text_eq r.dst_fqn u e),
  )
  | inr e ↦ ground (arith, h, targets-has tables src u rows)
]

entry-has :
    (tables : Tables) (u : Text) (entry : Option TypeEntry)
    → one_of u (of_entry (direct_supertype_fqns tables) entry) ≡ true
    → has u tables.types ≡ true
unfolding one_of direct_supertype_fqns
entry-has tables u none h = ground arith
entry-has tables u (some e) h =
    let ext = targets tables e.node_id tables.extends_rows in
    let imp = targets tables e.node_id tables.implements_rows in
    ground (
      arith,
      h,
      one_of-append u ext imp,
      targets-has tables e.node_id u tables.extends_rows,
      targets-has tables e.node_id u tables.implements_rows,
    )

supertypes-has :
    (tables : Tables) (t u : Text)
    → one_of u (supertypes tables t) ≡ true
    → has u tables.types ≡ true
unfolding supertypes
supertypes-has tables t u h = entry-has tables u (get t tables.types) h

-- What can be reached by one step at least.
abbrev pub IsAbove : Tables → Text → Text → Type 0
IsAbove tables sub super =
    Reach tables.types (supertypes tables) extend_back extend_back-IsJoin (supertypes tables sub)
      super

climbs-visits :
    (tables : Tables) (super : Text) (fuel : ℕ) (visited queue : List Text)
    → ((t : Text) → one_of t queue ≡ true → has t tables.types ≡ true)
    → one_of super visited ≡ false
    → climbs tables super fuel visited queue
      ≡ one_of super (visits tables.types (supertypes tables) extend_back fuel visited queue)
unfolding climbs visits one_of
climbs-visits tables super zero visited queue h v = refl
climbs-visits tables super (suc fuel) visited [] h v = refl
climbs-visits tables super (suc fuel) visited (t ∷ queue) h v =
    elim (Bool-cases (same_text t super)) [
      | inl e ↦ ground (arith, e, v, one_of_same t super visited e, h t, same_text_refl t)
      | inr e ↦
          let more = queue ++ supertypes tables t in
          let rest : (u : Text) → one_of u more ≡ true → has u tables.types ≡ true = λ u k. ground (
            arith,
            k,
            one_of-append u queue (supertypes tables t),
            h u,
            supertypes-has tables t u,
          ) in
          ground (
            arith,
            e,
            climbs-visits tables super fuel visited queue (λ u k. h u (ground (arith, k))) v,
            climbs-visits tables super fuel (t ∷ visited) more rest (ground (arith, e, v)),
          )
    ]

-- A type is a strict supertype of another exactly if it is another one and can be reached over extends and implements
-- edges, cyclic ones included.
pub is_strict_supertype_of_iff :
    (tables : Tables) (super sub : Text)
    → (is_strict_supertype_of tables super sub ≡ true)
      ↔ ((same_text super sub ≡ false) × IsAbove tables sub super)
unfolding is_strict_supertype_of one_of
is_strict_supertype_of_iff tables super sub =
    let queue = supertypes tables sub in
    let e =
      climbs-visits tables super (enough (supertypes tables) tables.types queue) [] queue
        (λ t. supertypes-has tables sub t) refl in
    let iff =
      visits_iff tables.types (supertypes tables) extend_back extend_back-IsJoin queue super in
    elim (Bool-cases (same_text super sub)) [
      | inl s ↦ (λ h. absurd (ground (arith, h, s)), λ (n, r). absurd (ground (arith, n, s)))
      | inr s ↦ (λ h. (s, iff.0 (ground (arith, h, s, e))), λ (n, r). ground (arith, s, e, iff.1 r))
    ]
