-- ===== src/Enrich/Chain/Complete/Found.antt =====
-- What `_build_meta_chain` of src/java_codebase_rag/graph/graph_enrich.py returns.
use mathlib.Core.List.{Memᴰ}
use mathlib.Core.List.Memᴰ
use jrag.Base.{
  ℕ, ◌≤◌, true, List, [], ◌∷◌, map, ◌≡◌, ap, arith, ◌&&◌, Bool-cases, inl, inr, Text, same_text,
  same_text_eq,
}
use jrag.Base.Order.{sort, insert}
use jrag.Base.Tables.{Table, has}
use jrag.Enrich.Resolve.{get_all}
use jrag.Enrich.Chain.{AnnotationDecl, seeds, rounds, key_leb, for_keys, build_meta_chain}
use jrag.Enrich.Chain.Leads.{Leads, built_in, through, gives, gives_cons, gives_nil}
use jrag.Enrich.Chain.Sound.{seeds-IsSound, rounds-IsSound}
use jrag.Enrich.Chain.Complete.{seeds-Covers, rounds-Covers}

-- The declarations of a dictionary.
abbrev pub declared : Table AnnotationDecl → List AnnotationDecl
declared = map (λ (e : Text × AnnotationDecl). e.1)

declared-insert :
    (d : AnnotationDecl) (a : Text × AnnotationDecl) (xs : Table AnnotationDecl)
    → Memᴰ d (declared (insert key_leb a xs))
    → Memᴰ d (declared (a ∷ xs))
unfolding insert
declared-insert d a [] m = m
declared-insert d a (x ∷ xs) m = elim (Bool-cases (key_leb a x)) [
  | inl e ↦ rw e at m
  | inr e ↦ elim (Memᴰ.cases_cons (rw e at m)) [
    | inl h ↦ Memᴰ.tail (Memᴰ.head h)
    | inr t ↦ elim (Memᴰ.cases_cons (declared-insert d a xs t)) [
      | inl h ↦ Memᴰ.head h
      | inr k ↦ Memᴰ.tail (Memᴰ.tail k)
    ]
  ]
]

insert-declared :
    (d : AnnotationDecl) (a : Text × AnnotationDecl) (xs : Table AnnotationDecl)
    → Memᴰ d (declared (a ∷ xs))
    → Memᴰ d (declared (insert key_leb a xs))
unfolding insert
insert-declared d a [] m = m
insert-declared d a (x ∷ xs) m = elim (Bool-cases (key_leb a x)) [
  | inl e ↦ rw e m
  | inr e ↦ elim (Memᴰ.cases_cons m) [
    | inl h ↦ rw e (Memᴰ.tail (insert-declared d a xs (Memᴰ.head h)))
    | inr t ↦ elim (Memᴰ.cases_cons t) [
      | inl h ↦ rw e (Memᴰ.head h)
      | inr k ↦ rw e (Memᴰ.tail (insert-declared d a xs (Memᴰ.tail k)))
    ]
  ]
]

declared-sort :
    (d : AnnotationDecl) (xs : Table AnnotationDecl)
    → Memᴰ d (declared (sort key_leb xs))
    → Memᴰ d (declared xs)
unfolding sort
declared-sort d [] m = m
declared-sort d (x ∷ xs) m = elim (Memᴰ.cases_cons (declared-insert d x (sort key_leb xs) m)) [
  | inl h ↦ Memᴰ.head h
  | inr t ↦ Memᴰ.tail (declared-sort d xs t)
]

sort-declared :
    (d : AnnotationDecl) (xs : Table AnnotationDecl)
    → Memᴰ d (declared xs)
    → Memᴰ d (declared (sort key_leb xs))
unfolding sort
sort-declared d [] m = m
sort-declared d (x ∷ xs) m =
    insert-declared d x (sort key_leb xs)
      (elim (Memᴰ.cases_cons m) [ inl h ↦ Memᴰ.head h | inr t ↦ Memᴰ.tail (sort-declared d xs t) ])

more_declared :
    {ds es : List AnnotationDecl} {builtins : List Text} {hops : ℕ} {n b : Text}
    → ((d : AnnotationDecl) → Memᴰ d ds → Memᴰ d es)
    → Leads ds builtins hops n b
    → Leads es builtins hops n b
more_declared h (built_in k) = built_in k
more_declared h (through d m k leads) = through d (h d m) k (more_declared h leads)

gives-for_keys :
    (decls : Table AnnotationDecl) (chain : Table (List Text)) (k b : Text)
    → gives (for_keys decls chain) k b ≡ (has k decls && gives chain k b)
unfolding for_keys has
gives-for_keys [] chain k b = gives_nil k b
gives-for_keys ((j, d) ∷ decls) chain k b = elim (Bool-cases (same_text j k)) [
  | inl e ↦ ground (
    arith,
    e,
    gives_cons j (get_all chain j) (for_keys decls chain) k b,
    ap (λ u. gives chain u b) (same_text_eq j k e),
  )
  | inr e ↦ ground (
    arith,
    e,
    gives_cons j (get_all chain j) (for_keys decls chain) k b,
    gives-for_keys decls chain k b,
  )
]

-- The chain has for a declared annotation only built-in annotations that it leads to, through the annotations of
-- declared annotations.
pub build_meta_chain_only :
    (decls : Table AnnotationDecl) (builtins : List Text) (max_depth : ℕ) (k b : Text)
    → gives (build_meta_chain decls builtins max_depth) k b ≡ true
    → (hops : ℕ) × Leads (declared decls) builtins hops k b
unfolding build_meta_chain
build_meta_chain_only decls builtins max_depth k b h =
    let sorted = declared (sort key_leb decls) in
    let chain = rounds max_depth sorted (seeds builtins) in
    let (hops, leads) =
      rounds-IsSound sorted builtins max_depth (seeds builtins) (seeds-IsSound sorted builtins) k b
        (ground (arith, h, gives-for_keys decls chain k b)) in
    (hops, more_declared (λ d m. declared-sort d decls m) leads)

-- The chain has for a declared annotation all built-in annotations that it leads to in at most `max_depth` hops.
pub build_meta_chain_all :
    (decls : Table AnnotationDecl) (builtins : List Text) (max_depth : ℕ) (k b : Text) (hops : ℕ)
    → has k decls ≡ true
    → hops ≤ max_depth
    → Leads (declared decls) builtins hops k b
    → gives (build_meta_chain decls builtins max_depth) k b ≡ true
unfolding build_meta_chain
build_meta_chain_all decls builtins max_depth k b hops known within leads =
    let sorted = declared (sort key_leb decls) in
    let chain = rounds max_depth sorted (seeds builtins) in
    let found =
      rounds-Covers sorted builtins max_depth 0 (seeds builtins) (seeds-Covers sorted builtins) hops
        k b (omega (arith, within)) (more_declared (λ d m. sort-declared d decls m) leads) in
    ground (arith, known, found, gives-for_keys decls chain k b)
