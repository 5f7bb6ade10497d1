-- ===== src/Enrich/Chain/Leads.antt =====
-- What the tables of src/java_codebase_rag/graph/graph_enrich.py hold after they are updated.
use mathlib.Core.List.{Memᴰ}
use jrag.Base.{
  ℕ, zero, suc, Bool, true, false, List, [], ◌∷◌, ◌≡◌, refl, sym, ap, ◌∙◌, arith, if◌then◌else◌,
  ◌&&◌, ◌||◌, Bool-cases, inl, inr, Text, same_text, same_text_refl, same_text_eq, one_of,
}
use jrag.Base.Tables.{Table, get}
use jrag.Enrich.Sets.{each, add}
use jrag.Enrich.Sets.Added.{Adds, Some, all-Adds, each-Adds}
use jrag.Enrich.Resolve.{get_all}
use jrag.Enrich.Chain.{AnnotationDecl, seeds, union_of, update, reach_of}

-- A name leads to a built-in annotation in a number of hops through the annotations of declarations.
pub data Leads (decls : List AnnotationDecl) (builtins : List Text) : ℕ → Text → Text → Type 0 where
  built_in : {b : Text} → one_of b builtins ≡ true → Leads decls builtins zero b b
  through :
      {hops : ℕ} {p b : Text} (d : AnnotationDecl)
      → Memᴰ d decls
      → Memᴰ p d.meta_annotations
      → Leads decls builtins hops p b
      → Leads decls builtins (suc hops) d.simple b

-- Whether a table has a text for a name.
abbrev pub gives : Table (List Text) → Text → Text → Bool
gives chain n b = one_of b (get_all chain n)

pub gives_cons :
    (j : Text) (s : List Text) (chain : Table (List Text)) (n b : Text)
    → gives ((j, s) ∷ chain) n b ≡ (if same_text j n then one_of b s else gives chain n b)
unfolding get_all get
gives_cons j s chain n b = elim (Bool-cases (same_text j n)) [
  | inl e ↦ rw (get_all, get, e) refl
  | inr e ↦ rw (get_all, get, e) refl
]

pub gives_nil : (n b : Text) → gives [] n b ≡ false
unfolding get_all get one_of
gives_nil n b = refl

pub gives-seeds :
    (builtins : List Text) (n b : Text)
    → gives (seeds builtins) n b ≡ true
    → (n ≡ b) × (one_of b builtins ≡ true)
unfolding seeds get_all get one_of
gives-seeds [] n b h = ground arith
gives-seeds (a ∷ builtins) n b h =
    let parts = gives_cons a (a ∷ []) (seeds builtins) n b in
    elim (Bool-cases (same_text a n)) [
      | inl e ↦
          let same : same_text a b ≡ true = ground (arith, h, parts, e) in
          (sym (same_text_eq a n e) ∙ same_text_eq a b same, ground (arith, same))
      | inr e ↦
          let later = gives-seeds builtins n b (ground (arith, h, parts, e)) in
          (later.0, ground (arith, later.1))
    ]

pub seeds-gives :
    (builtins : List Text) (b : Text) → one_of b builtins ≡ true → gives (seeds builtins) b b ≡ true
unfolding seeds one_of
seeds-gives [] b h = ground arith
seeds-gives (a ∷ builtins) b h =
    ground (arith, gives_cons a (a ∷ []) (seeds builtins) b b, seeds-gives builtins b, h)

one_of_nil : (b : Text) → one_of b [] ≡ false
unfolding one_of
one_of_nil b = refl

pub one_of-union_of :
    (s more : List Text) (b : Text) → one_of b (union_of s more) ≡ (one_of b s || one_of b more)
unfolding union_of
one_of-union_of s more b =
    let a = all-Adds more s in
    elim (Bool-cases (one_of b (each add more s))) [
      | inl e ↦ elim (a.gained b e) [ inl k ↦ ground (arith, e, k) | inr k ↦ ground (arith, e, k) ]
      | inr e ↦ ground (arith, e, a.kept b, a.gets b)
    ]

-- A text is not two texts.
apart : (j k n : Text) → same_text j k ≡ false → (same_text j n && same_text k n) ≡ false
apart j k n h = elim (Bool-cases (same_text j n)) [
  | inl e ↦ elim (Bool-cases (same_text k n)) [
    | inl f ↦ ground (
      arith,
      h,
      same_text_refl n,
      ap (λ u. same_text u k) (same_text_eq j n e),
      ap (λ u. same_text n u) (same_text_eq k n f),
    )
    | inr f ↦ ground (arith, f)
  ]
  | inr e ↦ ground (arith, e)
]

pub gives-update :
    (k : Text) (more : List Text) (chain : Table (List Text)) (n b : Text)
    → gives (update k more chain) n b ≡ (gives chain n b || (same_text k n && one_of b more))
unfolding update
gives-update k more [] n b = ground (
  arith,
  gives_cons k (union_of [] more) [] n b,
  one_of-union_of [] more b,
  one_of_nil b,
  gives_nil n b,
)
gives-update k more ((j, s) ∷ chain) n b = elim (Bool-cases (same_text j k)) [
  | inl e ↦ rw e (
      ground (
        arith,
        gives_cons j (union_of s more) chain n b,
        gives_cons j s chain n b,
        one_of-union_of s more b,
        ap (λ u. same_text u n) (same_text_eq j k e),
      ))
  | inr e ↦ rw e (
      ground (
        arith,
        gives_cons j s (update k more chain) n b,
        gives_cons j s chain n b,
        gives-update k more chain n b,
        apart j k n e,
      ))
]

-- What the parents of a declaration give.
pub reach_of-Adds :
    (chain : Table (List Text)) (parents : List Text)
    → Adds (Some (λ parent b. gives chain parent b ≡ true) parents) [] (reach_of chain parents)
unfolding reach_of union_of
reach_of-Adds chain parents =
    each-Adds (λ parent reach. all-Adds (get_all chain parent) reach) parents []
