-- ===== src/Paths/Cached.antt =====
-- The cache of `LayeredIgnore._mega` in src/java_codebase_rag/graph/path_filtering.py: what the decisions of one
-- object depend on while ignore files change.
use jrag.Base.{
  Bool, true, false, Option, none, some, List, [], ◌∷◌, ◌++◌, ◌≡◌, refl, sym, ap, ◌∙◌, arith,
  if◌then◌else◌, Bool-cases, Option-cases, inl, inr, same_text_refl, same_text_eq,
}
use jrag.Paths.{
  Parts, Rules, Files, Config, Cache, dir_parts, rules_of_dir, mega_build, same_parts, cache_get,
  mega, decide, is_ignored,
}

-- A query: the files at its time, and the path.
abbrev pub Query : Type 0
Query = Files × Option Parts

-- The answers of one object to queries in order.
pub answers : Config → List Query → Cache → List Bool
answers cfg [] cache = []
answers cfg ((files, rel) ∷ later) cache =
    let (b, cache') = is_ignored cfg files rel cache in b ∷ answers cfg later cache'

-- The files at the first of the queries that asked for a path of a directory.
abbrev pub seen : Parts → List Query → Option Files
seen dir [] = none
seen dir ((files, none) ∷ past) = seen dir past
seen dir ((files, some rel) ∷ past) =
    if same_parts (dir_parts rel) dir then some files else seen dir past

abbrev pub or_now : Option Files → Files → Files
or_now none now = now
or_now (some files) now = files

abbrev pub fresh_answer : Config → Files → Option Parts → Bool
fresh_answer cfg files none = false
fresh_answer cfg files (some rel) = decide cfg (mega_build cfg files rel) rel

abbrev pub dir_of : Option Parts → Parts
dir_of none = []
dir_of (some rel) = dir_parts rel

-- Each path decided without a cache, by the files of the first query of its directory.
abbrev pub uncached : Config → List Query → List Query → List Bool
uncached cfg past [] = []
uncached cfg past ((files, rel) ∷ later) =
    fresh_answer cfg (or_now (seen (dir_of rel) past) files) rel
    ∷ uncached cfg (past ++ ((files, rel) ∷ [])) later

pub same_parts_refl : (p : Parts) → same_parts p p ≡ true
unfolding same_parts
same_parts_refl [] = refl
same_parts_refl (t ∷ p) = ground (arith, same_text_refl t, same_parts_refl p)

pub same_parts_eq : (p q : Parts) → same_parts p q ≡ true → p ≡ q
unfolding same_parts
same_parts_eq [] [] h = refl
same_parts_eq [] (u ∷ q) h = ground arith
same_parts_eq (t ∷ p) [] h = ground arith
same_parts_eq (t ∷ p) (u ∷ q) h = ground (arith, same_text_eq t u, same_parts_eq p q)

abbrev built : Config → Parts → Option Files → Option Rules
built cfg dir none = none
built cfg dir (some files) = some (rules_of_dir cfg files dir)

-- The cache holds, for each directory, the rules of its first query.
abbrev Holds : Config → List Query → Cache → Type 0
Holds cfg past cache = (dir : Parts) → cache_get dir cache ≡ built cfg dir (seen dir past)

abbrev or_last : Option Files → Option Files → Option Files
or_last none now = now
or_last (some files) now = some files

or_last-none :
    (cfg : Config) (dir : Parts) (o : Option Files)
    → built cfg dir o ≡ built cfg dir (or_last o none)
or_last-none cfg dir none = refl
or_last-none cfg dir (some f) = refl

seen_snoc :
    (dir : Parts) (past : List Query) (files : Files) (rel : Parts)
    → seen dir (past ++ ((files, some rel) ∷ []))
      ≡ or_last (seen dir past) (if same_parts (dir_parts rel) dir then some files else none)
seen_snoc dir [] files rel = refl
seen_snoc dir ((f, none) ∷ past) files rel = seen_snoc dir past files rel
seen_snoc dir ((f, some r) ∷ past) files rel = ground (arith, seen_snoc dir past files rel)

seen_outside :
    (dir : Parts) (past : List Query) (files : Files)
    → seen dir (past ++ ((files, none) ∷ [])) ≡ seen dir past
seen_outside dir [] files = refl
seen_outside dir ((f, none) ∷ past) files = seen_outside dir past files
seen_outside dir ((f, some r) ∷ past) files = ground (arith, seen_outside dir past files)

stored_new :
    (cfg : Config) (past : List Query) (cache : Cache) (files : Files) (d dir : Parts)
    → cache_get dir cache ≡ built cfg dir (seen dir past)
    → seen d past ≡ none
    → (if same_parts d dir then some (rules_of_dir cfg files d) else cache_get dir cache)
      ≡ built cfg dir (or_last (seen dir past) (if same_parts d dir then some files else none))
stored_new cfg past cache files d dir h e = elim (Bool-cases (same_parts d dir)) [
  | inl s ↦
      let q = same_parts_eq d dir s in
      let k = sym (ap (λ x. seen x past) q) ∙ e in
      rw (s, k) (ap (λ x. some (rules_of_dir cfg files x)) q)
  | inr s ↦ rw (s, h) (or_last-none cfg dir (seen dir past))
]

stored_old :
    (cfg : Config) (past : List Query) (cache : Cache) (files : Files) (d dir : Parts) (f : Files)
    → cache_get dir cache ≡ built cfg dir (seen dir past)
    → seen d past ≡ some f
    → cache_get dir cache
      ≡ built cfg dir (or_last (seen dir past) (if same_parts d dir then some files else none))
stored_old cfg past cache files d dir f h e = elim (Bool-cases (same_parts d dir)) [
  | inl s ↦ let k = sym (ap (λ x. seen x past) (same_parts_eq d dir s)) ∙ e in rw (s, h, k) refl
  | inr s ↦ rw (s, h) (or_last-none cfg dir (seen dir past))
]

-- A query keeps the invariant and uses the rules of the first query.
mega-Holds :
    (cfg : Config) (past : List Query) (cache : Cache) (files : Files) (rel : Parts)
    → Holds cfg past cache
    → Holds cfg (past ++ ((files, some rel) ∷ [])) (mega cfg files rel cache).1
unfolding mega cache_get mega_build
mega-Holds cfg past cache files rel h dir =
    let d = dir_parts rel in
    let fresh = rules_of_dir cfg files d in
    rw (seen_snoc dir past files rel) (elim (Option-cases (seen d past)) [
      | inl e ↦ rw (h d ∙ ap (built cfg d) e) (stored_new cfg past cache files d dir (h dir) e)
      | inr (f, e) ↦
          rw (h d ∙ ap (built cfg d) e) (stored_old cfg past cache files d dir f (h dir) e)
    ])

mega-rules :
    (cfg : Config) (past : List Query) (cache : Cache) (files : Files) (rel : Parts)
    → Holds cfg past cache
    → (mega cfg files rel cache).0 ≡ mega_build cfg (or_now (seen (dir_parts rel) past) files) rel
unfolding mega mega_build
mega-rules cfg past cache files rel h = elim (Option-cases (seen (dir_parts rel) past)) [
  | inl e ↦ rw (h (dir_parts rel), e) refl
  | inr (f, e) ↦ rw (h (dir_parts rel), e) refl
]

answers-from :
    (cfg : Config) (past : List Query) (later : List Query) (cache : Cache)
    → Holds cfg past cache
    → answers cfg later cache ≡ uncached cfg past later
unfolding answers is_ignored
answers-from cfg past [] cache h = refl
answers-from cfg past ((files, none) ∷ later) cache h =
    ap (λ l. false ∷ l)
      (answers-from cfg (past ++ ((files, none) ∷ [])) later cache
        (λ dir. h dir ∙ ap (built cfg dir) (sym (seen_outside dir past files))))
answers-from cfg past ((files, some rel) ∷ later) cache h =
    rw (mega-rules cfg past cache files rel h) (
      ap (λ l. decide cfg (mega_build cfg (or_now (seen (dir_parts rel) past) files) rel) rel ∷ l)
        (answers-from cfg (past ++ ((files, some rel) ∷ [])) later (mega cfg files rel cache).1
          (mega-Holds cfg past cache files rel h)))

-- The answers of one object, which starts with an empty cache, to any sequence of queries between which the files
-- change in any way: each path is decided by the ignore files as they were at the first query for a path of the
-- same directory, as a build of its rules without the cache decides it.
pub answers-uncached :
    (cfg : Config) (queries : List Query) → answers cfg queries [] ≡ uncached cfg [] queries
unfolding cache_get
answers-uncached cfg queries = answers-from cfg [] queries [] (λ dir. refl)
