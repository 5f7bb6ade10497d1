-- ===== src/Search/Fusion/Fused.antt =====
-- The scores of `_rrf_merge` in src/java_codebase_rag/search/search_lancedb.py.
use jrag.Base.{
  ℕ, Bool, true, false, Option, none, some, List, [], ◌∷◌, ◌≡◌, refl, sym, ap, ◌∙◌, arith,
  if◌then◌else◌, ==_iff, Bool-cases, inl, inr, Text, same_text_refl, same_text_eq,
}
use jrag.Base.Order.{insert, sort, sort-IsSorted, IsSorted}
use jrag.Search.Fusion.Contributions.{contributions, turns_lem}
use jrag.Search.Fusion.{
  Floats, Chunk, same_chunk, same_file, same_range, absorb, turns, absorb_all, above, fused_rows,
}

same_file_eq : (s t : Option Text) → same_file s t ≡ true → s ≡ t
same_file_eq none none h = refl
same_file_eq none (some t) h = cc
same_file_eq (some s) none h = cc
same_file_eq (some s) (some t) h = ap some (same_text_eq s t h)

same_range_eq : (m n : Option ℕ) → same_range m n ≡ true → m ≡ n
same_range_eq none none h = refl
same_range_eq none (some n) h = cc
same_range_eq (some m) none h = cc
same_range_eq (some m) (some n) h = ap some ((==_iff m n).0 h)

same_file_refl : (s : Option Text) → same_file s s ≡ true
same_file_refl none = refl
same_file_refl (some s) = same_text_refl s

same_range_refl : (m : Option ℕ) → same_range m m ≡ true
same_range_refl none = refl
same_range_refl (some m) = (==_iff m m).1 refl

same_chunk_eq : (a b : Chunk) → same_chunk a b ≡ true → a ≡ b
unfolding same_chunk
same_chunk_eq a b h = ground (
  arith,
  same_file_eq a.filename b.filename,
  same_range_eq a.range_start b.range_start,
  same_range_eq a.range_end b.range_end,
)

same_chunk_refl : (a : Chunk) → same_chunk a a ≡ true
unfolding same_chunk
same_chunk_refl a =
    ground
      (arith, same_file_refl a.filename, same_range_refl a.range_start, same_range_refl a.range_end)

same_left : (a b k : Chunk) → same_chunk a b ≡ true → same_chunk a k ≡ same_chunk b k
same_left a b k h = ap (λ c. same_chunk c k) (same_chunk_eq a b h)

-- Two chunks that are the same as a third are the same.
same_joined :
    (a b k : Chunk) → same_chunk a k ≡ true → same_chunk b k ≡ true → same_chunk a b ≡ true
same_joined a b k h g = same_left a k b h ∙ sym (same_left b k b g) ∙ same_chunk_refl b

module _ {R Q : Type 0} (floats : Floats Q) (chunk : R → Chunk) where
  -- The row of a chunk in a pool, with its score.
  pub find : Chunk → List (R × Q) → Option (R × Q)
  find k [] = none
  find k ((r, q) ∷ pool) = if same_chunk (chunk r) k then some (r, q) else find k pool

  abbrev pub merged : Option (R × Q) → R × Q → Option (R × Q)
  merged none (row, c) = some (row, c)
  merged (some (r, q)) (row, c) = some (r, floats.plus q c)

  -- The contributions to a chunk among rows in order: the first row, with their sum from left to right.
  pub summed : Chunk → Option (R × Q) → List (R × Q) → Option (R × Q)
  summed k found [] = found
  summed k found ((r, c) ∷ ts) =
      let here = summed k (merged found (r, c)) ts in
      let elsewhere = summed k found ts in if same_chunk (chunk r) k then here else elsewhere

  -- No chunk stands twice.
  abbrev pub Distinct : List (R × Q) → Type 0
  Distinct [] = Unit
  Distinct ((r, q) ∷ pool) = (find (chunk r) pool ≡ none) × Distinct pool

  find-absorb :
      (k : Chunk) (row : R) (c : Q) (pool : List (R × Q))
      → find k (absorb floats chunk (row, c) pool)
        ≡ (if same_chunk (chunk row) k then merged (find k pool) (row, c) else find k pool)
  unfolding find absorb
  find-absorb k row c [] = refl
  find-absorb k row c ((r, q) ∷ pool) = ground (
    arith,
    find-absorb k row c pool,
    same_left (chunk r) (chunk row) k,
    same_joined (chunk r) (chunk row) k,
  )

  find-absorb_all :
      (k : Chunk) (ts pool : List (R × Q))
      → find k (absorb_all floats chunk ts pool) ≡ summed k (find k pool) ts
  unfolding summed
  find-absorb_all k [] pool = refl
  find-absorb_all k ((r, c) ∷ ts) pool =
      find-absorb_all k ts (absorb floats chunk (r, c) pool)
      ∙ elim (Bool-cases (same_chunk (chunk r) k)) [
        | inl e ↦ ground (arith, find-absorb k r c pool)
        | inr e ↦ ground (arith, find-absorb k r c pool)
      ]

  absorb-Distinct :
      (row : R) (c : Q) (pool : List (R × Q))
      → Distinct pool
      → Distinct (absorb floats chunk (row, c) pool)
  unfolding absorb find
  absorb-Distinct row c [] h = (refl, tt)
  absorb-Distinct row c ((r, q) ∷ pool) h = elim (Bool-cases (same_chunk (chunk r) (chunk row))) [
    | inl e ↦ rw e h
    | inr e ↦ rw e (
      ground (
        arith,
        find-absorb (chunk r) row c pool,
        same_joined (chunk r) (chunk row) (chunk r),
        same_chunk_refl (chunk r),
      ),
      absorb-Distinct row c pool h.1,
    )
  ]

  absorb_all-Distinct :
      (ts pool : List (R × Q)) → Distinct pool → Distinct (absorb_all floats chunk ts pool)
  absorb_all-Distinct [] pool h = h
  absorb_all-Distinct ((r, c) ∷ ts) pool h = absorb_all-Distinct ts _ (absorb-Distinct r c pool h)

  find-insert :
      (le : R × Q → R × Q → Bool) (k : Chunk) (r : R) (q : Q) (pool : List (R × Q))
      → find (chunk r) pool ≡ none
      → find k (insert le (r, q) pool) ≡ find k ((r, q) ∷ pool)
  unfolding find insert
  find-insert le k r q [] h = refl
  find-insert le k r q ((s, p) ∷ pool) h =
      ground (arith, find-insert le k r q pool, same_joined (chunk s) (chunk r) k)

  insert-Distinct :
      (le : R × Q → R × Q → Bool) (r : R) (q : Q) (pool : List (R × Q))
      → find (chunk r) pool ≡ none
      → Distinct pool
      → Distinct (insert le (r, q) pool)
  unfolding find insert
  insert-Distinct le r q [] h d = (refl, tt)
  insert-Distinct le r q ((s, p) ∷ pool) h d = elim (Bool-cases (le (r, q) (s, p))) [
    | inl e ↦ rw e (h, d)
    | inr e ↦
        let rest : find (chunk r) pool ≡ none = ground (arith, h) in
        rw e (
          find-insert le (chunk s) r q pool rest
              ∙ ground (
                arith,
                d.0,
                same_joined (chunk s) (chunk r) (chunk s),
                same_chunk_refl (chunk s),
              ),
          insert-Distinct le r q pool rest d.1,
        )
  ]

  find-sort :
      (le : R × Q → R × Q → Bool) (k : Chunk) (pool : List (R × Q))
      → Distinct pool
      → find k (sort le pool) ≡ find k pool
  unfolding find sort
  find-sort le k [] d = refl
  find-sort le k ((r, q) ∷ pool) d =
      find-insert le k r q (sort le pool) (find-sort le (chunk r) pool d.1 ∙ d.0)
      ∙ ap (λ f. if same_chunk (chunk r) k then some (r, q) else f) (find-sort le k pool d.1)

  sort-Distinct :
      (le : R × Q → R × Q → Bool) (pool : List (R × Q)) → Distinct pool → Distinct (sort le pool)
  unfolding sort
  sort-Distinct le [] d = tt
  sort-Distinct le ((r, q) ∷ pool) d =
      insert-Distinct le r q (sort le pool) (find-sort le (chunk r) pool d.1 ∙ d.0)
        (sort-Distinct le pool d.1)

  -- Where the order of the scores is transitive and total: the fused rows name no chunk twice, they are in descending
  -- order of their scores, and for every chunk they hold the first of its rows in the order of the lists, if there is
  -- such a row, and no row of the chunk else. Its score is the sum, from left to right, of what the rows of the chunk
  -- contribute, list after list: a row at position i of a list, counted from 0, its weight in this list by
  -- 1 / (n + i + 1).
  pub fused_rows_lem :
      (n : ℕ) (lists : List ((R → Q) × List R))
      → ((a b c : Q)
          → floats.at_most a b ≡ true
          → floats.at_most b c ≡ true
          → floats.at_most a c ≡ true)
      → ((a b : Q) → floats.at_most a b ≡ false → floats.at_most b a ≡ true)
      → Distinct (fused_rows floats chunk n lists)
        × IsSorted (λ a b. floats.at_most b.1 a.1) (fused_rows floats chunk n lists)
        × ((k : Chunk)
            → find k (fused_rows floats chunk n lists)
              ≡ summed k none (contributions floats n lists))
  unfolding fused_rows find
  fused_rows_lem n lists trans total =
      let le = above floats chunk in
      let pool = absorb_all floats chunk (turns floats chunk n lists) [] in
      let d = absorb_all-Distinct (turns floats chunk n lists) [] tt in
      (
        sort-Distinct le pool d,
        sort-IsSorted le (λ a b c h g. trans c.1 b.1 a.1 g h) (λ a b. total b.1 a.1) pool,
        λ k.
            find-sort le k pool d
            ∙ find-absorb_all k (turns floats chunk n lists) []
            ∙ ap (summed k none) (turns_lem floats chunk n lists),
      )
