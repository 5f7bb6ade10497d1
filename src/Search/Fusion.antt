-- ===== src/Search/Fusion.antt =====
-- Reciprocal rank fusion: `_rrf_merge` of src/java_codebase_rag/search/search_lancedb.py. Python's floats are an
-- argument: their product, sum and order, the quotient of 1 by a number, and what normalizes a score.
pub mod Fused
pub mod Contributions
use jrag.Base.{
  ℕ, zero, suc, ◌+◌, Bool, true, false, Option, none, some, List, [], ◌∷◌, ◌++◌, map, ◌≡◌, ◌==◌,
  if◌then◌else◌, ◌&&◌, length, Text, same_text,
}
use jrag.Base.Order.{sort}

pub record Floats (Q : Type 0) : Type 0 where
  pub times : Q → Q → Q
  pub plus : Q → Q → Q
  pub at_most : Q → Q → Bool
  pub one_over : ℕ → Q
  pub normalized : ℕ → ℕ → Q → Q

-- A chunk: `(filename, range_start, range_end)`, each possibly absent.
pub record Chunk : Type 0 where
  pub filename : Option Text
  pub range_start : Option ℕ
  pub range_end : Option ℕ

abbrev pub same_file : Option Text → Option Text → Bool
same_file none none = true
same_file (some s) (some t) = same_text s t
same_file _ _ = false

abbrev pub same_range : Option ℕ → Option ℕ → Bool
same_range none none = true
same_range (some m) (some n) = m == n
same_range _ _ = false

unfoldable pub same_chunk : Chunk → Chunk → Bool
same_chunk a b =
    same_file a.filename b.filename
    && (same_range a.range_start b.range_start && same_range a.range_end b.range_end)

module _ {R Q : Type 0} (floats : Floats Q) (chunk : R → Chunk) where
  -- The pool, in insertion order, with `_rrf_score`: a row and its contribution come in.
  unfoldable pub absorb : R × Q → List (R × Q) → List (R × Q)
  absorb (row, c) [] = (row, c) ∷ []
  absorb (row, c) ((r, q) ∷ pool) =
      if same_chunk (chunk r) (chunk row)
      then (r, floats.plus q c) ∷ pool
      else (r, q) ∷ absorb (row, c) pool

  -- The rows of one ranked list with their contributions, from a rank on.
  abbrev pub ranked_from : ℕ → (R → Q) → ℕ → List R → List (R × Q)
  ranked_from k weight rank [] = []
  ranked_from k weight rank (row ∷ rows) =
      (row, floats.times (weight row) (floats.one_over (k + rank + 1)))
      ∷ ranked_from k weight (suc rank) rows

  -- The turns of the two loops; a list comes with its weight.
  abbrev pub turns : ℕ → List ((R → Q) × List R) → List (R × Q)
  turns k [] = []
  turns k ((weight, rows) ∷ lists) = ranked_from k weight 0 rows ++ turns k lists

  abbrev pub absorb_all : List (R × Q) → List (R × Q) → List (R × Q)
  absorb_all [] pool = pool
  absorb_all (t ∷ ts) pool = absorb_all ts (absorb t pool)

  -- By descending score; rows of one score keep their order.
  abbrev pub above : R × Q → R × Q → Bool
  above a b = floats.at_most b.1 a.1

  unfoldable pub fused_rows : ℕ → List ((R → Q) × List R) → List (R × Q)
  fused_rows k lists = sort above (absorb_all (turns k lists) [])

  -- `_rrf_merge`: the rows with the raw score and the displayed one
  pub rrf_merge : ℕ → List ((R → Q) × List R) → List (R × Q × Q)
  rrf_merge k lists =
      map (λ e. (e.0, e.1, floats.normalized (length lists) k e.1)) (fused_rows k lists)
