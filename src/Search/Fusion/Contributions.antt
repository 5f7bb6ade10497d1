-- ===== src/Search/Fusion/Contributions.antt =====
-- What the rows of ranked lists contribute to their chunks in `_rrf_merge` of src/java_codebase_rag/search/search_lancedb.py.
use mathlib.Core.Path.{ap₂}
use jrag.Base.{ℕ, suc, ◌+◌, List, [], ◌∷◌, ◌++◌, map, ◌≡◌, refl, ap}
use jrag.Search.Fusion.{Floats, Chunk, ranked_from, turns}

-- The rows of a list with their positions, counted from a number.
abbrev pub enumerate : {R : Type 0} → ℕ → List R → List (R × ℕ)
enumerate i [] = []
enumerate i (r ∷ rs) = (r, i) ∷ enumerate (suc i) rs

module _ {R Q : Type 0} (floats : Floats Q) where
  -- What a row at position `i` of a list contributes: its weight in this list by 1 / (n + i + 1).
  abbrev pub contribution : ℕ → (R → Q) → R × ℕ → R × Q
  contribution n weight (r, i) = (r, floats.times (weight r) (floats.one_over (n + i + 1)))

  -- The contributions of all rows of all lists, list after list.
  abbrev pub contributions : ℕ → List ((R → Q) × List R) → List (R × Q)
  contributions n [] = []
  contributions n (l ∷ lists) = map (contribution n l.0) (enumerate 0 l.1) ++ contributions n lists

module _ {R Q : Type 0} (floats : Floats Q) (chunk : R → Chunk) where
  ranked_from_lem :
      (n : ℕ) (weight : R → Q) (i : ℕ) (rows : List R)
      → ranked_from floats chunk n weight i rows
        ≡ map (contribution floats n weight) (enumerate i rows)
  ranked_from_lem n weight i [] = refl
  ranked_from_lem n weight i (r ∷ rows) =
      ap (λ l. contribution floats n weight (r, i) ∷ l) (ranked_from_lem n weight (suc i) rows)

  pub turns_lem :
      (n : ℕ) (lists : List ((R → Q) × List R))
      → turns floats chunk n lists ≡ contributions floats n lists
  turns_lem n [] = refl
  turns_lem n ((weight, rows) ∷ lists) =
      ap₂ (λ (a b : List (R × Q)). a ++ b) (ranked_from_lem n weight 0 rows) (turns_lem n lists)
