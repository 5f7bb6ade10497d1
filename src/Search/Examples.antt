-- ===== src/Search/Examples.antt =====
-- The properties of the search at concrete inputs.
use jrag.Base.{
  ℕ, ◌+◌, true, false, none, some, List, [], ◌∷◌, ◌++◌, ◌≡◌, arith, length, Text, text_of, String,
  leb, contains,
}
use jrag.Base.Order.{IsSorted}
use jrag.Search.Predicates.{build_path_predicate}
use jrag.Search.Predicates.Exact.{literal, like, tokens, path_predicate_exact}
use jrag.Search.Dedup.{Row, dedup_by_fqn, key_of}
use jrag.Search.Dedup.Counted.{total, dedup_by_fqn_lem}
use jrag.Search.Fusion.Contributions.{contributions}
use jrag.Search.Fusion.{Floats, Chunk, fused_rows}
use jrag.Search.Fusion.Fused.{find, summed, Distinct, fused_rows_lem}

abbrev fragment : Text
fragment = text_of "it's_100%"

path_predicate_exact_example :
    (pattern : Text) × (rest : Text) × (build_path_predicate fragment
      ≡ text_of "filename LIKE '" ++ rest)
    × (literal false rest ≡ some (pattern, text_of " ESCAPE '\\'"))
    × ((file : Text) → like (tokens false pattern) file ≡ contains fragment file)
path_predicate_exact_example = path_predicate_exact fragment

abbrev row : String → ℕ → Row
row fqn n = record { fqn = some (text_of fqn); id = none; object_id = n }

abbrev rows : List Row
rows = row "p.A" 0 ∷ row "p.B" 1 ∷ row "p.A" 2 ∷ row "" 3 ∷ []

abbrev key : Row → Text
key = key_of (λ n. n ∷ [])

kept_rows : total (dedup_by_fqn key rows) ≡ length rows
kept_rows = (dedup_by_fqn_lem key rows).1

-- Scores in place of floats: natural numbers, a rank counted down from 100.
abbrev scores : Floats ℕ
scores = record {
  times = λ a b. a;
  plus = λ a b. a + b;
  at_most = λ a b. leb a b;
  one_over = λ n. n;
  normalized = λ m k q. q;
}

abbrev chunk : ℕ → Chunk
chunk n = record { filename = some (text_of "A.java"); range_start = some n; range_end = none }

abbrev lists : List ((ℕ → ℕ) × List ℕ)
lists = ((λ n. 2), 1 ∷ 2 ∷ []) ∷ ((λ n. 3), 2 ∷ 3 ∷ []) ∷ []

scores_trans : (a b c : ℕ) → leb a b ≡ true → leb b c ≡ true → leb a c ≡ true
scores_trans a b c h g = ground arith

scores_total : (a b : ℕ) → leb a b ≡ false → leb b a ≡ true
scores_total a b h = ground arith

fused_rows_lem_example :
    Distinct scores chunk (fused_rows scores chunk 60 lists)
    × IsSorted (λ a b. scores.at_most b.1 a.1) (fused_rows scores chunk 60 lists)
    × ((k : Chunk)
        → find scores chunk k (fused_rows scores chunk 60 lists)
          ≡ summed scores chunk k none (contributions scores 60 lists))
fused_rows_lem_example = fused_rows_lem scores chunk 60 lists scores_trans scores_total
