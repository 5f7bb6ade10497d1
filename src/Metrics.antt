-- ===== src/Metrics.antt =====
-- Ranking metrics: src/java_codebase_rag/eval/metrics.py. A float is the quotient that it is computed as, without
-- rounding; a set of ids is a list without repetition.
pub mod Bounds
mod Examples
use jrag.Base.{
  ℕ, zero, suc, ◌+◌, ◌*◌, ◌≤◌, Bool, true, false, not, Option, none, some, List, [], ◌∷◌, ◌≡◌, ◌==◌,
  if◌then◌else◌, ◌||◌, ◌&&◌, length, take, Text, same_text,
}

-- `top / bottom`
pub record Quotient : Type 0 where
  pub top : ℕ
  pub bottom : ℕ

abbrev nought : Quotient
nought = record { top = 0; bottom = 1 }

-- `t in l`
unfoldable pub member : Text → List Text → Bool
member t [] = false
member t (x ∷ xs) = same_text x t || member t xs

-- The members of a set that the test keeps.
abbrev pub kept : (Text → Bool) → List Text → List Text
kept p [] = []
kept p (x ∷ xs) = if p x then x ∷ kept p xs else kept p xs

-- `len(set(retrieved[:k]).intersection(relevant))`
unfoldable pub hits : List Text → List Text → ℕ → ℕ
hits retrieved relevant k = length (kept (λ d. member d (take k retrieved)) relevant)

unfoldable pub recall_at_k : List Text → List Text → ℕ → Quotient
recall_at_k retrieved relevant k =
    if length relevant == 0
    then nought
    else record { top = hits retrieved relevant k; bottom = length relevant }

unfoldable pub precision_at_k : List Text → List Text → ℕ → Quotient
precision_at_k retrieved relevant k =
    if k == 0 then nought else record { top = hits retrieved relevant k; bottom = k }

-- `enumerate(retrieved, start)` up to the first hit
unfoldable pub reciprocal_from : ℕ → List Text → List Text → Quotient
unfolding member
reciprocal_from rank [] relevant = nought
reciprocal_from rank (d ∷ ds) relevant =
    let later = reciprocal_from (suc rank) ds relevant in
    if member d relevant then record { top = 1; bottom = rank } else later

unfoldable pub reciprocal_rank : List Text → List Text → Quotient
unfolding reciprocal_from
reciprocal_rank retrieved relevant = reciprocal_from 1 retrieved relevant
