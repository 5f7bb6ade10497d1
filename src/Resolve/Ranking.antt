-- ===== src/Resolve/Ranking.antt =====
-- `_resolve_rank_candidates`: the order of the candidates and their scores.
use mathlib.Core.List.{Perm}
use mathlib.Core.Path.{ap₂}
use Prim.Native.Char.{Char, code}
use jrag.Base.{
  ltb, ltb→lt, ◌<◌, Bool-cases, inl, inr, All, ℕ, zero, suc, ◌+◌, ◌≡◌, refl, true, false, List, [],
  ◌∷◌, String, arith, map, length, ap, ◌∙◌,
}
use jrag.Base.Order.{sort, sort-perm, IsSorted, sort-IsSorted, length-sort}
use jrag.Resolve.{Node, Reason, Match, priority, str_leb, match_le, Candidate, number_from, rank}

str_leb_trans : (a b c : String) → str_leb a b ≡ true → str_leb b c ≡ true → str_leb a c ≡ true
unfolding str_leb
str_leb_trans String.[] b c h k = refl
str_leb_trans (String.◌∷◌ x a) String.[] c h k = cc
str_leb_trans (String.◌∷◌ x a) (String.◌∷◌ y b) String.[] h k = cc
str_leb_trans (String.◌∷◌ x a) (String.◌∷◌ y b) (String.◌∷◌ z c) h k =
    ground (arith, str_leb_trans a b c)

str_leb_total : (a b : String) → str_leb a b ≡ false → str_leb b a ≡ true
unfolding str_leb
str_leb_total String.[] b h = cc
str_leb_total (String.◌∷◌ x a) String.[] h = refl
str_leb_total (String.◌∷◌ x a) (String.◌∷◌ y b) h = ground (arith, str_leb_total a b)

match_le_trans : (a b c : Match) → match_le a b ≡ true → match_le b c ≡ true → match_le a c ≡ true
unfolding match_le
match_le_trans a b c h k = ground (arith, str_leb_trans a.node.id b.node.id c.node.id)

match_le_total : (a b : Match) → match_le a b ≡ false → match_le b a ≡ true
unfolding match_le
match_le_total a b h = ground (arith, str_leb_total a.node.id b.node.id)

-- The scores of `k` candidates out of `total`: k / total, (k - 1) / total, and so on.
abbrev pub countdown : ℕ → ℕ → List (ℕ × ℕ)
countdown total zero = []
countdown total (suc k) = (suc k, total) ∷ countdown total k

abbrev pub of_candidate : Candidate → Node × Reason
of_candidate c = (c.node, c.reason)

abbrev pub of_match : Match → Node × Reason
of_match m = (m.node, m.reason)

number_from_nodes :
    (total idx : ℕ) (ms : List Match)
    → map of_candidate (number_from total idx ms) ≡ map of_match ms
unfolding number_from
number_from_nodes total idx [] = refl
number_from_nodes total idx (m ∷ ms) =
    ap (λ l. of_match m ∷ l) (number_from_nodes total (suc idx) ms)

number_from_scores :
    (total idx : ℕ) (ms : List Match)
    → total ≡ idx + length ms
    → map (λ c. c.score) (number_from total idx ms) ≡ countdown total (length ms)
unfolding number_from
number_from_scores total idx [] h = refl
number_from_scores total idx (m ∷ ms) h =
    ap₂ (λ (k : ℕ) l. (k, total) ∷ l) (omega arith)
      (number_from_scores total (suc idx) ms (omega arith))

-- A text is below another or the same, by code points: at the first place where they differ it has the lower one, or
-- it ends there.
pub data TextLe : String → String → Type 0 where
  ends : {t : String} → TextLe String.[] t
  lower : {c d : Char} {s t : String} → code c < code d → TextLe (String.◌∷◌ c s) (String.◌∷◌ d t)
  same :
      {c d : Char} {s t : String}
      → code c ≡ code d
      → TextLe s t
      → TextLe (String.◌∷◌ c s) (String.◌∷◌ d t)

str_leb-TextLe : (s t : String) → str_leb s t ≡ true → TextLe s t
unfolding str_leb
str_leb-TextLe String.[] t h = ends
str_leb-TextLe (String.◌∷◌ c s) String.[] h = cc
str_leb-TextLe (String.◌∷◌ c s) (String.◌∷◌ d t) h = elim (Bool-cases (ltb (code c) (code d))) [
  | inl e ↦ lower (ltb→lt (code c) (code d) e)
  | inr e ↦ same (ground (arith, h, e)) (str_leb-TextLe s t (ground (arith, h, e)))
]

-- A match stands before another: it has the lower priority number; or the same and the higher specificity; or the
-- same of both, and its node id is not above the other's.
pub data Before (a b : Match) : Type 0 where
  by_priority : priority a.reason < priority b.reason → Before a b
  by_specificity :
      priority a.reason ≡ priority b.reason → b.specificity < a.specificity → Before a b
  by_id :
      priority a.reason ≡ priority b.reason
      → a.specificity ≡ b.specificity
      → TextLe a.node.id b.node.id
      → Before a b

match_le-Before : (a b : Match) → match_le a b ≡ true → Before a b
unfolding match_le
match_le-Before a b h = elim (Bool-cases (ltb (priority a.reason) (priority b.reason))) [
  | inl e ↦ by_priority (ltb→lt (priority a.reason) (priority b.reason) e)
  | inr e ↦
      let p : priority a.reason ≡ priority b.reason = ground (arith, h, e) in
      elim (Bool-cases (ltb b.specificity a.specificity)) [
        | inl k ↦ by_specificity p (ltb→lt b.specificity a.specificity k)
        | inr k ↦
            by_id p (ground (arith, h, e, k))
              (str_leb-TextLe a.node.id b.node.id (ground (arith, h, e, k)))
      ]
]

-- Every match of a list stands before all later ones.
abbrev pub IsOrdered : List Match → Type 0
IsOrdered [] = Unit
IsOrdered (m ∷ ms) = All (Before m) ms × IsOrdered ms

All-Before : (m : Match) (ms : List Match) → All (λ n. match_le m n ≡ true) ms → All (Before m) ms
All-Before m [] h = tt
All-Before m (n ∷ ms) h = (match_le-Before m n h.0, All-Before m ms h.1)

sorted-IsOrdered : (ms : List Match) → IsSorted match_le ms → IsOrdered ms
sorted-IsOrdered [] h = tt
sorted-IsOrdered (m ∷ ms) h = (All-Before m ms h.0, sorted-IsOrdered ms h.1)

-- The candidates that `_resolve_rank_candidates` returns, read as node and reason, are the deduplicated matches
-- in another order: each stands before all later ones by a lower priority number, or the same and a higher
-- specificity, or the same of both and a node id that is not above the other's by code points; and the scores of n
-- candidates, as quotients before a float rounds them, are n/n, (n - 1)/n, …, 1/n in that order.
pub rank_lem :
    (deduped : List Match)
    → (ordered : List Match) × Perm ordered deduped
      × IsOrdered ordered
      × (map of_candidate (rank deduped) ≡ map of_match ordered)
      × (map (λ c. c.score) (rank deduped) ≡ countdown (length deduped) (length deduped))
unfolding rank
rank_lem deduped =
    let ordered = sort match_le deduped in
    let n = length-sort match_le deduped in
    (
      ordered,
      sort-perm match_le deduped,
      sorted-IsOrdered ordered (sort-IsSorted match_le match_le_trans match_le_total deduped),
      number_from_nodes (length ordered) 0 ordered,
      number_from_scores (length ordered) 0 ordered (omega arith) ∙ ap (λ k. countdown k k) n,
    )

length-number_from :
    (total idx : ℕ) (ms : List Match) → length (number_from total idx ms) ≡ length ms
unfolding number_from
length-number_from total idx [] = refl
length-number_from total idx (m ∷ ms) = ap suc (length-number_from total (suc idx) ms)

pub length-rank : (deduped : List Match) → length (rank deduped) ≡ length deduped
unfolding rank
length-rank deduped = length-number_from _ 0 (sort match_le deduped) ∙ length-sort match_le deduped
