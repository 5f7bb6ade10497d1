-- ===== src/Metrics/Bounds.antt =====
-- The metrics of src/java_codebase_rag/eval/metrics.py lie between 0 and 1, and agree with each other.
use jrag.Base.{
  ℕ, zero, suc, ◌+◌, ◌≤◌, ◌<◌, Bool, true, false, List, [], ◌∷◌, ◌≡◌, refl, ap, ◌∙◌, ◌↔◌, arith,
  Bool-cases, inl, inr, length, take, Text, same_text, same_text_refl, same_text_eq,
}
use jrag.Metrics.{member, kept, hits, recall_at_k, precision_at_k, reciprocal_from, reciprocal_rank}

-- No id stands twice in the list.
abbrev pub IsDistinct : List Text → Type 0
IsDistinct [] = Unit
IsDistinct (x ∷ xs) = (member x xs ≡ false) × IsDistinct xs

length-kept : (p : Text → Bool) (xs : List Text) → length (kept p xs) ≤ length xs
length-kept p [] = omega arith
length-kept p (x ∷ xs) = ground (arith, length-kept p xs)

same_text_sym : (x r : Text) → same_text x r ≡ true → same_text r x ≡ true
same_text_sym x r h = ap (same_text r) (same_text_eq x r h) ∙ same_text_refl r

kept-none :
    (x : Text) (rel : List Text) → member x rel ≡ false → length (kept (same_text x) rel) ≡ 0
unfolding member
kept-none x [] h = refl
kept-none x (r ∷ rel) h = ground (arith, kept-none x rel, same_text_sym x r)

-- One id is at most once in a set.
kept-one : (x : Text) (rel : List Text) → IsDistinct rel → length (kept (same_text x) rel) ≤ 1
kept-one x [] h = omega arith
kept-one x (r ∷ rel) h = elim (Bool-cases (same_text x r)) [
  | inl e ↦ ground (arith, kept-none x rel (ap (λ t. member t rel) (same_text_eq x r e) ∙ h.0))
  | inr e ↦ ground (arith, kept-one x rel h.1)
]

kept-member :
    (x : Text) (l rel : List Text)
    → length (kept (λ d. member d (x ∷ l)) rel)
      ≤ length (kept (same_text x) rel) + length (kept (λ d. member d l) rel)
unfolding member
kept-member x l [] = omega arith
kept-member x l (r ∷ rel) = ground (arith, kept-member x l rel)

kept-nil : (rel : List Text) → length (kept (λ d. member d []) rel) ≡ 0
unfolding member
kept-nil [] = refl
kept-nil (r ∷ rel) = kept-nil rel

hits_k : (ret rel : List Text) (k : ℕ) → IsDistinct rel → hits ret rel k ≤ k
unfolding hits
hits_k ret rel zero h = ground (arith, kept-nil rel)
hits_k [] rel (suc k) h = ground (arith, kept-nil rel)
hits_k (x ∷ ret) rel (suc k) h =
    omega (arith, kept-member x (take k ret) rel, kept-one x rel h, hits_k ret rel k h)

kept_mono :
    (p q : Text → Bool) (rel : List Text)
    → ((d : Text) → p d ≡ true → q d ≡ true)
    → length (kept p rel) ≤ length (kept q rel)
kept_mono p q [] h = omega arith
kept_mono p q (r ∷ rel) h = ground (arith, kept_mono p q rel h, h r)

member-take :
    (d : Text) (ret : List Text) (k : ℕ)
    → member d (take k ret) ≡ true
    → member d (take (suc k) ret) ≡ true
unfolding member
member-take d [] zero h = h
member-take d [] (suc k) h = h
member-take d (x ∷ ret) zero h = ground arith
member-take d (x ∷ ret) (suc k) h = ground (arith, member-take d ret k)

hits-length : (ret rel : List Text) (k : ℕ) → hits ret rel k ≤ length rel
unfolding hits
hits-length ret rel k = length-kept (λ d. member d (take k ret)) rel

hits-suc : (ret rel : List Text) (k : ℕ) → hits ret rel k ≤ hits ret rel (suc k)
unfolding hits
hits-suc ret rel k = kept_mono _ _ rel (λ d. member-take d ret k)

-- Where no relevant id is named twice, recall and precision at a cut-off are at most 1, and one rank more does not
-- lower the recall.
pub recall_precision_bounds :
    (ret rel : List Text) (k : ℕ)
    → IsDistinct rel
    → ((recall_at_k ret rel k).top ≤ (recall_at_k ret rel k).bottom)
      × ((precision_at_k ret rel k).top ≤ (precision_at_k ret rel k).bottom)
      × ((recall_at_k ret rel k).top ≤ (recall_at_k ret rel (suc k)).top)
      × ((recall_at_k ret rel k).bottom ≡ (recall_at_k ret rel (suc k)).bottom)
unfolding recall_at_k precision_at_k
recall_precision_bounds ret rel k h =
    ground (arith, hits_k ret rel k h, hits-length ret rel k, hits-suc ret rel k)

hits_nil : (rel : List Text) (k : ℕ) → hits [] rel k ≡ 0
unfolding hits
hits_nil rel zero = kept-nil rel
hits_nil rel (suc k) = kept-nil rel

hits_zero : (ret rel : List Text) → hits ret rel 0 ≡ 0
unfolding hits
hits_zero ret rel = kept-nil rel

kept-some :
    (x : Text) (l rel : List Text)
    → member x rel ≡ true
    → 0 < length (kept (λ d. member d (x ∷ l)) rel)
unfolding member
kept-some x l [] h = ground arith
kept-some x l (r ∷ rel) h = ground (arith, kept-some x l rel, same_text_sym r x)

-- One rank more: a hit there, or a hit before.
hits_found :
    (x : Text) (ret rel : List Text) (k : ℕ) → member x rel ≡ true → 0 < hits (x ∷ ret) rel (suc k)
unfolding hits
hits_found x ret rel k h = kept-some x (take k ret) rel h

hits_missed :
    (x : Text) (ret rel : List Text) (k : ℕ)
    → member x rel ≡ false
    → (0 < hits (x ∷ ret) rel (suc k)) ↔ (0 < hits ret rel k)
unfolding hits member
hits_missed x ret rel k h = ground (
  arith,
  kept-member x (take k ret) rel,
  kept-none x rel h,
  kept_mono (λ d. member d (take k ret)) (λ d. member d (x ∷ take k ret)) rel (λ d e. ground arith),
)

-- The rank of a hit is not below the first.
reciprocal_from_rank :
    (n : ℕ) (ret rel : List Text)
    → (reciprocal_from (suc n) ret rel).top ≡ 1
    → n < (reciprocal_from (suc n) ret rel).bottom
unfolding reciprocal_from
reciprocal_from_rank n [] rel h = ground arith
reciprocal_from_rank n (x ∷ ret) rel h = ground (arith, reciprocal_from_rank (suc n) ret rel)

reciprocal_from_lem :
    (n : ℕ) (ret rel : List Text) (k : ℕ)
    → (0 < hits ret rel k) ↔ (
        ((reciprocal_from (suc n) ret rel).top ≡ 1)
        × ((reciprocal_from (suc n) ret rel).bottom ≤ n + k))
unfolding reciprocal_from
reciprocal_from_lem n [] rel k = ground (arith, hits_nil rel k)
reciprocal_from_lem n (x ∷ ret) rel zero =
    ground (arith, hits_zero (x ∷ ret) rel, reciprocal_from_rank n (x ∷ ret) rel)
reciprocal_from_lem n (x ∷ ret) rel (suc k) = elim (Bool-cases (member x rel)) [
  | inl e ↦ rw e (ground (arith, hits_found x ret rel k e))
  | inr e ↦ rw e (ground (arith, hits_missed x ret rel k e, reciprocal_from_lem (suc n) ret rel k))
]

-- Some relevant id is among the first k retrieved exactly if the reciprocal rank is 1 / r for a rank r of at most k.
pub reciprocal_rank_lem :
    (ret rel : List Text) (k : ℕ)
    → (0 < hits ret rel k)
      ↔ (((reciprocal_rank ret rel).top ≡ 1) × ((reciprocal_rank ret rel).bottom ≤ k))
unfolding reciprocal_rank
reciprocal_rank_lem ret rel k = ground (arith, reciprocal_from_lem 0 ret rel k)
