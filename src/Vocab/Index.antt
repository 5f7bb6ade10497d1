-- ===== src/Vocab/Index.antt =====
-- What the indexes of the vocabulary hold: `__init__` and `build` of src/java_codebase_rag/absence/absence_vocab.py.
use jrag.Base.{
  ℕ, suc, true, false, some, List, [], ◌∷◌, ◌++◌, ◌≡◌, refl, sym, ap, ◌∙◌, arith, if◌then◌else◌,
  Bool-cases, inl, inr, length, Text, same_text, same_text_eq, append_assoc, append-nil, subst,
}
use jrag.Vocab.{
  found, SymbolRecord, Postings, post, find_posting, index_from, get_elem?, records_at, filter,
}

-- The indices, from `i` on, of the records with a normalized name.
abbrev pub named_from : Text → ℕ → List SymbolRecord → List ℕ
named_from k i [] = []
named_from k i (r ∷ rs) =
    if same_text r.normalized_name k then i ∷ named_from k (suc i) rs else named_from k (suc i) rs

same_text_trans : (l j k : Text) → same_text l j ≡ true → same_text l k ≡ same_text j k
same_text_trans l j k h = ap (λ t. same_text t k) (same_text_eq l j h)

same_text_apart :
    (l j k : Text) → same_text l k ≡ true → same_text l j ≡ false → same_text j k ≡ false
same_text_apart l j k h n = elim (Bool-cases (same_text j k)) [
  | inl e ↦ ground (arith, ap (same_text l) (same_text_eq j k e))
  | inr e ↦ e
]

-- Posting adds an index at the end of its key's list, and changes no other.
found-post :
    (k j : Text) (i : ℕ) (d : Postings)
    → found (find_posting k (post j i d))
      ≡ (if same_text j k then found (find_posting k d) ++ (i ∷ []) else found (find_posting k d))
unfolding post find_posting
found-post k j i [] = ground arith
found-post k j i ((l, is) ∷ d) = elim (Bool-cases (same_text l j)) [
  | inl e ↦ rw e (elim (Bool-cases (same_text j k)) [
    | inl f ↦ ground (arith, same_text_trans l j k e)
    | inr f ↦ ground (arith, same_text_trans l j k e)
  ])
  | inr e ↦ rw e (elim (Bool-cases (same_text l k)) [
    | inl f ↦ ground (arith, same_text_apart l j k f e)
    | inr f ↦ ground (arith, found-post k j i d)
  ])
]

pub found-index_from :
    (k : Text) (i : ℕ) (rs : List SymbolRecord) (d : Postings)
    → found (find_posting k (index_from (λ r. r.normalized_name ∷ []) i rs d))
      ≡ found (find_posting k d) ++ named_from k i rs
found-index_from k i [] d = sym (append-nil _)
found-index_from k i (r ∷ rs) d =
    found-index_from k (suc i) rs (post r.normalized_name i d)
    ∙ elim (Bool-cases (same_text r.normalized_name k)) [
      | inl e ↦ ground (
        arith,
        found-post k r.normalized_name i d,
        append_assoc (found (find_posting k d)) (i ∷ []) (named_from k (suc i) rs),
      )
      | inr e ↦ ground (arith, found-post k r.normalized_name i d)
    ]

get_elem?-append :
    (pre : List SymbolRecord) (r : SymbolRecord) (rs : List SymbolRecord)
    → get_elem? (pre ++ (r ∷ rs)) (length pre) ≡ some r
get_elem?-append [] r rs = refl
get_elem?-append (p ∷ pre) r rs = get_elem?-append pre r rs

length-snoc :
    (pre : List SymbolRecord) (r : SymbolRecord) → length (pre ++ (r ∷ [])) ≡ suc (length pre)
length-snoc [] r = refl
length-snoc (p ∷ pre) r = ap suc (length-snoc pre r)

pub records_at-named :
    (k : Text) (pre rs : List SymbolRecord)
    → records_at (pre ++ rs) (named_from k (length pre) rs)
      ≡ some (filter (λ r. same_text r.normalized_name k) rs)
records_at-named k pre [] = refl
records_at-named k pre (r ∷ rs) =
    let next =
      subst
        (λ l.
          records_at l (named_from k (suc (length pre)) rs)
          ≡ some (filter (λ r'. same_text r'.normalized_name k) rs))
        (append_assoc pre (r ∷ []) rs)
        (subst
          (λ n.
            records_at ((pre ++ (r ∷ [])) ++ rs) (named_from k n rs)
            ≡ some (filter (λ r'. same_text r'.normalized_name k) rs))
          (length-snoc pre r) (records_at-named k (pre ++ (r ∷ [])) rs)) in
    elim (Bool-cases (same_text r.normalized_name k)) [
      | inl e ↦ rw e (ground (arith, next, get_elem?-append pre r rs))
      | inr e ↦ rw e next
    ]
