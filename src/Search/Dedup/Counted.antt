-- ===== src/Search/Dedup/Counted.antt =====
-- What `_dedup_by_fqn` of src/java_codebase_rag/search/search_scoring.py keeps and counts.
use mathlib.Core.Path.{fun_ext}
use native.Mathlib.Nat.{zero-add}
use jrag.Base.{
  ℕ, ◌+◌, Bool, true, false, List, [], ◌∷◌, ◌++◌, map, ◌≡◌, refl, sym, ap, ◌∙◌, arith,
  if◌then◌else◌, ◌||◌, Bool-cases, inl, inr, length, Text, same_text, same_text_refl, same_text_eq,
  append-nil, append_assoc,
}
use jrag.Search.Dedup.{Row, Counts, count_of, has_key, count_up, collapse, dedup_by_fqn}

pub occurrences : Text → List Text → ℕ
occurrences k [] = 0
occurrences k (j ∷ ks) = (if same_text j k then 1 else 0) + occurrences k ks

pub member : Text → List Text → Bool
member k [] = false
member k (j ∷ ks) = same_text j k || member k ks

-- The rows whose key no row before has.
pub firsts : (Row → Text) → List Text → List Row → List Row
firsts key seen [] = []
firsts key seen (r ∷ rows) =
    let old = firsts key seen rows in
    let new = r ∷ firsts key (key r ∷ seen) rows in if member (key r) seen then old else new

abbrev pub total : List (Row × ℕ) → ℕ
total [] = 0
total ((r, n) ∷ rows) = n + total rows

same_text_sym : (j k : Text) → same_text j k ≡ same_text k j
same_text_sym j k = elim (Bool-cases (same_text j k)) [
  | inl e ↦ e ∙ sym (ap (λ t. same_text t j) (sym (same_text_eq j k e)) ∙ same_text_refl j)
  | inr e ↦ elim (Bool-cases (same_text k j)) [
    | inl f ↦ ap (λ t. same_text t k) (sym (same_text_eq k j f)) ∙ same_text_refl k ∙ sym f
    | inr f ↦ e ∙ sym f
  ]
]

same_left : (j l k : Text) → same_text j l ≡ true → same_text j k ≡ same_text l k
same_left j l k h = ap (λ t. same_text t k) (same_text_eq j l h)

count_of-count_up :
    (k l : Text) (d : Counts)
    → count_of k (count_up l d) ≡ (if same_text l k then 1 else 0) + count_of k d
unfolding count_of count_up
count_of-count_up k l [] = ground arith
count_of-count_up k l ((j, n) ∷ d) =
    ground (arith, count_of-count_up k l d, same_left j l k, same_left j k l, same_text_sym k l)

has_key-count_up :
    (k l : Text) (d : Counts) → has_key k (count_up l d) ≡ (same_text l k || has_key k d)
unfolding has_key count_up
has_key-count_up k l [] = ground arith
has_key-count_up k l ((j, n) ∷ d) =
    ground (arith, has_key-count_up k l d, same_left j l k, same_left j k l, same_text_sym k l)

member_same : (j k : Text) (ks : List Text) → same_text j k ≡ true → member j ks ≡ member k ks
member_same j k ks h = ap (λ t. member t ks) (same_text_eq j k h)

member-seen : (k j : Text) (seen : List Text) → member k seen ≡ true → member k (j ∷ seen) ≡ true
unfolding member
member-seen k j seen h = ground arith

member-own : (k : Text) (seen : List Text) → member k (k ∷ seen) ≡ true
unfolding member
member-own k seen = ground (arith, same_text_refl k)

module _ (key : Row → Text) where
  -- The counts at the end of the loop.
  collapse-count :
      (k : Text) (rows out : List Row) (counts : Counts)
      → count_of k (collapse key rows out counts).1
        ≡ count_of k counts + occurrences k (map key rows)
  unfolding collapse occurrences
  collapse-count k [] out counts = ground arith
  collapse-count k (r ∷ rows) out counts =
      let out' = if has_key (key r) counts then out else out ++ (r ∷ []) in
      ground (
        arith,
        collapse-count k rows out' (count_up (key r) counts),
        count_of-count_up k (key r) counts,
      )

  firsts-cong :
      (seen also : List Text) (rows : List Row)
      → ((k : Text) → member k seen ≡ member k also)
      → firsts key seen rows ≡ firsts key also rows
  unfolding firsts member
  firsts-cong seen also [] h = refl
  firsts-cong seen also (r ∷ rows) h = ground (
    arith,
    h (key r),
    firsts-cong seen also rows h,
    firsts-cong (key r ∷ seen) (key r ∷ also) rows (λ k. ap (λ b. same_text (key r) k || b) (h k)),
  )

  collapse-firsts :
      (seen : List Text) (rows out : List Row) (counts : Counts)
      → ((k : Text) → member k seen ≡ has_key k counts)
      → (collapse key rows out counts).0 ≡ out ++ firsts key seen rows
  unfolding collapse firsts member
  collapse-firsts seen [] out counts h = sym (append-nil out)
  collapse-firsts seen (r ∷ rows) out counts h =
      let counts' = count_up (key r) counts in
      let kept = λ (b : Bool). (collapse key rows (if b then out else out ++ (r ∷ [])) counts').0 in
      let spec = λ (b : Bool).
        out ++ (if b then firsts key seen rows else r ∷ firsts key (key r ∷ seen) rows) in
      elim (Bool-cases (member (key r) seen)) [
        | inl e ↦
            ap kept (sym (h (key r)) ∙ e)
            ∙ collapse-firsts seen rows out counts' (λ k.
              ground (arith, h k, has_key-count_up k (key r) counts, member_same (key r) k seen))
            ∙ ap spec (sym e)
        | inr e ↦
            ap kept (sym (h (key r)) ∙ e)
            ∙ collapse-firsts (key r ∷ seen) rows (out ++ (r ∷ [])) counts'
                (λ k. ground (arith, h k, has_key-count_up k (key r) counts))
            ∙ append_assoc out (r ∷ []) (firsts key (key r ∷ seen) rows)
            ∙ ap spec (sym e)
      ]

  -- The rows after the collapse, with their counts.
  dedup-firsts :
      (rows : List Row)
      → dedup_by_fqn key rows
        ≡ map (λ r. (r, occurrences (key r) (map key rows))) (firsts key [] rows)
  unfolding dedup_by_fqn member has_key count_of
  dedup-firsts rows =
      let counts = (collapse key rows [] []).1 in
      ap (map (λ r. (r, count_of (key r) counts))) (collapse-firsts [] rows [] [] (λ k. refl))
      ∙ ap (λ f. map f (firsts key [] rows))
          (fun_ext (λ (r : Row). ap (λ n. (r, n)) (collapse-count (key r) rows [] [] ∙ zero-add _)))

  -- Every row is counted in one of the rows that are kept, where those with a key seen before are left out.
  abbrev among : List Text → List Text → ℕ
  among seen [] = 0
  among seen (k ∷ ks) = (if member k seen then 1 else 0) + among seen ks

  abbrev with_counts : List Text → List Row → List (Row × ℕ)
  with_counts ks rows = map (λ r. (r, occurrences (key r) ks)) rows

  -- A key that is seen counts in none of the later rows.
  total-skip :
      (seen : List Text) (k : Text) (ks : List Text) (rows : List Row)
      → member k seen ≡ true
      → total (with_counts (k ∷ ks) (firsts key seen rows))
        ≡ total (with_counts ks (firsts key seen rows))
  unfolding firsts occurrences
  total-skip seen k ks [] h = refl
  total-skip seen k ks (r ∷ rows) h = elim (Bool-cases (member (key r) seen)) [
    | inl e ↦ rw e (total-skip seen k ks rows h)
    | inr e ↦
        let later = total-skip (key r ∷ seen) k ks rows (member-seen k (key r) seen h) in
        rw e (ground (arith, later, member_same k (key r) seen))
  ]

  among-cons :
      (seen ks : List Text) (k : Text)
      → member k seen ≡ false
      → among (k ∷ seen) ks ≡ occurrences k ks + among seen ks
  unfolding occurrences member
  among-cons seen [] k h = omega arith
  among-cons seen (j ∷ ks) k h =
      ground (arith, among-cons seen ks k h, same_text_sym k j, member_same k j seen)

  among-nil : (ks : List Text) → among [] ks ≡ 0
  unfolding member
  among-nil [] = refl
  among-nil (k ∷ ks) = omega (arith, among-nil ks)

  total-firsts :
      (seen : List Text) (rows : List Row)
      → total (with_counts (map key rows) (firsts key seen rows)) + among seen (map key rows)
        ≡ length rows
  unfolding firsts occurrences
  total-firsts seen [] = omega arith
  total-firsts seen (r ∷ rows) = elim (Bool-cases (member (key r) seen)) [
    | inl e ↦
        rw e (ground (arith, total-skip seen (key r) (map key rows) rows e, total-firsts seen rows))
    | inr e ↦
        let own = member-own (key r) seen in
        rw e (
          ground (
            arith,
            same_text_refl (key r),
            total-skip (key r ∷ seen) (key r) (map key rows) rows own,
            among-cons seen (map key rows) (key r) e,
            total-firsts (key r ∷ seen) rows,
          ))
  ]

  -- The rows that are kept are the first ones of each key, in order, each with the number of all rows of its key;
  -- the numbers add up to the number of rows.
  pub dedup_by_fqn_lem :
      (rows : List Row)
      → (dedup_by_fqn key rows
          ≡ map (λ r. (r, occurrences (key r) (map key rows))) (firsts key [] rows))
        × (total (dedup_by_fqn key rows) ≡ length rows)
  dedup_by_fqn_lem rows = (
    dedup-firsts rows,
    ap total (dedup-firsts rows) ∙ omega (arith, total-firsts [] rows, among-nil (map key rows)),
  )
