-- ===== src/Vocab/Lookup.antt =====
-- What `lookup` and `is_external` of src/java_codebase_rag/absence/absence_vocab.py answer from an index of `build`.
use jrag.Base.{
  ℕ, false, Option, none, some, List, [], ◌∷◌, ◌≡◌, refl, ap, ◌∙◌, arith, Bool-cases, inl, inr, map,
  Text, same_text, same_text_refl, same_text_eq,
}
use jrag.Vocab.{
  found, or_blank, judge_first, SymbolRecord, Row, find_posting, records_at, filter,
  VocabularyIndex, build, normalize_name, row_to_symbol_record, choose, lookup_named,
  overlap_lookup, lookup, is_external, has_external_prefix, first_called, judge,
}
use jrag.Vocab.Index.{found-index_from, records_at-named}

-- The records of an index that `build` makes.
abbrev pub records_of : (Text → Text) → List Row → List SymbolRecord
records_of lower rows = map (row_to_symbol_record lower) rows

abbrev pub with_name : Text → List SymbolRecord → List SymbolRecord
with_name name rs = filter (λ r. same_text r.simple_name name) rs

abbrev pub with_normalized : Text → List SymbolRecord → List SymbolRecord
with_normalized k rs = filter (λ r. same_text r.normalized_name k) rs

-- The first answer if it holds anything, else the second.
abbrev pub exact_or : List SymbolRecord → Option (List SymbolRecord) → Option (List SymbolRecord)
exact_or [] others = others
exact_or (r ∷ rs) others = some (r ∷ rs)

-- The name index of `build` gives the records with the normalized name.
found_records :
    (lower : Text → Text) (rows : List Row) (q : ℕ) (k : Text)
    → records_at
        (build lower rows q).records
        (found (find_posting k (build lower rows q).name_index))
      ≡ some (with_normalized k (records_of lower rows))
unfolding build find_posting
found_records lower rows q k =
    let rs = records_of lower rows in
    ap (records_at rs) (found-index_from k 0 rs []) ∙ records_at-named k [] rs

with_name-normalized :
    (lower : Text → Text) (rows : List Row) (name : Text)
    → with_name name (with_normalized (normalize_name lower name) (records_of lower rows))
      ≡ with_name name (records_of lower rows)
unfolding row_to_symbol_record
with_name-normalized lower [] name = refl
with_name-normalized lower (row ∷ rows) name =
    let k = normalize_name lower name in
    let n = or_blank row.name in
    let ih = with_name-normalized lower rows name in
    elim (Bool-cases (same_text n name)) [
      | inl e ↦ ground (
        arith,
        ih,
        ap (λ t. same_text (normalize_name lower t) k) (same_text_eq n name e),
        same_text_refl k,
      )
      | inr e ↦ elim (Bool-cases (same_text (normalize_name lower n) k)) [
        | inl f ↦ ground (arith, ih)
        | inr f ↦ ground (arith, ih)
      ]
    ]

choose-some :
    (name : Text) (l : List SymbolRecord) (others : Option (List SymbolRecord))
    → choose (some l) name others ≡ exact_or (with_name name l) others
choose-some name l others = ground arith

named_cases :
    (o : Option (List ℕ)) (v : VocabularyIndex) (name : Text) (l : List SymbolRecord)
    (others : Option (List SymbolRecord))
    → records_at v.records (found o) ≡ some l
    → lookup_named o v name others ≡ exact_or (with_name name l) others
named_cases none v name l others h = ground arith
named_cases (some is) v name l others h = rw h (choose-some name l others)

-- The lookup in an index of `build` returns the records whose simple name is the given one, all of them and in the
-- order of the graph's rows whatever the limit, if there is any; else it is the search by overlap with the limit.
pub lookup-build :
    (lower : Text → Text) (rows : List Row) (q : ℕ) (name : Text) (limit : ℕ)
    → lookup lower (build lower rows q) name limit
      ≡ exact_or
          (with_name name (records_of lower rows))
          (overlap_lookup (build lower rows q) (normalize_name lower name) limit)
unfolding lookup
lookup-build lower rows q name limit =
    let k = normalize_name lower name in
    let v = build lower rows q in
    let others = overlap_lookup v k limit in
    named_cases (find_posting k v.name_index) v name (with_normalized k (records_of lower rows))
      others (found_records lower rows q k)
    ∙ ap (λ l. exact_or l others) (with_name-normalized lower rows name)

-- A name with no external prefix, asked of an index of `build`, is external exactly if the first record that has
-- the name as its simple name or its fqn, among those whose normalized simple name is the normalized name, is
-- unresolved: a record with that fqn alone is not found.
pub is_external-build :
    (lower : Text → Text) (rows : List Row) (q : ℕ) (name : Text)
    → has_external_prefix name ≡ false
    → is_external lower (build lower rows q) name
      ≡ some (
          judge (
            first_called name
              (with_normalized (normalize_name lower name) (records_of lower rows))))
unfolding is_external
is_external-build lower rows q name h =
    rw h (ap (judge_first name) (found_records lower rows q (normalize_name lower name)))
