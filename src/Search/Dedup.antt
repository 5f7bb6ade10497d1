-- ===== src/Search/Dedup.antt =====
-- The collapse of chunks of one type: `_dedup_by_fqn` of src/java_codebase_rag/search/search_scoring.py. A row is
-- its type's name, its id and the identity of its object; `str` of a number is an argument.
pub mod Counted
use jrag.Base.{
  ℕ, zero, suc, ◌+◌, Bool, true, false, not, Option, none, some, List, [], ◌∷◌, ◌++◌, map, ◌≡◌,
  refl, sym, ap, ◌∙◌, arith, if◌then◌else◌, ◌||◌, Bool-cases, inl, inr, length, Text, text_of,
  same_text, same_text_refl, same_text_eq, append-nil, append_assoc,
}

pub record Row : Type 0 where
  pub fqn : Option Text
  pub id : Option Text
  pub object_id : ℕ

abbrev id_key : (ℕ → Text) → ℕ → Option Text → Text
id_key str n none = text_of "__id:" ++ str n
id_key str n (some []) = text_of "__id:" ++ str n
id_key str n (some (c ∷ cs)) = text_of "__id:" ++ (c ∷ cs)

abbrev row_key : (ℕ → Text) → Row → Option Text → Text
row_key str r none = id_key str r.object_id r.id
row_key str r (some []) = id_key str r.object_id r.id
row_key str r (some (c ∷ cs)) = c ∷ cs

-- The dedup key of a row
pub key_of : (ℕ → Text) → Row → Text
key_of str r = row_key str r r.fqn

abbrev pub Counts : Type 0
Counts = List (Text × ℕ)

pub count_of : Text → Counts → ℕ
count_of k [] = 0
count_of k ((j, n) ∷ d) = if same_text j k then n else count_of k d

pub has_key : Text → Counts → Bool
has_key k [] = false
has_key k ((j, n) ∷ d) = same_text j k || has_key k d

-- `collapsed_counts[key] += 1`, or `= 1` for a new key
pub count_up : Text → Counts → Counts
count_up k [] = (k, 1) ∷ []
count_up k ((j, n) ∷ d) = if same_text j k then (j, suc n) ∷ d else (j, n) ∷ count_up k d

-- The loop, on the rows kept and the counts; `seen_keys` has the keys of the counts.
pub collapse : (Row → Text) → List Row → List Row → Counts → List Row × Counts
unfolding has_key count_up
collapse key [] out counts = (out, counts)
collapse key (r ∷ rows) out counts =
    collapse key rows (if has_key (key r) counts then out else out ++ (r ∷ []))
      (count_up (key r) counts)

-- `_dedup_by_fqn`: the rows, each with its `_chunks_collapsed`
pub dedup_by_fqn : (Row → Text) → List Row → List (Row × ℕ)
unfolding collapse count_of
dedup_by_fqn key rows =
    let (out, counts) = collapse key rows [] [] in map (λ r. (r, count_of (key r) counts)) out
