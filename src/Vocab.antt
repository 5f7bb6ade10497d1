-- ===== src/Vocab.antt =====
-- The vocabulary index: src/java_codebase_rag/absence/absence_vocab.py. Texts are lists of character codes; `str.lower`
-- is an argument. Dictionaries are lists in insertion order. A list index out of range is `none`.
pub mod Index
pub mod Lookup
pub mod Sidecar
pub mod Cache
mod Examples
use jrag.Base.{
  ℕ, zero, suc, ◌+◌, ◌-◌, Bool, true, false, not, Option, none, some, List, [], ◌∷◌, ◌++◌, map, leb,
  ltb, ◌==◌, if◌then◌else◌, ◌&&◌, ◌||◌, length, take, drop, Text, text_of, same_text, starts_with,
}
use jrag.Base.Order.{sort}

pub record SymbolRecord : Type 0 where
  pub node_id : Text
  pub fqn : Text
  pub simple_name : Text
  pub normalized_name : Text
  pub kind : Text
  pub owner : Option Text
  pub microservice : Option Text
  pub role : Option Text
  pub resolved : Bool

-- A row of the graph query: its columns may be null, and `resolved` missing.
pub record Row : Type 0 where
  pub id : Option Text
  pub fqn : Option Text
  pub name : Option Text
  pub kind : Option Text
  pub owner : Option Text
  pub microservice : Option Text
  pub role : Option Text
  pub resolved : Option Bool

-- `t.split(c)[0]`
pub cut_at : ℕ → Text → Text
cut_at c [] = []
cut_at c (x ∷ xs) = let front = x ∷ cut_at c xs in if x == c then [] else front

unfoldable pub normalize_name : (Text → Text) → Text → Text
unfolding cut_at
normalize_name lower name = lower (cut_at b'#' (cut_at b'(' (cut_at b'<' name)))

-- `range(from, from + n)`
abbrev pub range_from : ℕ → ℕ → List ℕ
range_from k zero = []
range_from k (suc n) = k ∷ range_from (suc k) n

abbrev single : Text → List Text
single [] = []
single (c ∷ cs) = (c ∷ cs) ∷ []

unfoldable pub qgrams : Text → ℕ → List Text
qgrams text q =
    if ltb (length text) q
    then single text
    else map (λ i. take q (drop i text)) (range_from 0 (length text - q + 1))

abbrev pub or_blank : Option Text → Text
or_blank none = []
or_blank (some t) = t

abbrev or_true : Option Bool → Bool
or_true none = true
or_true (some b) = b

unfoldable pub row_to_symbol_record : (Text → Text) → Row → SymbolRecord
row_to_symbol_record lower row = record {
  node_id = or_blank row.id;
  fqn = or_blank row.fqn;
  simple_name = or_blank row.name;
  normalized_name = normalize_name lower (or_blank row.name);
  kind = or_blank row.kind;
  owner = row.owner;
  microservice = row.microservice;
  role = row.role;
  resolved = or_true row.resolved;
}

abbrev pub Postings : Type 0
Postings = List (Text × List ℕ)

-- `if k not in d: d[k] = []`, then `d[k].append(i)`
unfoldable pub post : Text → ℕ → Postings → Postings
post k i [] = (k, i ∷ []) ∷ []
post k i ((j, is) ∷ d) =
    let later = post k i d in if same_text j k then (j, is ++ (i ∷ [])) ∷ d else (j, is) ∷ later

-- `d.get(k)`
unfoldable pub find_posting : Text → Postings → Option (List ℕ)
find_posting k [] = none
find_posting k ((j, is) ∷ d) =
    let later = find_posting k d in if same_text j k then some is else later

abbrev pub post_all : List Text → ℕ → Postings → Postings
post_all [] i d = d
post_all (k ∷ ks) i d = post_all ks i (post k i d)

-- The loop over `enumerate(records)` of both indexes, from index `i`.
abbrev pub index_from : (SymbolRecord → List Text) → ℕ → List SymbolRecord → Postings → Postings
index_from keys i [] d = d
index_from keys i (r ∷ rs) d = index_from keys (suc i) rs (post_all (keys r) i d)

pub record VocabularyIndex : Type 0 where
  pub records : List SymbolRecord
  pub ngram_index : Postings
  pub q : ℕ
  pub name_index : Postings

-- `__init__` without a name index
abbrev pub index_of : List SymbolRecord → Postings → ℕ → VocabularyIndex
index_of records ngrams q = record {
  records = records;
  ngram_index = ngrams;
  q = q;
  name_index = index_from (λ r. r.normalized_name ∷ []) 0 records [];
}

unfoldable pub build : (Text → Text) → List Row → ℕ → VocabularyIndex
build lower rows q =
    let records = map (row_to_symbol_record lower) rows in
    index_of records (index_from (λ r. qgrams r.normalized_name q) 0 records []) q

abbrev pub get_elem? : List SymbolRecord → ℕ → Option SymbolRecord
get_elem? [] i = none
get_elem? (r ∷ rs) zero = some r
get_elem? (r ∷ rs) (suc i) = get_elem? rs i

abbrev cons_option : Option SymbolRecord → Option (List SymbolRecord) → Option (List SymbolRecord)
cons_option (some r) (some rs) = some (r ∷ rs)
cons_option _ _ = none

-- `[self.records[idx] for idx in idxs]`
abbrev pub records_at : List SymbolRecord → List ℕ → Option (List SymbolRecord)
records_at records [] = some []
records_at records (i ∷ is) = cons_option (get_elem? records i) (records_at records is)

abbrev pub filter : (SymbolRecord → Bool) → List SymbolRecord → List SymbolRecord
filter p [] = []
filter p (r ∷ rs) = if p r then r ∷ filter p rs else filter p rs

-- `match_counts[idx] = match_counts.get(idx, 0) + 1`
pub count_up : ℕ → List (ℕ × ℕ) → List (ℕ × ℕ)
count_up i [] = (i, 1) ∷ []
count_up i ((j, n) ∷ d) =
    let later = count_up i d in if j == i then (j, suc n) ∷ d else (j, n) ∷ later

pub count_all : List ℕ → List (ℕ × ℕ) → List (ℕ × ℕ)
unfolding count_up
count_all [] d = d
count_all (i ∷ is) d = count_all is (count_up i d)

abbrev count_posting : Option (List ℕ) → List (ℕ × ℕ) → List (ℕ × ℕ)
count_posting none d = d
count_posting (some is) d = count_all is d

pub match_counts : Postings → List Text → List (ℕ × ℕ) → List (ℕ × ℕ)
unfolding count_all find_posting
match_counts index [] d = d
match_counts index (g ∷ gs) d = match_counts index gs (count_posting (find_posting g index) d)

abbrev pub by_overlap : VocabularyIndex → Text → List ℕ
by_overlap v normalized =
    map (λ c. c.0)
      (sort (λ a b. leb b.1 a.1) (match_counts v.ngram_index (qgrams normalized v.q) []))

abbrev pub overlap_lookup : VocabularyIndex → Text → ℕ → Option (List SymbolRecord)
overlap_lookup v normalized limit = records_at v.records (take limit (by_overlap v normalized))

-- The exact matches, if there are any, before the search by overlap.
abbrev pub choose :
    Option (List SymbolRecord) → Text → Option (List SymbolRecord) → Option (List SymbolRecord)
choose none name others = none
choose (some exact) name others = elim (filter (λ r. same_text r.simple_name name) exact) [
  | [] ↦ others
  | r ∷ rs ↦ some (r ∷ rs)
]

abbrev pub lookup_named :
    Option (List ℕ)
    → VocabularyIndex
    → Text
    → Option (List SymbolRecord)
    → Option (List SymbolRecord)
lookup_named none v name others = others
lookup_named (some is) v name others = choose (records_at v.records is) name others

unfoldable pub lookup : (Text → Text) → VocabularyIndex → Text → ℕ → Option (List SymbolRecord)
unfolding match_counts
lookup lower v name limit =
    let normalized = normalize_name lower name in
    lookup_named (find_posting normalized v.name_index) v name (overlap_lookup v normalized limit)

-- `_EXTERNAL_PREFIXES`
abbrev external_prefixes : List Text
external_prefixes =
    text_of "java."
    ∷ text_of "javax."
    ∷ text_of "jakarta."
    ∷ text_of "org.springframework."
    ∷ text_of "lombok."
    ∷ []

any_prefix : List Text → Text → Bool
unfolding starts_with
any_prefix [] t = false
any_prefix (p ∷ ps) t = starts_with p t || any_prefix ps t

pub is_external_fqn : Text → Bool
unfolding any_prefix cut_at
is_external_fqn fqn = any_prefix external_prefixes (cut_at b'#' fqn)

unfoldable pub has_external_prefix : Text → Bool
unfolding any_prefix is_external_fqn
has_external_prefix name = is_external_fqn name || any_prefix external_prefixes name

pub data Reason : Type 0 where
  prefix phantom : Reason

abbrev pub is_called : Text → SymbolRecord → Bool
is_called name r = same_text r.simple_name name || same_text r.fqn name

-- The loop over the matching indices: the first record that is called so.
abbrev pub first_called : Text → List SymbolRecord → Option SymbolRecord
first_called name [] = none
first_called name (r ∷ rs) = if is_called name r then some r else first_called name rs

abbrev pub judge : Option SymbolRecord → Bool × Option Reason
judge none = (false, none)
judge (some r) = if r.resolved then (false, none) else (true, some phantom)

abbrev pub judge_first : Text → Option (List SymbolRecord) → Option (Bool × Option Reason)
judge_first name none = none
judge_first name (some rs) = some (judge (first_called name rs))

abbrev pub found : Option (List ℕ) → List ℕ
found none = []
found (some is) = is

-- `is_external`; the records are read before the loop, which never reads outside of the list for an index of `build`.
unfoldable pub is_external : (Text → Text) → VocabularyIndex → Text → Option (Bool × Option Reason)
is_external lower v name =
    if has_external_prefix name
    then some (true, some prefix)
    else judge_first name
        (records_at v.records (found (find_posting (normalize_name lower name) v.name_index)))
