-- ===== src/Vocab/Sidecar.antt =====
-- The sidecar of the vocabulary index as a JSON value: the dictionaries that `save` builds and `load` reads in
-- src/java_codebase_rag/absence/absence_vocab.py. A value of another type than `save` writes is refused here.
use jrag.Base.{
  ℕ, Bool, true, false, Option, none, some, List, [], ◌∷◌, ◌≡◌, refl, ◌==◌, ==_iff, length, Text,
  text_of, same_text,
}
use jrag.Base.Values.{
  Value, null, bool, num, text, list, object, Items, nil, item, Fields, end, field, find_field,
}
use jrag.Vocab.{SymbolRecord, Postings, VocabularyIndex, index_of}

infixl 5 ◌>>=◌
abbrev pub ◌>>=◌ : {A B : Type 0} → Option A → (A → Option B) → Option B
none >>= f = none
some a >>= f = f a

abbrev optional : Option Text → Value
optional none = null
optional (some t) = text t

-- One entry of `"records"`
unfoldable pub record_value : SymbolRecord → Value
record_value r = object (
    field (text_of "node_id") (text r.node_id) (
      field (text_of "fqn") (text r.fqn) (
        field (text_of "simple_name") (text r.simple_name) (
          field (text_of "normalized_name") (text r.normalized_name) (
            field (text_of "kind") (text r.kind) (
              field (text_of "module") (optional r.owner) (
                field (text_of "microservice") (optional r.microservice) (
                  field (text_of "role") (optional r.role)
                    (field (text_of "resolved") (bool r.resolved) end)))))))))

unfoldable pub list_value : {A : Type 0} → (A → Value) → List A → Items
list_value f [] = nil
list_value f (a ∷ as_) = item (f a) (list_value f as_)

unfoldable pub postings_value : Postings → Fields
unfolding list_value
postings_value [] = end
postings_value ((k, is) ∷ d) = field k (list (list_value num is)) (postings_value d)

-- `d[k]`
unfoldable pub item_at : Text → Value → Option Value
unfolding find_field
item_at k (object fs) = find_field k fs
item_at k _ = none

abbrev as_text : Value → Option Text
as_text (text t) = some t
as_text _ = none

abbrev as_bool : Value → Option Bool
as_bool (bool b) = some b
as_bool _ = none

abbrev as_num : Value → Option ℕ
as_num (num n) = some n
as_num _ = none

-- `d.get(k)`, where the value is a text, null or missing
abbrev as_optional : Option Value → Option (Option Text)
as_optional none = some none
as_optional (some null) = some none
as_optional (some (text t)) = some (some t)
as_optional (some _) = none

abbrev text_at : Text → Value → Option Text
text_at k v = item_at k v >>= as_text

-- `SymbolRecord(…)` of an entry
unfoldable pub read_record : Value → Option SymbolRecord
unfolding item_at
read_record v = do
  node_id ← text_at (text_of "node_id") v
  fqn ← text_at (text_of "fqn") v
  simple_name ← text_at (text_of "simple_name") v
  normalized_name ← text_at (text_of "normalized_name") v
  kind ← text_at (text_of "kind") v
  owner ← as_optional (item_at (text_of "module") v)
  microservice ← as_optional (item_at (text_of "microservice") v)
  role ← as_optional (item_at (text_of "role") v)
  resolved ← item_at (text_of "resolved") v >>= as_bool
  some (record {
    node_id = node_id;
    fqn = fqn;
    simple_name = simple_name;
    normalized_name = normalized_name;
    kind = kind;
    owner = owner;
    microservice = microservice;
    role = role;
    resolved = resolved;
  })

unfoldable pub read_items : {A : Type 0} → (Value → Option A) → Items → Option (List A)
read_items f nil = some []
read_items f (item v xs) = do a ← f v; as_ ← read_items f xs; some (a ∷ as_)

abbrev read_list : {A : Type 0} → (Value → Option A) → Value → Option (List A)
unfolding read_items
read_list f (list xs) = read_items f xs
read_list f _ = none

unfoldable pub read_fields : Fields → Option Postings
unfolding read_items
read_fields end = some []
read_fields (field k v fs) = do is ← read_list as_num v; d ← read_fields fs; some ((k, is) ∷ d)

abbrev read_postings : Value → Option Postings
unfolding read_fields
read_postings (object fs) = read_fields fs
read_postings _ = none

-- `FORMAT_VERSION`
abbrev pub format : ℕ
format = 1

-- The dictionary that `save` dumps, at a time.
unfoldable pub sidecar_value : (built_at ontology : ℕ) → VocabularyIndex → Value
unfolding record_value list_value postings_value
sidecar_value built_at ontology v = object (
    field (text_of "format_version") (num format) (
      field (text_of "ontology_version") (num ontology) (
        field (text_of "built_at") (num built_at) (
          field (text_of "symbol_count") (num (length v.records)) (
            field (text_of "q") (num v.q) (
              field (text_of "records") (list (list_value record_value v.records))
                (field (text_of "ngrams") (object (postings_value v.ngram_index)) end)))))))

-- `x == n`, where `True == 1` and `False == 0`
abbrev is_number : ℕ → Value → Bool
is_number n (num m) = m == n
is_number n (bool true) = n == 1
is_number n (bool false) = n == 0
is_number n _ = false

abbrev has_version : ℕ → Option Value → Bool
has_version n none = false
has_version n (some v) = is_number n v

abbrev when : {A : Type 0} → Bool → Option A → Option A
when true o = o
when false o = none

-- What `load` makes of the value of the file; `none` where it raises
unfoldable pub read_sidecar : (ontology : ℕ) → Value → Option VocabularyIndex
unfolding item_at read_record read_items read_fields
read_sidecar ontology v = when (has_version format (item_at (text_of "format_version") v)) (
    when (has_version ontology (item_at (text_of "ontology_version") v)) (do
      records ← item_at (text_of "records") v >>= read_list read_record
      ngrams ← item_at (text_of "ngrams") v >>= read_postings
      q ← item_at (text_of "q") v >>= as_num
      some (index_of records ngrams q)))

as_optional_lem : (o : Option Text) → as_optional (some (optional o)) ≡ some o
as_optional_lem none = refl
as_optional_lem (some t) = refl

read_record_value : (r : SymbolRecord) → read_record (record_value r) ≡ some r
unfolding read_record record_value item_at find_field same_text
read_record_value r =
    rw (as_optional_lem r.owner)
      (rw (as_optional_lem r.microservice) (rw (as_optional_lem r.role) refl))

-- What is read back of each element is read back of the list.
read_list_value :
    {A : Type 0} (read : Value → Option A) (write : A → Value)
    → ((a : A) → read (write a) ≡ some a)
    → (as_ : List A) → read_items read (list_value write as_) ≡ some as_
unfolding read_items list_value
read_list_value read write h [] = refl
read_list_value read write h (a ∷ as_) = rw (h a) (rw (read_list_value read write h as_) refl)

read_postings_value : (d : Postings) → read_fields (postings_value d) ≡ some d
unfolding read_fields postings_value
read_postings_value [] = refl
read_postings_value ((k, is) ∷ d) =
    rw (read_list_value as_num num (λ n. refl) is) (rw (read_postings_value d) refl)

-- An index that was built from its records is read back whole from the value that is saved.
pub read_sidecar_value :
    (built_at ontology : ℕ) (records : List SymbolRecord) (ngrams : Postings) (q : ℕ)
    → read_sidecar ontology (sidecar_value built_at ontology (index_of records ngrams q))
      ≡ some (index_of records ngrams q)
unfolding read_sidecar sidecar_value item_at find_field same_text
read_sidecar_value built_at ontology records ngrams q = rw ((==_iff ontology ontology).1 refl) (
    rw (read_list_value read_record record_value read_record_value records)
      (rw (read_postings_value ngrams) refl))
