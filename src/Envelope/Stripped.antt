-- ===== src/Envelope/Stripped.antt =====
-- What `_strip_graph_id_fields` of src/java_codebase_rag/jrag_envelope.py leaves.
use jrag.Base.Values.{
  Value, null, bool, num, text, list, object, Items, nil, item, Fields, end, field, find_field,
}
use jrag.Base.{
  Bool, true, false, Option, none, some, ◌≡◌, refl, ap, ◌∙◌, arith, if◌then◌else◌, ◌&&◌, Bool-cases,
  inl, inr, Text, same_text, same_text_eq,
}
use jrag.Envelope.{is_graph_id_field, strip_nested_ids, strip_items, strip_graph_id_fields}

-- No dictionary in a value, at any depth, has a graph id field.
unfoldable mutual
  pub has_no_ids : Value → Bool
  has_no_ids (object fs) = no_id_fields fs
  has_no_ids (list xs) = no_id_items xs
  has_no_ids null = true
  has_no_ids (bool b) = true
  has_no_ids (num n) = true
  has_no_ids (text t) = true

  pub no_id_items : Items → Bool
  no_id_items nil = true
  no_id_items (item x xs) = has_no_ids x && no_id_items xs

  pub no_id_fields : Fields → Bool
  no_id_fields end = true
  no_id_fields (field k v fs) =
      (if is_graph_id_field k then false else has_no_ids v) && no_id_fields fs

mutual
  unfolding has_no_ids strip_nested_ids

  nested_no_ids : (v : Value) → has_no_ids (strip_nested_ids v) ≡ true
  nested_no_ids (object fs) = fields_no_ids fs
  nested_no_ids (list xs) = items_no_ids xs
  nested_no_ids null = refl
  nested_no_ids (bool b) = refl
  nested_no_ids (num n) = refl
  nested_no_ids (text t) = refl

  items_no_ids : (xs : Items) → no_id_items (strip_items xs) ≡ true
  items_no_ids nil = refl
  items_no_ids (item x xs) = ground (arith, nested_no_ids x, items_no_ids xs)

  fields_no_ids : (fs : Fields) → no_id_fields (strip_graph_id_fields fs) ≡ true
  fields_no_ids end = refl
  fields_no_ids (field k v fs) = ground (arith, nested_no_ids v, fields_no_ids fs)

abbrev pub stripped_value : Option Value → Option Value
stripped_value none = none
stripped_value (some v) = some (strip_nested_ids v)

find_field-strip :
    (k : Text) (fs : Fields)
    → is_graph_id_field k ≡ false
    → find_field k (strip_graph_id_fields fs) ≡ stripped_value (find_field k fs)
unfolding find_field strip_nested_ids
find_field-strip k end h = refl
find_field-strip k (field j v fs) h = elim (Bool-cases (same_text j k)) [
  | inl e ↦ let kept = ap is_graph_id_field (same_text_eq j k e) ∙ h in rw (e, kept) (rw e refl)
  | inr e ↦ ground (arith, find_field-strip k fs h)
]

-- After the removal of graph ids no dictionary in the node, at any depth, has a graph id field, and under every other
-- key stands what stood there, with its own graph ids removed.
pub strip_graph_id_fields_lem :
    (fs : Fields)
    → (no_id_fields (strip_graph_id_fields fs) ≡ true)
      × ((k : Text)
          → is_graph_id_field k ≡ false
          → find_field k (strip_graph_id_fields fs) ≡ stripped_value (find_field k fs))
strip_graph_id_fields_lem fs = (fields_no_ids fs, λ k h. find_field-strip k fs h)
