-- ===== src/Envelope.antt =====
-- The id-free output of a command: `Envelope._to_idfree_dict`, `node_key` and the removal of graph ids of
-- src/java_codebase_rag/jrag_envelope.py. A dictionary of nodes is a list in insertion order. Arguments: `str` of a
-- value that is no text, and of a number.
pub mod Stripped
pub mod Keys
mod Examples
use jrag.Base.Values.{
  Value, null, bool, num, text, list, object, Items, nil, item, Fields, end, field, find_field,
  truthy,
}
unfoldable pub use jrag.Base.Tables.{Table}
use jrag.Base.{
  ends_with, ℕ, zero, suc, ◌+◌, Bool, true, false, not, Option, none, some, List, [], ◌∷◌, ◌++◌,
  map, ◌≡◌, ◌==◌, leb, if◌then◌else◌, ◌&&◌, ◌||◌, length, Text, text_of, same_text, one_of,
  starts_with, strip,
}

abbrev text_or : (Value → Text) → Option Value → Text
text_or str none = []
text_or str (some (text t)) = t
text_or str (some v) = if truthy v then str v else []

-- `str(node.get(k) or "").strip()`
abbrev pub get_text : (Value → Text) → Text → Fields → Text
get_text str k node = strip (text_or str (find_field k node))

abbrev first_of : Text → Option Text → Option Text
first_of [] other = other
first_of (c ∷ cs) other = some (c ∷ cs)

abbrev with_target : Text → Text → Text
with_target member [] = member
with_target member (c ∷ cs) = member ++ (text_of "->" ++ (c ∷ cs))

abbrev member_key : Text → Text → Option Text → Option Text
member_key [] target other = other
member_key (c ∷ cs) target other = some (with_target (c ∷ cs) target)

abbrev topic_key : Text → Option Text → Option Text
topic_key [] other = other
topic_key (c ∷ cs) other = some (text_of "topic:" ++ (c ∷ cs))

unfoldable pub node_key : (Value → Text) → Fields → Option Text
node_key str node =
    let get = λ (k : Text). get_text str k node in
    first_of (get (text_of "fqn")) (
      member_key (get (text_of "member_fqn")) (get (text_of "target_service")) (
        topic_key (get (text_of "topic"))
          (first_of (get (text_of "name")) (first_of (get (text_of "file")) none))))

abbrev is_hex : ℕ → Bool
is_hex c = (leb 48 c && leb c 57) || (leb 97 c && leb c 102)

abbrev all_hex : Text → Bool
all_hex [] = true
all_hex (c ∷ cs) = is_hex c && all_hex cs

-- `_HEX_TAIL_RE.search`: eight hexadecimal digits in a row; so many have just been seen.
unfoldable pub has_hex_run : ℕ → Text → Bool
has_hex_run n [] = leb 8 n
has_hex_run n (c ∷ cs) = leb 8 n || has_hex_run (if is_hex c then suc n else 0) cs

-- `key.split(":", 1)[0]` and `key.rsplit(":", 1)[-1]`
unfoldable pub head_of : Text → Text
head_of [] = []
head_of (c ∷ cs) = if c == b':' then [] else c ∷ head_of cs

unfoldable pub tail_from : Text → Text → Text
tail_from last [] = last
tail_from last (c ∷ cs) = tail_from (if c == b':' then cs else last) cs

abbrev id_prefixes : List Text
id_prefixes =
    text_of "r"
    ∷ text_of "ucs"
    ∷ text_of "sym"
    ∷ text_of "chunk"
    ∷ text_of "route"
    ∷ text_of "member"
    ∷ []

abbrev has_colon : Text → Bool
has_colon [] = false
has_colon (c ∷ cs) = c == b':' || has_colon cs

unfoldable pub looks_like_raw_graph_id : Text → Bool
unfolding has_hex_run head_of tail_from one_of
looks_like_raw_graph_id key =
    (length key == 40 && all_hex key)
    || (has_colon key && (one_of (head_of key) id_prefixes && has_hex_run 0 (tail_from [] key)))

unfoldable pub is_graph_id_field : Text → Bool
unfolding ends_with same_text
is_graph_id_field key = same_text key (text_of "id") || ends_with (text_of "_id") key

unfoldable mutual
  -- `_strip_nested_ids`
  pub strip_nested_ids : Value → Value
  strip_nested_ids (object fs) = object (strip_graph_id_fields fs)
  strip_nested_ids (list xs) = list (strip_items xs)
  strip_nested_ids null = null
  strip_nested_ids (bool b) = bool b
  strip_nested_ids (num n) = num n
  strip_nested_ids (text t) = text t

  pub strip_items : Items → Items
  strip_items nil = nil
  strip_items (item x xs) = item (strip_nested_ids x) (strip_items xs)

  pub strip_graph_id_fields : Fields → Fields
  strip_graph_id_fields end = end
  strip_graph_id_fields (field k v fs) =
      let rest = strip_graph_id_fields fs in
      let kept = field k (strip_nested_ids v) rest in if is_graph_id_field k then rest else kept

-- `d.get(k, default)`
unfoldable pub get_or : {A : Type 0} → A → Text → Table A → A
get_or a k [] = a
get_or a k ((j, b) ∷ d) = if same_text j k then b else get_or a k d

-- `d[k] = v`
unfoldable pub put : {A : Type 0} → Text → A → Table A → Table A
put k a [] = (k, a) ∷ []
put k a ((j, b) ∷ d) = if same_text j k then (j, a) ∷ d else (j, b) ∷ put k a d

-- `used.add(key)`
abbrev pub add : Text → List Text → List Text
add k used = if one_of k used then used else k ∷ used

module _ (digits : ℕ → Text) where
  abbrev pub suffixed : Text → ℕ → Text
  suffixed base n = base ++ (b'#' ∷ digits n)

  -- `while key in used`, on fuel
  unfoldable pub unused_key : ℕ → ℕ → Text → Text → List Text → Text
  unused_key zero n key base used = key
  unused_key (suc fuel) n key base used =
      let later = unused_key fuel (suc n) (suffixed base n) base used in
      if one_of key used then later else key

module _ (str : Value → Text) (digits : ℕ → Text) where
  abbrev pub chosen_key : List Text → Text → Option Text → Text
  chosen_key used id none =
      if looks_like_raw_graph_id id then text_of "node-" ++ digits (length used) else id
  chosen_key used id (some base) = unused_key digits (suc (length used)) 2 base base used

  -- The loop over the nodes: `id_to_key`, from the keys used before.
  unfoldable pub id_to_key : List Text → Table Fields → Table Text
  id_to_key used [] = []
  id_to_key used ((id, node) ∷ nodes) =
      let key = chosen_key used id (node_key str node) in (id, key) ∷ id_to_key (add key used) nodes

unfoldable pub rekey : Table Text → Table Fields → Table Fields → Table Fields
unfolding put get_or
rekey keys [] out = out
rekey keys ((id, node) ∷ nodes) out =
    rekey keys nodes (put (get_or id id keys) (strip_graph_id_fields node) out)

abbrev ref_keys : List Text
ref_keys = text_of "other_id" ∷ text_of "dst_id" ∷ text_of "target_id" ∷ text_of "term_id" ∷ []

abbrev ref_of : Option Text → Value → Option Text
ref_of none (text (c ∷ cs)) = some (c ∷ cs)
ref_of found v = found

-- The loop of `_edge_to_idfree`: the reference found, and the other attributes.
unfoldable pub edge_parts : Option Text → Fields → Option Text × Fields
edge_parts ref end = (ref, end)
edge_parts ref (field k v fs) =
    let (taken, without) = edge_parts (ref_of ref v) fs in
    let (later, rest) = edge_parts ref fs in
    if one_of k ref_keys
    then (taken, without)
    else if is_graph_id_field k
    then (later, rest)
    else (later, field k v rest)

unfoldable pub put_field : Text → Value → Fields → Fields
put_field k v end = field k v end
put_field k v (field j w fs) = if same_text j k then field j v fs else field j w (put_field k v fs)

abbrev add_target : Table Text → Option Text × Fields → Fields
add_target keys (none, fs) = fs
add_target keys (some r, fs) = put_field (text_of "target") (text (get_or r r keys)) fs

-- `_edge_to_idfree`
unfoldable pub edge_to_idfree : Table Text → Fields → Fields
unfolding edge_parts put_field get_or
edge_to_idfree keys edge = add_target keys (edge_parts none edge)

-- What an envelope says about nodes, before and after.
pub record Envelope : Type 0 where
  pub nodes : Table Fields
  pub edges : List Fields
  pub root : Option Text
  pub candidates : List Fields

abbrev root_key : Table Text → Option Text → Option Text
root_key keys none = none
root_key keys (some r) = some (get_or r r keys)

module _ (str : Value → Text) (digits : ℕ → Text) where
  -- `_to_idfree_dict`
  unfoldable pub to_idfree_dict : Envelope → Envelope
  unfolding id_to_key rekey edge_to_idfree get_or
  to_idfree_dict e =
      let keys = id_to_key str digits [] e.nodes in
      record {
        nodes = rekey keys e.nodes [];
        edges = map (λ x. edge_to_idfree keys x) e.edges;
        root = root_key keys e.root;
        candidates = map (λ c. strip_graph_id_fields c) e.candidates;
      }
