-- ===== src/Resolve.antt =====
-- Identifier resolution: src/java_codebase_rag/analysis/resolve_service.py from the candidates
-- on. The graph queries that find candidates, the absence diagnosis and the hints are arguments.
pub mod Best
pub mod Ranking
pub mod Answers
mod Examples
use text.Mathlib.Text.{◌==◌ as str_eq}
use Prim.Native.Char.{code}
use jrag.Base.{
  is_space, ℕ, zero, suc, ◌+◌, ◌-◌, Bool, true, false, Option, none, some, List, [], ◌∷◌, ◌++◌,
  String, ltb, leb, ◌==◌, if◌then◌else◌, ◌&&◌, ◌||◌, not, length, take, map,
}
use jrag.Base.Order.{sort}

-- `NodeRef`, as far as resolution reads it.
pub record Node : Type 0 where
  pub id : String
  pub fqn : String

pub data Reason : Type 0 where
  exact_id exact_fqn route_method_path client_target_path producer_topic_prefix : Reason
  fqn_suffix route_template route_topic client_fqn : Reason
  short_name client_target client_name producer_topic route_topic_prefix : Reason

-- `_RESOLVE_REASON_PRIORITY`
pub priority : Reason → ℕ
priority exact_id = 0
priority exact_fqn = 1
priority route_method_path = 1
priority client_target_path = 1
priority producer_topic_prefix = 1
priority fqn_suffix = 2
priority route_template = 2
priority route_topic = 2
priority client_fqn = 2
priority short_name = 3
priority client_target = 3
priority client_name = 3
priority producer_topic = 3
priority route_topic_prefix = 3

-- One raw match: the node, why it matches, and how specific that is.
pub record Match : Type 0 where
  pub node : Node
  pub reason : Reason
  pub specificity : ℕ

-- The test under which a later match of a node takes the place of `prev`.
pub improves : Match → Match → Bool
unfolding priority
improves new prev =
    ltb (priority new.reason) (priority prev.reason)
    || (priority new.reason == priority prev.reason && ltb prev.specificity new.specificity)

-- One turn of the loop of `_resolve_dedupe_candidates`, on the values of `best` in insertion order.
pub keep_best : Match → List Match → List Match
keep_best m [] = m ∷ []
keep_best m (p ∷ ps) =
    if str_eq m.node.id p.node.id
    then (if improves m p then m ∷ ps else p ∷ ps)
    else p ∷ keep_best m ps

pub dedupe_from : List Match → List Match → List Match
unfolding keep_best
dedupe_from best [] = best
dedupe_from best (m ∷ ms) = dedupe_from (keep_best m best) ms

-- `_resolve_dedupe_candidates`
pub dedupe : List Match → List Match
unfolding dedupe_from
dedupe raw = dedupe_from [] raw

-- Python's order of strings: by code points.
unfoldable pub str_leb : String → String → Bool
str_leb String.[] t = true
str_leb (String.◌∷◌ c s) String.[] = false
str_leb (String.◌∷◌ c s) (String.◌∷◌ d t) =
    if ltb (code c) (code d) then true else (code c == code d && str_leb s t)

-- The order of the sort key `(priority, -specificity, id)`.
pub match_le : Match → Match → Bool
unfolding priority str_leb
match_le a b =
    ltb (priority a.reason) (priority b.reason)
    || (priority a.reason == priority b.reason
        && (ltb b.specificity a.specificity
            || (a.specificity == b.specificity && str_leb a.node.id b.node.id)))

-- A `ResolveCandidate`; its score is the quotient of the two numbers.
pub record Candidate : Type 0 where
  pub node : Node
  pub reason : Reason
  pub score : ℕ × ℕ

-- `1.0 - idx / total`, for each index.
pub number_from : ℕ → ℕ → List Match → List Candidate
number_from total idx [] = []
number_from total idx (m ∷ ms) =
    record { node = m.node; reason = m.reason; score = (total - idx, total) }
    ∷ number_from total (suc idx) ms

-- `_resolve_rank_candidates`
pub rank : List Match → List Candidate
unfolding number_from sort match_le
rank deduped = let ordered = sort match_le deduped in number_from (length ordered) 0 ordered

abbrev pub candidate_cap : ℕ
candidate_cap = 10

pub data Status : Type 0 where
  one many missing : Status

-- `ResolveOutput`, with `message` and `resolved_identifier` as texts.
pub record Output : Type 0 where
  pub success : Bool
  pub status : Status
  pub node : Option Node
  pub candidates : List Candidate
  pub message : Option String
  pub resolved_identifier : Option String

-- The three outputs of `_resolve_finalize_success`.
pub finalize : String → String → List Candidate → Output
finalize no_matches trimmed [] = record {
  success = true;
  status = missing;
  node = none;
  candidates = [];
  message = some no_matches;
  resolved_identifier = some trimmed;
}
finalize no_matches trimmed (c ∷ []) = record {
  success = true;
  status = one;
  node = some c.node;
  candidates = [];
  message = none;
  resolved_identifier = some trimmed;
}
finalize no_matches trimmed (c ∷ d ∷ ds) = record {
  success = true;
  status = many;
  node = none;
  candidates = c ∷ d ∷ ds;
  message = none;
  resolved_identifier = some trimmed;
}

abbrev has_text : Option String → Bool
has_text none = false
has_text (some s) = not (str_eq s "")

abbrev no_node : Option Node → Bool
no_node none = true
no_node (some _) = false

abbrev no_candidate : List Candidate → Bool
no_candidate [] = true
no_candidate (c ∷ cs) = false

abbrev is_missing : Status → Bool
is_missing missing = true
is_missing _ = false

abbrev asserts_of : Status → Output → Bool
asserts_of one out = not (no_node out.node) && no_candidate out.candidates
asserts_of many out = no_node out.node && leb 2 (length out.candidates)
asserts_of missing out = no_node out.node && (no_candidate out.candidates && has_text out.message)

-- `_resolve_assert_invariants`: whether every assertion holds.
pub assert_invariants : Output → Bool
assert_invariants out =
    if not out.success
    then is_missing out.status
      && (no_node out.node && (no_candidate out.candidates && has_text out.message))
    else asserts_of out.status out

pub strip_left : String → String
unfolding is_space
strip_left String.[] = ""
strip_left (String.◌∷◌ c s) =
    let rest = strip_left s in if is_space (code c) then rest else String.◌∷◌ c s

pub strip_right : String → String
unfolding is_space
strip_right String.[] = ""
strip_right (String.◌∷◌ c s) = elim (strip_right s) [
  | String.[] ↦ if is_space (code c) then "" else String.◌∷◌ c ""
  | String.◌∷◌ d t ↦ String.◌∷◌ c (String.◌∷◌ d t)
]

-- `"*" in s or "?" in s`
pub has_wildcard : String → Bool
has_wildcard String.[] = false
has_wildcard (String.◌∷◌ c s) = (code c == b'*' || code c == b'?') || has_wildcard s

pub data Kind : Type 0 where
  symbol route client producer : Kind

-- `_resolve_kinds_to_search`
pub kinds_to_search : Option Kind → List Kind
kinds_to_search none = symbol ∷ route ∷ client ∷ producer ∷ []
kinds_to_search (some k) = k ∷ []

-- What a call of the code outside this model ends in; a raise carries `str(exc)`.
pub data Answer {ℓ} (A : Type ℓ) : Type ℓ where
  answers : A → Answer A
  raises : String → Answer A

-- The texts of the message catalogue, and the calls that are not modelled: the candidates of a
-- kind, and the diagnosis and hints for the capped candidates.
pub record Outside : Type 0 where
  pub empty_text : String
  pub wildcards_text : String
  pub no_matches_text : String
  pub candidates_of : Kind → String → Answer (List Match)
  pub diagnose : List Candidate → Answer (Unit {0})

abbrev extend : List Match → Answer (List Match) → Answer (List Match)
extend ms (answers ns) = answers (ms ++ ns)
extend ms (raises e) = raises e

abbrev and_extend : Answer (List Match) → Answer (List Match) → Answer (List Match)
and_extend (answers ms) rest = extend ms rest
and_extend (raises e) rest = raises e

-- The loop over the kinds, in order; the first raise ends it.
pub gather : (Kind → String → Answer (List Match)) → String → List Kind → Answer (List Match)
gather candidates_of trimmed [] = answers []
gather candidates_of trimmed (k ∷ ks) =
    and_extend (candidates_of k trimmed) (gather candidates_of trimmed ks)

abbrev pub failure : String → Option String → Output
failure text identifier = record {
  success = false;
  status = missing;
  node = none;
  candidates = [];
  message = some text;
  resolved_identifier = identifier;
}

-- An output whose assertions hold; a failed assertion raises `AssertionError`, which has no text.
abbrev pub asserted : Output → Answer Output
asserted out = if assert_invariants out then answers out else raises ""

abbrev pub after_diagnosis : Outside → String → List Candidate → Answer (Unit {0}) → Answer Output
after_diagnosis outside trimmed capped (raises e) = raises e
after_diagnosis outside trimmed capped (answers _) =
    asserted (finalize outside.no_matches_text trimmed capped)

abbrev pub after_search : Outside → String → Answer (List Match) → Answer Output
after_search outside trimmed (raises e) = raises e
after_search outside trimmed (answers raw) =
    let capped = take candidate_cap (rank (dedupe raw)) in
    after_diagnosis outside trimmed capped (outside.diagnose capped)

-- The body of the `try` of `resolve_v2`.
abbrev pub attempt : Outside → Option Kind → String → Answer Output
attempt outside hint trimmed =
    if str_eq trimmed ""
    then asserted (failure outside.empty_text none)
    else if has_wildcard trimmed
    then asserted (failure outside.wildcards_text (some trimmed))
    else after_search outside trimmed (gather outside.candidates_of trimmed (kinds_to_search hint))

-- `except Exception`: what the handler itself raises escapes.
abbrev pub handled : Answer Output → Answer Output
handled (answers out) = answers out
handled (raises e) = asserted (failure e none)

-- `resolve_v2`
pub resolve : Outside → String → Option Kind → Answer Output
unfolding strip_left strip_right has_wildcard kinds_to_search gather assert_invariants finalize
resolve outside identifier hint =
    handled (attempt outside hint (strip_right (strip_left identifier)))
