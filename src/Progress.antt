-- ===== src/Progress.antt =====
-- Index progress: src/java_codebase_rag/progress.py. Here the line protocol: `parse_progress_line`.
-- Bytes and characters are numbers. Decoding and the readings of `int` and `float` are arguments
-- (numbers below zero, which no producer writes, are left out).
pub mod Relay
pub mod Bar
mod Examples
use jrag.Base.{
  ℕ, zero, suc, ◌+◌, Bool, true, false, Option, none, some, List, [], ◌∷◌, ◌++◌, leb, ◌==◌,
  if◌then◌else◌, ◌&&◌, ◌||◌, map, String, Text, text_of, same_text,
}

-- Python's readings of text that are not in the repository.
pub record Readings : Type 0 where
  pub decode : List ℕ → Text
  pub is_space : ℕ → Bool
  pub int_of : Text → Option ℕ
  pub float_of : Text → Option ℕ

pub data Kind : Type 0 where
  vectors graph optimize : Kind

pub data Status : Type 0 where
  running done failed : Status

pub record ProgressEvent : Type 0 where
  pub kind : Kind
  pub phase : Option Text
  pub pass : Option Text
  pub done_count : Option ℕ
  pub total : Option ℕ
  pub status : Status
  pub elapsed : Option ℕ

-- `text.lstrip("\r")`
pub strip_returns : Text → Text
strip_returns [] = []
strip_returns (c ∷ cs) = let rest = strip_returns cs in if c == 13 then rest else c ∷ cs

-- What stands behind a prefix, if the text starts with it.
pub after_prefix : Text → Text → Option Text
after_prefix [] t = some t
after_prefix (p ∷ ps) [] = none
after_prefix (p ∷ ps) (c ∷ cs) = let rest = after_prefix ps cs in if p == c then rest else none

abbrev prepend : ℕ → List Text → List Text
prepend c [] = (c ∷ []) ∷ []
prepend c (t ∷ ts) = (c ∷ t) ∷ ts

abbrev next_is_space : (ℕ → Bool) → Text → Bool
next_is_space space [] = true
next_is_space space (c ∷ cs) = space c

-- `tail.split()`: the runs of characters that are no white space.
pub split_tokens : (ℕ → Bool) → Text → List Text
split_tokens space [] = []
split_tokens space (c ∷ cs) =
    let rest = split_tokens space cs in
    if space c then rest else (if next_is_space space cs then (c ∷ []) ∷ rest else prepend c rest)

abbrev push_key : ℕ → Option (Text × Text) → Option (Text × Text)
push_key c none = none
push_key c (some (k, v)) = some (c ∷ k, v)

-- `tok.partition("=")` of a token that holds one.
pub partition : Text → Option (Text × Text)
partition [] = none
partition (c ∷ cs) =
    let rest = push_key c (partition cs) in if c == b'=' then some ([], cs) else rest

-- `fields.get(name)` once all tokens are stored: the last token of the key counts. An empty key is not stored.
pub field_of : Text → List Text → Option Text
unfolding partition same_text
field_of name [] = none
field_of name (tok ∷ toks) = elim (field_of name toks) [
  | some v ↦ some v
  | none ↦ elim (partition tok) [
    | none ↦ none
    | some (k, v) ↦ if same_text k name then some v else none
  ]
]

abbrev is_empty : Text → Bool
is_empty [] = true
is_empty (c ∷ cs) = false

-- `fields.get(name) or None`
abbrev nonempty : Option Text → Option Text
nonempty none = none
nonempty (some []) = none
nonempty (some (c ∷ cs)) = some (c ∷ cs)

-- `_maybe_int` and `_maybe_float`
abbrev number_of : (Text → Option ℕ) → Option Text → Option ℕ
number_of read none = none
number_of read (some []) = none
number_of read (some (c ∷ cs)) = read (c ∷ cs)

pub kind_of : Option Text → Option Kind
unfolding same_text
kind_of none = none
kind_of (some t) =
    if same_text t (text_of "vectors")
    then some vectors
    else if same_text t (text_of "graph")
    then some graph
    else if same_text t (text_of "optimize")
    then some optimize
    else none

pub status_of : Option Text → Status
unfolding same_text
status_of none = running
status_of (some t) =
    if same_text t (text_of "done")
    then done
    else if same_text t (text_of "failed")
    then failed
    else running

abbrev pub prefix : Text
prefix = text_of "JCIRAG_PROGRESS"

abbrev event_of : Readings → List Text → Option Kind → Option ProgressEvent
event_of r toks none = none
event_of r toks (some k) = some (record {
  kind = k;
  phase = nonempty (field_of (text_of "phase") toks);
  pass = nonempty (field_of (text_of "pass") toks);
  done_count = number_of r.int_of (field_of (text_of "done") toks);
  total = number_of r.int_of (field_of (text_of "total") toks);
  status = status_of (field_of (text_of "status") toks);
  elapsed = number_of r.float_of (field_of (text_of "elapsed_s") toks);
})

abbrev event_of_tail : Readings → Option Text → Option ProgressEvent
event_of_tail r none = none
event_of_tail r (some tail) =
    let toks = split_tokens r.is_space tail in
    event_of r toks (kind_of (field_of (text_of "kind") toks))

-- `parse_progress_line`
unfoldable pub parse_progress_line : Readings → List ℕ → Option ProgressEvent
unfolding strip_returns after_prefix split_tokens field_of kind_of status_of
parse_progress_line r line = event_of_tail r (after_prefix prefix (strip_returns (r.decode line)))
