-- ===== src/Resolve/Answers.antt =====
-- What `resolve_v2` answers.
use text.Mathlib.Text.{◌==◌ as str_eq}
use text.Mathlib.TextEquality.{eq_iff}
use jrag.Base.{
  ◌≤◌, ◌≡◌, ◌≢◌, refl, true, false, Option, none, some, List, [], ◌∷◌, String, arith, length,
  length-take, take, min, ap, ◌∙◌, Bool-cases, inl, inr,
}
use jrag.Resolve.Ranking.{length-rank}
use jrag.Resolve.{
  Match, dedupe, rank, Candidate, candidate_cap, Status, one, many, missing, Output, finalize,
  assert_invariants, strip_left, strip_right, has_wildcard, Kind, kinds_to_search, Answer, answers,
  raises, Outside, gather, failure, resolve, after_search, attempt, handled, asserted,
  after_diagnosis,
}

-- No text is empty, and nothing that is not modelled raises an exception with an empty text.
pub record HasTexts (o : Outside) : Type 0 where
  pub empty : o.empty_text ≢ ""
  pub wildcards : o.wildcards_text ≢ ""
  pub no_matches : o.no_matches_text ≢ ""
  pub candidates_raise : (k : Kind) (s : String) → o.candidates_of k s ≢ raises ""
  pub diagnose_raises : (cs : List Candidate) → o.diagnose cs ≢ raises ""

abbrev AnswersChecked : Answer Output → Type 0
AnswersChecked r = (out : Output) × (r ≡ answers out) × (assert_invariants out ≡ true)

finalize_checked :
    (text trimmed : String) (cs : List Candidate)
    → text ≢ ""
    → assert_invariants (finalize text trimmed cs) ≡ true
unfolding assert_invariants finalize
finalize_checked text trimmed [] h = ground (arith, eq_iff text "")
finalize_checked text trimmed (c ∷ []) h = refl
finalize_checked text trimmed (c ∷ d ∷ ds) h = ground arith

failure_checked :
    (text : String) (i : Option String) → text ≢ "" → assert_invariants (failure text i) ≡ true
unfolding assert_invariants
failure_checked text i h = ground (arith, eq_iff text "")

gather_raises :
    (o : Outside) (s : String) (ks : List Kind)
    → HasTexts o
    → gather o.candidates_of s ks ≢ raises ""
unfolding gather
gather_raises o s [] v = λ e. cc
gather_raises o s (k ∷ ks) v = ground (arith, v.candidates_raise k s, gather_raises o s ks v)

-- An answer whose assertions hold, or an exception with a text.
abbrev IsFine : Answer Output → Type 0
IsFine (answers out) = assert_invariants out ≡ true
IsFine (raises e) = e ≢ ""

asserted-IsFine : (out : Output) → assert_invariants out ≡ true → IsFine (asserted out)
asserted-IsFine out h = rw h h

after_diagnosis-IsFine :
    (o : Outside) (s : String) (cs : List Candidate) (r : Answer (Unit {0}))
    → HasTexts o
    → r ≢ raises ""
    → IsFine (after_diagnosis o s cs r)
after_diagnosis-IsFine o s cs (answers u) v h =
    asserted-IsFine _ (finalize_checked o.no_matches_text s cs v.no_matches)
after_diagnosis-IsFine o s cs (raises e) v h = λ q. h (ap raises q)

after_search-IsFine :
    (o : Outside) (s : String) (r : Answer (List Match))
    → HasTexts o
    → r ≢ raises ""
    → IsFine (after_search o s r)
after_search-IsFine o s (answers raw) v h =
    let cs = take candidate_cap (rank (dedupe raw)) in
    after_diagnosis-IsFine o s cs (o.diagnose cs) v (v.diagnose_raises cs)
after_search-IsFine o s (raises e) v h = λ q. h (ap raises q)

attempt-IsFine :
    (o : Outside) (hint : Option Kind) (s : String) → HasTexts o → IsFine (attempt o hint s)
attempt-IsFine o hint s v = elim (Bool-cases (str_eq s "")) [
  | inl blank ↦ rw blank (asserted-IsFine _ (failure_checked _ none v.empty))
  | inr text ↦ rw text (elim (Bool-cases (has_wildcard s)) [
    | inl w ↦ rw w (asserted-IsFine _ (failure_checked _ (some s) v.wildcards))
    | inr w ↦ rw w (after_search-IsFine o s _ v (gather_raises o s _ v))
  ])
]

handled_answers : (r : Answer Output) → IsFine r → AnswersChecked (handled r)
handled_answers (answers out) h = (out, refl, h)
handled_answers (raises e) h = let a = failure_checked e none h in (failure e none, rw a refl, a)

-- Where the message texts are not empty and the calls made raise no exception with an empty text,
-- `resolve_v2` returns an output for every identifier and hint, also where a call raises, and all assertions of
-- `_resolve_assert_invariants` hold of it.
pub resolve-answers :
    (o : Outside) (identifier : String) (hint : Option Kind)
    → HasTexts o
    → (out : Output) × (resolve o identifier hint ≡ answers out) × (assert_invariants out ≡ true)
unfolding resolve
resolve-answers o identifier hint v =
    let trimmed = strip_right (strip_left identifier) in
    handled_answers (attempt o hint trimmed) (attempt-IsFine o hint trimmed v)

-- The status that the number of deduplicated candidates calls for.
abbrev pub status_of : List Match → Status
status_of [] = missing
status_of (m ∷ []) = one
status_of (m ∷ n ∷ ms) = many

finalize_status :
    (text trimmed : String) (cs : List Candidate) (ms : List Match)
    → length cs ≡ min candidate_cap (length ms)
    → (finalize text trimmed cs).status ≡ status_of ms
unfolding finalize
finalize_status text trimmed [] [] h = refl
finalize_status text trimmed [] (m ∷ ms) h = absurd (omega arith)
finalize_status text trimmed (c ∷ cs) [] h = absurd (omega arith)
finalize_status text trimmed (c ∷ []) (m ∷ []) h = refl
finalize_status text trimmed (c ∷ []) (m ∷ n ∷ ms) h = absurd (omega arith)
finalize_status text trimmed (c ∷ d ∷ cs) (m ∷ []) h = absurd (omega arith)
finalize_status text trimmed (c ∷ d ∷ cs) (m ∷ n ∷ ms) h = refl

finalize_success :
    (text trimmed : String) (cs : List Candidate) → (finalize text trimmed cs).success ≡ true
unfolding finalize
finalize_success text trimmed [] = refl
finalize_success text trimmed (c ∷ []) = refl
finalize_success text trimmed (c ∷ d ∷ cs) = refl

finalize_candidates :
    (text trimmed : String) (cs : List Candidate)
    → length (finalize text trimmed cs).candidates ≤ length cs
unfolding finalize
finalize_candidates text trimmed [] = omega arith
finalize_candidates text trimmed (c ∷ []) = omega arith
finalize_candidates text trimmed (c ∷ d ∷ cs) = omega arith

module _ (o : Outside) (identifier trimmed : String)
    (text : strip_right (strip_left identifier) ≡ trimmed) (nonempty : trimmed ≢ "")
    (plain : has_wildcard trimmed ≡ false) where
  nonempty_test : str_eq trimmed "" ≡ false
  nonempty_test = ground (arith, eq_iff trimmed "")

  resolve_search :
      (hint : Option Kind)
      → resolve o identifier hint
        ≡ handled (after_search o trimmed (gather o.candidates_of trimmed (kinds_to_search hint)))
  unfolding resolve
  resolve_search hint = rw (text, nonempty_test, plain) refl

  -- Where the message texts are not empty: for an identifier that is not blank and holds no wildcard, whose candidates are found and for which
  -- the diagnosis does not raise: the output is a success, its status is `none` (here `missing`), `one` or `many` as no,
  -- one or more nodes are left by the deduplication of the raw candidates, and it lists at most ten candidates.
  pub resolve_status :
      (hint : Option Kind) (raw : List Match)
      → HasTexts o
      → gather o.candidates_of trimmed (kinds_to_search hint) ≡ answers raw
      → o.diagnose (take candidate_cap (rank (dedupe raw))) ≡ answers tt
      → (out : Output) × (resolve o identifier hint ≡ answers out)
        × (out.success ≡ true)
        × (out.status ≡ status_of (dedupe raw))
        × (length out.candidates ≤ candidate_cap)
  resolve_status hint raw v found diagnosed =
      let ms = dedupe raw in
      let cs = take candidate_cap (rank ms) in
      let n = length-take candidate_cap (rank ms) in
      let out = finalize o.no_matches_text trimmed cs in
      let checked = finalize_checked o.no_matches_text trimmed cs v.no_matches in
      (
        out,
        resolve_search hint ∙ rw found (rw diagnosed (rw checked refl)),
        finalize_success o.no_matches_text trimmed cs,
        finalize_status o.no_matches_text trimmed cs ms (omega (arith, length-rank ms)),
        omega (arith, finalize_candidates o.no_matches_text trimmed cs),
      )

  -- For such an identifier and a kind to search: where finding the candidates raises an exception with an empty
  -- text, `resolve_v2` does not return an output, but raises (an `AssertionError`, from its handler's own
  -- assertion that the message is not empty).
  pub resolve_escapes :
      (k : Kind) → o.candidates_of k trimmed ≡ raises "" → resolve o identifier (some k) ≡ raises ""
  unfolding gather kinds_to_search assert_invariants
  resolve_escapes k h = resolve_search (some k) ∙ rw h refl
