-- ===== src/Resolve/Examples.antt =====
-- Runs of identifier resolution, and the theorems about it at concrete inputs.
use text.Mathlib.TextEquality.{eq_iff}
use mathlib.Core.List.{Perm}
use jrag.Base.{ℕ, ◌≡◌, ◌≤◌, refl, true, none, some, List, [], ◌∷◌, String, map, length, arith}
use jrag.Resolve.{
  Match, Reason, exact_fqn, short_name, fqn_suffix, dedupe, rank, Kind, symbol, route, client,
  producer, Answer, answers, raises, Outside, Output, resolve, assert_invariants, strip_left,
  strip_right, has_wildcard, gather, kinds_to_search,
}
use jrag.Resolve.Best.{HasUniqueIds, Describes, find, dedupe-best}
use jrag.Resolve.Ranking.{rank_lem, IsOrdered, of_candidate, of_match, countdown}
use jrag.Resolve.Answers.{HasTexts, resolve-answers, status_of, resolve_status, resolve_escapes}

abbrev match_of : String → Reason → ℕ → Match
match_of id r n = record { node = record { id = id; fqn = id }; reason = r; specificity = n }

abbrev raw : List Match
raw =
    match_of "b" short_name 3
    ∷ match_of "a" fqn_suffix 2
    ∷ match_of "b" exact_fqn 1
    ∷ match_of "c" fqn_suffix 5
    ∷ []

dedupe-best_example :
    HasUniqueIds (dedupe raw) × ((id : String) → Describes id raw (find id (dedupe raw)))
dedupe-best_example = dedupe-best raw

rank_lem_example :
    (ordered : List Match) × Perm ordered raw
    × IsOrdered ordered
    × (map of_candidate (rank raw) ≡ map of_match ordered)
    × (map (λ c. c.score) (rank raw) ≡ countdown 4 4)
rank_lem_example = rank_lem raw

abbrev search : Kind → String → Answer (List Match)
search symbol s = answers raw
search route s = answers []
search client s = raises "client table missing"
search producer s = raises ""

abbrev outside : Outside
outside = record {
  empty_text = "empty";
  wildcards_text = "wildcards";
  no_matches_text = "no matches";
  candidates_of = search;
  diagnose = λ _. answers tt;
}

-- As `outside`, with no exception that has no text.
abbrev careful : Outside
careful = record outside { candidates_of = λ k s. answers raw }

careful-HasTexts : HasTexts careful
careful-HasTexts = record {
  empty = ground (arith, eq_iff "empty" "");
  wildcards = ground (arith, eq_iff "wildcards" "");
  no_matches = ground (arith, eq_iff "no matches" "");
  candidates_raise = λ k s e. cc;
  diagnose_raises = λ cs e. cc;
}

resolve-answers_example :
    (out : Output) × (resolve careful " a " none ≡ answers out) × (assert_invariants out ≡ true)
resolve-answers_example = resolve-answers careful " a " none careful-HasTexts

resolve_status_example :
    (out : Output) × (resolve careful " a " (some symbol) ≡ answers out)
    × (out.success ≡ true)
    × (out.status ≡ status_of (dedupe raw))
    × (length out.candidates ≤ 10)
unfolding strip_left strip_right has_wildcard gather kinds_to_search
resolve_status_example =
    resolve_status careful " a " "a" refl (ground (arith, eq_iff "a" "")) refl (some symbol) raw
      careful-HasTexts refl refl

resolve_escapes_example : resolve outside "a" (some producer) ≡ raises ""
unfolding strip_left strip_right has_wildcard
resolve_escapes_example =
    resolve_escapes outside "a" "a" refl (ground (arith, eq_iff "a" "")) refl producer refl
