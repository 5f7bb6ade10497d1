-- ===== src/Paths/Examples.antt =====
-- The properties of the ignore rules at concrete inputs.
use jrag.Base.{
  Bool, true, false, none, some, List, [], ◌∷◌, ◌≡◌, refl, Text, text_of, same_text, ◌||◌,
}
use jrag.Paths.{Parts, Files, Config, mega, is_ignored, diagnose}
use jrag.Paths.Cached
use jrag.Paths.Winner

-- A matcher that knows lines without wildcards.
listed : List Text → Text → Bool
listed [] path = false
listed (l ∷ lines) path = same_text l path || listed lines path

abbrev config : Config
config = record {
  use_gitignore = true;
  builtin_lines = text_of "x/a" ∷ [];
  project_lines = none;
  ignores = listed;
}

abbrev no_files : Files
no_files parts = none

abbrev some_files : Files
some_files parts = some (text_of "b" ∷ [])

abbrev x_b : Parts
x_b = text_of "x" ∷ text_of "b" ∷ []

-- The ignore files appear after the first query of the directory.
abbrev queries : List Cached.Query
queries = (no_files, some x_b) ∷ (some_files, none) ∷ (some_files, some x_b) ∷ []

answers-uncached_example : Cached.answers config queries [] ≡ Cached.uncached config [] queries
answers-uncached_example = Cached.answers-uncached config queries

diagnose-is_ignored_example :
    Winner.Explains config
      (mega config some_files x_b []).0
      x_b
      (is_ignored config some_files (some x_b) []).0
      (diagnose config some_files (some x_b) []).0
unfolding listed
diagnose-is_ignored_example = Winner.diagnose-is_ignored config some_files x_b [] refl
