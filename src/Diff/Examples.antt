-- ===== src/Diff/Examples.antt =====
-- Hunks mapped to symbols at concrete inputs.
use jrag.Base.{ℕ, ◌≡◌, some, List, [], ◌∷◌}
use jrag.Diff.{RawHunk, to_hunk, DiffHunk, SymbolHit, Queries, map_hunks_to_symbols}
use jrag.Diff.Merging.{find, has_line, has_modified}
use jrag.Diff.Merging.Symbols.{any_hunk, touches, modifies, map_hunks_to_symbols_lem}

abbrev raw : RawHunk
raw = record { source_start = 8; source_length = 3; target_start = 8; target_length = 0 }

abbrev symbol : SymbolHit
symbol = record {
  id = "s";
  fqn = "a.B#m()";
  kind = "method";
  filename = "B.java";
  start_line = 5;
  end_line = 9;
}

abbrev queries : Queries
queries = record { resolve_filename = λ p. some p; symbols_in_range = λ f lo hi. symbol ∷ [] }

abbrev hunks : List DiffHunk
unfolding to_hunk
hunks =
    to_hunk "B.java" "B.java" raw
    ∷ to_hunk "B.java" ""
        (record { source_start = 1; source_length = 0; target_start = 6; target_length = 2 })
    ∷ []

map_hunks_to_symbols_lem_example :
    ((n : ℕ)
      → has_line n (find "s" (map_hunks_to_symbols queries hunks))
        ≡ any_hunk (touches queries "s" n) hunks)
    × (has_modified (find "s" (map_hunks_to_symbols queries hunks))
        ≡ any_hunk (modifies queries "s") hunks)
map_hunks_to_symbols_lem_example = map_hunks_to_symbols_lem queries hunks "s"
