-- ===== src/Diff/Merging/Symbols.antt =====
-- `map_hunks_to_symbols` against a direct reading of the hunks.
use mathlib.Core.Path.{ap₂}
use text.Mathlib.Text.{◌==◌ as str_eq}
use jrag.Base.{
  ℕ, ◌≡◌, refl, Bool, true, false, Option, none, some, List, [], ◌∷◌, String, arith, ◌&&◌, ◌||◌,
  ◌==◌, ltb, leb, if◌then◌else◌, Bool-cases, inl, inr, ◌∙◌, ap,
}
use jrag.Diff.{
  ChangedSymbol, ChangeType, modified, removed, SymbolHit, DiffHunk, Queries, merge_all, on_file,
  hunk_changes, removed_changes, modified_changes, map_from, map_hunks_to_symbols,
}
use jrag.Diff.Merging.{
  find, has_line, has_modified, is_modified, any_line, any_modified, overlaps, any_declares,
  find-merge_all, has_line-collect, has_modified-collect, any_line-append, any_modified-append,
  any_line-changes_of, any_modified-changes_of,
}

or_false : (a : Bool) → a ≡ (a || false)
or_false a = ground arith

or_assoc : (a b c : Bool) → (a || b || c) ≡ (a || (b || c))
or_assoc a b c = ground arith

-- A test of the symbols that a side of a hunk overlaps: its file is in the graph and its range is not empty.
abbrev pub on_side : Queries → (List SymbolHit → Bool) → Bool → ℕ → ℕ → Option String → Bool
on_side q test wanted lo hi none = false
on_side q test wanted lo hi (some f) =
    (wanted && (ltb 0 lo && leb lo hi)) && test (q.symbols_in_range f lo hi)

abbrev source_file : Queries → DiffHunk → Option String
source_file q h =
    if str_eq h.source_path ""
    then q.resolve_filename h.target_path
    else q.resolve_filename h.source_path

-- Line `n` of the symbol is touched by the hunk: by its new lines, or by its old lines if it only removes.
abbrev pub touches : Queries → String → ℕ → DiffHunk → Bool
touches q id n h =
    on_side q (overlaps id n h.source_line_start h.source_line_end)
      (h.target_length == 0 && ltb 0 h.source_length) h.source_line_start h.source_line_end
      (source_file q h)
    || on_side q (overlaps id n h.target_line_start h.target_line_end) true h.target_line_start
        h.target_line_end (q.resolve_filename h.target_path)

-- The new lines of the hunk overlap the symbol.
abbrev pub modifies : Queries → String → DiffHunk → Bool
modifies q id h =
    on_side q (any_declares id) true h.target_line_start h.target_line_end
      (q.resolve_filename h.target_path)

abbrev pub any_hunk : (DiffHunk → Bool) → List DiffHunk → Bool
any_hunk test [] = false
any_hunk test (h ∷ hs) = test h || any_hunk test hs

any_line-on_file :
    (q : Queries) (id : String) (n : ℕ) (change : ChangeType) (wanted : Bool) (lo hi : ℕ)
    (f : Option String)
    → any_line id n (on_file q change wanted lo hi f)
      ≡ on_side q (overlaps id n lo hi) wanted lo hi f
any_line-on_file q id n change wanted lo hi none = refl
any_line-on_file q id n change wanted lo hi (some f) =
    elim (Bool-cases (wanted && (ltb 0 lo && leb lo hi))) [
      | inl e ↦ rw e (any_line-changes_of id n change lo hi (q.symbols_in_range f lo hi))
      | inr e ↦ rw e refl
    ]

any_modified-on_file :
    (q : Queries) (id : String) (change : ChangeType) (wanted : Bool) (lo hi : ℕ)
    (f : Option String)
    → any_modified id (on_file q change wanted lo hi f)
      ≡ (is_modified change && on_side q (any_declares id) wanted lo hi f)
any_modified-on_file q id change wanted lo hi none = ground arith
any_modified-on_file q id change wanted lo hi (some f) =
    elim (Bool-cases (wanted && (ltb 0 lo && leb lo hi))) [
      | inl e ↦ rw e (any_modified-changes_of id change lo hi (q.symbols_in_range f lo hi))
      | inr e ↦ rw e (ground arith)
    ]

module _ (q : Queries) (id : String) (h : DiffHunk) where
  any_line-removed :
      (n : ℕ)
      → any_line id n (removed_changes q h)
        ≡ on_side q
            (overlaps id n h.source_line_start h.source_line_end)
            (h.target_length == 0 && ltb 0 h.source_length)
            h.source_line_start
            h.source_line_end
            (source_file q h)
  unfolding removed_changes
  any_line-removed n =
      any_line-on_file q id n removed (h.target_length == 0 && ltb 0 h.source_length)
        h.source_line_start h.source_line_end (source_file q h)

  any_line-modified :
      (n : ℕ)
      → any_line id n (modified_changes q h)
        ≡ on_side q
            (overlaps id n h.target_line_start h.target_line_end)
            true
            h.target_line_start
            h.target_line_end
            (q.resolve_filename h.target_path)
  unfolding modified_changes
  any_line-modified n =
      any_line-on_file q id n modified true h.target_line_start h.target_line_end
        (q.resolve_filename h.target_path)

  any_modified-removed : any_modified id (removed_changes q h) ≡ false
  unfolding removed_changes
  any_modified-removed =
      any_modified-on_file q id removed (h.target_length == 0 && ltb 0 h.source_length)
        h.source_line_start h.source_line_end (source_file q h)

  any_modified-modified : any_modified id (modified_changes q h) ≡ modifies q id h
  unfolding modified_changes
  any_modified-modified =
      any_modified-on_file q id modified true h.target_line_start h.target_line_end
        (q.resolve_filename h.target_path)

  any_line-hunk_changes : (n : ℕ) → any_line id n (hunk_changes q h) ≡ touches q id n h
  unfolding hunk_changes
  any_line-hunk_changes n =
      any_line-append id n (removed_changes q h) (modified_changes q h)
      ∙ ap₂ ◌||◌ (any_line-removed n) (any_line-modified n)

  any_modified-hunk_changes : any_modified id (hunk_changes q h) ≡ modifies q id h
  unfolding hunk_changes
  any_modified-hunk_changes =
      any_modified-append id (removed_changes q h) (modified_changes q h)
      ∙ ap₂ ◌||◌ any_modified-removed any_modified-modified

map_from_lines :
    (q : Queries) (id : String) (n : ℕ) (by_id : List ChangedSymbol) (hs : List DiffHunk)
    → has_line n (find id (map_from q by_id hs))
      ≡ (has_line n (find id by_id) || any_hunk (touches q id n) hs)
unfolding map_from
map_from_lines q id n by_id [] = or_false (has_line n (find id by_id))
map_from_lines q id n by_id (h ∷ hs) =
    let cs = hunk_changes q h in
    map_from_lines q id n (merge_all by_id cs) hs
    ∙ ap (λ b. b || any_hunk (touches q id n) hs)
        (ap (has_line n) (find-merge_all id by_id cs)
          ∙ has_line-collect id n (find id by_id) cs
          ∙ ap (λ b. has_line n (find id by_id) || b) (any_line-hunk_changes q id h n))
    ∙ or_assoc (has_line n (find id by_id)) (touches q id n h) (any_hunk (touches q id n) hs)

map_from_modified :
    (q : Queries) (id : String) (by_id : List ChangedSymbol) (hs : List DiffHunk)
    → has_modified (find id (map_from q by_id hs))
      ≡ (has_modified (find id by_id) || any_hunk (modifies q id) hs)
unfolding map_from
map_from_modified q id by_id [] = or_false (has_modified (find id by_id))
map_from_modified q id by_id (h ∷ hs) =
    let cs = hunk_changes q h in
    map_from_modified q id (merge_all by_id cs) hs
    ∙ ap (λ b. b || any_hunk (modifies q id) hs)
        (ap has_modified (find-merge_all id by_id cs)
          ∙ has_modified-collect id (find id by_id) cs
          ∙ ap (λ b. has_modified (find id by_id) || b) (any_modified-hunk_changes q id h))
    ∙ or_assoc (has_modified (find id by_id)) (modifies q id h) (any_hunk (modifies q id) hs)

-- Of any hunks and any symbol id: the entry that `map_hunks_to_symbols` has for the id lists exactly the
-- lines that some hunk touches in a symbol of that id (not a file), where a hunk touches the overlap of the symbol with
-- its new lines and, if it has no new lines, with its old lines, in the graph's file of that name; and the entry's
-- change type is `modified` exactly if the new lines of some hunk overlap the symbol.
pub map_hunks_to_symbols_lem :
    (q : Queries) (hunks : List DiffHunk) (id : String)
    → ((n : ℕ)
        → has_line n (find id (map_hunks_to_symbols q hunks)) ≡ any_hunk (touches q id n) hunks)
      × (has_modified (find id (map_hunks_to_symbols q hunks)) ≡ any_hunk (modifies q id) hunks)
unfolding map_hunks_to_symbols
map_hunks_to_symbols_lem q hunks id =
    (λ n. map_from_lines q id n [] hunks, map_from_modified q id [] hunks)
