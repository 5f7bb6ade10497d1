-- ===== src/Diff.antt =====
-- Diff hunks to changed symbols and their risk: src/java_codebase_rag/analysis/pr_analysis.py.
-- The parser of the diff and the graph queries are arguments. Floats are thousandths; their rounding is
-- not modelled.
pub mod Lines
pub mod Merging
mod Examples
use text.Mathlib.Text.{◌==◌ as str_eq}
use jrag.Base.{
  ℕ, zero, suc, ◌+◌, ◌-◌, Bool, true, false, Option, none, some, List, [], ◌∷◌, ◌++◌, String, ltb,
  leb, ◌==◌, if◌then◌else◌, ◌&&◌, ◌||◌, not, min, max,
}

-- A hunk as the diff library gives it.
pub record RawHunk : Type 0 where
  pub source_start : ℕ
  pub source_length : ℕ
  pub target_start : ℕ
  pub target_length : ℕ

pub record DiffHunk : Type 0 where
  pub target_path : String
  pub source_path : String
  pub target_line_start : ℕ
  pub target_line_end : ℕ
  pub source_line_start : ℕ
  pub source_line_end : ℕ
  pub source_length : ℕ
  pub target_length : ℕ

abbrev range_of : ℕ → ℕ → ℕ × ℕ
range_of start zero = (0, 0)
range_of start (suc n) = (start, start + suc n - 1)

-- `_hunk_ranges`: first and last line on both sides, (0, 0) for an empty side.
pub hunk_ranges : RawHunk → (ℕ × ℕ) × (ℕ × ℕ)
hunk_ranges h = (range_of h.source_start h.source_length, range_of h.target_start h.target_length)

-- The `DiffHunk` that `parse_unified_diff` makes of a hunk.
pub to_hunk : String → String → RawHunk → DiffHunk
unfolding hunk_ranges
to_hunk target source h =
    let ((s0, s1), (t0, t1)) = hunk_ranges h in
    record {
      target_path = target;
      source_path = source;
      target_line_start = t0;
      target_line_end = t1;
      source_line_start = s0;
      source_line_end = s1;
      source_length = h.source_length;
      target_length = h.target_length;
    }

pub data ChangeType : Type 0 where
  added removed modified : ChangeType

pub data MappedKind : Type 0 where
  method type field : MappedKind

-- `SymbolHit`, as far as it is read here.
pub record SymbolHit : Type 0 where
  pub id : String
  pub fqn : String
  pub kind : String
  pub filename : String
  pub start_line : ℕ
  pub end_line : ℕ

pub record ChangedSymbol : Type 0 where
  pub symbol_id : String
  pub fqn : String
  pub kind : MappedKind
  pub change_type : ChangeType
  pub file : String
  pub hunk_lines : List ℕ
  pub cross_service_callers_count : ℕ

-- `sorted(set(…))`, an element at a time.
pub insert_line : ℕ → List ℕ → List ℕ
insert_line n [] = n ∷ []
insert_line n (m ∷ ms) =
    if ltb n m then n ∷ m ∷ ms else (if n == m then m ∷ ms else m ∷ insert_line n ms)

pub sorted_set : List ℕ → List ℕ
unfolding insert_line
sorted_set [] = []
sorted_set (n ∷ ns) = insert_line n (sorted_set ns)

pub positive : List ℕ → List ℕ
positive [] = []
positive (n ∷ ns) = if ltb 0 n then n ∷ positive ns else positive ns

pub map_kind : String → MappedKind
map_kind kind =
    if str_eq kind "class"
      || (str_eq kind "interface"
          || (str_eq kind "enum" || (str_eq kind "record" || str_eq kind "annotation")))
    then type
    else if str_eq kind "field"
    then field
    else method

-- `_symbol_to_changed`
pub symbol_to_changed : SymbolHit → ChangeType → List ℕ → ChangedSymbol
unfolding map_kind sorted_set positive
symbol_to_changed sym change lines = record {
  symbol_id = sym.id;
  fqn = sym.fqn;
  kind = map_kind sym.kind;
  change_type = change;
  file = sym.filename;
  hunk_lines = sorted_set (positive lines);
  cross_service_callers_count = 0;
}

abbrev pub either : ChangeType → ChangeType → ChangeType
either modified _ = modified
either _ modified = modified
either removed _ = removed
either _ removed = removed
either added added = added

-- The entry that `merge` stores over an existing one.
pub combine : ChangedSymbol → ChangedSymbol → ChangedSymbol
unfolding sorted_set
combine existing sym = record {
  symbol_id = existing.symbol_id;
  fqn = existing.fqn;
  kind = existing.kind;
  change_type = either existing.change_type sym.change_type;
  file = existing.file;
  hunk_lines = sorted_set (existing.hunk_lines ++ sym.hunk_lines);
  cross_service_callers_count = 0;
}

-- `merge`, on the values of `by_id` in insertion order.
pub merge : ChangedSymbol → List ChangedSymbol → List ChangedSymbol
merge sym [] = sym ∷ []
merge sym (c ∷ cs) =
    if str_eq c.symbol_id sym.symbol_id then combine c sym ∷ cs else c ∷ merge sym cs

pub merge_all : List ChangedSymbol → List ChangedSymbol → List ChangedSymbol
unfolding merge
merge_all by_id [] = by_id
merge_all by_id (c ∷ cs) = merge_all (merge c by_id) cs

abbrev pub count_up : ℕ → ℕ → List ℕ
count_up zero start = []
count_up (suc n) start = start ∷ count_up n (suc start)

-- `range(lo, hi + 1)`
pub lines_between : ℕ → ℕ → List ℕ
lines_between lo hi = count_up (suc hi - lo) lo

-- The graph queries: `_resolve_graph_filename` and `find_symbols_in_file_range`.
pub record Queries : Type 0 where
  pub resolve_filename : String → Option String
  pub symbols_in_range : String → ℕ → ℕ → List SymbolHit

-- The changes of the symbols of a file that overlap lines `lo` to `hi`, without the file's own node.
pub changes_of : ChangeType → ℕ → ℕ → List SymbolHit → List ChangedSymbol
unfolding symbol_to_changed lines_between
changes_of change lo hi [] = []
changes_of change lo hi (sym ∷ syms) =
    let rest = changes_of change lo hi syms in
    if str_eq sym.kind "file"
    then rest
    else symbol_to_changed sym change (lines_between (max lo sym.start_line) (min hi sym.end_line))
      ∷ rest

abbrev pub on_file : Queries → ChangeType → Bool → ℕ → ℕ → Option String → List ChangedSymbol
on_file q change wanted lo hi none = []
on_file q change wanted lo hi (some f) =
    if wanted && (ltb 0 lo && leb lo hi)
    then changes_of change lo hi (q.symbols_in_range f lo hi)
    else []

-- The symbols of the removed lines of a hunk that has no new lines.
pub removed_changes : Queries → DiffHunk → List ChangedSymbol
unfolding changes_of
removed_changes q h =
    on_file q removed (h.target_length == 0 && ltb 0 h.source_length) h.source_line_start
      h.source_line_end
      (if str_eq h.source_path ""
        then q.resolve_filename h.target_path
        else q.resolve_filename h.source_path)

-- The symbols of its new lines.
pub modified_changes : Queries → DiffHunk → List ChangedSymbol
unfolding changes_of
modified_changes q h =
    on_file q modified true h.target_line_start h.target_line_end (q.resolve_filename h.target_path)

-- What one hunk merges, in order.
pub hunk_changes : Queries → DiffHunk → List ChangedSymbol
unfolding removed_changes modified_changes
hunk_changes q h = removed_changes q h ++ modified_changes q h

pub map_from : Queries → List ChangedSymbol → List DiffHunk → List ChangedSymbol
unfolding merge_all hunk_changes
map_from q by_id [] = by_id
map_from q by_id (h ∷ hs) = map_from q (merge_all by_id (hunk_changes q h)) hs

-- `map_hunks_to_symbols`
pub map_hunks_to_symbols : Queries → List DiffHunk → List ChangedSymbol
unfolding map_from
map_hunks_to_symbols q hunks = map_from q [] hunks
