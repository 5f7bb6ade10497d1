-- ===== src/Paths.antt =====
-- Layered ignore rules: `LayeredIgnore` of src/java_codebase_rag/graph/path_filtering.py. A path is the list of its
-- parts below the project root. Which files there are, with their lines, is an argument, and so is the matcher of
-- the third-party gitignore library: whether a list of lines ignores a path.
pub mod Cached
pub mod Winner
pub mod Lines
mod Examples
use jrag.Base.{
  ℕ, zero, suc, ◌+◌, Bool, true, false, not, Option, none, some, List, [], ◌∷◌, ◌++◌, map, ◌==◌,
  if◌then◌else◌, ◌&&◌, ◌||◌, ◌≡◌, Text, text_of, same_text, starts_with, strip, rstrip,
}

abbrev pub Parts : Type 0
Parts = List Text

pub data Layer : Type 0 where
  builtin_default project_root nested gitignore : Layer

-- The provenance of a rule: `(source, file, line_no, pattern_text)`.
pub record Meta : Type 0 where
  pub source : Layer
  pub file : Option Parts
  pub line_no : ℕ
  pub pattern_text : Text

-- The lists `mega` and `meta`, which grow together, as one.
abbrev pub Rules : Type 0
Rules = List (Text × Meta)

abbrev newline : ℕ → Bool
newline c = c == 10

-- `not s or s.startswith("#")`
abbrev pub is_comment : Text → Bool
is_comment [] = true
is_comment (c ∷ cs) = c == b'#'

-- `extend_builtin` and `extend_file`, from a line number on
pub extend : Layer → Option Parts → ℕ → List Text → Rules
unfolding strip rstrip
extend src file n [] = []
extend src file n (raw ∷ lines) =
    let later = extend src file (suc n) lines in
    if is_comment (strip raw)
    then later
    else (
      rstrip newline raw,
      record { source = src; file = file; line_no = n; pattern_text = strip raw },
    )
      ∷ later

-- `body[1:] if body.startswith("\\#") or body.startswith("\\!") else body`
unfoldable pub unescape : Text → Text
unescape [] = []
unescape (c ∷ []) = c ∷ []
unescape (c ∷ d ∷ cs) = if c == 92 && (d == b'#' || d == b'!') then d ∷ cs else c ∷ d ∷ cs

unfoldable pub unanchor : Text → Text
unanchor [] = []
unanchor (c ∷ cs) = if c == b'/' then cs else c ∷ cs

abbrev below_prefix : Text → Text → Text
below_prefix [] body = body
below_prefix (p ∷ ps) [] = p ∷ ps
below_prefix (p ∷ ps) (c ∷ cs) = (p ∷ ps) ++ (b'/' ∷ (c ∷ cs))

abbrev pub map_body : Text → Text → Text
map_body prefix body = below_prefix prefix (unanchor (unescape body))

-- The line without its white space, which is no comment.
abbrev pub map_line : Text → Text → Text
map_line prefix [] = map_body prefix []
map_line prefix (c ∷ cs) = if c == b'!' then b'!' ∷ map_body prefix cs else map_body prefix (c ∷ cs)

unfoldable pub prefix_line_to_project : Text → Text → Option Text
unfolding unescape unanchor
prefix_line_to_project prefix raw =
    if is_comment (strip raw) then none else some (map_line prefix (strip raw))

abbrev add_mapped : Option Text → Meta → Rules → Rules
add_mapped none m rules = rules
add_mapped (some t) m rules = (t, m) ∷ rules

-- The loop over the lines of a nested file.
pub extend_mapped : Layer → Parts → Text → ℕ → List Text → Rules
unfolding prefix_line_to_project
extend_mapped src file prefix n [] = []
extend_mapped src file prefix n (raw ∷ lines) =
    add_mapped (prefix_line_to_project prefix raw)
      (record { source = src; file = some file; line_no = n; pattern_text = strip raw })
      (extend_mapped src file prefix (suc n) lines)

-- `Path(rel).parts[:-1]`
pub dir_parts : Parts → Parts
dir_parts [] = []
dir_parts (p ∷ []) = []
dir_parts (p ∷ q ∷ ps) = p ∷ dir_parts (q ∷ ps)

-- The directories on the way to a directory, it included and the root not.
pub anchors : Parts → List Parts
anchors [] = []
anchors (p ∷ ps) = (p ∷ []) ∷ map (λ a. p ∷ a) (anchors ps)

-- `as_posix`
pub posix : Parts → Text
posix [] = []
posix (p ∷ []) = p
posix (p ∷ q ∷ ps) = p ++ (b'/' ∷ posix (q ∷ ps))

-- The lines of a file; `none` if it is no file. One that cannot be read has none.
abbrev pub Files : Type 0
Files = Parts → Option (List Text)

abbrev mapped_file : Layer → Parts → Text → Option (List Text) → Rules
mapped_file src file prefix none = []
mapped_file src file prefix (some lines) = extend_mapped src file prefix 1 lines

-- A file of a fixed name in each of the directories, outer ones first.
pub along : Layer → Parts → Files → List Parts → Rules
unfolding extend_mapped posix
along src name files [] = []
along src name files (a ∷ more) =
    mapped_file src (a ++ name) (posix a) (files (a ++ name)) ++ along src name files more

abbrev pub ignore_name : Parts
ignore_name = text_of ".java-codebase-rag" ∷ text_of "ignore" ∷ []

abbrev pub gitignore_name : Parts
gitignore_name = text_of ".gitignore" ∷ []

-- What `__init__` sets, and the matcher.
pub record Config : Type 0 where
  pub use_gitignore : Bool
  pub builtin_lines : List Text
  pub project_lines : Option (List Text)
  pub ignores : List Text → Text → Bool

abbrev project_rules : Option (List Text) → Rules
project_rules none = []
project_rules (some lines) = extend project_root (some ignore_name) 1 lines

-- The body of `_mega_build_for_rel`, from the parts of the directory
pub rules_of_dir : Config → Files → Parts → Rules
unfolding extend along anchors
rules_of_dir cfg files dir =
    let dirs = anchors dir in
    extend builtin_default none 1 cfg.builtin_lines
    ++ (project_rules cfg.project_lines
        ++ (along nested ignore_name files dirs
            ++ (if cfg.use_gitignore
                then along gitignore gitignore_name files ([] ∷ dirs)
                else [])))

-- `_mega_build_for_rel`
unfoldable pub mega_build : Config → Files → Parts → Rules
unfolding dir_parts
mega_build cfg files rel = rules_of_dir cfg files (dir_parts rel)

abbrev pub lines_of : Rules → List Text
lines_of rules = map (λ r. r.0) rules

pub same_parts : Parts → Parts → Bool
unfolding same_text
same_parts [] [] = true
same_parts (p ∷ ps) (q ∷ qs) = same_text p q && same_parts ps qs
same_parts _ _ = false

abbrev pub Cache : Type 0
Cache = List (Parts × Rules)

pub cache_get : Parts → Cache → Option Rules
unfolding same_parts
cache_get dir [] = none
cache_get dir ((d, rules) ∷ cache) = if same_parts d dir then some rules else cache_get dir cache

abbrev store_missing : Parts → Rules → Cache → Option Rules → Rules × Cache
store_missing dir fresh cache (some rules) = (rules, cache)
store_missing dir fresh cache none = (fresh, (dir, fresh) ∷ cache)

-- `_mega`
unfoldable pub mega : Config → Files → Parts → Cache → Rules × Cache
unfolding cache_get dir_parts
mega cfg files rel cache =
    store_missing (dir_parts rel) (mega_build cfg files rel) cache (cache_get (dir_parts rel) cache)

abbrev pub decide : Config → Rules → Parts → Bool
decide cfg [] rel = false
decide cfg (r ∷ rules) rel = cfg.ignores (lines_of (r ∷ rules)) (posix rel)

-- `is_ignored`; the path is `none` outside of the project
unfoldable pub is_ignored : Config → Files → Option Parts → Cache → Bool × Cache
is_ignored cfg files none cache = (false, cache)
is_ignored cfg files (some rel) cache =
    let (rules, cache') = mega cfg files rel cache in (decide cfg rules rel, cache')

-- The loop of `_winning_row`: the lines read, the state, the last row that changed it, and the rows to come.
pub winning_loop : (List Text → Bool) → List Text → Bool → Meta → Rules → Meta
winning_loop hit before state last [] = last
winning_loop hit before state last (r ∷ rules) =
    let now = before ++ (r.0 ∷ []) in
    winning_loop hit now (hit now)
      (if (if state then not (hit now) else hit now) then r.1 else last) rules

-- `_winning_row` on rules that are not empty
unfoldable pub winning_row : Config → Parts → (Text × Meta) → Rules → Meta
unfolding winning_loop
winning_row cfg rel r rules =
    winning_loop (λ lines. cfg.ignores lines (posix rel)) [] false r.1 (r ∷ rules)

abbrev pub diagnose_rules : Config → Rules → Parts → Option Meta
diagnose_rules cfg [] rel = none
diagnose_rules cfg (r ∷ rules) rel =
    if cfg.ignores (lines_of (r ∷ rules)) (posix rel)
    then some (winning_row cfg rel r rules)
    else none

-- `diagnose_dict`: the rule that is blamed, or `none` where the path is not ignored
unfoldable pub diagnose : Config → Files → Option Parts → Cache → Option Meta × Cache
diagnose cfg files none cache = (none, cache)
diagnose cfg files (some rel) cache =
    let (rules, cache') = mega cfg files rel cache in (diagnose_rules cfg rules rel, cache')

abbrev first_is_bang : Text → Bool
first_is_bang [] = false
first_is_bang (c ∷ cs) = c == b'!'

-- `_line_has_negation`; a line that begins with `\!` does not begin with `!`
unfoldable pub line_has_negation : List Text → Bool
line_has_negation [] = false
line_has_negation (raw ∷ lines) =
    let later = line_has_negation lines in
    if is_comment (strip raw) then later else first_is_bang (strip raw) || later

pub any_negation : List (List Text) → Bool
unfolding line_has_negation
any_negation [] = false
any_negation (f ∷ fs) = line_has_negation f || any_negation fs

-- `cocoindex_excluded_patterns`, from the lines of all ignore files and of all `.gitignore` files below the root
unfoldable pub cocoindex_excluded_patterns :
    Config → List (List Text) → List (List Text) → List Text
unfolding any_negation
cocoindex_excluded_patterns cfg bundle_files git_files =
    if any_negation bundle_files || (cfg.use_gitignore && any_negation git_files)
    then []
    else cfg.builtin_lines
