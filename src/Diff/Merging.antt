-- ===== src/Diff/Merging.antt =====
-- What `map_hunks_to_symbols` says of each symbol.
pub mod Symbols
use mathlib.Core.Path.{ap₂}
use text.Mathlib.Text.{◌==◌ as str_eq}
use text.Mathlib.TextEquality.{eq_iff}
use jrag.Base.{
  ℕ, ◌≡◌, refl, Bool, true, false, Option, none, some, List, [], ◌∷◌, ◌++◌, String, arith, All,
  ◌&&◌, ◌||◌, not, ◌==◌, ltb, leb, max, min, if◌then◌else◌, Bool-cases, inl, inr, ◌∙◌, ap,
  All-append,
}
use jrag.Diff.{
  ChangedSymbol, ChangeType, modified, removed, SymbolHit, DiffHunk, Queries, combine, merge,
  merge_all, symbol_to_changed, changes_of, on_file, hunk_changes, map_from, map_hunks_to_symbols,
  sorted_set, lines_between, positive,
}
use jrag.Diff.Lines.{
  member, IsIncreasing, member-sorted_set, sorted_set-IsIncreasing, member-append, member-positive,
  member-lines_between,
}

abbrev pub find : String → List ChangedSymbol → Option ChangedSymbol
find id [] = none
find id (c ∷ cs) = if str_eq c.symbol_id id then some c else find id cs

abbrev pub join : Option ChangedSymbol → ChangedSymbol → ChangedSymbol
join none c = c
join (some e) c = combine e c

-- The merged change of one symbol.
abbrev pub collect : String → Option ChangedSymbol → List ChangedSymbol → Option ChangedSymbol
collect id acc [] = acc
collect id acc (c ∷ cs) = collect id (if str_eq c.symbol_id id then some (join acc c) else acc) cs

find-merge :
    (id : String) (c : ChangedSymbol) (cs : List ChangedSymbol)
    → find id (merge c cs)
      ≡ (if str_eq c.symbol_id id then some (join (find id cs) c) else find id cs)
unfolding merge combine
find-merge id c [] = refl
find-merge id c (d ∷ ds) = ground (
  arith,
  find-merge id c ds,
  eq_iff d.symbol_id c.symbol_id,
  eq_iff d.symbol_id id,
  eq_iff c.symbol_id id,
)

pub find-merge_all :
    (id : String) (by_id cs : List ChangedSymbol)
    → find id (merge_all by_id cs) ≡ collect id (find id by_id) cs
unfolding merge_all
find-merge_all id by_id [] = refl
find-merge_all id by_id (c ∷ cs) =
    find-merge_all id (merge c by_id) cs ∙ ap (λ o. collect id o cs) (find-merge id c by_id)

-- Whether a line is among those of a change, and whether it is a modification.
abbrev pub has_line : ℕ → Option ChangedSymbol → Bool
has_line n none = false
has_line n (some c) = member n c.hunk_lines

abbrev pub is_modified : ChangeType → Bool
is_modified modified = true
is_modified _ = false

abbrev pub has_modified : Option ChangedSymbol → Bool
has_modified none = false
has_modified (some c) = is_modified c.change_type

abbrev pub any_line : String → ℕ → List ChangedSymbol → Bool
any_line id n [] = false
any_line id n (c ∷ cs) = (str_eq c.symbol_id id && member n c.hunk_lines) || any_line id n cs

abbrev pub any_modified : String → List ChangedSymbol → Bool
any_modified id [] = false
any_modified id (c ∷ cs) =
    (str_eq c.symbol_id id && is_modified c.change_type) || any_modified id cs

has_line-join :
    (n : ℕ) (acc : Option ChangedSymbol) (c : ChangedSymbol)
    → has_line n (some (join acc c)) ≡ (has_line n acc || member n c.hunk_lines)
unfolding combine
has_line-join n none c = refl
has_line-join n (some e) c =
    member-sorted_set n (e.hunk_lines ++ c.hunk_lines) ∙ member-append n e.hunk_lines c.hunk_lines

pub has_line-collect :
    (id : String) (n : ℕ) (acc : Option ChangedSymbol) (cs : List ChangedSymbol)
    → has_line n (collect id acc cs) ≡ (has_line n acc || any_line id n cs)
has_line-collect id n acc [] = ground arith
has_line-collect id n acc (c ∷ cs) = elim (Bool-cases (str_eq c.symbol_id id)) [
  | inl same ↦
      rw same (has_line-collect id n (some (join acc c)) cs ∙ ground (arith, has_line-join n acc c))
  | inr other ↦ rw other (has_line-collect id n acc cs)
]

has_modified-join :
    (acc : Option ChangedSymbol) (c : ChangedSymbol)
    → has_modified (some (join acc c)) ≡ (has_modified acc || is_modified c.change_type)
unfolding combine
has_modified-join acc c = ground arith

pub has_modified-collect :
    (id : String) (acc : Option ChangedSymbol) (cs : List ChangedSymbol)
    → has_modified (collect id acc cs) ≡ (has_modified acc || any_modified id cs)
has_modified-collect id acc [] = ground arith
has_modified-collect id acc (c ∷ cs) = elim (Bool-cases (str_eq c.symbol_id id)) [
  | inl same ↦
      rw same
        (has_modified-collect id (some (join acc c)) cs ∙ ground (arith, has_modified-join acc c))
  | inr other ↦ rw other (has_modified-collect id acc cs)
]

pub any_line-append :
    (id : String) (n : ℕ) (cs ds : List ChangedSymbol)
    → any_line id n (cs ++ ds) ≡ (any_line id n cs || any_line id n ds)
any_line-append id n [] ds = refl
any_line-append id n (c ∷ cs) ds = ground (arith, any_line-append id n cs ds)

pub any_modified-append :
    (id : String) (cs ds : List ChangedSymbol)
    → any_modified id (cs ++ ds) ≡ (any_modified id cs || any_modified id ds)
any_modified-append id [] ds = refl
any_modified-append id (c ∷ cs) ds = ground (arith, any_modified-append id cs ds)

-- The symbol is one of `syms`, not as a file.
abbrev pub declares : String → SymbolHit → Bool
declares id sym = str_eq sym.id id && not (str_eq sym.kind "file")

-- Line `n` lies in the lines `lo` to `hi` and in those of a symbol of that id.
abbrev pub overlaps : String → ℕ → ℕ → ℕ → List SymbolHit → Bool
overlaps id n lo hi [] = false
overlaps id n lo hi (sym ∷ syms) =
    (declares id sym
      && (ltb 0 n && ((leb lo n && leb n hi) && (leb sym.start_line n && leb n sym.end_line))))
    || overlaps id n lo hi syms

abbrev pub any_declares : String → List SymbolHit → Bool
any_declares id [] = false
any_declares id (sym ∷ syms) = declares id sym || any_declares id syms

in_both :
    (n lo hi a b : ℕ)
    → (leb (max lo a) n && leb n (min hi b)) ≡ ((leb lo n && leb n hi) && (leb a n && leb n b))
in_both n lo hi a b = ground arith

member_overlap :
    (n lo hi a b : ℕ)
    → member n (sorted_set (positive (lines_between (max lo a) (min hi b))))
      ≡ (ltb 0 n && ((leb lo n && leb n hi) && (leb a n && leb n b)))
member_overlap n lo hi a b =
    member-sorted_set n (positive (lines_between (max lo a) (min hi b)))
    ∙ member-positive n (lines_between (max lo a) (min hi b))
    ∙ ap (λ t. ltb 0 n && t) (member-lines_between n (max lo a) (min hi b) ∙ in_both n lo hi a b)

pub any_line-changes_of :
    (id : String) (n : ℕ) (change : ChangeType) (lo hi : ℕ) (syms : List SymbolHit)
    → any_line id n (changes_of change lo hi syms) ≡ overlaps id n lo hi syms
unfolding changes_of
any_line-changes_of id n change lo hi [] = refl
any_line-changes_of id n change lo hi (sym ∷ syms) = elim (Bool-cases (str_eq sym.kind "file")) [
  | inl file ↦ rw file (
      any_line-changes_of id n change lo hi syms
      ∙ skip (str_eq sym.id id) _ (overlaps id n lo hi syms))
  | inr other ↦ rw other (
      ap₂ (λ a b. (str_eq sym.id id && a) || b) (member_overlap n lo hi sym.start_line sym.end_line)
        (any_line-changes_of id n change lo hi syms)
      ∙ keep (str_eq sym.id id) _ (overlaps id n lo hi syms))
]
  where
    skip : (x y z : Bool) → z ≡ ((x && false) && y || z)
    skip x y z = ground arith

    keep : (x y z : Bool) → (x && y || z) ≡ ((x && true) && y || z)
    keep x y z = ground arith

pub any_modified-changes_of :
    (id : String) (change : ChangeType) (lo hi : ℕ) (syms : List SymbolHit)
    → any_modified id (changes_of change lo hi syms) ≡ (is_modified change && any_declares id syms)
unfolding changes_of
any_modified-changes_of id change lo hi [] = ground arith
any_modified-changes_of id change lo hi (sym ∷ syms) =
    ground (arith, any_modified-changes_of id change lo hi syms)
