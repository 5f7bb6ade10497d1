-- ===== src/Paths/Lines.antt =====
-- How `_prefix_line_to_project` of src/java_codebase_rag/graph/path_filtering.py moves a line of a nested ignore
-- file to the project root.
use jrag.Base.{
  ℕ, false, some, [], ◌∷◌, ◌≡◌, refl, arith, ◌==◌, Text, is_space, lstrip, rstrip, strip,
}
use jrag.Paths.{prefix_line_to_project, line_has_negation}

-- No white space at either end, and none of the characters first that have a meaning there.
abbrev pub IsPlain : ℕ → Text → Type 0
IsPlain c cs =
    (is_space c ≡ false)
    × (rstrip is_space (c ∷ cs) ≡ c ∷ cs)
    × ((c == b'#') ≡ false)
    × ((c == b'!') ≡ false)
    × ((c == b'/') ≡ false)
    × ((c == 92) ≡ false)

strip_plain : (c : ℕ) (cs : Text) → IsPlain c cs → strip (c ∷ cs) ≡ c ∷ cs
unfolding strip lstrip
strip_plain c cs h = rw h.0 h.1

slash : is_space b'/' ≡ false
unfolding is_space
slash = refl

backslash : is_space 92 ≡ false
unfolding is_space
backslash = refl

rstrip_after :
    (p c : ℕ) (cs : Text)
    → rstrip is_space (c ∷ cs) ≡ c ∷ cs
    → rstrip is_space (p ∷ c ∷ cs) ≡ p ∷ c ∷ cs
unfolding rstrip
rstrip_after p c cs k = rw k refl

strip_after :
    (p c : ℕ) (cs : Text)
    → is_space p ≡ false
    → rstrip is_space (c ∷ cs) ≡ c ∷ cs
    → strip (p ∷ c ∷ cs) ≡ p ∷ c ∷ cs
unfolding strip lstrip
strip_after p c cs h k = rw h (rstrip_after p c cs k)

-- A line of an ignore file below which nothing special stands means the same to the mapping with a leading slash and
-- without, whatever the directory; and at the root an escaped exclamation mark becomes a negation, although the scan
-- for negations finds none in the line.
pub prefix_line_plain :
    (prefix : Text) (c : ℕ) (cs : Text)
    → IsPlain c cs
    → (prefix_line_to_project prefix (b'/' ∷ c ∷ cs) ≡ prefix_line_to_project prefix (c ∷ cs))
      × (prefix_line_to_project [] (92 ∷ b'!' ∷ c ∷ cs) ≡ some (b'!' ∷ c ∷ cs))
      × (line_has_negation ((92 ∷ b'!' ∷ c ∷ cs) ∷ []) ≡ false)
unfolding prefix_line_to_project line_has_negation
prefix_line_plain prefix c cs h =
    let e = strip_plain c cs h in
    let a = strip_after b'/' c cs slash h.1 in
    let b = strip_after 92 b'!' (c ∷ cs) backslash (rstrip_after b'!' c cs h.1) in
    ground (arith, e, a, b)
