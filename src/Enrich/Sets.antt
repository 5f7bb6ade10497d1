-- ===== src/Enrich/Sets.antt =====
-- Loops that add texts to a set, as in `infer_capabilities_for_type` of src/java_codebase_rag/ast/ast_java.py and
-- `resolve_role_and_capabilities` of src/java_codebase_rag/graph/graph_enrich.py.
pub mod Added
use jrag.Base.{
  ℕ, Bool, true, false, Option, none, some, List, [], ◌∷◌, ltb, ◌==◌, if◌then◌else◌, ◌&&◌, ◌||◌,
  Text, one_of,
}
use jrag.Base.Tables.{Table, get}

-- `for x in xs: …`, with the state that the body changes
unfoldable pub each : {A S : Type 0} → (A → S → S) → List A → S → S
each f [] s = s
each f (x ∷ xs) s = each f xs (f x s)

-- `caps.add(c)`
unfoldable pub add : Text → List Text → List Text
unfolding one_of
add c caps = if one_of c caps then caps else c ∷ caps

abbrev pub is_blank_text : Text → Bool
is_blank_text [] = true
is_blank_text (c ∷ cs) = false

-- `cap = table.get(name); if cap: caps.add(cap)`
unfoldable pub add_given : Option Text → List Text → List Text
unfolding add
add_given none caps = caps
add_given (some cap) caps = if is_blank_text cap then caps else add cap caps

unfoldable pub add_mapped : Table Text → Text → List Text → List Text
unfolding add_given get
add_mapped table name caps = add_given (get name table) caps

-- `a <= b` on texts, by their codes
unfoldable pub text_leb : Text → Text → Bool
text_leb [] t = true
text_leb (a ∷ xs) [] = false
text_leb (a ∷ xs) (b ∷ ys) = ltb a b || (a == b && text_leb xs ys)
