-- ===== src/Enrich/Roles/Mapped.antt =====
-- The first text that a table of src/java_codebase_rag/ast/ast_java.py has for a list of names.
use jrag.Base.{
  true, Option, none, some, List, [], ◌∷◌, ◌++◌, ◌≡◌, ◌⊎◌, refl, sym, ap, ◌∙◌, arith, Bool-cases,
  inl, inr, Text, same_text, same_text_refl, one_of,
}
use jrag.Base.Tables.{Table, get}
use jrag.Enrich.{values}
use jrag.Enrich.Sets.{is_blank_text}
use jrag.Enrich.Roles.{pick, first_mapped, or_else}

pick-some :
    (o later : Option Text) (r : Text) → pick o later ≡ some r → (o ≡ some r) ⊎ (later ≡ some r)
unfolding pick
pick-some none later r h = inr h
pick-some (some v) later r h = elim (Bool-cases (is_blank_text v)) [
  | inl b ↦ inr (ground (arith, h, b))
  | inr b ↦ inl (ground (arith, h, b))
]

pick-or_else :
    (o later : Option Text) (role : Text)
    → or_else (pick o later) role ≡ or_else (pick o none) (or_else later role)
unfolding pick
pick-or_else none later role = refl
pick-or_else (some v) later role = elim (Bool-cases (is_blank_text v)) [
  | inl b ↦ rw b refl
  | inr b ↦ rw b refl
]

pub first_mapped-found :
    (table : Table Text) (names : List Text) (r : Text)
    → first_mapped table names ≡ some r
    → (n : Text) × (get n table ≡ some r)
unfolding first_mapped
first_mapped-found table [] r h = cc h
first_mapped-found table (n ∷ names) r h =
    elim (pick-some (get n table) (first_mapped table names) r h) [
      | inl e ↦ (n, e)
      | inr e ↦ first_mapped-found table names r e
    ]

pub get-values :
    (n r : Text) (table : Table Text) → get n table ≡ some r → one_of r (values table) ≡ true
unfolding get values one_of
get-values n r [] h = cc h
get-values n r ((k, v) ∷ table) h = elim (Bool-cases (same_text k n)) [
  | inl e ↦ ground (arith, h, e, same_text_refl r)
  | inr e ↦ ground (arith, get-values n r table, h, e)
]

pub first_mapped-append :
    (table : Table Text) (xs ys : List Text) (role : Text)
    → or_else (first_mapped table (xs ++ ys)) role
      ≡ or_else (first_mapped table xs) (or_else (first_mapped table ys) role)
unfolding first_mapped
first_mapped-append table [] ys role = refl
first_mapped-append table (n ∷ xs) ys role =
    pick-or_else (get n table) (first_mapped table (xs ++ ys)) role
    ∙ ap (λ r. or_else (pick (get n table) none) r) (first_mapped-append table xs ys role)
    ∙ sym
        (pick-or_else (get n table) (first_mapped table xs) (or_else (first_mapped table ys) role))

-- A text of a table is one of its values.
pub first_mapped-values :
    (table : Table Text) (names : List Text) (r : Text)
    → first_mapped table names ≡ some r
    → one_of r (values table) ≡ true
first_mapped-values table names r h =
    let f = first_mapped-found table names r h in get-values f.0 r table f.1
