-- ===== src/Enrich/Resolve/Config.antt =====
-- Valid configurations of roles and capabilities, as src/java_codebase_rag/graph/graph_enrich.py loads them, and the
-- values of annotations in the source.
use jrag.Base.{
  Bool, true, false, ◌&&◌, Option, none, some, List, ◌≡◌, refl, ap, arith, if◌then◌else◌, Text,
  text_of, same_text, one_of,
}
use jrag.Base.Tables.{get}
use jrag.Enrich.{valid_roles, valid_capabilities}
use jrag.Enrich.Resolve.{Overrides, get_all, valid_enum}

-- The configuration has valid roles and capabilities only, as it is loaded.
pub record IsValid (o : Overrides) : Type 0 where
  pub annotation_roles :
      (n r : Text) → get n o.annotation_to_role ≡ some r → one_of r valid_roles ≡ true
  pub fqn_roles : (n r : Text) → get n o.fqn_role ≡ some r → one_of r valid_roles ≡ true
  pub annotation_capabilities :
      (n c : Text)
      → one_of c (get_all o.annotation_to_capabilities n) ≡ true
      → one_of c valid_capabilities ≡ true
  pub fqn_capabilities_valid :
      (n c : Text)
      → one_of c (get_all o.fqn_capabilities n) ≡ true
      → one_of c valid_capabilities ≡ true

pub if_some :
    (b : Bool) (o : Option Text) (r : Text)
    → (if b then o else none) ≡ some r
    → (b ≡ true) × (o ≡ some r)
if_some true o r h = (refl, h)
if_some false o r h = cc h

pub valid_enum_valid :
    (valid : List Text) (v kind : Option Text) (r : Text)
    → valid_enum valid v kind ≡ some r
    → one_of r valid ≡ true
valid_enum_valid valid none kind r h = cc h
valid_enum_valid valid (some v) none r h = cc h
valid_enum_valid valid (some v) (some kind) r h =
    let (e, same) = if_some (same_text kind (text_of "enum") && one_of v valid) (some v) r h in
    let same_role : v ≡ r = cc same in
    ground (arith, e, ap (λ (u : Text). one_of u valid) same_role)
