-- ===== src/Risk/Loop.antt =====
-- What the loop of `compute_risk` adds up.
use text.Mathlib.Text.{◌==◌ as str_eq}
use text.Mathlib.TextEquality.{eq_iff}
use jrag.Base.{
  ℕ, ◌+◌, ◌≡◌, refl, Bool, false, Option, none, some, List, [], ◌∷◌, ◌++◌, String, arith, ◌&&◌,
  ◌||◌, not, Bool-cases, inl, inr, ◌∙◌, ap, Option-cases,
}
use jrag.Base.Floats.{FloatOps}
use jrag.Diff.{ChangedSymbol}
use jrag.Risk.{
  Graph, Row, contains, impact_needle, add_labels, route_ids_for_symbol, Totals, visit, visit_all,
  no_totals, or_else, compute_risk,
}

abbrev pub IsDistinct : List String → Type 0
IsDistinct [] = Unit
IsDistinct (s ∷ ss) = (contains s ss ≡ false) × IsDistinct ss

contains-append :
    (s t : String) (xs : List String) → contains s (xs ++ t ∷ []) ≡ (contains s xs || str_eq t s)
unfolding contains
contains-append s t [] = ground arith
contains-append s t (x ∷ xs) = ground (arith, contains-append s t xs)

append-IsDistinct :
    (t : String) (xs : List String)
    → contains t xs ≡ false
    → IsDistinct xs
    → IsDistinct (xs ++ t ∷ [])
unfolding contains
append-IsDistinct t [] h d = (refl, tt)
append-IsDistinct t (x ∷ xs) h d = (
  ground (arith, contains-append x t xs, eq_iff x t, eq_iff t x),
  append-IsDistinct t xs (ground arith) d.1,
)

-- Some route of the list has the label.
abbrev any_label : Graph → String → List String → Bool
any_label g l [] = false
any_label g l (rid ∷ rids) = str_eq (g.natural_id rid) l || any_label g l rids

contains-add_labels :
    (g : Graph) (l : String) (routes rids : List String)
    → contains l (add_labels g routes rids)
      ≡ (contains l routes || (not (str_eq l "") && any_label g l rids))
unfolding add_labels
contains-add_labels g l routes [] = ground arith
contains-add_labels g l routes (rid ∷ rids) =
    let label = g.natural_id rid in
    elim (Bool-cases (str_eq label "" || contains label routes)) [
      | inl old ↦ rw old (
          contains-add_labels g l routes rids
          ∙ ground (arith, eq_iff label l, eq_iff label "", eq_iff l ""))
      | inr new ↦ rw new (
          contains-add_labels g l (routes ++ label ∷ []) rids
          ∙ ground
              (arith, contains-append l label routes, eq_iff label l, eq_iff label "", eq_iff l ""))
    ]

add_labels-IsDistinct :
    (g : Graph) (routes rids : List String)
    → IsDistinct routes
    → IsDistinct (add_labels g routes rids)
unfolding add_labels
add_labels-IsDistinct g routes [] d = d
add_labels-IsDistinct g routes (rid ∷ rids) d =
    let label = g.natural_id rid in
    elim (Bool-cases (str_eq label "" || contains label routes)) [
      | inl old ↦ rw old (add_labels-IsDistinct g routes rids d)
      | inr new ↦ rw new (
          add_labels-IsDistinct g (routes ++ label ∷ []) rids
            (append-IsDistinct label routes (ground arith) d))
    ]

-- The blast radius of the symbols that are in the graph, and whether one of them exposes a route of
-- the label.
abbrev impact_of : Graph → ChangedSymbol → Option Row → ℕ
impact_of g cs none = 0
impact_of g cs (some r) = g.impact (impact_needle (or_else r.fqn cs.fqn) cs.kind)

abbrev pub blast_sum : Graph → List ChangedSymbol → ℕ
blast_sum g [] = 0
blast_sum g (cs ∷ css) = impact_of g cs (g.row_of cs.symbol_id) + blast_sum g css

abbrev label_of : Graph → String → ChangedSymbol → Option Row → Bool
label_of g l cs none = false
label_of g l cs (some r) = any_label g l (route_ids_for_symbol g cs.symbol_id)

abbrev pub exposes_label : Graph → String → List ChangedSymbol → Bool
exposes_label g l [] = false
exposes_label g l (cs ∷ css) = label_of g l cs (g.row_of cs.symbol_id) || exposes_label g l css

visit_all_blast :
    (g : Graph) (t : Totals) (css : List ChangedSymbol)
    → (visit_all g t css).blast_total ≡ t.blast_total + blast_sum g css
unfolding visit_all
visit_all_blast g t [] = omega arith
visit_all_blast g t (cs ∷ css) = visit_all_blast g (visit g t cs) css ∙ visit_blast
  where
    visit_blast :
        (visit g t cs).blast_total + blast_sum g css
        ≡ t.blast_total + (impact_of g cs (g.row_of cs.symbol_id) + blast_sum g css)
    visit_blast = elim (Option-cases (g.row_of cs.symbol_id)) [
      | inl absent ↦ ground arith
      | inr (r, present) ↦ ground arith
    ]

visit_label :
    (g : Graph) (l : String) (t : Totals) (cs : ChangedSymbol) (o : Option Row)
    → g.row_of cs.symbol_id ≡ o
    → contains l (visit g t cs).routes
      ≡ (contains l t.routes || (not (str_eq l "") && label_of g l cs o))
unfolding visit
visit_label g l t cs none e = ground arith
visit_label g l t cs (some r) e =
    rw e (contains-add_labels g l t.routes (route_ids_for_symbol g cs.symbol_id))

visit-IsDistinct :
    (g : Graph) (t : Totals) (cs : ChangedSymbol) (o : Option Row)
    → g.row_of cs.symbol_id ≡ o
    → IsDistinct t.routes
    → IsDistinct (visit g t cs).routes
unfolding visit
visit-IsDistinct g t cs none e d = rw e d
visit-IsDistinct g t cs (some r) e d =
    rw e (add_labels-IsDistinct g t.routes (route_ids_for_symbol g cs.symbol_id) d)

distribute : (a b c d : Bool) → (a || (b && c) || (b && d)) ≡ (a || (b && (c || d)))
distribute a b c d = ground arith

visit_all_labels :
    (g : Graph) (l : String) (t : Totals) (css : List ChangedSymbol)
    → contains l (visit_all g t css).routes
      ≡ (contains l t.routes || (not (str_eq l "") && exposes_label g l css))
unfolding visit_all
visit_all_labels g l t [] = ground arith
visit_all_labels g l t (cs ∷ css) =
    let o = g.row_of cs.symbol_id in
    visit_all_labels g l (visit g t cs) css
    ∙ ap (λ b. b || (not (str_eq l "") && exposes_label g l css)) (visit_label g l t cs o refl)
    ∙ distribute (contains l t.routes) (not (str_eq l "")) (label_of g l cs o)
        (exposes_label g l css)

visit_all-IsDistinct :
    (g : Graph) (t : Totals) (css : List ChangedSymbol)
    → IsDistinct t.routes
    → IsDistinct (visit_all g t css).routes
unfolding visit_all
visit_all-IsDistinct g t [] d = d
visit_all-IsDistinct g t (cs ∷ css) d =
    visit_all-IsDistinct g (visit g t cs) css
      (visit-IsDistinct g t cs (g.row_of cs.symbol_id) refl d)

-- Of the report of `compute_risk` for any changed symbols: `blast_radius_total` is the sum, over the symbols that are in the
-- graph, of the sizes of their impact analyses; and `routes_touched` names no route twice, and names
-- exactly the nonempty labels of the routes that those symbols expose.
pub compute_risk_totals :
    {Q : Type 0} (f : FloatOps Q) (g : Graph) (changed : List ChangedSymbol)
    → ((compute_risk f g changed).totals.blast_total ≡ blast_sum g changed)
      × IsDistinct (compute_risk f g changed).totals.routes
      × ((l : String)
          → contains l (compute_risk f g changed).totals.routes
            ≡ (not (str_eq l "") && exposes_label g l changed))
unfolding compute_risk contains
compute_risk_totals f g changed = (
  visit_all_blast g no_totals changed ∙ omega arith,
  visit_all-IsDistinct g no_totals changed tt,
  λ l. visit_all_labels g l no_totals changed,
)
