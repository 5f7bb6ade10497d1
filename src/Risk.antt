-- ===== src/Risk.antt =====
-- The risk of changed symbols: `compute_risk` of src/java_codebase_rag/analysis/pr_analysis.py.
-- The graph queries and Python's floats are arguments.
pub mod Score
pub mod Loop
mod Examples
use text.Mathlib.Text.{◌==◌ as str_eq}
use Prim.Native.Char.{code}
use jrag.Base.{
  ℕ, zero, suc, ◌+◌, ◌-◌, ◌*◌, ◌/◌, Bool, true, false, Option, none, some, List, [], ◌∷◌, ◌++◌,
  String, ltb, leb, ◌==◌, if◌then◌else◌, ◌&&◌, ◌||◌, not, min, max,
}
use jrag.Base.Floats.{FloatOps, at_most, min_of, max_of}
use jrag.Diff.{ChangedSymbol, MappedKind, method, field, type}

-- `s.split("#", 1)[0]`
pub before_hash : String → String
before_hash String.[] = ""
before_hash (String.◌∷◌ c s) =
    let rest = before_hash s in if code c == b'#' then "" else String.◌∷◌ c rest

-- The row of a symbol, as far as it is read here.
pub record Row : Type 0 where
  pub fqn : String
  pub kind : String
  pub is_private : Bool

-- A call edge, by the microservices of its ends.
pub record CallEdge : Type 0 where
  pub src : String
  pub dst : String

-- The graph: rows by id, whether a type is an interface, the sizes of `impact_analysis`, the edges of
-- `find_callers`, the route ids of the EXPOSES query in order, their labels, and the number of clients and
-- producers of other services that call a route.
pub record Graph : Type 0 where
  pub row_of : String → Option Row
  pub is_interface : String → Bool
  pub impact : String → ℕ
  pub callers : String → List CallEdge
  pub exposed : String → List String
  pub natural_id : String → String
  pub cross_service_callers : String → ℕ

pub contains : String → List String → Bool
contains s [] = false
contains s (t ∷ ts) = str_eq t s || contains s ts

-- `_impact_needle_for_changed`
pub impact_needle : String → MappedKind → String
unfolding before_hash
impact_needle fqn method = before_hash fqn
impact_needle fqn field = before_hash fqn
impact_needle fqn type = fqn

-- `_is_public_interface_method`, of a row with its recorded fqn.
pub is_public_interface_method : Graph → Row → Bool
unfolding before_hash
is_public_interface_method g r =
    str_eq r.kind "method" && (not r.is_private && g.is_interface (before_hash r.fqn))

-- The routes of a symbol: no empty id, and none twice.
pub distinct_from : List String → List String → List String
unfolding contains
distinct_from out [] = out
distinct_from out (r ∷ rs) =
    distinct_from (if str_eq r "" || contains r out then out else out ++ r ∷ []) rs

-- `_route_ids_for_symbol`
pub route_ids_for_symbol : Graph → String → List String
unfolding distinct_from
route_ids_for_symbol g id = distinct_from [] (g.exposed id)

pub cross_edges : List CallEdge → ℕ
cross_edges [] = 0
cross_edges (e ∷ es) =
    (if not (str_eq e.src "") && (not (str_eq e.dst "") && not (str_eq e.src e.dst)) then 1 else 0)
    + cross_edges es

-- The labels of the routes of one symbol join those that are there.
pub add_labels : Graph → List String → List String → List String
unfolding contains
add_labels g routes [] = routes
add_labels g routes (rid ∷ rids) =
    let label = g.natural_id rid in
    add_labels g (if str_eq label "" || contains label routes then routes else routes ++ label ∷ [])
      rids

pub count_callers : Graph → List String → ℕ
count_callers g [] = 0
count_callers g (rid ∷ rids) = g.cross_service_callers rid + count_callers g rids

-- The variables of the loop of `compute_risk`.
pub record Totals : Type 0 where
  pub iface_hit : Bool
  pub blast_by : List (String × ℕ)
  pub blast_total : ℕ
  pub cross_total : ℕ
  pub routes : List String
  pub enriched : List ChangedSymbol

-- `d[k] = v`
pub store : String → ℕ → List (String × ℕ) → List (String × ℕ)
store k v [] = (k, v) ∷ []
store k v ((j, w) ∷ m) = if str_eq j k then (k, v) ∷ m else (j, w) ∷ store k v m

abbrev pub or_else : String → String → String
or_else s t = if str_eq s "" then t else s

abbrev visit_row : Graph → Totals → ChangedSymbol → Option Row → Totals
visit_row g t cs none = t
visit_row g t cs (some r) =
    let fqn = or_else r.fqn cs.fqn in
    let n = g.impact (impact_needle fqn cs.kind) in
    let rids = route_ids_for_symbol g cs.symbol_id in
    record {
      iface_hit = t.iface_hit || is_public_interface_method g r;
      blast_by = store (or_else fqn cs.symbol_id) n t.blast_by;
      blast_total = t.blast_total + n;
      cross_total = t.cross_total + cross_edges (g.callers cs.fqn);
      routes = add_labels g t.routes rids;
      enriched =
          t.enriched ++ record cs { cross_service_callers_count = count_callers g rids } ∷ [];
    }

-- One turn of the loop: a symbol that is not in the graph is passed over.
pub visit : Graph → Totals → ChangedSymbol → Totals
visit g t cs = visit_row g t cs (g.row_of cs.symbol_id)

pub visit_all : Graph → Totals → List ChangedSymbol → Totals
unfolding visit
visit_all g t [] = t
visit_all g t (cs ∷ css) = visit_all g (visit g t cs) css

abbrev pub no_totals : Totals
no_totals = record {
  iface_hit = false;
  blast_by = [];
  blast_total = 0;
  cross_total = 0;
  routes = [];
  enriched = [];
}

pub data Band : Type 0 where
  low medium high : Band

module _ {Q : Type 0} (f : FloatOps Q) where
  -- `_normalize`
  pub normalize : Q → Q → Q
  unfolding min_of
  normalize x ceiling =
      if at_most f ceiling (f.of_nat 0) then f.of_nat 0 else f.over (min_of f x ceiling) ceiling

  -- The weighted sum, in the order of its terms.
  pub raw_score : ℕ → ℕ → Bool → ℕ → Q
  unfolding normalize
  raw_score blast cross iface routes =
      f.plus
        (f.plus
          (f.plus (f.times (f.tenth 4) (normalize (f.of_nat blast) (f.of_nat 100)))
            (f.times (f.tenth 3) (normalize (f.of_nat cross) (f.of_nat 20))))
          (f.times (f.tenth 2) (if iface then f.of_nat 1 else f.of_nat 0)))
        (f.times (f.tenth 1) (normalize (f.of_nat routes) (f.of_nat 5)))

  -- A fifth of the bonus is added, and the sum is cut at 0 and 1.
  pub risk_score : ℕ → ℕ → Bool → ℕ → ℕ → Q
  unfolding raw_score min_of max_of
  risk_score blast cross iface routes callers =
      let raw = raw_score blast cross iface routes in
      let bonus = min_of f (f.of_nat 5) (f.of_nat callers) in
      max_of f (f.of_nat 0) (min_of f (f.of_nat 1) (f.plus raw (f.over bonus (f.of_nat 5))))

  pub band_of : Q → Band
  band_of score =
      if f.less score (f.tenth 3) then low else if f.less score (f.tenth 7) then medium else high

pub sum_callers : List ChangedSymbol → ℕ
sum_callers [] = 0
sum_callers (c ∷ cs) = c.cross_service_callers_count + sum_callers cs

abbrev pub count : List String → ℕ
count [] = 0
count (s ∷ ss) = suc (count ss)

pub record Report (Q : Type 0) : Type 0 where
  pub totals : Totals
  pub score : Q
  pub band : Band

module _ {Q : Type 0} (f : FloatOps Q) where
  abbrev report_of : Totals → Report Q
  report_of t =
      let score =
        risk_score f t.blast_total t.cross_total t.iface_hit (count t.routes)
          (sum_callers t.enriched) in
      record { totals = t; score = score; band = band_of f score }

  -- `compute_risk`
  pub compute_risk : Graph → List ChangedSymbol → Report Q
  unfolding visit_all sum_callers risk_score band_of
  compute_risk g changed = report_of (visit_all g no_totals changed)
