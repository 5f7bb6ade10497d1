-- ===== src/Risk/Examples.antt =====
-- Risk at concrete inputs.
use text.Mathlib.Text.{◌==◌ as str_eq}
use native.Mathlib.Nat.{le-div_iff_mul-le, div-mul-le_self, mul-le-mul_left, mul-div_cancel}
use jrag.Base.Floats.{FloatOps, FloatLaws}
use jrag.Base.{
  ltb, ◌+◌, ◌*◌, ◌/◌, ◌<◌, suc, ℕ, arith, refl, ◌≤◌, ◌≡◌, true, false, none, some, List, [], ◌∷◌,
  String, ◌&&◌, not, if◌then◌else◌,
}
use jrag.Diff.{ChangedSymbol, modified, method}
use jrag.Risk.{Graph, risk_score, band_of, high, compute_risk, contains}
use jrag.Base.Floats.Laws.{Le}
use jrag.Risk.Score.{rank_of, risk_score_bounds, risk_score_mono}
use jrag.Risk.Loop.{IsDistinct, blast_sum, exposes_label, compute_risk_totals}

-- Thousandths, rounded down, in place of floats.
abbrev thousandths : FloatOps ℕ
thousandths = record {
  of_nat = λ n. 1000 * n;
  tenth = λ n. 100 * n;
  times = λ a b. a * b / 1000;
  plus = λ a b. a + b;
  over = λ a b. 1000 * a / b;
  less = λ a b. ltb a b;
}

not_ltb : (a b : ℕ) → a ≤ b → ltb b a ≡ false
not_ltb a b h = ground (arith, h)

le_of_not_ltb : (a b : ℕ) → ltb b a ≡ false → a ≤ b
le_of_not_ltb a b h = ground (arith, h)

div_le : (k a b : ℕ) → 0 < k → a ≤ b → a / k ≤ b / k
div_le k a b p h =
    (le-div_iff_mul-le {k = k} {x = a / k} {y = b} p).1 (omega (arith, h, div-mul-le_self a k))

thousandths_laws : FloatLaws thousandths
thousandths_laws = record {
  asym = λ a b h. ground (arith, h);
  trans = λ a b c h k. ground (arith, h, k);
  of_nat_mono = λ m n h. not_ltb (1000 * m) (1000 * n) (omega (arith, h));
  of_nat_pos = λ n h. ground (arith, h);
  tenth_range = λ n h. not_ltb (100 * n) (1000 * 1) (omega (arith, h));
  times_mono = λ n a b h.
      not_ltb _ _
        (div_le 1000 _ _ (omega arith) (mul-le-mul_left (100 * suc n) (le_of_not_ltb a b h)));
  plus_mono = λ a b c d h k.
      not_ltb (a + c) (b + d) (omega (arith, le_of_not_ltb a b h, le_of_not_ltb c d k));
  over_mono = λ n a b h.
      not_ltb _ _
        (div_le (1000 * suc n) _ _ (omega arith) (mul-le-mul_left 1000 (le_of_not_ltb a b h)));
  times_zero = λ n. not_ltb 0 _ (omega arith);
  over_zero = λ n. not_ltb 0 _ (omega arith);
  zero_plus = λ a. not_ltb a (0 + a) (omega arith);
  over_self = λ n. mul-div_cancel 1000 (omega arith);
}

abbrev graph : Graph
graph = record {
  row_of = λ id.
      if str_eq id "gone"
      then none
      else some (record { fqn = "a.B#m()"; kind = "method"; is_private = false });
  is_interface = λ f. true;
  impact = λ f. 12;
  callers = λ f. [];
  exposed = λ id. "r1" ∷ "r2" ∷ "r1" ∷ [];
  natural_id = λ rid. "GET /x";
  cross_service_callers = λ rid. 1;
}

abbrev changed_symbol : String → ChangedSymbol
changed_symbol id = record {
  symbol_id = id;
  fqn = "a.B#m()";
  kind = method;
  change_type = modified;
  file = "B.java";
  hunk_lines = 7 ∷ [];
  cross_service_callers_count = 0;
}

abbrev changed : List ChangedSymbol
changed = changed_symbol "s" ∷ changed_symbol "gone" ∷ changed_symbol "t" ∷ []

compute_risk_totals_example :
    ((compute_risk thousandths graph changed).totals.blast_total ≡ blast_sum graph changed)
    × IsDistinct (compute_risk thousandths graph changed).totals.routes
    × ((l : String)
        → contains l (compute_risk thousandths graph changed).totals.routes
          ≡ (not (str_eq l "") && exposes_label graph l changed))
compute_risk_totals_example = compute_risk_totals thousandths graph changed

risk_score_bounds_example :
    Le thousandths 0 (risk_score thousandths 40 3 true 2 1)
    × Le thousandths (risk_score thousandths 40 3 true 2 1) 1000
    × (risk_score thousandths 40 3 true 2 6 ≡ 1000)
    × (band_of thousandths (risk_score thousandths 40 3 true 2 6) ≡ high)
risk_score_bounds_example = risk_score_bounds thousandths thousandths_laws 40 3 2 1 true

risk_score_mono_example :
    Le thousandths (risk_score thousandths 40 3 false 2 1) (risk_score thousandths 90 3 true 2 4)
    × (rank_of (band_of thousandths (risk_score thousandths 40 3 false 2 1))
        ≤ rank_of (band_of thousandths (risk_score thousandths 90 3 true 2 4)))
risk_score_mono_example =
    risk_score_mono thousandths thousandths_laws 40 90 3 3 2 2 1 4 false true (omega arith)
      (omega arith) (omega arith) (omega arith) (λ _. refl)
