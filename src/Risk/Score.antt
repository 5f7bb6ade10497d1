-- ===== src/Risk/Score.antt =====
-- The bounds and the direction of the risk score of src/java_codebase_rag/analysis/pr_analysis.py.
use jrag.Base.{ℕ, suc, ◌+◌, ◌≤◌, ◌≡◌, Bool, true, false, arith, refl, ap, ◌∙◌, if◌then◌else◌}
use jrag.Base.Floats.{FloatOps, FloatLaws, min_of}
use jrag.Base.Floats.Laws.{
  Le, le_refl, min_of_mono, min_of_swapped, max_of_mono, plus_above, plus_nonneg, cut_bounds,
  cut_at_one,
}
use jrag.Risk.{normalize, raw_score, risk_score, band_of, Band, low, medium, high}

abbrev pub Implies : Bool → Bool → Type 0
Implies a b = a ≡ true → b ≡ true

abbrev pub rank_of : Band → ℕ
rank_of low = 0
rank_of medium = 1
rank_of high = 2

module _ {Q : Type 0} (f : FloatOps Q) (laws : FloatLaws f) where
  normalize_mono :
      (n : ℕ) (a b : Q)
      → Le f a b
      → Le f (normalize f a (f.of_nat (suc n))) (normalize f b (f.of_nat (suc n)))
  unfolding normalize
  normalize_mono n a b h =
      rw (laws.of_nat_pos (suc n) (omega arith))
        (laws.over_mono n _ _ (min_of_swapped f laws (f.of_nat (suc n)) a b h))

  interface_mono :
      (i j : Bool)
      → Implies i j
      → Le f (if i then f.of_nat 1 else f.of_nat 0) (if j then f.of_nat 1 else f.of_nat 0)
  interface_mono true true h = le_refl f laws (f.of_nat 1)
  interface_mono true false h = ground (arith, h refl)
  interface_mono false true h = laws.of_nat_mono 0 1 (omega arith)
  interface_mono false false h = le_refl f laws (f.of_nat 0)

  part_mono :
      (w n k l : ℕ)
      → k ≤ l
      → Le f
          (f.times (f.tenth (suc w)) (normalize f (f.of_nat k) (f.of_nat (suc n))))
          (f.times (f.tenth (suc w)) (normalize f (f.of_nat l) (f.of_nat (suc n))))
  part_mono w n k l h =
      laws.times_mono w _ _ (normalize_mono n (f.of_nat k) (f.of_nat l) (laws.of_nat_mono k l h))

  raw_score_mono :
      (b b' c c' r r' : ℕ) (i i' : Bool)
      → b ≤ b'
      → c ≤ c'
      → Implies i i'
      → r ≤ r'
      → Le f (raw_score f b c i r) (raw_score f b' c' i' r')
  unfolding raw_score
  raw_score_mono b b' c c' r r' i i' hb hc hi hr =
      laws.plus_mono _ _ _ _
        (laws.plus_mono _ _ _ _
          (laws.plus_mono _ _ _ _ (part_mono 3 99 b b' hb) (part_mono 2 19 c c' hc))
          (laws.times_mono 1 _ _ (interface_mono i i' hi)))
        (part_mono 0 4 r r' hr)

  risk_score_rises :
      (b b' c c' r r' k k' : ℕ) (i i' : Bool)
      → b ≤ b'
      → c ≤ c'
      → Implies i i'
      → r ≤ r'
      → k ≤ k'
      → Le f (risk_score f b c i r k) (risk_score f b' c' i' r' k')
  unfolding risk_score
  risk_score_rises b b' c c' r r' k k' i i' hb hc hi hr hk = max_of_mono f laws (f.of_nat 0) _ _ (
      min_of_mono f laws (f.of_nat 1) _ _ (
        laws.plus_mono _ _ _ _ (raw_score_mono b b' c c' r r' i i' hb hc hi hr)
          (laws.over_mono 4 _ _ (min_of_mono f laws (f.of_nat 5) _ _ (laws.of_nat_mono k k' hk)))))

  band_mono : (s t : Q) → Le f s t → rank_of (band_of f s) ≤ rank_of (band_of f t)
  unfolding band_of
  band_mono s t h = ground (arith, laws.trans (f.tenth 3) s t, laws.trans (f.tenth 7) s t, h)

  zero_normalized : (n : ℕ) → Le f (f.of_nat 0) (normalize f (f.of_nat 0) (f.of_nat (suc n)))
  unfolding normalize min_of
  zero_normalized n =
      let pos = laws.of_nat_pos (suc n) (omega arith) in
      rw (pos, laws.asym (f.of_nat 0) (f.of_nat (suc n)) pos) (laws.over_zero n)

  part_nonneg :
      (w n k : ℕ)
      → Le f (f.of_nat 0) (f.times (f.tenth (suc w)) (normalize f (f.of_nat k) (f.of_nat (suc n))))
  part_nonneg w n k = laws.trans _ _ _ (laws.times_zero w) (
      laws.times_mono w _ _ (
        laws.trans _ _ _ (zero_normalized n)
          (normalize_mono n (f.of_nat 0) (f.of_nat k) (laws.of_nat_mono 0 k (omega arith)))))

  interface_nonneg : (i : Bool) → Le f (f.of_nat 0) (if i then f.of_nat 1 else f.of_nat 0)
  interface_nonneg true = laws.of_nat_mono 0 1 (omega arith)
  interface_nonneg false = le_refl f laws (f.of_nat 0)

  raw_score_nonneg : (b c r : ℕ) (i : Bool) → Le f (f.of_nat 0) (raw_score f b c i r)
  unfolding raw_score
  raw_score_nonneg b c r i =
      plus_nonneg f laws _ _
        (plus_nonneg f laws _ _ (plus_nonneg f laws _ _ (part_nonneg 3 99 b) (part_nonneg 2 19 c))
          (laws.trans _ _ _ (laws.times_zero 1) (laws.times_mono 1 _ _ (interface_nonneg i))))
        (part_nonneg 0 4 r)

  full_bonus : (callers : ℕ) → min_of f (f.of_nat 5) (f.of_nat (5 + callers)) ≡ f.of_nat 5
  unfolding min_of
  full_bonus callers = rw (laws.of_nat_mono 5 (5 + callers) (omega arith)) refl

  full_score :
      (blast cross routes callers : ℕ) (iface : Bool)
      → risk_score f blast cross iface routes (5 + callers) ≡ f.of_nat 1
  unfolding risk_score
  full_score blast cross routes callers iface = rw (full_bonus callers) (
      rw (laws.over_self 4) (
        cut_at_one f laws (f.plus (raw_score f blast cross iface routes) (f.of_nat 1)) (
          plus_above f laws (raw_score f blast cross iface routes) (f.of_nat 1)
            (raw_score_nonneg blast cross routes iface))))

  one_high : band_of f (f.of_nat 1) ≡ high
  unfolding band_of
  one_high = rw (laws.tenth_range 3 (omega arith), laws.tenth_range 7 (omega arith)) refl

  -- Where floats behave as IEEE 754 says: the score lies between 0 and 1; and with five or more cross-service route
  -- callers it is exactly 1, in the band `high`, whatever else comes in.
  pub risk_score_bounds :
      (blast cross routes callers : ℕ) (iface : Bool)
      → Le f (f.of_nat 0) (risk_score f blast cross iface routes callers)
        × Le f (risk_score f blast cross iface routes callers) (f.of_nat 1)
        × (risk_score f blast cross iface routes (5 + callers) ≡ f.of_nat 1)
        × (band_of f (risk_score f blast cross iface routes (5 + callers)) ≡ high)
  unfolding risk_score
  risk_score_bounds blast cross routes callers iface =
      let bounds = cut_bounds f laws (
        f.plus (raw_score f blast cross iface routes)
          (f.over (min_of f (f.of_nat 5) (f.of_nat callers)) (f.of_nat 5))) in
      let full = full_score blast cross routes callers iface in
      (bounds.0, bounds.1, full, ap (band_of f) full ∙ one_high)

  -- Where floats behave as IEEE 754 says: neither the score nor the band falls when the blast radius, the cross-service
  -- calls, the routes and the cross-service route callers do not fall, and an interface method stays hit.
  pub risk_score_mono :
      (blast blast' cross cross' routes routes' callers callers' : ℕ) (iface iface' : Bool)
      → blast ≤ blast'
      → cross ≤ cross'
      → routes ≤ routes'
      → callers ≤ callers'
      → Implies iface iface'
      → Le f
          (risk_score f blast cross iface routes callers)
          (risk_score f blast' cross' iface' routes' callers')
        × (rank_of (band_of f (risk_score f blast cross iface routes callers))
            ≤ rank_of (band_of f (risk_score f blast' cross' iface' routes' callers')))
  risk_score_mono b b' c c' r r' k k' i i' hb hc hr hk hi =
      let le = risk_score_rises b b' c c' r r' k k' i i' hb hc hi hr hk in (le, band_mono _ _ le)
