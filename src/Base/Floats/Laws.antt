-- ===== src/Base/Floats/Laws.antt =====
-- The order of floats, `min`, `max` and sums.
use jrag.Base.Tests.{Bool-cases}
use mathlib.Core.Bool.{false}
use mathlib.Core.Path.{◌≡◌}
use mathlib.Core.Logic.{inl, inr}
use native.Mathlib.Omega.{arith}
use jrag.Base.Floats.{FloatOps, FloatLaws, min_of, max_of}

-- `a <= b`
abbrev pub Le : {Q : Type 0} → FloatOps Q → Q → Q → Type 0
Le f a b = f.less b a ≡ false

module _ {Q : Type 0} (f : FloatOps Q) (laws : FloatLaws f) where
  pub le_refl : (a : Q) → Le f a a
  le_refl a = elim (Bool-cases (f.less a a)) [ inl e ↦ laws.asym a a e | inr e ↦ e ]

  pub min_of_mono : (c a b : Q) → Le f a b → Le f (min_of f c a) (min_of f c b)
  unfolding min_of
  min_of_mono c a b h = elim (Bool-cases (f.less a c)) [
    | inl e ↦ elim (Bool-cases (f.less b c)) [
      | inl k ↦ rw (e, k) h
      | inr k ↦ rw (e, k) (laws.asym a c e)
    ]
    | inr e ↦ elim (Bool-cases (f.less b c)) [
      | inl k ↦ ground (arith, laws.trans c a b e h, k)
      | inr k ↦ rw (e, k) (le_refl c)
    ]
  ]

  pub min_of_swapped : (c a b : Q) → Le f a b → Le f (min_of f a c) (min_of f b c)
  unfolding min_of
  min_of_swapped c a b h = elim (Bool-cases (f.less c a)) [
    | inl e ↦ elim (Bool-cases (f.less c b)) [
      | inl k ↦ rw (e, k) (le_refl c)
      | inr k ↦ ground (arith, laws.trans a b c h k, e)
    ]
    | inr e ↦ elim (Bool-cases (f.less c b)) [ inl k ↦ rw (e, k) e | inr k ↦ rw (e, k) h ]
  ]

  pub max_of_mono : (c a b : Q) → Le f a b → Le f (max_of f c a) (max_of f c b)
  unfolding max_of
  max_of_mono c a b h = elim (Bool-cases (f.less c a)) [
    | inl e ↦ elim (Bool-cases (f.less c b)) [
      | inl k ↦ rw (e, k) h
      | inr k ↦ ground (arith, laws.trans a b c h k, e)
    ]
    | inr e ↦ elim (Bool-cases (f.less c b)) [
      | inl k ↦ rw (e, k) (laws.asym c b k)
      | inr k ↦ rw (e, k) (le_refl c)
    ]
  ]

  -- A sum with what is not negative is not below the other summand.
  pub plus_above : (a b : Q) → Le f (f.of_nat 0) a → Le f b (f.plus a b)
  plus_above a b h =
      laws.trans b (f.plus (f.of_nat 0) b) (f.plus a b) (laws.zero_plus b)
        (laws.plus_mono (f.of_nat 0) a b b h (le_refl b))

  pub plus_nonneg :
      (a b : Q) → Le f (f.of_nat 0) a → Le f (f.of_nat 0) b → Le f (f.of_nat 0) (f.plus a b)
  plus_nonneg a b h k = laws.trans _ _ _ k (plus_above a b h)

  -- What is cut at 0 and 1 lies there.
  pub cut_bounds :
      (x : Q)
      → Le f (f.of_nat 0) (max_of f (f.of_nat 0) (min_of f (f.of_nat 1) x))
        × Le f (max_of f (f.of_nat 0) (min_of f (f.of_nat 1) x)) (f.of_nat 1)
  unfolding max_of min_of
  cut_bounds x = ground (
    arith,
    le_refl (f.of_nat 0),
    le_refl (f.of_nat 1),
    laws.of_nat_mono 0 1,
    laws.asym x (f.of_nat 1),
    laws.asym (f.of_nat 0) x,
  )

  -- What is at least 1 is cut to 1.
  pub cut_at_one :
      (x : Q) → Le f (f.of_nat 1) x → max_of f (f.of_nat 0) (min_of f (f.of_nat 1) x) ≡ f.of_nat 1
  unfolding max_of min_of
  cut_at_one x h = ground (arith, h, laws.of_nat_pos 1)
