-- ===== src/Base/Floats.antt =====
-- Python's floats as an argument: their operations, and what is relied on of them. No NaN comes in, so that `a <= b` is
-- `not b < a`.
pub mod Laws
use mathlib.Core.Bool.{Bool, true, false, not}
use mathlib.Core.Path.{◌≡◌}
use Prim.Native.Nat.{ℕ, suc, ◌≤◌, ◌<◌}
use jrag.Base.Tests.{if◌then◌else◌}

-- `float(n)`, the literal n / 10, `*`, `+`, `/` and `<`
pub record FloatOps (Q : Type 0) : Type 0 where
  pub of_nat : ℕ → Q
  pub tenth : ℕ → Q
  pub times : Q → Q → Q
  pub plus : Q → Q → Q
  pub over : Q → Q → Q
  pub less : Q → Q → Bool

module _ {Q : Type 0} (f : FloatOps Q) where
  -- `a <= b`
  abbrev pub at_most : Q → Q → Bool
  at_most a b = not (f.less b a)

  -- `min(a, b)`: the first one, unless the second is below it.
  unfoldable pub min_of : Q → Q → Q
  min_of a b = if f.less b a then b else a

  -- `max(a, b)`: the first one, unless the second is above it.
  unfoldable pub max_of : Q → Q → Q
  max_of a b = if f.less a b then b else a

  -- What IEEE 754 promises of the floats from 0 up, infinity included: a total order, and operations with positive
  -- finite factors and divisors that do not fall when what they are given does not fall, since rounding keeps the
  -- order. Small whole numbers are exact.
  pub record FloatLaws : Type 0 where
    pub asym : (a b : Q) → f.less a b ≡ true → f.less b a ≡ false
    pub trans : (a b c : Q) → f.less b a ≡ false → f.less c b ≡ false → f.less c a ≡ false
    pub of_nat_mono : (m n : ℕ) → m ≤ n → f.less (f.of_nat n) (f.of_nat m) ≡ false
    pub of_nat_pos : (n : ℕ) → 0 < n → f.less (f.of_nat 0) (f.of_nat n) ≡ true
    pub tenth_range : (n : ℕ) → n ≤ 10 → f.less (f.of_nat 1) (f.tenth n) ≡ false
    pub times_mono :
        (n : ℕ) (a b : Q)
        → f.less b a ≡ false
        → f.less (f.times (f.tenth (suc n)) b) (f.times (f.tenth (suc n)) a) ≡ false
    pub plus_mono :
        (a b c d : Q)
        → f.less b a ≡ false
        → f.less d c ≡ false
        → f.less (f.plus b d) (f.plus a c) ≡ false
    pub over_mono :
        (n : ℕ) (a b : Q)
        → f.less b a ≡ false
        → f.less (f.over b (f.of_nat (suc n))) (f.over a (f.of_nat (suc n))) ≡ false
    pub times_zero : (n : ℕ) → f.less (f.times (f.tenth (suc n)) (f.of_nat 0)) (f.of_nat 0) ≡ false
    pub over_zero : (n : ℕ) → f.less (f.over (f.of_nat 0) (f.of_nat (suc n))) (f.of_nat 0) ≡ false
    pub zero_plus : (a : Q) → f.less (f.plus (f.of_nat 0) a) a ≡ false
    pub over_self : (n : ℕ) → f.over (f.of_nat (suc n)) (f.of_nat (suc n)) ≡ f.of_nat 1
