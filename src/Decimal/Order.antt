-- ===== src/Decimal/Order.antt =====
-- The comparisons of decimals are a total order on their values.
use native.Mathlib.Nat.{le_of_mul-le-mul_left, mul-le-mul_left, one-le-pow}
use trade_post.Base.{ℕ, ◌+◌, ◌*◌, ◌^◌, ◌≤◌, ◌<◌, ◌≡◌, ◌⊎◌, true, false, not, arith}
use trade_post.Base.Int.{pos_part, neg_part, magnitude}
use trade_post.Decimal.{Decimal, less, at_most, ◌≼◌, is_nonzero}

pub at_most_iff : (a b : Decimal) → ((at_most a b ≡ true) → a ≼ b) × (a ≼ b → at_most a b ≡ true)
unfolding at_most ◌≼◌
at_most_iff a b = ground arith

pub less_iff : (a b : Decimal) → ((less a b ≡ true) → ¬ (b ≼ a)) × (¬ (b ≼ a) → less a b ≡ true)
unfolding less ◌≼◌
less_iff a b = ground arith

pub less-eq-not : (a b : Decimal) → less a b ≡ not (at_most b a)
unfolding less at_most
less-eq-not a b = ground arith

pub ≼_refl : (a : Decimal) → a ≼ a
unfolding ◌≼◌
≼_refl a = omega arith

pub ≼_total : (a b : Decimal) → (a ≼ b) ⊎ (b ≼ a)
unfolding ◌≼◌
≼_total a b = omega arith

-- Cross-multiplied fractions: the middle denominator cancels.
cancel_middle :
    (p n q m r k x y z : ℕ)
    → 0 < y
    → p * y + m * x ≤ q * x + n * y
    → q * z + k * y ≤ r * y + m * z
    → p * z + k * x ≤ r * x + n * z
cancel_middle p n q m r k x y z h g f =
    le_of_mul-le-mul_left {k = y} (omega (arith, mul-le-mul_left z g, mul-le-mul_left x f)) h

pub ≼_trans : (a b c : Decimal) → a ≼ b → b ≼ c → a ≼ c
unfolding ◌≼◌
≼_trans a b c g f =
    cancel_middle (pos_part a.coef) (neg_part a.coef) (pos_part b.coef) (neg_part b.coef)
      (pos_part c.coef) (neg_part c.coef) (10 ^ a.scale) (10 ^ b.scale) (10 ^ c.scale)
      (one-le-pow b.scale 10 (omega arith)) g f

pub is_nonzero_iff :
    (a : Decimal)
    → (is_nonzero a ≡ true → 0 < magnitude a.coef) × (0 < magnitude a.coef → is_nonzero a ≡ true)
unfolding is_nonzero
is_nonzero_iff a = ground arith

-- A test that fails says the converse order.
pub not-less_iff : (a b : Decimal) → ((less a b ≡ false) → b ≼ a) × (b ≼ a → less a b ≡ false)
unfolding less ◌≼◌
not-less_iff a b = ground arith

pub not-at_most_iff :
    (a b : Decimal) → ((at_most a b ≡ false) → ¬ (a ≼ b)) × (¬ (a ≼ b) → at_most a b ≡ false)
unfolding at_most ◌≼◌
not-at_most_iff a b = ground arith
