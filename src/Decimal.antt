-- ===== src/Decimal.antt =====
-- Python's `decimal.Decimal` under its default context: 28 significant digits, halves to even.
-- A number is `coef / 10 ^ scale`. NaN and the infinities are left out, since the fields of the
-- program's models refuse them; so are the exponent limits, which are a million digits away.
pub mod Order
use trade_post.Base.{
  ℕ, zero, suc, ◌+◌, ◌-◌, ◌*◌, ◌/◌, ◌%◌, ◌^◌, ◌≤◌, max, Bool, true, false, not, ◌&&◌, ◌||◌, ltb,
  leb, ◌==◌, if◌then◌else◌,
}
use trade_post.Base.Int.{ℤ, pos, pos_part, neg_part, sub_ℕ, magnitude, ◌+ℤ◌, ◌*ℤ◌, neg_ℤ}

pub record Decimal : Type 0 where
  pub coef : ℤ
  pub scale : ℕ

-- The first number with too many digits.
abbrev pub digit_limit : ℕ
digit_limit = 10_000_000_000_000_000_000_000_000_000

abbrev pub of_ℕ : ℕ → Decimal
of_ℕ n = record { coef = pos n; scale = 0 }

abbrev pub nought : Decimal
nought = of_ℕ 0

-- How many digits of `n` stand beyond the first 28; the first argument bounds the rounds.
unfoldable pub excess : ℕ → ℕ → ℕ
excess zero n = 0
excess (suc fuel) n = let more = suc (excess fuel (n / 10)) in if ltb n digit_limit then 0 else more

-- `len(str(n))`; the first argument bounds the rounds.
unfoldable pub num_digits : ℕ → ℕ → ℕ
num_digits zero n = 1
num_digits (suc fuel) n = let more = suc (num_digits fuel (n / 10)) in if ltb n 10 then 1 else more

-- `m / 10 ^ k` to the nearest number, a half to the even one.
unfoldable pub round_half_even : ℕ → ℕ → ℕ
round_half_even m k =
    let q = m / 10 ^ k in
    let r = 2 * (m % 10 ^ k) in if ltb (10 ^ k) r || (r == 10 ^ k && q % 2 == 1) then q + 1 else q

unfoldable pub signed : Bool → ℕ → ℤ
signed false m = pos m
signed true m = sub_ℕ 0 m

abbrev pub is_negative : Decimal → Bool
is_negative d = ltb 0 (neg_part d.coef)

-- Drops `k` digits of the coefficient.
unfoldable pub drop_digits : Decimal → ℕ → Decimal
unfolding round_half_even signed
drop_digits d k =
    let q = round_half_even (magnitude d.coef) k in
    if leb k d.scale
    then record { coef = signed (is_negative d) q; scale = d.scale - k }
    else record { coef = signed (is_negative d) (q * 10 ^ (k - d.scale)); scale = 0 }

-- The rounding that ends each operation, `Decimal._fix`.
unfoldable pub fix : Decimal → Decimal
unfolding excess drop_digits
fix d =
    let m = magnitude d.coef in
    let rounded = drop_digits d (excess m m) in if ltb m digit_limit then d else rounded

-- `z * 10 ^ k`
unfoldable pub rescale : ℤ → ℕ → ℤ
rescale z k = sub_ℕ (pos_part z * 10 ^ k) (neg_part z * 10 ^ k)

-- The sum and the product before rounding.
unfoldable pub exact_add : Decimal → Decimal → Decimal
unfolding rescale ◌+ℤ◌
exact_add a b =
    let s = max a.scale b.scale in
    record { coef = rescale a.coef (s - a.scale) +ℤ rescale b.coef (s - b.scale); scale = s }

unfoldable pub exact_mul : Decimal → Decimal → Decimal
unfolding ◌*ℤ◌
exact_mul a b = record { coef = a.coef *ℤ b.coef; scale = a.scale + b.scale }

unfoldable pub negate : Decimal → Decimal
unfolding neg_ℤ
negate a = record { coef = neg_ℤ a.coef; scale = a.scale }

unfoldable pub add : Decimal → Decimal → Decimal
unfolding exact_add fix
add a b = fix (exact_add a b)

unfoldable pub sub : Decimal → Decimal → Decimal
unfolding exact_add fix negate
sub a b = fix (exact_add a (negate b))

unfoldable pub mul : Decimal → Decimal → Decimal
unfolding exact_mul fix
mul a b = fix (exact_mul a b)

-- `Decimal.__truediv__`: the quotient to 29 or 30 digits, the last one odd out of five where
-- digits are lost, then rounded; the trailing zeros of an exact quotient are kept. Its callers test
-- the divisor, so division by 0 is left at 0.
unfoldable pub div : Decimal → Decimal → Decimal
unfolding num_digits fix signed
div a b =
    let m = magnitude a.coef in
    let n = magnitude b.coef in
    let have = num_digits m m in
    let want = num_digits n n + 29 in
    let top = m * 10 ^ (want - have) in
    let bottom = n * 10 ^ (have - want) in
    let q = top / bottom in
    let sticky = if not (top % bottom == 0) && q % 5 == 0 then q + 1 else q in
    let down = a.scale + (want - have) in
    let up = b.scale + (have - want) in
    let is_neg = not (is_negative a) && is_negative b || is_negative a && not (is_negative b) in
    fix (record { coef = signed is_neg (sticky * 10 ^ (up - down)); scale = down - up })

unfoldable pub absolute : Decimal → Decimal
absolute a = record { coef = pos (magnitude a.coef); scale = a.scale }

-- `a * 10 ^ scales <= b * 10 ^ scales` on the two numbers' parts: comparisons do not round.
abbrev pub weight_left : Decimal → Decimal → ℕ
weight_left a b = pos_part a.coef * 10 ^ b.scale + neg_part b.coef * 10 ^ a.scale

unfoldable pub less : Decimal → Decimal → Bool
less a b = ltb (weight_left a b) (weight_left b a)

unfoldable pub at_most : Decimal → Decimal → Bool
at_most a b = leb (weight_left a b) (weight_left b a)

-- `bool(d)`: a number is true if it is not 0.
unfoldable pub is_nonzero : Decimal → Bool
is_nonzero a = ltb 0 (magnitude a.coef)

-- The order by value, which the two tests decide.
infix 50 ◌≼◌ ◌≈◌
unfoldable pub ◌≼◌ : Decimal → Decimal → Type 0
a ≼ b = weight_left a b ≤ weight_left b a

-- The same value, perhaps with other trailing zeros.
abbrev pub ◌≈◌ : Decimal → Decimal → Type 0
a ≈ b = (a ≼ b) × (b ≼ a)

-- No more digits than the context keeps.
abbrev pub Fits : Decimal → Type 0
Fits a = suc (magnitude a.coef) ≤ digit_limit
