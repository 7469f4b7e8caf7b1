-- ===== src/Floats.antt =====
-- Python's `float`, as an interface: the binary formats are not modelled, so the code is generic in
-- the type of doubles and in the operations that it uses.
pub mod Sample
use trade_post.Base.{ℕ, String, Bool, Option, List, not, if◌then◌else◌}
use trade_post.Base.Int.{ℤ}
use trade_post.Decimal.{Decimal}

pub record Floats (F : Type 0) : Type 0 where
  pub of_ℕ : ℕ → F  -- an integer literal, or `float(n)`
  pub of_ℤ : ℤ → Option F  -- `float(n)`, where it does not overflow
  pub parse_float : String → Option F  -- `float(s)`, where the text is a number
  pub ratio : ℕ → ℕ → F  -- the literal nearest to a quotient, `0.05` is `ratio 5 100`
  pub of_decimal : Decimal → F  -- `float(d)`
  pub to_decimal : F → Decimal  -- `Decimal(str(x))`
  pub total_seconds : ℤ → F  -- of a difference of two times, in microseconds
  pub is_finite : F → Bool  -- neither a NaN nor an infinity
  pub fadd : F → F → F
  pub fsub : F → F → F
  pub fmul : F → F → F
  pub fdiv : F → F → F  -- where the divisor is not 0.0
  pub fabs : F → F
  pub fneg : F → F
  pub fsqrt : F → F
  pub fsquare : F → F  -- `x ** 2`, where it does not overflow
  pub fsum : List F → F  -- `sum(xs)`
  pub flt : F → F → Bool
  pub fle : F → F → Bool
  pub feq : F → F → Bool
  pub round_int : F → ℤ  -- `round(x)`, of a finite number
  pub round_to : F → ℕ → F  -- `round(x, n)`
  pub fixed : ℕ → F → String  -- `f"{x:.nf}"`
  pub percent : ℕ → F → String  -- `f"{x:.n%}"`
  pub show_float : F → String
  pub show_decimal : Decimal → String  -- `f"{d}"`

module _ {F : Type 0} ⦃fl : Floats F⦄ where
  -- `bool(x)`: 0.0 and -0.0 are false.
  abbrev pub is_true_float : F → Bool
  is_true_float x = not (fl.feq x (fl.of_ℕ 0))

  -- `max(a, b)` and `min(a, b)` keep the first argument unless the second is strictly beyond it.
  abbrev pub fmax : F → F → F
  fmax a b = if fl.flt a b then b else a

  abbrev pub fmin : F → F → F
  fmin a b = if fl.flt b a then b else a
