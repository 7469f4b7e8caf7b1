-- ===== src/Money.antt =====
-- trade_post/domain/models.py: `Money`, an amount with its currency. Mixing currencies raises.
use trade_post.Base.{String, Bool, str_eq, if◌then◌else◌}
use trade_post.Decimal.{Decimal, add, sub, mul, less, at_most, nought}

pub record Money : Type 0 where
  pub amount : Decimal
  pub currency : String

-- What an operation on two sums returns: a value, or `ValueError` with the two currencies.
pub data Checked (A : Type 0) : Type 0 where
  ok : A → Checked A
  mismatch : String → String → Checked A

abbrev pub usdt : Decimal → Money
usdt d = record { amount = d; currency = "USDT" }

abbrev pub zero : String → Money
zero c = record { amount = nought; currency = c }

-- `_assert_same_currency`, then the operation.
abbrev pub same_currency : {A : Type 0} → Money → Money → A → Checked A
same_currency a b r = if str_eq a.currency b.currency then ok r else mismatch a.currency b.currency

unfoldable pub plus : Money → Money → Checked Money
plus a b = same_currency a b (record { amount = add a.amount b.amount; currency = a.currency })

unfoldable pub minus : Money → Money → Checked Money
minus a b = same_currency a b (record { amount = sub a.amount b.amount; currency = a.currency })

unfoldable pub times : Money → Decimal → Money
times a factor = record { amount = mul a.amount factor; currency = a.currency }

unfoldable pub lt : Money → Money → Checked Bool
lt a b = same_currency a b (less a.amount b.amount)

unfoldable pub le : Money → Money → Checked Bool
le a b = same_currency a b (at_most a.amount b.amount)
