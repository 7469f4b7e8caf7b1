-- ===== src/Execution.antt =====
-- trade_post/execution/engine.py: the execution engine's state and its paper account.
mod Tests
pub mod Submit
pub mod Cancel
pub mod Orphans
pub mod Pricing
use Prim.Native.Char.{code}
use trade_post.Base.{
  ℕ, ◌+◌, String, Bool, true, false, not, ◌&&◌, Option, none, some, List, [], ◌∷◌, ◌==◌,
  if◌then◌else◌, or_else,
}
use trade_post.Config.{Settings, is_paper, has_exchange_credentials}
use trade_post.Decimal.{Decimal, of_ℕ, nought, add, sub, mul}
use trade_post.Dict
use trade_post.Dict.{Dict}
use trade_post.Domain.{Order, OrderSide, buy, sell, SignalSide, long, short, flat}
use trade_post.Floats.{Floats}
use trade_post.Risk.{Engine}

pub record PaperPosition : Type 0 where
  pub side : SignalSide
  pub quantity : Decimal
  pub entry_price : Decimal
  pub leverage : Decimal

pub record PaperAccount : Type 0 where
  pub positions : Dict PaperPosition
  pub equity : Decimal
  pub balances : Dict Decimal

-- Each method is one function here; Orchestrator/Tasks has `submit` from one `await` to the next. The
-- risk engine holds the settings, the database and the metrics that both use.
pub record Execution (F : Type 0) : Type 0 where
  pub risk : Engine F
  pub paper : PaperAccount

-- `symbol.split("/")[0]`
unfoldable pub base_of : String → String
base_of String.[] = String.[]
base_of (String.◌∷◌ c s) =
    let rest = base_of s in if code c == b'/' then String.[] else String.◌∷◌ c rest

module _ {F : Type 0} ⦃fl : Floats F⦄ where
  -- `__init__`, on a risk engine that has its settings.
  unfoldable pub init : Engine F → Execution F
  init risk =
      let equity = fl.to_decimal risk.settings.paper_initial_equity in
      record {
        risk = risk;
        paper = record { positions = []; equity = equity; balances = ("USDT", equity) ∷ [] };
      }

  -- Whether orders stay in the paper account.
  abbrev pub is_simulated : Settings F → Bool
  is_simulated s = is_paper s && not (has_exchange_credentials s)

-- `order.filled_quantity * (order.average_price or Decimal("0"))`
abbrev pub fill_value : Order → Decimal
fill_value o = mul o.filled_quantity (or_else o.average_price nought)

-- A buy pays the value and receives the base currency; a sell does the reverse.
unfoldable pub settled : Order → OrderSide → Dict Decimal → Dict Decimal
settled o buy d =
    let d' = Dict.put "USDT" (sub (Dict.get_or "USDT" nought d) (fill_value o)) d in
    let base = base_of o.symbol in
    Dict.put base (add (Dict.get_or base nought d') o.filled_quantity) d'
settled o sell d =
    let d' = Dict.put "USDT" (add (Dict.get_or "USDT" nought d) (fill_value o)) d in
    let base = base_of o.symbol in
    Dict.put base (sub (Dict.get_or base nought d') o.filled_quantity) d'

-- A flat signal drops the position of the symbol; any other one replaces it. The callers have
-- set the average price.
unfoldable pub opened : Order → SignalSide → Dict PaperPosition → Dict PaperPosition
opened o flat d = Dict.pop o.symbol d
opened o side d =
    Dict.put o.symbol
      (record {
        side = side;
        quantity = o.filled_quantity;
        entry_price = or_else o.average_price nought;
        leverage = of_ℕ 1;
      })
      d

-- The loop that adds each position at its entry price.
unfoldable pub add_positions : Decimal → Dict PaperPosition → Decimal
add_positions equity [] = equity
add_positions equity ((_, p) ∷ d) = add_positions (add equity (mul p.quantity p.entry_price)) d

unfoldable pub apply_paper_fill : Order → PaperAccount → PaperAccount
unfolding settled opened add_positions
apply_paper_fill o a =
    let balances = settled o o.side a.balances in
    let positions = opened o o.signal a.positions in
    record {
      positions = positions;
      equity = add_positions (Dict.get_or "USDT" nought balances) positions;
      balances = balances;
    }
