-- ===== src/Execution/Cancel.antt =====
-- trade_post/execution/engine.py: `ExecutionEngine.cancel`.
pub mod Twice
use mathlib.Core.Option
use trade_post.Base.{
  ℕ, zero, suc, ◌≡◌, ◌⊎◌, refl, ◌∙◌, ap, String, Bool, true, false, not, ◌&&◌, ◌||◌, Option, none,
  some, List, [], ◌∷◌, map, arith, ltb, str_eq, if◌then◌else◌, take, find_first, Option-cases,
  Bool-cases, inl, inr,
}
use trade_post.Config.{is_true_text}
use trade_post.Domain.{Order, OrderStatus, cancelled, is_terminal}
use trade_post.Execution.{Execution, is_simulated}
use trade_post.Execution.Submit.{on_db}
use trade_post.Floats.{Floats}
use trade_post.Persistence.{Database}
use trade_post.Persistence.Orders.{
  has_id, list_recent_orders, newest_first, insert_desc, update_order_status, updated_order,
  no_changes,
}

pub data Cancelled : Type 0 where
  done order_not_found exchange_error : Cancelled

-- The time of the update, whether there is an exchange, and whether it cancels.
pub record CancelEnv : Type 0 where
  pub stamped : ℕ
  pub connected : Bool
  pub accepted : Bool

abbrev pub is_placed : Option String → Bool
is_placed none = false
is_placed (some id) = is_true_text id

module _ {F : Type 0} ⦃fl : Floats F⦄ where
  abbrev pub mark_cancelled : CancelEnv → String → Execution F → Execution F
  mark_cancelled env id x = on_db (update_order_status env.stamped id cancelled no_changes) x

  -- The branches after the order was found.
  unfoldable pub cancel_found : CancelEnv → String → Order → Execution F → Cancelled × Execution F
  cancel_found env id o x =
      if is_terminal o
      then (order_not_found, x)
      else if is_simulated x.risk.settings
          || (env.connected && is_placed o.exchange_order_id && env.accepted)
      then (done, mark_cancelled env id x)
      else (exchange_error, x)

  unfoldable pub cancel : CancelEnv → String → Execution F → Cancelled × Execution F
  cancel env id x = elim (find_first (has_id id) (list_recent_orders 200 x.risk.db)) [
    | none ↦ (order_not_found, x)
    | some o ↦ cancel_found env id o x
  ]
