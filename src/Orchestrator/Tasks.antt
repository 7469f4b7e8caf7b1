-- ===== src/Orchestrator/Tasks.antt =====
-- trade_post/orchestrator/runtime.py with `validate` of trade_post/risk/engine.py and `submit` of
-- trade_post/execution/engine.py: what becomes of an intent, from one `await` to the next. Between two
-- of them anything else may run. A method of the risk engine changes its state before its first
-- `await`; the write of the state's row counts with the change.
pub mod Submission
pub mod Alone
use Prim.Native.String.{◌++◌}
use trade_post.Base.{
  ℕ, zero, suc, String, Bool, true, false, not, ◌&&◌, Option, none, some, List, [], ◌∷◌,
  if◌then◌else◌,
}
use trade_post.Decimal.{Decimal, nought, less, at_most}
use trade_post.Domain.{Order, MarketSnapshot, submitted, filled, rejected}
use trade_post.Execution.{Execution, is_simulated, apply_paper_fill}
use trade_post.Execution.Pricing.{estimate_fill_price, relative_slip, calculate_slippage_pct}
use trade_post.Execution.Submit.{
  Placed, accepted, refused, new_order, filled_order, filled_changes, on_db, fill_of,
}
use trade_post.Floats.{Floats, is_true_float}
use trade_post.Market.Service.{Fetched, snapshot, exchange_error, other_error}
use trade_post.Money.{Money}
use trade_post.Orchestrator.{Proposal}
use trade_post.Persistence.Orders.{
  insert_order, update_order_status, get_order_by_idempotency, insert_fill, no_changes,
}
use trade_post.Risk.{record_failure, record_success}
use trade_post.Risk.Checks.{check_state, check_market}
use trade_post.Risk.Validate.{
  Verdict, decided, frozen_instance, zero_division, check_drawdown, notional, anchor,
}

-- The `await` at which the trade of a proposal stands: before `validate`; at the write of the starting
-- equity; at the look-up of the key; at the insertion of the order; at its mark as submitted; at the
-- market data service; at the exchange; at the insertion of the fill; at the mark as filled; before
-- `record_success`; at the mark as rejected; and before `record_failure`.
pub data Task (F : Type 0) : Type 0 where
  proposed anchoring approved inserting : Proposal F → Task F
  marking fetching : Proposal F → Order → Task F
  placing : Proposal F → Decimal → Order → Task F
  booking closing : Proposal F → String → Decimal → Order → Task F
  succeeding : Proposal F → Order → Task F
  giving_up : Proposal F → String → Order → Task F
  failing : Proposal F → Order → Task F

abbrev pub Resumed : Type 0 → Type 0
Resumed F = Option (Task F) × Execution F  -- without a task the trade is over

unfoldable pub on_approval : {F : Type 0} → Proposal F → Verdict → Option (Task F)
on_approval p (decided d) = if d.approved then some (approved p) else none
on_approval p frozen_instance = none
on_approval p zero_division = none

module _ {F : Type 0} ⦃fl : Floats F⦄ (up : ℕ → Bool) where
  -- The rest of `validate`, on the starting equity that the state has then.
  unfoldable pub judge : Proposal F → Option Money → Execution F → Resumed F
  judge p none x = (none, x)
  judge p (some start) x =
      let (v, e) =
        check_drawdown up p.now (notional p.intent p.snap) (("state", true) ∷ ("market", true) ∷ [])
          p.intent p.snap p.portfolio start.amount x.risk in
      (on_approval p v, record x { risk = e })

  unfoldable pub measure : Proposal F → Option Money → Execution F → Resumed F
  unfolding judge
  measure p none x =
      (some (anchoring p), record x { risk = anchor up none p.portfolio.total_equity x.risk })
  measure p (some start) x = judge p (some start) x

  unfoldable pub begin : Proposal F → Execution F → Resumed F
  unfolding measure
  begin p x =
      if not (check_state x.risk.state).0
      then (none, x)
      else if not (check_market x.risk.settings p.seen p.snap).0
      then (none, x)
      else if at_most p.portfolio.total_equity.amount nought
      then (none, x)
      else measure p x.risk.state.starting_equity x

  -- From the `Fill` to its insertion.
  unfoldable pub book : Proposal F → String → Decimal → Order → Execution F → Resumed F
  book p ex_id price o x =
      if not (less nought o.quantity && less nought price)
      then (none, x)
      else (some (booking p ex_id price o), x)

  unfoldable pub dispatch : Proposal F → Decimal → Order → Execution F → Resumed F
  unfolding book
  dispatch p price o x =
      if is_simulated x.risk.settings
      then book p p.env.paper_id price o (record x {
        paper = apply_paper_fill (filled_order p.env.completed p.env.paper_id price o) x.paper;
      })
      else (some (placing p price o), x)

  unfoldable pub quote_order : Proposal F → MarketSnapshot F → Order → Execution F → Resumed F
  unfolding dispatch
  quote_order p snap o x =
      let price = estimate_fill_price p.intent.type p.intent snap in
      let last = snap.last_price in
      if not (is_true_float (fl.of_decimal last))
      then (none, x)
      else if fl.flt (fl.ratio 5 100) (fl.fabs (relative_slip price last))
      then (
        some (
            giving_up p
              ("Slippage violation: "
                ++ fl.percent 2 (calculate_slippage_pct last p.intent.side price))
              o),
        x,
      )
      else dispatch p price o x

  unfoldable pub on_market : Proposal F → Order → Execution F → Fetched F → Resumed F
  unfolding quote_order
  on_market p o x (exchange_error why) = (some (giving_up p why o), x)
  on_market p o x other_error = (none, x)
  on_market p o x (snapshot snap) = quote_order p snap o x

  unfoldable pub on_exchange : Proposal F → Decimal → Order → Execution F → Placed → Resumed F
  unfolding book
  on_exchange p price o x (accepted ex_id) = book p ex_id price o x
  on_exchange p price o x (refused why) = (some (giving_up p why o), x)

  -- What a task does until its next `await`, the answer to the one at which it stands included.
  unfoldable pub resume : Task F → Execution F → Resumed F
  unfolding begin judge on_market on_exchange
  resume (proposed p) x = begin p x
  resume (anchoring p) x = judge p x.risk.state.starting_equity x
  resume (approved p) x = elim (get_order_by_idempotency p.intent.idempotency_key x.risk.db) [
    | some existing ↦ (none, x)
    | none ↦ (some (inserting p), x)
  ]
  resume (inserting p) x =
      let o = new_order p.env.created p.env.trace_id p.intent in
      elim (insert_order o x.risk.db) [
        | none ↦ (none, x)
        | some db ↦ (some (marking p o), on_db (λ _. db) x)
      ]
  resume (marking p o) x =
      let o' = record o { status = submitted; submitted_at = some p.env.submitted_at } in
      (some (fetching p o'), on_db (update_order_status p.env.stamped o.id submitted no_changes) x)
  resume (fetching p o) x = on_market p o x p.env.fetched
  resume (placing p price o) x = on_exchange p price o x p.env.placed
  resume (booking p ex_id price o) x = elim (insert_fill (fill_of p.env ex_id price o) x.risk.db) [
    | none ↦ (none, x)
    | some db ↦ (some (closing p ex_id price o), on_db (λ _. db) x)
  ]
  resume (closing p ex_id price o) x = (
    some (succeeding p o),
    on_db (update_order_status p.env.stamped o.id filled (filled_changes ex_id price o)) x,
  )
  resume (succeeding p o) x = (none, record x { risk = record_success up p.env.noted x.risk })
  resume (giving_up p why o) x = (
    some (failing p o),
    on_db
        (update_order_status p.env.stamped o.id rejected
          (record no_changes { last_error = some why }))
        x,
  )
  resume (failing p o) x = (none, record x { risk = record_failure up p.env.noted x.risk })

  -- The task with nothing else between its steps.
  unfoldable pub run_task : ℕ → Task F → Execution F → Execution F
  unfolding resume
  run_task zero t x = x
  run_task (suc n) t x =
      let (next, y) = resume t x in elim next [ none ↦ y | some t' ↦ run_task n t' y ]
