-- ===== src/Execution/Tests.antt =====
-- A submission to an empty paper account.
use trade_post.Base.{
  false, true, Bool, String, All, any_of, [], ◌∷◌, ◌≡◌, ◌⊎◌, refl, none, some, find_first,
}
use trade_post.Decimal.{Decimal, of_ℕ, at_most}
use trade_post.Domain.{OrderIntent, Order, sell, short}
use trade_post.Execution.{
  Execution, is_simulated, apply_paper_fill, settled, opened, add_positions, base_of,
}
use trade_post.Dict.{get, put, pop}
use trade_post.Execution
use trade_post.Execution.Cancel.{CancelEnv, done, cancel, cancel_found}
use trade_post.Persistence.Orders.{list_recent_orders, newest_first, insert_desc}
use trade_post.Execution.Orphans.{
  OpenOrder, is_ours, age_of, is_old, is_orphan, cancelled_orphans, reconcile_orphans, IsOrphan,
  reconcile_orphans-All,
}
use trade_post.Execution.Submit.{new_order, filled_order, Env, accepted, returned, submit}
use trade_post.Market.Service.{snapshot, exchange_error}
use trade_post.Execution.Submit.Idempotency.{submit_twice}
use trade_post.Execution.Submit.Outcomes.{Ended, submit-Ended}
use trade_post.Execution.Submit.Unbooked.{submit-ledger_balance}
use trade_post.Floats.Sample.{decimal_floats, arithmetic}
use trade_post.Persistence.Orders.{get_order_by_idempotency}
use trade_post.Reconciliation.{ledger_balance}
use trade_post.Samples.{database, settings, always, engine, intent, quote}

abbrev start : Execution Decimal
start = Execution.init engine

abbrev env : Env Decimal
env = record {
  created = 1;
  submitted_at = 2;
  completed = 3;
  stamped = 4;
  noted = 5;
  paper_id = "paper-1";
  fill_id = "f1";
  filled_at = 3;
  trace_id = none;
  fetched = snapshot (quote none);
  placed = accepted "x1";
}

abbrev offline : Env Decimal
offline = record env { fetched = exchange_error "down" }

-- The same key on an intent with another id and twice the quantity.
abbrev again : OrderIntent
again = record (intent (of_ℕ 2)) { id = "o2" }

submit_twice_example :
    let y = (submit always env (intent (of_ℕ 1)) start).1 in
    (y ≡ start)
    ⊎ ((o : Order) × (submit always offline again y ≡ (returned (some o), y))
        × (o.idempotency_key ≡ (intent (of_ℕ 1)).idempotency_key))
unfolding Execution.init
submit_twice_example = submit_twice always env offline (intent (of_ℕ 1)) again start refl tt

submit-Ended_example : Ended always env start (submit always env (intent (of_ℕ 1)) start)
unfolding Execution.init get_order_by_idempotency find_first
submit-Ended_example = submit-Ended always env (intent (of_ℕ 1)) start refl

submit-ledger_balance_example :
    ledger_balance "system-wallet" (submit always env (intent (of_ℕ 1)) start).1.risk.db
    ≡ ledger_balance "system-wallet" start.risk.db
submit-ledger_balance_example =
    submit-ledger_balance always env (intent (of_ℕ 1)) start "system-wallet"

abbrev always_text : String → Bool
always_text _ = true

abbrev pending_order : Execution Decimal
pending_order = record start {
  risk = record engine {
    db = record database { orders = new_order 1 none (intent (of_ℕ 1)) ∷ [] };
  };
}

abbrev cut : CancelEnv
cut = record { stamped = 9; connected = false; accepted = false }

-- In the paper account the order is cancelled.
cancels : (cancel cut "o1" pending_order).0 ≡ done
unfolding cancel cancel_found list_recent_orders newest_first insert_desc find_first
cancels = refl

abbrev live : Execution Decimal
live = record start {
  risk = record engine {
    settings = record settings { exchange_api_key = "k"; exchange_api_secret = "s" };
  };
}

abbrev stray : OpenOrder Decimal
stray = record { id = "x9"; timestamp = some (of_ℕ 1000) }

-- It is 999 seconds old.
cancels_orphan :
    reconcile_orphans always_text (of_ℕ 1_000_000) (some (stray ∷ [])) live ≡ stray ∷ []
unfolding reconcile_orphans cancelled_orphans is_orphan is_ours is_old age_of arithmetic
    list_recent_orders newest_first any_of
cancels_orphan = refl

reconcile_orphans-All_example :
    All
      (IsOrphan always_text (of_ℕ 1_000_000) 300 database)
      (reconcile_orphans always_text (of_ℕ 1_000_000) (some (stray ∷ [])) live)
    × ((is_simulated live.risk.settings ≡ false)
        ⊎ (reconcile_orphans always_text (of_ℕ 1_000_000) (some (stray ∷ [])) live ≡ []))
reconcile_orphans-All_example =
    reconcile_orphans-All always_text (of_ℕ 1_000_000) (some (stray ∷ [])) live

-- One unit sold short at 100 from an empty account of 10000.
abbrev shorted : Order
shorted = record (filled_order 3 "x1" (of_ℕ 100) (new_order 1 none (intent (of_ℕ 1)))) {
  side = sell;
  signal = short;
}

-- The equity grows by twice the notional.
short_inflates : at_most (of_ℕ 10_200) (apply_paper_fill shorted start.paper).equity ≡ true
unfolding Execution.init apply_paper_fill settled opened add_positions base_of get put pop
    arithmetic
short_inflates = refl
