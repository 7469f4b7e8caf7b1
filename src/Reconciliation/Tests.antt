-- ===== src/Reconciliation/Tests.antt =====
-- A run over one fill of 200, of which the ledger has booked nothing or all.
use trade_post.Base.{◌≡◌, refl, true, false, [], ◌∷◌, keep_if, order_by, insert_by}
use trade_post.Base.Int.{negsuc}
use trade_post.Decimal.{Decimal, of_ℕ, nought}
use trade_post.Domain.{Fill, buy}
use trade_post.Floats.Sample.{decimal_floats, arithmetic}
use trade_post.Money.{usdt}
use trade_post.Persistence.Ledger.{ledger_rows, fill_rows}
use trade_post.Reconciliation.{
  Service, reconcile, ledger_balance, expected_balance, is_balanced, sum_deltas, trade_totals,
  after_trade,
}
use trade_post.Reconciliation.Verdict.{IsConsistent, reconcile_verdict}
use trade_post.Samples.{database, metrics}

program : Unit {0}
unfolding arithmetic keep_if order_by insert_by ledger_rows fill_rows ledger_balance
    expected_balance is_balanced sum_deltas trade_totals after_trade
program = tt

abbrev bought : Fill
bought = record {
  id = "f1";
  order_id = "o1";
  exchange_order_id = "x1";
  symbol = "BTC/USDT";
  side = buy;
  quantity = of_ℕ 2;
  price = of_ℕ 100;
  fee = usdt nought;
  liquidity = "taker";
  timestamp = 5;
}

abbrev unbooked : Service Decimal
unbooked = record { db = record database { fills = bought ∷ [] }; metrics = metrics }

abbrev booked : Service Decimal
booked = record unbooked {
  db = record unbooked.db {
    ledger_entries =
        record {
          account_id = "system-wallet";
          delta = record { coef = negsuc 199; scale = 0 };
          created_at = 5;
        }
        ∷ [];
  };
}

fails :
    is_balanced (ledger_balance "system-wallet" unbooked.db) (expected_balance unbooked.db) ≡ false
unfolding program
fails = refl

passes : is_balanced (ledger_balance "system-wallet" booked.db) (expected_balance booked.db) ≡ true
unfolding program
passes = refl

reconcile_verdict_example :
    IsConsistent "system-wallet" booked (reconcile true "r1" 6 7 "system-wallet" booked)
reconcile_verdict_example = reconcile_verdict true "r1" 6 7 "system-wallet" booked
