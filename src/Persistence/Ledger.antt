-- ===== src/Persistence/Ledger.antt =====
-- trade_post/reconciliation/service.py: its statements on the ledger, the fills and its own runs.
use trade_post.Base.{String, List, [], ◌∷◌, ◌++◌, str_eq, keep_if, order_by}
use trade_post.Domain.{Fill, ReconciliationResult}
use trade_post.Persistence.{Database, LedgerRow}

unfoldable pub ledger_rows : String → Database → List LedgerRow
ledger_rows account db =
    order_by (λ r. r.created_at) (keep_if (λ r. str_eq r.account_id account) db.ledger_entries)

unfoldable pub fill_rows : Database → List Fill
fill_rows db = order_by (λ f. f.timestamp) db.fills

-- The ids are fresh, so the insertion meets no other row.
unfoldable pub insert_reconciliation : String → ReconciliationResult → Database → Database
insert_reconciliation account r db = record db {
  reconciliations = db.reconciliations ++ ((account, r) ∷ []);
}
