-- ===== src/Execution/Submit/Unbooked.antt =====
-- `ExecutionEngine.submit` books nothing in the ledger.
use trade_post.Base.{
  ℕ, ◌≡◌, refl, ◌∙◌, String, Bool, not, ◌&&◌, some, arith, List, Option-cases, Bool-cases, inl, inr,
}
use trade_post.Decimal.{Decimal, less, nought}
use trade_post.Domain.{Fill, Order, OrderIntent}
use trade_post.Execution.{Execution, is_simulated}
use trade_post.Execution.Submit.{
  Placed, accepted, refused, Env, new_order, fill_of, give_up, settle, place, place_live,
  price_and_place, submit_new, submit,
}
use trade_post.Market.Service.{Fetched, snapshot, exchange_error, other_error}
use trade_post.Floats.{Floats}
use trade_post.Persistence.{Database, LedgerRow}
use trade_post.Persistence.Ledger.{ledger_rows}
use trade_post.Persistence.Orders.{
  insert_order, update_order_status, get_order_by_idempotency, insert_fill,
}
use trade_post.Reconciliation.{ledger_balance}
use trade_post.Risk.{Engine, persist, record_failure, record_success}

insert_fill-booked :
    (f : Fill) (db : Database) {db' : Database}
    → insert_fill f db ≡ some db'
    → db'.ledger_entries ≡ db.ledger_entries
unfolding insert_fill
insert_fill-booked f db e = ground arith

insert_order-booked :
    (o : Order) (db : Database) {db' : Database}
    → insert_order o db ≡ some db'
    → db'.ledger_entries ≡ db.ledger_entries
unfolding insert_order
insert_order-booked o db e = ground arith

module _ {F : Type 0} ⦃fl : Floats F⦄ (up : ℕ → Bool) where
  abbrev booked : Execution F → List LedgerRow
  booked x = x.risk.db.ledger_entries

  persist-booked : (e : Engine F) → (persist up e).db.ledger_entries ≡ e.db.ledger_entries
  unfolding persist
  persist-booked e = ground arith

  give_up-booked :
      (env : Env F) (why : String) (o : Order) (x : Execution F)
      → booked (give_up up env why o x).1 ≡ booked x
  unfolding give_up record_failure update_order_status
  give_up-booked env why o x = persist-booked _

  settle-booked :
      (env : Env F) (ex_id : String) (price : Decimal) (o : Order) (x : Execution F)
      → booked (settle up env ex_id price o x).1 ≡ booked x
  unfolding settle record_success update_order_status
  settle-booked env ex_id price o x =
      elim (Bool-cases (not (less nought o.quantity && less nought price))) [
        | inl bad ↦ rw (bad, settle) refl
        | inr good ↦ elim (Option-cases (insert_fill (fill_of env ex_id price o) x.risk.db)) [
          | inl twice ↦ rw (good, twice, settle) refl
          | inr (db, made) ↦
              rw (good, made, settle)
                (persist-booked _ ∙ insert_fill-booked (fill_of env ex_id price o) x.risk.db made)
        ]
      ]

  module _ (env : Env F) where
    place-booked :
        (price : Decimal) (o : Order) (x : Execution F)
        → booked (place up env price o x).1 ≡ booked x
    unfolding place
    place-booked price o x = elim (Bool-cases (is_simulated x.risk.settings)) [
      | inl paper ↦ rw (paper, place) (settle-booked env env.paper_id price o _)
      | inr live ↦ rw (live, place) (answered env.placed)
    ]
      where
        answered : (p : Placed) → booked (place_live up env price o x p).1 ≡ booked x
        answered (accepted ex_id) = settle-booked env ex_id price o x
        answered (refused why) = give_up-booked env why o x

    submit_new-booked :
        (i : OrderIntent) (o : Order) (x : Execution F) (f : Fetched F)
        → booked (submit_new up env i o x f).1 ≡ booked x
    unfolding submit_new price_and_place
    submit_new-booked i o x (snapshot snap) = grind (arith, place-booked, give_up-booked env)
    submit_new-booked i o x (exchange_error why) = give_up-booked env why o x
    submit_new-booked i o x other_error = refl

    submit-booked : (i : OrderIntent) (x : Execution F) → booked (submit up env i x).1 ≡ booked x
    unfolding submit update_order_status
    submit-booked i x = elim (Option-cases (get_order_by_idempotency i.idempotency_key x.risk.db)) [
      | inr (old, e) ↦ rw (e, submit) refl
      | inl new ↦
          elim (Option-cases (insert_order (new_order env.created env.trace_id i) x.risk.db)) [
            | inl clash ↦ rw (new, clash, submit) refl
            | inr (db, e) ↦
                rw (new, e, submit)
                  (submit_new-booked i _ _ env.fetched ∙ insert_order-booked _ x.risk.db e)
          ]
    ]

    -- However a submission ends, also with a stored fill, the ledger balance that the
    -- reconciliation reads for an account is as it was.
    pub submit-ledger_balance :
        (i : OrderIntent) (x : Execution F) (account : String)
        → ledger_balance account (submit up env i x).1.risk.db ≡ ledger_balance account x.risk.db
    unfolding ledger_balance ledger_rows
    submit-ledger_balance i x account = rw (submit-booked i x) refl
