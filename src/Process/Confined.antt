-- ===== src/Process/Confined.antt =====
-- After a kill, no step of the process but one of a trade under way adds to the orders or to the fills.
use trade_post.Base.{
  ℕ, ◌≡◌, sym, subst, String, Bool, true, some, List, [], ◌∷◌, map, All, All-append, arith, inl,
  inr, Option-cases, if_either, if◌then◌else◌,
}
use trade_post.Decimal.{Decimal}
use trade_post.Domain.{Order, OrderStatus, Fill}
use trade_post.Execution.{Execution}
use trade_post.Execution.Submit.{on_db, new_order, fill_of}
use trade_post.Floats.{Floats}
use trade_post.Orchestrator.{Proposal, trade}
use trade_post.Orchestrator.Gates.{trade_blocked}
use trade_post.Orchestrator.Tasks.{
  Task, proposed, anchoring, approved, inserting, marking, fetching, placing, booking, closing,
  succeeding, giving_up, failing, Resumed, resume,
}
use trade_post.Persistence.{Database}
use trade_post.Persistence.Orders.{
  insert_order, order_row, update_order_status, updated_order, has_id, Changes, insert_fill,
  get_order_by_idempotency,
}
use trade_post.Process.{left}
use trade_post.Process.Quiet.{IsQuiet}
use trade_post.Process.Resumed.{
  IsMild, IsNamed, GoesOn, resume-blocked, judge-GoesOn, on_market-GoesOn, on_exchange-GoesOn,
}
use trade_post.Risk.{with_state, record_failure, record_success}
use trade_post.Risk.States.{
  record_failure-state, record_success-state, after_success, after_failure,
}
use trade_post.Risk.Tables.{persist-IsTableSafe}

-- Trading is killed, and every order, by its id, and every fill, by that of its order, has the property.
pub record IsConfined {F : Type 0} (K : String → Type 0) (x : Execution F) : Type 0 where
  pub killed : x.risk.state.killed ≡ true
  pub orders_named : All (λ o. K o.id) x.risk.db.orders
  pub fills_named : All (λ f. K f.order_id) x.risk.db.fills

module _ (K : String → Type 0) where
  abbrev pub OrderNamed : Order → Type 0
  OrderNamed o = K o.id

  abbrev pub FillNamed : Fill → Type 0
  FillNamed f = K f.order_id

  updated_row-named :
      (now : ℕ) (i : String) (s : OrderStatus) (c : Changes) (os : List Order)
      → All OrderNamed os
      → All OrderNamed (map (λ o. if has_id i o then updated_order now s c o else o) os)
  unfolding updated_order
  updated_row-named now i s c [] h = h
  updated_row-named now i s c (o ∷ os) h = (
    if_either OrderNamed (has_id i o) (updated_order now s c o) o h.0 h.0,
    updated_row-named now i s c os h.1,
  )

  insert_order-named :
      (o : Order) (db : Database) {db' : Database}
      → insert_order o db ≡ some db'
      → K o.id
      → All OrderNamed db.orders
      → All OrderNamed db'.orders × (db'.fills ≡ db.fills)
  unfolding insert_order order_row
  insert_order-named o db e k h =
      ground (arith, All-append OrderNamed db.orders (order_row o ∷ []) h (k, tt))

  insert_fill-named :
      (f : Fill) (db : Database) {db' : Database}
      → insert_fill f db ≡ some db'
      → K f.order_id
      → All FillNamed db.fills
      → All FillNamed db'.fills × (db'.orders ≡ db.orders)
  unfolding insert_fill
  insert_fill-named f db e k h = ground (arith, All-append FillNamed db.fills (f ∷ []) h (k, tt))

  module _ {F : Type 0} ⦃fl : Floats F⦄ where
    mild-IsConfined : (x y : Execution F) → IsMild x y → IsConfined K x → IsConfined K y
    mild-IsConfined x y m h = record {
      killed = m.kill_kept h.killed;
      orders_named = subst (All OrderNamed) (sym m.orders_same) h.orders_named;
      fills_named = subst (All FillNamed) (sym m.fills_same) h.fills_named;
    }

    pub quiet-IsConfined : (x y : Execution F) → IsQuiet x y → IsConfined K x → IsConfined K y
    quiet-IsConfined x y q h =
        mild-IsConfined x y
          (record {
            orders_same = q.orders_same;
            fills_same = q.fills_same;
            kill_kept = q.kill_kept;
          })
          h

    -- The execution after a step, and the trade if it goes on.
    abbrev pub IsKept : Resumed F → Type 0
    IsKept r = IsConfined K r.1 × All (IsNamed K) (left r.0)

    mild-IsKept : (x : Execution F) (r : Resumed F) → GoesOn K x r → IsConfined K x → IsKept r
    mild-IsKept x r g h = (mild-IsConfined x r.1 g.mild h, g.named)

    update-IsConfined :
        (now : ℕ) (i : String) (s : OrderStatus) (c : Changes) (x : Execution F)
        → IsConfined K x
        → IsConfined K (on_db (update_order_status now i s c) x)
    unfolding update_order_status
    update-IsConfined now i s c x h = record {
      killed = h.killed;
      orders_named = updated_row-named now i s c x.risk.db.orders h.orders_named;
      fills_named = h.fills_named;
    }

    module _ (up : ℕ → Bool) where
      success-IsMild :
          (now : ℕ) (x : Execution F) → IsMild x (record x { risk = record_success up now x.risk })
      unfolding record_success
      success-IsMild now x =
          let safe =
            persist-IsTableSafe up
              (with_state (after_success x.risk.settings now x.risk.state) x.risk) in
          record {
            orders_same = safe.orders_same;
            fills_same = safe.fills_same;
            kill_kept = λ h. ground (arith, h, record_success-state up now x.risk);
          }

      failure-IsMild :
          (now : ℕ) (x : Execution F) → IsMild x (record x { risk = record_failure up now x.risk })
      unfolding record_failure
      failure-IsMild now x =
          let safe =
            persist-IsTableSafe up
              (with_state (after_failure x.risk.settings now x.risk.state) x.risk) in
          record {
            orders_same = safe.orders_same;
            fills_same = safe.fills_same;
            kill_kept = λ h. ground (arith, h, record_failure-state up now x.risk);
          }

      approved-IsKept :
          (p : Proposal F) (x : Execution F)
          → K p.intent.id
          → IsConfined K x
          → IsKept (resume up (approved p) x)
      unfolding resume
      approved-IsKept p x k h =
          elim (Option-cases (get_order_by_idempotency p.intent.idempotency_key x.risk.db)) [
            | inl new ↦ rw (new, resume) (h, (k, tt))
            | inr (old, e) ↦ rw (e, resume) (h, tt)
          ]

      inserting-IsKept :
          (p : Proposal F) (x : Execution F)
          → K p.intent.id
          → IsConfined K x
          → IsKept (resume up (inserting p) x)
      unfolding resume
      inserting-IsKept p x k h =
          let o = new_order p.env.created p.env.trace_id p.intent in
          elim (Option-cases (insert_order o x.risk.db)) [
            | inl clash ↦ rw (clash, resume) (h, tt)
            | inr (db, e) ↦
                let (orders, fills) = insert_order-named o x.risk.db e k h.orders_named in
                rw (e, resume)
                  (
                    record {
                      killed = h.killed;
                      orders_named = orders;
                      fills_named = subst (All FillNamed) (sym fills) h.fills_named;
                    },
                    (k, tt),
                  )
          ]

      booking-IsKept :
          (p : Proposal F) (ex_id : String) (price : Decimal) (o : Order) (x : Execution F)
          → K o.id
          → IsConfined K x
          → IsKept (resume up (booking p ex_id price o) x)
      unfolding resume
      booking-IsKept p ex_id price o x k h =
          let f = fill_of p.env ex_id price o in
          elim (Option-cases (insert_fill f x.risk.db)) [
            | inl twice ↦ rw (twice, resume) (h, tt)
            | inr (db, e) ↦
                let (fills, orders) = insert_fill-named f x.risk.db e k h.fills_named in
                rw (e, resume)
                  (
                    record {
                      killed = h.killed;
                      orders_named = subst (All OrderNamed) (sym orders) h.orders_named;
                      fills_named = fills;
                    },
                    (k, tt),
                  )
          ]

      pub resume-IsKept :
          (t : Task F) (x : Execution F) → IsNamed K t → IsConfined K x → IsKept (resume up t x)
      unfolding resume
      resume-IsKept (proposed p) x k h = rw (resume-blocked up p x (inl h.killed)) (h, tt)
      resume-IsKept (anchoring p) x k h = mild-IsKept x _ (judge-GoesOn up K p _ x k) h
      resume-IsKept (approved p) x k h = approved-IsKept p x k h
      resume-IsKept (inserting p) x k h = inserting-IsKept p x k h
      resume-IsKept (marking p o) x k h = (update-IsConfined _ o.id _ _ x h, (k, tt))
      resume-IsKept (fetching p o) x k h = mild-IsKept x _ (on_market-GoesOn up K p o x _ k) h
      resume-IsKept (placing p price o) x k h =
          mild-IsKept x _ (on_exchange-GoesOn up K p price o x _ k) h
      resume-IsKept (booking p ex_id price o) x k h = booking-IsKept p ex_id price o x k h
      resume-IsKept (closing p ex_id price o) x k h = (update-IsConfined _ o.id _ _ x h, (k, tt))
      resume-IsKept (succeeding p o) x k h =
          (mild-IsConfined x _ (success-IsMild p.env.noted x) h, tt)
      resume-IsKept (giving_up p why o) x k h = (update-IsConfined _ o.id _ _ x h, (k, tt))
      resume-IsKept (failing p o) x k h = (mild-IsConfined x _ (failure-IsMild p.env.noted x) h, tt)

      pub trade-IsConfined :
          (p : Proposal F) (x : Execution F) → IsConfined K x → IsConfined K (trade up p x).1
      trade-IsConfined p x h = rw (trade_blocked up p x (inl h.killed)) h
