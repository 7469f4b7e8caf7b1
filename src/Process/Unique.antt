-- ===== src/Process/Unique.antt =====
-- The ids and the idempotency keys of the orders, in every state that the process reaches.
use trade_post.Base.{
  ℕ, Bool, sym, subst, ◌≡◌, refl, Bool-cases, Option-cases, inl, inr, String, List, [], ◌∷◌, All,
}
use trade_post.Decimal.{Decimal}
use trade_post.Domain.{Order, OrderIntent}
use trade_post.Execution.{Execution}
use trade_post.Execution.Submit.{Outcome, returned, raised, Env, new_order, fill_of, submit}
use trade_post.Execution.Submit.Idempotency.{
  submit-IsUnique, insert_fill-orders, record_failure-orders, record_success-orders,
}
use trade_post.Floats.{Floats}
use trade_post.Orchestrator.{Proposal, submit_approved, on_verdict, trade}
use trade_post.Persistence.Orders.{insert_order, get_order_by_idempotency, insert_fill}
use trade_post.Persistence.Orders.Laws.{
  IsUnique, insert_order-IsUnique, update_order_status-IsUnique,
}
use trade_post.Process.{World, System, Reachable}
use trade_post.Process.Invariants.{reachable_keeps}
use trade_post.Process.Quiet.{IsQuiet}
use trade_post.Process.Resumed.{
  GoesOn, begin-GoesOn, judge-GoesOn, on_market-GoesOn, on_exchange-GoesOn,
}
use trade_post.Orchestrator.Tasks.{
  Task, proposed, anchoring, approved, inserting, marking, fetching, placing, booking, closing,
  succeeding, giving_up, failing, Resumed, resume,
}
use trade_post.Risk.Tables.{validate-IsTableSafe}
use trade_post.Risk.Validate.{Verdict, decided, frozen_instance, zero_division, validate}

abbrev HasUnique : {F : Type 0} → Execution F → Type 0
HasUnique x = IsUnique x.risk.db.orders

quiet-HasUnique : {F : Type 0} (x y : Execution F) → IsQuiet x y → HasUnique x → HasUnique y
quiet-HasUnique x y q h = subst IsUnique (sym q.orders_same) h

module _ {F : Type 0} ⦃fl : Floats F⦄ (up : ℕ → Bool) where
  submit_approved-HasUnique :
      (env : Env F) (i : OrderIntent) (x : Execution F)
      → HasUnique x
      → HasUnique (submit_approved up env i x).1
  unfolding submit_approved
  submit_approved-HasUnique env i x h = at (submit up env i x).0 refl
    where
      at : (r : Outcome) → (submit up env i x).0 ≡ r → HasUnique (submit_approved up env i x).1
      at (returned o) e = rw (e, submit_approved) (submit-IsUnique up env i x h)
      at (raised why) e = rw (e, submit_approved) (submit-IsUnique up env i x h)

  on_verdict-HasUnique :
      (env : Env F) (i : OrderIntent) (x : Execution F) (v : Verdict)
      → HasUnique x
      → HasUnique (on_verdict up env i x v).1
  unfolding on_verdict
  on_verdict-HasUnique env i x frozen_instance h = h
  on_verdict-HasUnique env i x zero_division h = h
  on_verdict-HasUnique env i x (decided d) h = elim (Bool-cases d.approved) [
    | inl good ↦ rw (good, on_verdict) (submit_approved-HasUnique env i x h)
    | inr bad ↦ rw (bad, on_verdict) h
  ]

  trade-HasUnique : (p : Proposal F) (x : Execution F) → HasUnique x → HasUnique (trade up p x).1
  unfolding trade
  trade-HasUnique p x h =
      let checked = validate up p.seen p.now p.intent p.snap p.portfolio x.risk in
      let kept = validate-IsTableSafe up p.seen p.now p.intent p.snap p.portfolio x.risk in
      on_verdict-HasUnique p.env p.intent (record x { risk = checked.1 }) checked.0
        (subst IsUnique (sym kept.orders_same) h)

module _ {F : Type 0} ⦃fl : Floats F⦄ (up : ℕ → Bool) where
  -- No condition on the trades under way.
  abbrev AnyTask : Task F → Type 0
  AnyTask t = Unit {0}

  any-All : (ts : List (Task F)) → All AnyTask ts
  any-All [] = tt
  any-All (t ∷ ts) = (tt, any-All ts)

  mild-HasUnique :
      (x : Execution F) (r : Resumed F) → GoesOn (λ _. Unit {0}) x r → HasUnique x → HasUnique r.1
  mild-HasUnique x r g h = subst IsUnique (sym g.mild.orders_same) h

  inserting-HasUnique :
      (p : Proposal F) (x : Execution F) → HasUnique x → HasUnique (resume up (inserting p) x).1
  unfolding resume
  inserting-HasUnique p x h =
      let o = new_order p.env.created p.env.trace_id p.intent in
      elim (Option-cases (insert_order o x.risk.db)) [
        | inl clash ↦ rw (clash, resume) h
        | inr (db, e) ↦ rw (e, resume) (insert_order-IsUnique o x.risk.db h e)
      ]

  booking-HasUnique :
      (p : Proposal F) (ex_id : String) (price : Decimal) (o : Order) (x : Execution F)
      → HasUnique x
      → HasUnique (resume up (booking p ex_id price o) x).1
  unfolding resume
  booking-HasUnique p ex_id price o x h =
      let f = fill_of p.env ex_id price o in
      elim (Option-cases (insert_fill f x.risk.db)) [
        | inl twice ↦ rw (twice, resume) h
        | inr (db, e) ↦ rw (e, resume) (subst IsUnique (sym (insert_fill-orders f x.risk.db e)) h)
      ]

  approved-HasUnique :
      (p : Proposal F) (x : Execution F) → HasUnique x → HasUnique (resume up (approved p) x).1
  unfolding resume
  approved-HasUnique p x h =
      elim (Option-cases (get_order_by_idempotency p.intent.idempotency_key x.risk.db)) [
        | inl new ↦ rw (new, resume) h
        | inr (old, e) ↦ rw (e, resume) h
      ]

  resume-HasUnique : (t : Task F) (x : Execution F) → HasUnique x → HasUnique (resume up t x).1
  unfolding resume
  resume-HasUnique (proposed p) x h = mild-HasUnique x _ (begin-GoesOn up _ p x tt) h
  resume-HasUnique (anchoring p) x h = mild-HasUnique x _ (judge-GoesOn up _ p _ x tt) h
  resume-HasUnique (approved p) x h = approved-HasUnique p x h
  resume-HasUnique (inserting p) x h = inserting-HasUnique p x h
  resume-HasUnique (marking p o) x h = update_order_status-IsUnique _ o.id _ _ x.risk.db h
  resume-HasUnique (fetching p o) x h = mild-HasUnique x _ (on_market-GoesOn up _ p o x _ tt) h
  resume-HasUnique (placing p price o) x h =
      mild-HasUnique x _ (on_exchange-GoesOn up _ p price o x _ tt) h
  resume-HasUnique (booking p ex_id price o) x h = booking-HasUnique p ex_id price o x h
  resume-HasUnique (closing p ex_id price o) x h =
      update_order_status-IsUnique _ o.id _ _ x.risk.db h
  resume-HasUnique (succeeding p o) x h =
      subst IsUnique (sym (record_success-orders up p.env.noted x.risk)) h
  resume-HasUnique (giving_up p why o) x h = update_order_status-IsUnique _ o.id _ _ x.risk.db h
  resume-HasUnique (failing p o) x h =
      subst IsUnique (sym (record_failure-orders up p.env.noted x.risk)) h

module _ {F : Type 0} ⦃fl : Floats F⦄ (w : World F) where
  -- Where no two orders share an id or an idempotency key, none do in any state that the process
  -- reaches, in whatever order the loops, the endpoints, the sockets and the steps of the trades under
  -- way come, two submissions under one key included.
  pub reachable-IsUnique :
      (s q : System F)
      → IsUnique s.running.execution.risk.db.orders
      → Reachable w s q
      → IsUnique q.running.execution.risk.db.orders
  reachable-IsUnique s q h path =
      (reachable_keeps w HasUnique (AnyTask w.up) quiet-HasUnique (trade-HasUnique w.up) (λ p. tt)
        (λ t x any u. (resume-HasUnique w.up t x u, any-All w.up _)) s q path
        (h, any-All w.up s.tasks)).0
