-- ===== src/Execution/Submit/Outcomes.antt =====
-- What each end of `ExecutionEngine.submit` has done to the paper account, to the fills and to the
-- risk engine.
use trade_post.Base.{
  ℕ, ◌≡◌, ◌∙◌, ap, refl, String, Bool, true, false, not, ◌&&◌, none, some, arith, if◌then◌else◌,
  Option-cases, Bool-cases, inl, inr, [], ◌∷◌, ◌++◌,
}
use trade_post.Decimal.{Decimal, less, nought}
use trade_post.Domain.{Fill, Order, OrderIntent, filled, submitted, MarketSnapshot}
use trade_post.Execution.{Execution, PaperAccount, is_simulated, apply_paper_fill}
use trade_post.Execution.Pricing.{relative_slip, estimate_fill_price}
use trade_post.Execution.Submit.{
  Placed, accepted, refused, Outcome, returned, raised, Env, fill_of, filled_order, on_db, give_up,
  settle, place, place_live, price_and_place, submit_new, submit, new_order,
}
use trade_post.Market.Service.{Fetched, snapshot, exchange_error, other_error}
use trade_post.Floats.{Floats, is_true_float}
use trade_post.Persistence.{Database}
use trade_post.Persistence.Orders.{
  insert_order, update_order_status, get_order_by_idempotency, insert_fill, no_changes,
}
use trade_post.Risk.{Engine, persist, record_failure, record_success}
use trade_post.Risk.States.{
  after_failure, after_success, record_failure-state, record_success-state,
}

module _ {F : Type 0} ⦃fl : Floats F⦄ (up : ℕ → Bool) where
  persist-fills : (e : Engine F) → (persist up e).db.fills ≡ e.db.fills
  unfolding persist
  persist-fills e = ground arith

  record_failure-fills : (now : ℕ) (e : Engine F) → (record_failure up now e).db.fills ≡ e.db.fills
  unfolding record_failure
  record_failure-fills now e = persist-fills _

  record_success-fills : (now : ℕ) (e : Engine F) → (record_success up now e).db.fills ≡ e.db.fills
  unfolding record_success
  record_success-fills now e = persist-fills _

  -- Measured from the engine `x`: how the account, the fills and the risk state stand at the end.
  abbrev pub Ended : Env F → Execution F → Outcome × Execution F → Type 0
  Ended env x (returned none, y) =
      (y.paper ≡ x.paper)
      × (y.risk.db.fills ≡ x.risk.db.fills)
      × (y.risk.state ≡ after_failure x.risk.settings env.noted x.risk.state)
  Ended env x (returned (some o), y) =
      (o.status ≡ filled)
      × (o.filled_quantity ≡ o.quantity)
      × ((f : Fill) × (y.risk.db.fills ≡ x.risk.db.fills ++ (f ∷ []))
          × (f.order_id ≡ o.id)
          × (f.quantity ≡ o.quantity)
          × (o.average_price ≡ some f.price)
          × (less nought f.price ≡ true))
      × (y.risk.state ≡ after_success x.risk.settings env.noted x.risk.state)
      × (y.paper ≡ (if is_simulated x.risk.settings then apply_paper_fill o x.paper else x.paper))
  Ended env x (raised _, y) = (y.risk.db.fills ≡ x.risk.db.fills) × (y.risk.state ≡ x.risk.state)

  give_up-Ended :
      (env : Env F) (why : String) (o : Order) (x : Execution F)
      → Ended env x (give_up up env why o x)
  unfolding give_up update_order_status
  give_up-Ended env why o x =
      (refl, record_failure-fills env.noted _, record_failure-state up env.noted _)

  module _ (env : Env F) where
    inserted :
        (f : Fill) (db : Database) {db' : Database}
        → insert_fill f db ≡ some db'
        → db'.fills ≡ db.fills ++ (f ∷ [])
    unfolding insert_fill
    inserted f db e = ground arith

    settle-Ended :
        (ex_id : String) (price : Decimal) (o : Order) (x : Execution F) (account : PaperAccount)
        → account ≡ (
            if is_simulated x.risk.settings
            then apply_paper_fill (filled_order env.completed ex_id price o) x.paper
            else x.paper)
        → Ended env x (settle up env ex_id price o (record x { paper = account }))
    unfolding settle update_order_status
    settle-Ended ex_id price o x account e =
        elim (Bool-cases (not (less nought o.quantity && less nought price))) [
          | inl bad ↦ rw (bad, settle) (refl, refl)
          | inr good ↦ elim (Option-cases (insert_fill (fill_of env ex_id price o) x.risk.db)) [
            | inl twice ↦ rw (good, twice, settle) (refl, refl)
            | inr (db, made) ↦
                rw (good, made, settle)
                  (
                    refl,
                    refl,
                    (
                      fill_of env ex_id price o,
                      record_success-fills env.noted _ ∙ inserted _ _ made,
                      refl,
                      refl,
                      refl,
                      ground arith,
                    ),
                    record_success-state up env.noted _,
                    e,
                  )
          ]
        ]

    place-Ended :
        (price : Decimal) (o : Order) (x : Execution F) → Ended env x (place up env price o x)
    unfolding place
    place-Ended price o x = elim (Bool-cases (is_simulated x.risk.settings)) [
      | inl paper ↦ rw (paper, place) (settle-Ended env.paper_id price o x _ (rw paper))
      | inr live ↦ rw (live, place) (answered live env.placed)
    ]
      where
        answered :
            is_simulated x.risk.settings ≡ false
            → (p : Placed) → Ended env x (place_live up env price o x p)
        answered live (accepted ex_id) = settle-Ended ex_id price o x x.paper (rw live)
        answered live (refused why) = give_up-Ended env why o x

    price_and_place-Ended :
        (i : OrderIntent) (snap : MarketSnapshot F) (o : Order) (x : Execution F)
        → Ended env x (price_and_place up env i snap o x)
    unfolding price_and_place
    price_and_place-Ended i snap o x =
        elim (Bool-cases (not (is_true_float (fl.of_decimal snap.last_price)))) [
          | inl bad ↦ rw (bad, price_and_place) (refl, refl)
          | inr good ↦ elim (Bool-cases (fl.flt (fl.ratio 5 100) (fl.fabs (slip)))) [
            | inl far ↦ rw (good, far, price_and_place) (give_up-Ended env _ o x)
            | inr near ↦ rw (good, near, price_and_place) (place-Ended _ o x)
          ]
        ]
      where
        slip : F
        slip = relative_slip (estimate_fill_price i.type i snap) snap.last_price

    submit_new-Ended :
        (i : OrderIntent) (o : Order) (x : Execution F) (f : Fetched F)
        → Ended env x (submit_new up env i o x f)
    unfolding submit_new
    submit_new-Ended i o x (snapshot snap) = price_and_place-Ended i snap o x
    submit_new-Ended i o x (exchange_error why) = give_up-Ended env why o x
    submit_new-Ended i o x other_error = (refl, refl)

    Ended-from :
        (x : Execution F) (db : Database) (r : Outcome × Execution F)
        → db.fills ≡ x.risk.db.fills
        → Ended env (on_db (λ _. db) x) r
        → Ended env x r
    Ended-from x db (returned none, y) e h = (h.0, h.1 ∙ e, h.2)
    Ended-from x db (returned (some o), y) e h = (
      h.0,
      h.1,
      (h.2.0, h.2.1 ∙ ap (λ fs. fs ++ (h.2.0 ∷ [])) e, h.2.2, h.2.3, h.2.4, h.2.5),
      h.3,
      h.4,
    )
    Ended-from x db (raised _, y) e h = (h.0 ∙ e, h.1)

    order_inserted :
        (o : Order) (db : Database) {db' : Database}
        → insert_order o db ≡ some db'
        → db'.fills ≡ db.fills
    unfolding insert_order
    order_inserted o db e = ground arith

    -- Under a new key a submission ends in one of three ways. It returns a filled order: then one fill
    -- of its whole quantity was stored, a success was recorded, and the paper account has taken the
    -- order exactly if the engine simulates. It returns nothing: then one failure was recorded, and the
    -- account and the fills are as before. Or it raises: then no fill was stored and neither a success
    -- nor a failure was recorded.
    pub submit-Ended :
        (i : OrderIntent) (x : Execution F)
        → get_order_by_idempotency i.idempotency_key x.risk.db ≡ none
        → Ended env x (submit up env i x)
    unfolding submit update_order_status
    submit-Ended i x new =
        elim (Option-cases (insert_order (new_order env.created env.trace_id i) x.risk.db)) [
          | inl clash ↦ rw (new, clash, submit) (refl, refl)
          | inr (db, e) ↦
              rw (new, e, submit)
                (Ended-from x (update_order_status env.stamped i.id submitted no_changes db) _
                  (order_inserted _ x.risk.db e) (submit_new-Ended i _ _ env.fetched))
        ]
