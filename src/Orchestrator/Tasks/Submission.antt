-- ===== src/Orchestrator/Tasks/Submission.antt =====
-- The submission of an approved trade whose steps follow each other, with nothing else between them,
-- is `submit` in one step.
use trade_post.Base.{
  ℕ, suc, ◌≡◌, refl, ◌∙◌, ap, String, Bool, not, ◌&&◌, false, none, some, Bool-cases, Option-cases,
  inl, inr,
}
use trade_post.Decimal.{Decimal, less, nought}
use trade_post.Domain.{Order, MarketSnapshot}
use trade_post.Execution.{Execution, is_simulated}
use trade_post.Execution.Pricing.{estimate_fill_price, relative_slip}
use trade_post.Execution.Submit.{
  Placed, accepted, refused, new_order, on_db, fill_of, give_up, settle, place, place_live,
  price_and_place, submit_new, submit,
}
use trade_post.Floats.{Floats, is_true_float}
use trade_post.Market.Service.{Fetched, snapshot, exchange_error, other_error}
use trade_post.Orchestrator.{Proposal}
use trade_post.Orchestrator.Tasks.{
  Task, approved, inserting, marking, fetching, placing, booking, closing, succeeding, giving_up,
  Resumed, book, dispatch, quote_order, on_market, on_exchange, resume, run_task,
}
use trade_post.Persistence.{Database}
use trade_post.Persistence.Orders.{insert_order, get_order_by_idempotency, insert_fill}

module _ {F : Type 0} ⦃fl : Floats F⦄ (up : ℕ → Bool) where
  -- What a task does from a result of `resume` on.
  abbrev pub finish : ℕ → Resumed F → Execution F
  finish n r = elim r.0 [ none ↦ r.1 | some t ↦ run_task up n t r.1 ]

  resume_found :
      (p : Proposal F) (x : Execution F) (o : Order)
      → get_order_by_idempotency p.intent.idempotency_key x.risk.db ≡ some o
      → resume up (approved p) x ≡ (none, x)
  unfolding resume
  resume_found p x o e = rw (e, resume) refl

  resume_new :
      (p : Proposal F) (x : Execution F)
      → get_order_by_idempotency p.intent.idempotency_key x.risk.db ≡ none
      → resume up (approved p) x ≡ (some (inserting p), x)
  unfolding resume
  resume_new p x e = rw (e, resume) refl

  resume_clash :
      (p : Proposal F) (x : Execution F)
      → insert_order (new_order p.env.created p.env.trace_id p.intent) x.risk.db ≡ none
      → resume up (inserting p) x ≡ (none, x)
  unfolding resume
  resume_clash p x e = rw (e, resume) refl

  resume_inserted :
      (p : Proposal F) (x : Execution F) (db : Database)
      → insert_order (new_order p.env.created p.env.trace_id p.intent) x.risk.db ≡ some db
      → resume up (inserting p) x
        ≡ (some (marking p (new_order p.env.created p.env.trace_id p.intent)), on_db (λ _. db) x)
  unfolding resume
  resume_inserted p x db e = rw (e, resume) refl

  resume_twice :
      (p : Proposal F) (ex_id : String) (price : Decimal) (o : Order) (x : Execution F)
      → insert_fill (fill_of p.env ex_id price o) x.risk.db ≡ none
      → resume up (booking p ex_id price o) x ≡ (none, x)
  unfolding resume
  resume_twice p ex_id price o x e = rw (e, resume) refl

  resume_booked :
      (p : Proposal F) (ex_id : String) (price : Decimal) (o : Order) (x : Execution F)
      (db : Database)
      → insert_fill (fill_of p.env ex_id price o) x.risk.db ≡ some db
      → resume up (booking p ex_id price o) x ≡ (some (closing p ex_id price o), on_db (λ _. db) x)
  unfolding resume
  resume_booked p ex_id price o x db e = rw (e, resume) refl

  giving_up_alone :
      (n : ℕ) (p : Proposal F) (why : String) (o : Order) (x : Execution F)
      → run_task up (suc (suc n)) (giving_up p why o) x ≡ (give_up up p.env why o x).1
  unfolding run_task resume give_up
  giving_up_alone n p why o x = refl

  pub run_step :
      (n : ℕ) (t : Task F) (x : Execution F) → run_task up (suc n) t x ≡ finish n (resume up t x)
  unfolding run_task
  run_step n t x = refl

  booking_alone :
      (n : ℕ) (p : Proposal F) (ex_id : String) (price : Decimal) (o : Order) (x : Execution F)
      → (not (less nought o.quantity && less nought price)) ≡ false
      → run_task up (suc (suc (suc n))) (booking p ex_id price o) x
        ≡ (settle up p.env ex_id price o x).1
  unfolding resume settle
  booking_alone n p ex_id price o x good =
      let stands = booking p ex_id price o in
      elim (Option-cases (insert_fill (fill_of p.env ex_id price o) x.risk.db)) [
        | inl twice ↦
            run_step (suc (suc n)) stands x
            ∙ ap (finish (suc (suc n))) (resume_twice p ex_id price o x twice)
            ∙ rw (good, settle, twice) refl
        | inr (db, e) ↦
            run_step (suc (suc n)) stands x
            ∙ ap (finish (suc (suc n))) (resume_booked p ex_id price o x db e)
            ∙ run_step (suc n) (closing p ex_id price o) (on_db (λ _. db) x)
            ∙ run_step n (succeeding p o) _
            ∙ rw (good, settle, e) refl
      ]

  book_sound :
      (p : Proposal F) (ex_id : String) (price : Decimal) (o : Order) (x : Execution F)
      → (not (less nought o.quantity && less nought price)) ≡ false
      → book up p ex_id price o x ≡ (some (booking p ex_id price o), x)
  unfolding book
  book_sound p ex_id price o x good = rw (good, book) refl

  book_alone :
      (n : ℕ) (p : Proposal F) (ex_id : String) (price : Decimal) (o : Order) (x : Execution F)
      → finish (suc (suc (suc n))) (book up p ex_id price o x) ≡ (settle up p.env ex_id price o x).1
  unfolding book settle
  book_alone n p ex_id price o x =
      elim (Bool-cases (not (less nought o.quantity && less nought price))) [
        | inl bad ↦ rw (bad, book, settle) refl
        | inr good ↦
            ap (finish (suc (suc (suc n)))) (book_sound p ex_id price o x good)
            ∙ booking_alone n p ex_id price o x good
      ]

  on_exchange_alone :
      (n : ℕ) (p : Proposal F) (price : Decimal) (o : Order) (x : Execution F) (a : Placed)
      → finish (suc (suc (suc n))) (on_exchange up p price o x a)
        ≡ (place_live up p.env price o x a).1
  unfolding on_exchange place_live
  on_exchange_alone n p price o x (accepted ex_id) = book_alone n p ex_id price o x
  on_exchange_alone n p price o x (refused why) = giving_up_alone (suc n) p why o x

  placing_alone :
      (n : ℕ) (p : Proposal F) (price : Decimal) (o : Order) (x : Execution F)
      → run_task up (suc (suc (suc (suc n)))) (placing p price o) x
        ≡ (place_live up p.env price o x p.env.placed).1
  unfolding resume
  placing_alone n p price o x =
      run_step (suc (suc (suc n))) (placing p price o) x
      ∙ on_exchange_alone n p price o x p.env.placed

  dispatch_alone :
      (n : ℕ) (p : Proposal F) (price : Decimal) (o : Order) (x : Execution F)
      → finish (suc (suc (suc (suc n)))) (dispatch up p price o x) ≡ (place up p.env price o x).1
  unfolding dispatch place
  dispatch_alone n p price o x = elim (Bool-cases (is_simulated x.risk.settings)) [
    | inl paper ↦ rw (paper, dispatch, place) (book_alone (suc n) p p.env.paper_id price o _)
    | inr live ↦ rw (live, dispatch, place) (placing_alone n p price o x)
  ]

  quote_order_alone :
      (n : ℕ) (p : Proposal F) (snap : MarketSnapshot F) (o : Order) (x : Execution F)
      → finish (suc (suc (suc (suc n)))) (quote_order up p snap o x)
        ≡ (price_and_place up p.env p.intent snap o x).1
  unfolding quote_order price_and_place
  quote_order_alone n p snap o x =
      let price = estimate_fill_price p.intent.type p.intent snap in
      elim (Bool-cases (not (is_true_float (fl.of_decimal snap.last_price)))) [
        | inl zero ↦ rw (zero, quote_order, price_and_place) refl
        | inr priced ↦
            elim (Bool-cases
              (fl.flt (fl.ratio 5 100) (fl.fabs (relative_slip price snap.last_price)))) [
                | inl slips ↦
                    rw (priced, slips, quote_order, price_and_place) (giving_up_alone _ p _ o x)
                | inr holds ↦
                    rw (priced, holds, quote_order, price_and_place) (dispatch_alone n p price o x)
              ]
      ]

  on_market_alone :
      (n : ℕ) (p : Proposal F) (o : Order) (x : Execution F) (f : Fetched F)
      → finish (suc (suc (suc (suc n)))) (on_market up p o x f)
        ≡ (submit_new up p.env p.intent o x f).1
  unfolding on_market submit_new
  on_market_alone n p o x (exchange_error why) = giving_up_alone (suc (suc n)) p why o x
  on_market_alone n p o x other_error = refl
  on_market_alone n p o x (snapshot snap) = quote_order_alone n p snap o x

  fetching_alone :
      (n : ℕ) (p : Proposal F) (o : Order) (x : Execution F)
      → run_task up (suc (suc (suc (suc (suc n))))) (fetching p o) x
        ≡ (submit_new up p.env p.intent o x p.env.fetched).1
  unfolding resume
  fetching_alone n p o x =
      run_step (suc (suc (suc (suc n)))) (fetching p o) x ∙ on_market_alone n p o x p.env.fetched

  inserting_alone :
      (n : ℕ) (p : Proposal F) (x : Execution F)
      → get_order_by_idempotency p.intent.idempotency_key x.risk.db ≡ none
      → run_task up (suc (suc (suc (suc (suc (suc (suc n))))))) (inserting p) x
        ≡ (submit up p.env p.intent x).1
  unfolding resume submit
  inserting_alone n p x new =
      let o = new_order p.env.created p.env.trace_id p.intent in
      let left = suc (suc (suc (suc (suc (suc n))))) in
      elim (Option-cases (insert_order o x.risk.db)) [
        | inl clash ↦
            run_step left (inserting p) x
            ∙ ap (finish left) (resume_clash p x clash)
            ∙ rw (new, submit, clash) refl
        | inr (db, e) ↦
            run_step left (inserting p) x
            ∙ ap (finish left) (resume_inserted p x db e)
            ∙ run_step (suc (suc (suc (suc (suc n))))) (marking p o) (on_db (λ _. db) x)
            ∙ fetching_alone n p _ _
            ∙ rw (new, submit, e) refl
      ]

  pub approved_alone :
      (n : ℕ) (p : Proposal F) (x : Execution F)
      → run_task up (suc (suc (suc (suc (suc (suc (suc (suc n)))))))) (approved p) x
        ≡ (submit up p.env p.intent x).1
  unfolding resume submit
  approved_alone n p x =
      let left = suc (suc (suc (suc (suc (suc (suc n)))))) in
      elim (Option-cases (get_order_by_idempotency p.intent.idempotency_key x.risk.db)) [
        | inr (old, e) ↦
            run_step left (approved p) x
            ∙ ap (finish left) (resume_found p x old e)
            ∙ rw (e, submit) refl
        | inl new ↦
            run_step left (approved p) x
            ∙ ap (finish left) (resume_new p x new)
            ∙ inserting_alone n p x new
      ]
