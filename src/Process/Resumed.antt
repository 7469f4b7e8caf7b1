-- ===== src/Process/Resumed.antt =====
-- What a trade under way does from one `await` to the next.
use Prim.Native.String.{◌++◌}
use trade_post.Base.{
  ℕ, ◌≡◌, refl, sym, subst, String, Bool, true, not, Option, none, some, [], ◌∷◌, All, arith,
  if_either,
}
use trade_post.Decimal.{Decimal, nought, at_most}
use trade_post.Domain.{Order, MarketSnapshot}
use trade_post.Execution.{Execution, apply_paper_fill}
use trade_post.Execution.Pricing.{estimate_fill_price, calculate_slippage_pct}
use trade_post.Execution.Submit.{filled_order, Placed, accepted, refused}
use trade_post.Floats.{Floats}
use trade_post.Market.Service.{Fetched, snapshot, exchange_error, other_error}
use trade_post.Money.{Money}
use trade_post.Orchestrator.{Proposal}
use trade_post.Orchestrator.Gates.{IsBlocked}
use trade_post.Orchestrator.Tasks.{
  Task, proposed, anchoring, approved, inserting, marking, fetching, placing, booking, closing,
  succeeding, giving_up, failing, Resumed, on_approval, judge, measure, begin, book, dispatch,
  quote_order, on_market, on_exchange, resume,
}
use trade_post.Process.{left}
use trade_post.Risk.Checks.{check_state, check_market}
use trade_post.Risk.States.{check_drawdown-Follows, anchor-Follows}
use trade_post.Risk.Tables.{check_drawdown-IsTableSafe, anchor-IsTableSafe}
use trade_post.Risk.Validate.{Verdict, decided, frozen_instance, zero_division, anchor, notional}

-- The tables of the orders and the fills are the same, and a kill is kept.
pub record IsMild {F : Type 0} (x y : Execution F) : Type 0 where
  pub orders_same : y.risk.db.orders ≡ x.risk.db.orders
  pub fills_same : y.risk.db.fills ≡ x.risk.db.fills
  pub kill_kept : x.risk.state.killed ≡ true → y.risk.state.killed ≡ true

-- The id of its order, of a trade whose validation has begun, has the property.
abbrev pub IsNamed : {F : Type 0} → (String → Type 0) → Task F → Type 0
IsNamed K (proposed p) = Unit {0}
IsNamed K (anchoring p) = K p.intent.id
IsNamed K (approved p) = K p.intent.id
IsNamed K (inserting p) = K p.intent.id
IsNamed K (marking p o) = K o.id
IsNamed K (fetching p o) = K o.id
IsNamed K (placing p price o) = K o.id
IsNamed K (booking p ex_id price o) = K o.id
IsNamed K (closing p ex_id price o) = K o.id
IsNamed K (succeeding p o) = K o.id
IsNamed K (giving_up p why o) = K o.id
IsNamed K (failing p o) = K o.id

-- The result is mild, and a trade that goes on does so under a name that has the property.
pub record GoesOn {F : Type 0} (K : String → Type 0) (x : Execution F) (r : Resumed F)
    : Type 0 where
  pub mild : IsMild x r.1
  pub named : All (IsNamed K) (left r.0)

module _ {F : Type 0} ⦃fl : Floats F⦄ (up : ℕ → Bool) where
  begin-blocked : (p : Proposal F) (x : Execution F) → IsBlocked x.risk → begin up p x ≡ (none, x)
  unfolding begin check_state
  begin-blocked p x h = ground arith

  -- A proposal that meets a block is over, and leaves everything as it was.
  pub resume-blocked :
      (p : Proposal F) (x : Execution F) → IsBlocked x.risk → resume up (proposed p) x ≡ (none, x)
  unfolding resume
  resume-blocked p x h = begin-blocked p x h

  module _ (K : String → Type 0) where
    over : (x : Execution F) → GoesOn K x (none, x)
    over x = record {
      mild = record { orders_same = refl; fills_same = refl; kill_kept = λ h. h };
      named = tt;
    }

    same : (x : Execution F) (t : Task F) → IsNamed K t → GoesOn K x (some t, x)
    same x t k = record {
      mild = record { orders_same = refl; fills_same = refl; kill_kept = λ h. h };
      named = (k, tt);
    }

    on_approval-IsNamed :
        (p : Proposal F) (v : Verdict) → K p.intent.id → All (IsNamed K) (left (on_approval p v))
    unfolding on_approval
    on_approval-IsNamed p (decided d) k =
        if_either (λ t. All (IsNamed K) (left t)) d.approved (some (approved p)) none (k, tt) tt
    on_approval-IsNamed p frozen_instance k = tt
    on_approval-IsNamed p zero_division k = tt

    pub judge-GoesOn :
        (p : Proposal F) (start : Option Money) (x : Execution F)
        → K p.intent.id
        → GoesOn K x (judge up p start x)
    unfolding judge
    judge-GoesOn p none x k = over x
    judge-GoesOn p (some start) x k =
        let requested = notional p.intent p.snap in
        let checks = ("state", true) ∷ ("market", true) ∷ [] in
        let safe =
          check_drawdown-IsTableSafe up p.now requested checks p.intent p.snap p.portfolio
            start.amount x.risk in
        let follows =
          check_drawdown-Follows up p.now requested checks p.intent p.snap p.portfolio start.amount
            x.risk in
        record {
          mild = record {
            orders_same = safe.orders_same;
            fills_same = safe.fills_same;
            kill_kept = follows.kill_kept;
          };
          named = on_approval-IsNamed p _ k;
        }

    measure-GoesOn :
        (p : Proposal F) (start : Option Money) (x : Execution F)
        → start ≡ x.risk.state.starting_equity
        → K p.intent.id
        → GoesOn K x (measure up p start x)
    unfolding measure
    measure-GoesOn p (some start) x e k = judge-GoesOn p (some start) x k
    measure-GoesOn p none x e k =
        let equity = p.portfolio.total_equity in
        let safe = anchor-IsTableSafe up equity x.risk in
        let follows = anchor-Follows up equity x.risk in
        record {
          mild =
              subst (λ start. IsMild x (record x { risk = anchor up start equity x.risk })) (sym e)
                (record {
                  orders_same = safe.orders_same;
                  fills_same = safe.fills_same;
                  kill_kept = follows.kill_kept;
                });
          named = (k, tt);
        }

    pub begin-GoesOn :
        (p : Proposal F) (x : Execution F) → K p.intent.id → GoesOn K x (begin up p x)
    unfolding begin
    begin-GoesOn p x k =
        let (sound, _) = check_state x.risk.state in
        let (fresh, _) = check_market x.risk.settings p.seen p.snap in
        let broke = at_most p.portfolio.total_equity.amount nought in
        if_either (GoesOn K x) (not sound) (none, x) _ (over x)
          (if_either (GoesOn K x) (not fresh) (none, x) _ (over x)
            (if_either (GoesOn K x) broke (none, x) _ (over x)
              (measure-GoesOn p x.risk.state.starting_equity x refl k)))

    book-GoesOn :
        (p : Proposal F) (ex_id : String) (price : Decimal) (o : Order) (x : Execution F)
        → K o.id
        → GoesOn K x (book up p ex_id price o x)
    unfolding book
    book-GoesOn p ex_id price o x k =
        if_either (GoesOn K x) _ (none, x) (some (booking p ex_id price o), x) (over x)
          (same x (booking p ex_id price o) k)

    dispatch-GoesOn :
        (p : Proposal F) (price : Decimal) (o : Order) (x : Execution F)
        → K o.id
        → GoesOn K x (dispatch up p price o x)
    unfolding dispatch
    dispatch-GoesOn p price o x k =
        if_either (GoesOn K x) _ _ (some (placing p price o), x)
          (let y = record x {
            paper = apply_paper_fill (filled_order p.env.completed p.env.paper_id price o) x.paper;
          } in
            let booked = book-GoesOn p p.env.paper_id price o y k in
            record {
              mild = record {
                orders_same = booked.mild.orders_same;
                fills_same = booked.mild.fills_same;
                kill_kept = booked.mild.kill_kept;
              };
              named = booked.named;
            })
          (same x (placing p price o) k)

    quote_order-GoesOn :
        (p : Proposal F) (snap : MarketSnapshot F) (o : Order) (x : Execution F)
        → K o.id
        → GoesOn K x (quote_order up p snap o x)
    unfolding quote_order
    quote_order-GoesOn p snap o x k =
        let price = estimate_fill_price p.intent.type p.intent snap in
        let slip = calculate_slippage_pct snap.last_price p.intent.side price in
        let why = "Slippage violation: " ++ fl.percent 2 slip in
        if_either (GoesOn K x) _ (none, x) _ (over x)
          (if_either (GoesOn K x) _ (some (giving_up p why o), x) _ (same x (giving_up p why o) k)
            (dispatch-GoesOn p price o x k))

    pub on_market-GoesOn :
        (p : Proposal F) (o : Order) (x : Execution F) (f : Fetched F)
        → K o.id
        → GoesOn K x (on_market up p o x f)
    unfolding on_market
    on_market-GoesOn p o x (exchange_error why) k = same x (giving_up p why o) k
    on_market-GoesOn p o x other_error k = over x
    on_market-GoesOn p o x (snapshot snap) k = quote_order-GoesOn p snap o x k

    pub on_exchange-GoesOn :
        (p : Proposal F) (price : Decimal) (o : Order) (x : Execution F) (a : Placed)
        → K o.id
        → GoesOn K x (on_exchange up p price o x a)
    unfolding on_exchange
    on_exchange-GoesOn p price o x (accepted ex_id) k = book-GoesOn p ex_id price o x k
    on_exchange-GoesOn p price o x (refused why) k = same x (giving_up p why o) k
