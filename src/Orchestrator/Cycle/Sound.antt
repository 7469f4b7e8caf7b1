-- ===== src/Orchestrator/Cycle/Sound.antt =====
-- What an analysis trades on, and how an answer of the model may end a cycle.
use trade_post.Base.{
  ℕ, ◌≡◌, ◌≢◌, ◌⊎◌, inl, inr, refl, ◌∙◌, ap, sym, subst, String, Bool, true, Option, none, some,
  arith, Bool-cases,
}
use trade_post.Ai.Brain.{AiDecision, Decided, decision, crashed, decide}
use trade_post.Ai.Brain.Intent.{to_intent, order_side_of}
use trade_post.Ai.Brain.Laws.{IsSound, decide-IsSound}
use trade_post.Ai.Schema.{text, conforms, IsFaithful}
use trade_post.Decimal.{nought, less}
use trade_post.Dict
use trade_post.Domain.{
  SignalSide, long, short, flat, OrderSide, buy, sell, MarketSnapshot, PortfolioSnapshot,
  OrderIntent,
}
use trade_post.Execution.{Execution}
use trade_post.Floats.{Floats}
use trade_post.Orchestrator.Portfolio.{snapshot_at, current_portfolio}
use trade_post.Market.Service.{MarketData, Fetched, snapshot, exchange_error, other_error}
use trade_post.Orchestrator.{Orchestrator, trade}
use trade_post.Orchestrator.Cycle.{
  Outside, Scan, store_decision, intent_of, proposal_of, propose, act, on_decision, on_features,
  on_signal, on_fetched, analyse, decision_row,
}
use trade_post.Orchestrator.Gates.{trade-IsAdmissible}
use trade_post.Persistence.Snapshots.{insert_ai_decision}
use trade_post.Risk.{Engine}
use trade_post.Risk.Admission.{IsAdmissible}
use trade_post.Risk.Tables.{validate-IsTableSafe}
use trade_post.Strategy.{StrategySignal, from_snapshot}

-- No order was stored, and the paper account stayed.
pub record IsIdle {F : Type 0} (x y : Execution F) : Type 0 where
  pub paper_same : y.paper ≡ x.paper
  pub orders_same : y.risk.db.orders ≡ x.risk.db.orders
  pub fills_same : y.risk.db.fills ≡ x.risk.db.fills

idle : {F : Type 0} (x : Execution F) → IsIdle x x
idle x = ground arith

module _ {F : Type 0} ⦃fl : Floats F⦄ where
  -- The side of the order is the action of an object that keeps the schema.
  pub data Directs (d : AiDecision F) : OrderSide → Type 0 where
    buys :
        conforms d.raw_output ≡ true
        → Dict.get "action" d.raw_output ≡ some (text "BUY")
        → Directs d buy
    sells :
        conforms d.raw_output ≡ true
        → Dict.get "action" d.raw_output ≡ some (text "SELL")
        → Directs d sell

  -- What is done with `x` is the trade of the intent of this decision, on this snapshot and portfolio.
  pub record IsTraded (out : Outside F) (up : ℕ → Bool) (sc : Scan F) (snap : MarketSnapshot F)
      (portfolio : PortfolioSnapshot) (d : AiDecision F) (x y : Execution F) : Type 0 where
    pub intent : OrderIntent
    pub made : intent_of out sc d ≡ some intent
    pub directed : Directs d intent.side
    pub symbol_same : intent.symbol ≡ d.symbol
    pub positive : less nought intent.quantity ≡ true
    pub engine : Engine F
    pub state_same : engine.state ≡ x.risk.state
    pub settings_same : engine.settings ≡ x.risk.settings
    pub admissible : IsAdmissible engine sc.seen intent snap portfolio
    pub traded :
        y ≡ (trade up (proposal_of out sc intent snap portfolio) (record x { risk = engine })).1

  -- The trade of the intent of the decision that `decide` returns for the snapshot that was fetched, the
  -- signal that the strategy reads off it, and the current portfolio.
  pub record IsJustified (out : Outside F) (up : ℕ → Bool) (sc : Scan F) (symbol : String)
      (o : Orchestrator F) (y : Execution F) : Type 0 where
    pub snap : MarketSnapshot F
    pub fetched : (snapshot_at symbol sc.quote o.market).0 ≡ snapshot snap
    pub signal : StrategySignal F
    pub read : from_snapshot snap ≡ some signal
    pub portfolio : PortfolioSnapshot
    pub current :
        portfolio
        ≡ (current_portfolio sc.marks sc.taken o.execution
            (snapshot_at symbol sc.quote o.market).1).0
    pub chosen : AiDecision F
    pub decided :
        (decide o.execution.risk.settings out.violations out.wide sc.server sc.asking signal
          snap.last_price portfolio.total_equity.amount o.breaker).0
        ≡ decision chosen
    pub is_traded : IsTraded out up sc snap portfolio chosen o.execution y

  intent_fields :
      (out : Outside F) (sc : Scan F) (d : AiDecision F) (i : OrderIntent)
      → intent_of out sc d ≡ some i
      → (i.symbol ≡ d.symbol) × (less nought i.quantity ≡ true) × (i.side ≡ order_side_of d.signal)
  unfolding intent_of to_intent
  intent_fields out sc d i h = ground arith

  module _ (out : Outside F) (up : ℕ → Bool) where
    trade-IsIdle :
        (sc : Scan F) (snap : MarketSnapshot F) (pf : PortfolioSnapshot) (i : OrderIntent)
        (x : Execution F)
        → IsIdle x (trade up (proposal_of out sc i snap pf) x).1
          ⊎ IsAdmissible x.risk sc.seen i snap pf
    trade-IsIdle sc snap pf i x = elim (trade-IsAdmissible up (proposal_of out sc i snap pf) x) [
      | inr good ↦ inr good
      | inl (paper, risk) ↦
          let kept = validate-IsTableSafe up sc.seen sc.now i snap pf x.risk in
          inl (record {
            paper_same = paper;
            orders_same = ap (λ e. e.db.orders) risk ∙ kept.orders_same;
            fills_same = ap (λ e. e.db.fills) risk ∙ kept.fills_same;
          })
    ]

    directed_by :
        (d : AiDecision F) (side : SignalSide)
        → d.signal ≡ side
        → side ≢ flat
        → IsSound d
        → Directs d (order_side_of side)
    directed_by d flat e n s = absurd (n refl)
    directed_by d long e n (inl (good, valid, buying, selling)) = buys good (buying.0 e)
    directed_by d short e n (inl (good, valid, buying, selling)) = sells good (selling.0 e)
    directed_by d long e n (inr (bad, invalid, is_flat)) = absurd (n (sym e ∙ is_flat))
    directed_by d short e n (inr (bad, invalid, is_flat)) = absurd (n (sym e ∙ is_flat))

    -- The execution after the decision is stored.
    abbrev stored : AiDecision F → Execution F → Execution F
    stored d x = record x {
      risk = record x.risk { db = (store_decision up (decision_row d) x.risk.db).1 };
    }

    stored-IsIdle : (d : AiDecision F) (x : Execution F) → IsIdle x (stored d x)
    unfolding store_decision insert_ai_decision
    stored-IsIdle d x = ground arith

    propose_sound :
        (sc : Scan F) (snap : MarketSnapshot F) (pf : PortfolioSnapshot) (d : AiDecision F)
        (side : SignalSide) (x : Execution F)
        → d.signal ≡ side
        → side ≢ flat
        → IsSound d
        → (i : Option OrderIntent) → intent_of out sc d ≡ i
        → IsIdle x (propose out up sc snap pf i (stored d x)).1
          ⊎ IsTraded out up sc snap pf d x (propose out up sc snap pf i (stored d x)).1
    unfolding propose
    propose_sound sc snap pf d side x e n sound none made = inl (stored-IsIdle d x)
    propose_sound sc snap pf d side x e n sound (some i) made =
        elim (trade-IsIdle sc snap pf i (stored d x)) [
          | inl rests ↦ inl (ground (arith, stored-IsIdle d x))
          | inr good ↦
              let (symbol, positive, sided) = intent_fields out sc d i made in
              inr (record {
                intent = i;
                made = made;
                directed =
                    subst (Directs d) (sym (sided ∙ ap order_side_of e))
                      (directed_by d side e n sound);
                symbol_same = symbol;
                positive = positive;
                engine = (stored d x).risk;
                state_same = refl;
                settings_same = refl;
                admissible = good;
                traded = refl;
              })
        ]

    act_sound :
        (sc : Scan F) (snap : MarketSnapshot F) (pf : PortfolioSnapshot) (d : AiDecision F)
        (side : SignalSide) (x : Execution F)
        → d.signal ≡ side
        → IsSound d
        → IsIdle x (act out up sc snap pf d side (stored d x)).1
          ⊎ IsTraded out up sc snap pf d x (act out up sc snap pf d side (stored d x)).1
    unfolding act
    act_sound sc snap pf d flat x e sound = inl (stored-IsIdle d x)
    act_sound sc snap pf d long x e sound =
        propose_sound sc snap pf d long x e (cc) sound (intent_of out sc d) refl
    act_sound sc snap pf d short x e sound =
        propose_sound sc snap pf d short x e (cc) sound (intent_of out sc d) refl

    on_decision_sound :
        (sc : Scan F) (snap : MarketSnapshot F) (pf : PortfolioSnapshot) (d : AiDecision F)
        (x : Execution F)
        → IsSound d
        → IsIdle x (on_decision out up sc snap pf (decision d) x).1
          ⊎ IsTraded out up sc snap pf d x (on_decision out up sc snap pf (decision d) x).1
    unfolding on_decision
    on_decision_sound sc snap pf d x sound =
        elim (Bool-cases (store_decision up (decision_row d) x.risk.db).0) [
          | inl ok ↦ rw (ok, on_decision) (act_sound sc snap pf d d.signal x refl sound)
          | inr failed ↦ rw (failed, on_decision) (inl (stored-IsIdle d x))
        ]

    on_decided_sound :
        (sc : Scan F) (snap : MarketSnapshot F) (pf : PortfolioSnapshot) (r : Decided F)
        (x : Execution F)
        → ((d : AiDecision F) → r ≡ decision d → IsSound d)
        → IsIdle x (on_decision out up sc snap pf r x).1
          ⊎ ((d : AiDecision F) × (r ≡ decision d)
              × IsTraded out up sc snap pf d x (on_decision out up sc snap pf r x).1)
    unfolding on_decision
    on_decided_sound sc snap pf crashed x sound = inl (idle x)
    on_decided_sound sc snap pf (decision d) x sound =
        elim (on_decision_sound sc snap pf d x (sound d refl)) [
          | inl rests ↦ inl rests
          | inr trades ↦ inr (d, refl, trades)
        ]

    module _ (faithful : IsFaithful out.violations) (sc : Scan F) (symbol : String)
        (o : Orchestrator F) where
      abbrev market : MarketData F
      market = (snapshot_at symbol sc.quote o.market).1

      abbrev seen : Orchestrator F
      seen = record o { market = market }

      features_sound :
          (snap : MarketSnapshot F) (sig : Option (StrategySignal F))
          → (snapshot_at symbol sc.quote o.market).0 ≡ snapshot snap
          → from_snapshot snap ≡ sig
          → IsIdle o.execution (on_features out up sc snap sig seen).1.execution
            ⊎ IsJustified out up sc symbol o (on_features out up sc snap sig seen).1.execution
      unfolding on_features on_signal
      features_sound snap none fetched read = inl (idle o.execution)
      features_sound snap (some sig) fetched read =
          elim (on_decided_sound sc snap _ _ o.execution (λ d e.
            decide-IsSound o.execution.risk.settings out.violations out.wide faithful sc.server
              sc.asking sig snap.last_price _ o.breaker d e)) [
                | inl rests ↦ inl rests
                | inr (d, decided, trades) ↦ inr (record {
                  snap = snap;
                  fetched = fetched;
                  signal = sig;
                  read = read;
                  portfolio = (current_portfolio sc.marks sc.taken o.execution market).0;
                  current = refl;
                  chosen = d;
                  decided = decided;
                  is_traded = trades;
                })
              ]

      fetched_sound :
          (f : Fetched F)
          → (snapshot_at symbol sc.quote o.market).0 ≡ f
          → IsIdle o.execution (on_fetched out up sc f seen).1.execution
            ⊎ IsJustified out up sc symbol o (on_fetched out up sc f seen).1.execution
      unfolding on_fetched
      fetched_sound (exchange_error why) e = inl (idle o.execution)
      fetched_sound other_error e = inl (idle o.execution)
      fetched_sound (snapshot snap) e = features_sound snap (from_snapshot snap) e refl

      -- The analysis of a symbol, whatever the exchange and the model answer: either no order and no
      -- fill is stored and the paper account stays, or what is done is the trade of the intent that is
      -- made of the decision which `decide` returns for the snapshot that was fetched, the strategy's
      -- signal on it and the current portfolio. The intent was admissible on that snapshot and portfolio
      -- for the state and the settings of the risk engine, it has the symbol of the decision and a
      -- positive quantity, and its side is the action of the decision's object, which keeps the schema.
      pub analyse-IsJustified :
          IsIdle o.execution (analyse out up sc symbol o).1.execution
          ⊎ IsJustified out up sc symbol o (analyse out up sc symbol o).1.execution
      unfolding analyse
      analyse-IsJustified = fetched_sound _ refl
