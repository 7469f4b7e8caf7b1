-- ===== src/Orchestrator/Tests.antt =====
-- Cycles, subscriptions and starts on the settings' defaults.
use trade_post.Base.{
  ◌≡◌, ◌⊎◌, refl, ◌∷◌, true, false, Option, none, some, List, [], String, any_of, find_first,
}
use trade_post.Decimal.{Decimal, of_ℕ}
use trade_post.Execution.{Execution}
use trade_post.Execution
use trade_post.Floats.Sample.{decimal_floats}
use trade_post.Ai.Baseline.{baseline_from_signal}
use trade_post.Ai.Brain.{AiDecision, decision_of, merge, decision_keys}
use trade_post.Ai.Brain.Example as Brain
use trade_post.Orchestrator.{escaped}
use trade_post.Orchestrator.Example.{start, scan, out, desk}
use trade_post.Orchestrator.Cycle.{analyse, analyse_all}
use trade_post.Orchestrator.Cycle.Missing.{missing_quantity_escapes}
use trade_post.Orchestrator.Cycle.Sound.{IsIdle, IsJustified, analyse-IsJustified}
use trade_post.Orchestrator.Subscriptions.{symbols_of}
use trade_post.Orchestrator.Subscriptions.Sets.{
  Change, subscribes, unsubscribes, change_sets, changes, view, IsDistinct, changes-refines,
}
use trade_post.Orchestrator.Startup.{Start, startup_core, ensure_admin, bootstrap_admin}
use trade_post.Orchestrator.Startup.Admin.{IsBootstrapped, startup_twice}
use trade_post.Persistence.{UserRow}
use trade_post.Persistence.Users.{get_user_by_username, insert_user, insert_event}
use trade_post.Orchestrator.Portfolio.{current_portfolio}
use trade_post.Strategy.{
  StrategySignal, features_of, mean_reversion, trend_of, score_of, threshold_of, side_of,
  strength_of, strength_in, signal_of, from_snapshot,
}
use trade_post.Market.Service.{get_snapshot, cached}
use trade_post.Orchestrator.{Orchestrator}
use trade_post.Samples.{always, engine, quote, settings}

analyse-IsJustified_example :
    IsIdle start (analyse out always scan "BTC/USDT" (desk start)).1.execution
    ⊎ IsJustified out always scan "BTC/USDT"
        (desk start)
        (analyse out always scan "BTC/USDT" (desk start)).1.execution
analyse-IsJustified_example =
    analyse-IsJustified out always Brain.violations-IsFaithful scan "BTC/USDT" (desk start)

-- A snapshot in the cache on which the strategy sees no edge, and a model that answers with a sale.
abbrev watching : Orchestrator Decimal
watching = record (desk start) {
  market = record (desk start).market { cache = ("BTC/USDT", (1, quote none)) ∷ [] };
}

abbrev flat_signal : StrategySignal Decimal
flat_signal = signal_of "BTC/USDT" (features_of (quote none).indicators)

abbrev sold : AiDecision Decimal
sold =
    decision_of settings Brain.violations Brain.wide Brain.asking flat_signal
      (merge decision_keys Brain.answer (baseline_from_signal flat_signal (of_ℕ 100) (of_ℕ 10_000)))
      true (of_ℕ 0)

missing_quantity_escapes_example :
    ((analyse out always scan "BTC/USDT" watching).0 ≡ escaped)
    × (analyse_all out always (λ _. scan) 0 ("BTC/USDT" ∷ "ETH/USDT" ∷ []) watching
        ≡ (false, (analyse out always scan "BTC/USDT" watching).1))
unfolding Brain.program current_portfolio Execution.init get_snapshot cached features_of
    mean_reversion trend_of score_of threshold_of side_of strength_of strength_in signal_of
    from_snapshot
missing_quantity_escapes_example =
    missing_quantity_escapes out always (λ _. scan) 0 "BTC/USDT" ("ETH/USDT" ∷ []) (quote none)
      flat_signal watching Brain.answer sold refl refl Brain.answers refl refl refl (cc)

abbrev symbol_changes : List Change
symbol_changes = subscribes " eth/usdt " ∷ unsubscribes "BTC/USDT" ∷ subscribes "ETH/USDT" ∷ []

changes-refines_example :
    ((changes Brain.wide symbol_changes (desk start)).0
      ≡ (change_sets Brain.wide symbol_changes (view (desk start))).0)
    × (view (changes Brain.wide symbol_changes (desk start)).1
        ≡ (change_sets Brain.wide symbol_changes (view (desk start))).1)
    × IsDistinct (symbols_of (changes Brain.wide symbol_changes (desk start)).1)
unfolding any_of Execution.init
changes-refines_example = changes-refines Brain.wide symbol_changes (desk start) (refl, (refl, tt))

abbrev keep : String → String
keep p = p

abbrev first : Start
first = record { user_id = "u1"; token = "once"; created = 1; commits = true }

abbrev second : Start
second = record { user_id = "u2"; token = "twice"; created = 2; commits = true }

-- What a start leaves, or the default.
abbrev after : Option (Execution Decimal) → Execution Decimal
after none = start
after (some x) = x

abbrev started : Execution Decimal
started = after (startup_core keep first engine)

abbrev again : Execution Decimal
again = after (startup_core keep second started.risk)

startup_twice_example :
    ((u : UserRow) × IsBootstrapped keep settings first engine.db started.risk.db u)
    × (again.risk.db ≡ started.risk.db)
unfolding startup_core ensure_admin bootstrap_admin get_user_by_username insert_user insert_event
    find_first any_of Execution.init
startup_twice_example = startup_twice keep first second engine started again refl refl
