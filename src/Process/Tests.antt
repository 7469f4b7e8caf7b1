-- ===== src/Process/Tests.antt =====
-- Paths of the process from an open circuit and from a kill.
use trade_post.Base.{◌≡◌, List, [], ◌∷◌, ◌++◌, map, any_of, find_first, none, inr, refl, str_eq}
use trade_post.Decimal.{Decimal, of_ℕ}
use trade_post.Floats.Sample.{decimal_floats}
use trade_post.Orchestrator.{Proposal, Orchestrator}
use trade_post.Orchestrator.Cycle.{analyse}
use trade_post.Orchestrator.Example.{
  start as fresh, env, open_circuit, scan, given_quote, out, desk,
}
use trade_post.Orchestrator.Tasks.{Task, proposed, approved, inserting, marking, resume}
use trade_post.Orchestrator.Rounds.{market_round}
use trade_post.Process.{
  World, System, streams, analyses, controls, left, moves, resumes, Reachable, here, after,
}
use trade_post.Process.Confined.{IsConfined}
use trade_post.Process.Killed.{kill_switch_stops}
use trade_post.Process.Safety.{IsHalted, reachable-IsHalted}
use trade_post.Server.Socket.Example.{office, request, program}
use trade_post.Process.Unique.{reachable-IsUnique}
use trade_post.Persistence.Orders.Laws.{IsUnique}
use trade_post.Persistence.Orders.{get_order_by_idempotency, insert_order, order_row, stored_amount}
use trade_post.Persistence.Users.{insert_event}
use trade_post.Domain.{Order}
use trade_post.Execution.Submit.{new_order}
use trade_post.Risk.{kill, persist}
use trade_post.Samples.{intent, quote, portfolio, always}
use trade_post.Server.Control.{kills, killed, kill_by, control}

abbrev world : World Decimal
world = record { out = out; up = always; verify = str_eq; hash = λ p. p }

abbrev start : Orchestrator Decimal
start = desk open_circuit

abbrev streamed : Orchestrator Decimal
streamed = market_round always (λ _. given_quote) start

abbrev analysed : Orchestrator Decimal
analysed = (analyse out always scan "BTC/USDT" streamed).1

abbrev end : Orchestrator Decimal
end = (control out always request (kills 7) analysed).1

-- One proposal twice.
abbrev offer : Proposal Decimal
offer = record {
  intent = intent (of_ℕ 1);
  snap = quote none;
  portfolio = portfolio 10_000;
  seen = 0;
  now = 0;
  env = env;
}

abbrev with_tasks : List (Task Decimal) → Orchestrator Decimal → System Decimal
with_tasks ts o = record { running = o; tasks = ts }

-- The first trade makes a step.
abbrev first : Task Decimal → List (Task Decimal) → Orchestrator Decimal → System Decimal
first t behind o = record {
  running = record o { execution = (resume always t o.execution).1 };
  tasks = left (resume always t o.execution).0 ++ behind;
}

abbrev both : List (Task Decimal)
both = proposed offer ∷ proposed offer ∷ []

abbrev refused : System Decimal
refused = first (proposed offer) (proposed offer ∷ []) end

path : Reachable world (with_tasks both start) refused
path =
    after
      (after
        (after (after here (moves both (streams (λ _. given_quote) start)))
          (moves both (analyses scan "BTC/USDT" streamed)))
        (moves both (controls request (kills 7) analysed)))
      (resumes end [] (proposed offer) (proposed offer ∷ []))

reachable-IsHalted_example : IsHalted start.execution refused.running.execution
reachable-IsHalted_example =
    reachable-IsHalted world (with_tasks both start) refused (inr refl)
      ((offer, refl), ((offer, refl), tt)) path

abbrev desk_at : Orchestrator Decimal
desk_at = office "operator"

abbrev stopped : Orchestrator Decimal
stopped = (control out always request (kills 7) desk_at).1

-- The trade of an approved intent goes on after the kill.
abbrev looked_up : System Decimal
looked_up = first (approved offer) [] stopped

abbrev inserted : System Decimal
inserted = first (inserting offer) [] looked_up.running

kill_switch_stops_example : IsConfined (λ i. i ≡ offer.intent.id) inserted.running.execution
unfolding program resume get_order_by_idempotency find_first kill_by insert_event kill persist
kill_switch_stops_example =
    kill_switch_stops world request 7 desk_at (approved offer ∷ []) inserted killed
      (λ i. i ≡ offer.intent.id) refl tt tt (refl, tt)
      (after (after here (resumes stopped [] (approved offer) []))
        (resumes looked_up.running [] (inserting offer) []))

-- The order is in the table, although the kill was answered before.
inserts_after_kill :
    map (λ o. o.id) inserted.running.execution.risk.db.orders ≡ offer.intent.id ∷ []
unfolding program resume get_order_by_idempotency find_first kill_by insert_event kill persist
    insert_order any_of order_row stored_amount
inserts_after_kill = refl

-- Both trades have found no order with the key before either inserts its own.
abbrev idle : Orchestrator Decimal
idle = desk fresh

abbrev raced : System Decimal
raced = first (inserting offer) (inserting offer ∷ []) idle

abbrev made : Order
made = new_order env.created env.trace_id offer.intent

abbrev clashed : System Decimal
clashed = record (first (inserting offer) [] raced.running) { tasks = marking offer made ∷ [] }

reachable-IsUnique_example : IsUnique clashed.running.execution.risk.db.orders
unfolding program resume insert_order any_of order_row stored_amount
reachable-IsUnique_example =
    reachable-IsUnique world (with_tasks (inserting offer ∷ inserting offer ∷ []) idle) clashed tt (
      after (after here (resumes idle [] (inserting offer) (inserting offer ∷ [])))
        (resumes raced.running (marking offer made ∷ []) (inserting offer) []))
