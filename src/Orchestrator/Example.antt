-- ===== src/Orchestrator/Example.antt =====
-- An orchestrator on the settings' defaults, and the outside of a cycle.
use trade_post.Base.{true, none, some, []}
use trade_post.Decimal.{Decimal, of_ℕ}
use trade_post.Execution.{Execution}
use trade_post.Execution
use trade_post.Execution.Submit.{Env, accepted}
use trade_post.Market.Service.{Ticker, answered, snapshot}
use trade_post.Floats.Sample.{decimal_floats}
use trade_post.Ai.Brain.Example as Brain
use trade_post.Orchestrator.{Orchestrator}
use trade_post.Orchestrator.Cycle.{Outside, Scan}
use trade_post.Orchestrator.Portfolio.{Quote}
use trade_post.Samples.{engine, fresh_state, quote, settings}

abbrev pub start : Execution Decimal
start = Execution.init engine

abbrev pub env : Env Decimal
env = record {
  created = 1;
  submitted_at = 2;
  completed = 3;
  stamped = 4;
  noted = 5;
  paper_id = "paper-1";
  fill_id = "f1";
  filled_at = 3;
  trace_id = none;
  fetched = snapshot (quote none);
  placed = accepted "x1";
}

-- The last failure is long ago.
abbrev pub open_circuit : Execution Decimal
open_circuit = record start {
  risk = record engine {
    state = record fresh_state {
      circuit_open = true;
      failures_in_window = 3;
      last_failure_at = some 0;
    };
  };
}

-- An exchange that answers with a ticker and no candles.
abbrev ticker : Ticker Decimal
ticker = record {
  bid = some (of_ℕ 99);
  ask = some (of_ℕ 101);
  last = some (of_ℕ 100);
  quote_volume = none;
}

abbrev pub given_quote : Quote Decimal
given_quote = record { now = 1; stored = 2; stamped = 3; answer = answered ticker [] }

abbrev pub scan : Scan Decimal
scan = record {
  quote = given_quote;
  marks = λ _. given_quote;
  taken = 4;
  server = Brain.server;
  asking = Brain.asking;
  intent_id = "i1";
  keyed = 5;
  created = 6;
  seen = 7;
  now = 8;
  env = env;
}

abbrev pub out : Outside Decimal
out = record {
  violations = Brain.violations;
  wide = Brain.wide;
  sha256 = λ t. t;
  parse_decimal = λ _. none;
}

abbrev pub desk : Execution Decimal → Orchestrator Decimal
desk x = record {
  execution = x;
  market = record { settings = settings; connected = true; cache = [] };
  breaker = Brain.closed;
  autonomous_enabled = true;
}
