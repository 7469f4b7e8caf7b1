-- ===== src/Lib.antt =====
-- Drox Trade Post (the Python package trade_post): an algorithmic trading engine.
--
-- A cycle of the program takes a market snapshot, asks a language model for a decision, turns it
-- into an order intent, has the risk engine validate the intent against the portfolio, and submits
-- an approved intent to the execution engine, which reports failures and successes back to the risk
-- engine. All of them write to one SQLite database and to one registry of metrics.
--
-- The files and the code:
--   * Domain, Money: trade_post/domain/models.py; Domain/Texts has the enumerations as texts, and
--     Domain/Records the models of users, sessions, events and the ledger.
--   * Logging: trade_post/core/logging_setup.py, the filters that a record of the log passes, the
--     context of a trace id and the set-up. Its loop runs on as much fuel as the text in lower case
--     has characters, of which each place of a name takes one. Logging/Narrow has the loop for texts
--     that are as long in lower case, and Logging/Same compares the two; the final form of a
--     sigma, which no name has, is not told apart.
--   * Config: trade_post/core/config.py, with the bounds that pydantic enforces (Config/Checks).
--   * Metrics: trade_post/observability/metrics.py.
--   * Persistence: trade_post/persistence. The database is a record of tables, a table the list of
--     its rows. Persistence/Orders holds the statements on orders and fills, Persistence/RiskRow
--     the single row of the risk state and the session around a write, Persistence/Snapshots the
--     snapshots of the market and of the portfolio and the decisions of the brain,
--     Persistence/Migrations the migrations, whose statements are arguments, Persistence/Texts the
--     row of an order as texts, and Persistence/Connection the engine and the sessions of
--     database.py.
--   * Risk: trade_post/risk/engine.py. `Engine` is the state of `RiskEngine`, with the settings,
--     the database and the metrics that it reaches. Each method is a function on it. Risk/Checks
--     and Risk/Validate hold the checks of `validate` in their order; the other children are named
--     for what they prove, Risk/KillSwitch defines the calls and runs of them.
--   * Execution: trade_post/execution/engine.py. `Execution` is the paper account round a risk
--     engine. Execution/Submit is `submit`, from the test of the idempotency key to the fill.
--     Execution/Pricing is the estimate of the fill price; Execution/Cancel and Execution/Orphans
--     are the other methods.
--   * Orchestrator: trade_post/orchestrator/runtime.py. Orchestrator/Cycle is `_run_one_ai_cycle`,
--     Orchestrator/Portfolio the portfolio of the paper account and its snapshots,
--     Orchestrator/Subscriptions and Orchestrator/Startup what they are named for,
--     Orchestrator/Rounds one round of each background loop, and Orchestrator/Lifecycle the task
--     registry, `startup`, `shutdown` and the `lifespan` of trade_post/api/server.py.
--     Orchestrator/Tasks is a trade from one `await` to the next, through `validate` and `submit`;
--     Orchestrator/Tasks/Alone relates it to the trade in one step, and Orchestrator/Cycle/Prepare
--     is the analysis before it. `startup_core` gives the tables as the execution engine's own
--     session sees them: that later writes of this session are never committed is left out.
--   * Process: the loops, the endpoints, the sockets and the trades under way on one orchestrator,
--     as steps in any order, and what holds in every state that they reach (Process/Invariants has
--     the rule for it).
--   * Market/Indicators, Market/Features: trade_post/market/indicators.py. Market/Service:
--     trade_post/market/service.py, with the cache of snapshots.
--   * Strategy: trade_post/strategy/signals.py.
--   * Ai: trade_post/ai. Ai/Breaker is the circuit breaker and Ai/Chat the retry loop of ollama.py,
--     the one by recursion on the retries that are left, and Ai/Chat/Loop as the `while` loop;
--     Ai/Schema is the schema of schemas.py; Ai/Extract is `_extract_json`; Ai/Connection is the
--     HTTP client; Ai/Brain and Ai/Baseline are brain.py.
--   * Security: trade_post/security/auth.py: sessions, roles, the double-submit token, passwords
--     (Security/Passwords) and the client's address (Security/Address).
--   * Server: trade_post/api/server.py, the handlers of sessions and users, on the tables of
--     Persistence/Users, with how a password is hashed and verified as an argument. Server/Control
--     has the operators' endpoints and Server/Socket the control socket, on the orchestrator;
--     Server/Reading the endpoints that only read; Server/Cookies the cookies. Server/Calls has
--     sequences of requests, and Server/Bodies the models of their bodies.
--   * Reconciliation: trade_post/reconciliation/service.py, on the rows of Persistence/Ledger.
--   * Base, Dict, Decimal, Floats: what the code takes from Python. A dict is an association list;
--     Decimal is the decimal arithmetic of the default context, with 28 digits, rounding half to
--     even; the binary floating point numbers are an interface, `Floats`, and every theorem holds
--     for any instance of it. Floats/Sample is one concrete instance, for the examples.
--   * Samples: the settings' defaults and market data for the examples.
--
-- Conventions: a time is a count of microseconds, read off a clock that is an argument of each
-- method. The outcome of each database transaction of the risk engine is an argument too, a
-- function from the number of the transaction to whether it commits. What a service or the exchange
-- answers is part of an environment record. An exception is a value of a result type. A method is one
-- function, except that Orchestrator/Tasks splits a trade at each `await`, between which Process lets
-- anything else happen. The calls of the log are left out. Loops over lists and over the remaining
-- retries are structural recursion; Logging and Ai/Chat/Loop run on fuel: the length of the text in
-- lower case, and one step more than the retries.
--
-- Not modelled: that the background loops run forever and pause; the endpoint that lists the
-- events, whose payloads are left out; the texts of the prompts; the exports of metrics; the format
-- and the writing of the log's lines; the reading of the environment into the settings; the scripts
-- beside the package.
pub mod Base
pub mod Decimal
pub mod Floats
pub mod Money
pub mod Domain
pub mod Config
pub mod Market
pub mod Logging
pub mod Metrics
pub mod Orchestrator
pub mod Persistence
pub mod Dict
pub mod Risk
pub mod Execution
pub mod Ai
pub mod Process
pub mod Reconciliation
pub mod Security
pub mod Server
pub mod Samples
pub mod Strategy
