-- ===== src/Orchestrator/Lifecycle.antt =====
-- trade_post/orchestrator/runtime.py: `TaskRegistry`, `startup` and `shutdown` with the connections,
-- and trade_post/api/server.py: `lifespan`.
mod Tests
use trade_post.Base.{
  ◌≡◌, ◌⊎◌, refl, inl, inr, arith, String, Bool, true, false, ◌&&◌, Option, none, some, List, [],
  ◌∷◌, ◌++◌, keep_if, any_of, str_eq, not, if◌then◌else◌, Bool-cases,
}
use trade_post.Ai.Connection as Client
use trade_post.Market.Service.{MarketData}
use trade_post.Market.Service.Connection as Exchange
use trade_post.Persistence.Connection as Store
use trade_post.Persistence.Connection.{Handle}

-- A task that was spawned under the name of another takes its place.
unfoldable pub spawn : String → List String → List String
spawn name tasks = if any_of (str_eq name) tasks then tasks else tasks ++ (name ∷ [])

-- `TaskRegistry.shutdown`: the tasks that end after they are cancelled are removed; `stuck` are those
-- that do not within the timeout.
unfoldable pub stop_tasks : (stuck : String → Bool) → List String → List String
stop_tasks stuck tasks = keep_if stuck tasks

keep_if-none :
    (p : String → Bool) (xs : List String) → ((x : String) → p x ≡ false) → keep_if p xs ≡ []
unfolding keep_if
keep_if-none p [] h = refl
keep_if-none p (x ∷ xs) h = rw (h x) (keep_if-none p xs h)

no_engine_left : (h : Handle) → (Store.disconnect true h).1.engine ≡ none
unfolding Store.disconnect
no_engine_left h = ground arith

no_client_left :
    (closes http : Bool) → ((Client.disconnect closes http).1 ≡ false) ⊎ (closes ≡ false)
unfolding Client.disconnect
no_client_left true true = inl refl
no_client_left true false = inl refl
no_client_left false http = inr refl

pub record Running (F : Type 0) : Type 0 where
  pub tasks : List String
  pub database : Handle
  pub market : MarketData F
  pub http : Bool

-- What happens outside at a start: whether the engine is made, whether the rest of `startup_core`
-- returns, and whether the markets load.
pub record Starting : Type 0 where
  pub creates : Bool
  pub core : Bool
  pub loads : Bool

pub record Stopping : Type 0 where
  pub stuck : String → Bool
  pub http_closes : Bool
  pub market_closes : Bool
  pub disposes : Bool

module _ {F : Type 0} where
  abbrev spawn_all : Running F → Running F
  spawn_all r = record r {
    tasks = spawn "ledger_reconcile" (
        spawn "orphan_reconcile"
          (spawn "ai_scan" (spawn "portfolio_snap" (spawn "market_stream" r.tasks))));
  }

  abbrev with_market : Starting → Running F → Bool × Running F
  with_market e r =
      let (loaded, m) = Exchange.connect e.loads r.market in
      let q = record r { market = m } in
      if loaded then (true, spawn_all (record q { http = true })) else (false, q)

  -- Whether `startup` returns, and what is connected then. The check of the model changes nothing.
  unfoldable pub startup : Starting → Running F → Bool × Running F
  unfolding spawn
  startup e r =
      let (made, h) = Store.connect e.creates r.database in
      let q = record r { database = h } in
      if made then if e.core then with_market e q else (false, q) else (false, q)

  -- `shutdown`: what each closing raises is passed over.
  unfoldable pub shutdown : Stopping → Running F → Running F
  unfolding stop_tasks
  shutdown stop r = record {
    tasks = stop_tasks stop.stuck r.tasks;
    database = (Store.disconnect stop.disposes r.database).1;
    market = (Exchange.disconnect stop.market_closes r.market).1;
    http = (Client.disconnect stop.http_closes r.http).1;
  }

  -- `startup_core` alone, without the loops and the connections to the exchange and the model.
  unfoldable pub start_core : Starting → Running F → Bool × Running F
  start_core e r =
      let (made, h) = Store.connect e.creates r.database in
      (made && e.core, record r { database = h })

  -- The start that `full_startup` asks for.
  abbrev pub begun : Bool → Starting → Running F → Bool × Running F
  begun full e r = if full then startup e r else start_core e r

  -- `lifespan`: the application runs between the two, as `serves` says; a start that raises is not
  -- followed by a shutdown.
  unfoldable pub lifespan :
      Bool → Starting → Stopping → (Running F → Running F) → Running F → Running F
  unfolding startup start_core shutdown
  lifespan full e stop serves r =
      let (started, q) = begun full e r in if started then shutdown stop (serves q) else q

  -- Nothing is left open but an HTTP client that could not be closed.
  pub record IsClosed (stop : Stopping) (r : Running F) : Type 0 where
    pub no_tasks : r.tasks ≡ []
    pub no_engine : r.database.engine ≡ none
    pub no_market : r.market.connected ≡ false
    pub no_client : (r.http ≡ false) ⊎ (stop.http_closes ≡ false)

  no_market_left :
      (closes : Bool) (m : MarketData F) → (Exchange.disconnect closes m).1.connected ≡ false
  unfolding Exchange.disconnect
  no_market_left closes m = ground arith

  shutdown-IsClosed :
      (stop : Stopping) (r : Running F)
      → ((t : String) → stop.stuck t ≡ false)
      → stop.disposes ≡ true
      → IsClosed stop (shutdown stop r)
  unfolding shutdown stop_tasks
  shutdown-IsClosed stop r ends disposed = record {
    no_tasks = keep_if-none stop.stuck r.tasks ends;
    no_engine = rw disposed (no_engine_left r.database);
    no_market = no_market_left stop.market_closes r.market;
    no_client = no_client_left stop.http_closes r.http;
  }

  -- Every task ends when it is cancelled, and the disposal of the engine does not raise. Whether the
  -- start is the full one or that of the core alone, and whatever the application does while it runs, at
  -- the end either the start has raised, and all that it had opened
  -- until then is still open, or no task runs and the engine, the exchange and the HTTP client are
  -- closed, where only an HTTP client whose closing raises is left.
  pub lifespan-IsClosed :
      (full : Bool) (e : Starting) (stop : Stopping) (serves : Running F → Running F)
      (r : Running F)
      → ((t : String) → stop.stuck t ≡ false)
      → stop.disposes ≡ true
      → (((begun full e r).0 ≡ false) × (lifespan full e stop serves r ≡ (begun full e r).1))
        ⊎ IsClosed stop (lifespan full e stop serves r)
  unfolding lifespan
  lifespan-IsClosed full e stop serves r ends disposed = elim (Bool-cases (begun full e r).0) [
    | inl started ↦
        inr (rw started (shutdown-IsClosed stop (serves (begun full e r).1) ends disposed))
    | inr failed ↦ inl (failed, rw failed refl)
  ]
