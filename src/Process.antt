-- ===== src/Process.antt =====
-- The running process: the background loops of trade_post/orchestrator/runtime.py, the endpoints and
-- the sockets of trade_post/api/server.py, on the orchestrator that they share, and the trades that
-- are under way. A round of a loop, a request and a message are steps, which come in any order. The
-- analysis of a symbol up to its intent is a step, and each way of its trade from one `await` to the
-- next is one, of whichever trade: so anything may happen between the checks of an intent and its fill,
-- and between any two writes of a submission. The lock of `submit` and the order of the symbols in a
-- cycle only rule some of these orders out. `cycles` and `analyses`, and the cycles that requests and
-- messages ask for, are those with nothing in between (`Orchestrator.Tasks.Alone`).
pub mod Quiet
pub mod Trading
pub mod Requests
pub mod Users
pub mod Invariants
pub mod Resumed
pub mod Safety
pub mod Confined
pub mod Killed
pub mod Unique
mod Tests
use trade_post.Base.{ℕ, String, Bool, Option, none, some, List, [], ◌∷◌, ◌++◌}
use trade_post.Execution.Orphans.{OpenOrder}
use trade_post.Execution.Submit.{on_db}
use trade_post.Floats.{Floats}
use trade_post.Orchestrator.{Orchestrator, Proposal}
use trade_post.Orchestrator.Cycle.{Outside, Scan, analyse, run_one_ai_cycle}
use trade_post.Orchestrator.Cycle.Prepare.{prepare}
use trade_post.Orchestrator.Portfolio.{Quote}
use trade_post.Orchestrator.Rounds.{
  Audit, market_round, portfolio_round, ledger_round, orphan_round,
}
use trade_post.Orchestrator.Tasks.{Task, proposed, resume}
use trade_post.Server.{Request}
use trade_post.Server.Calls.{Call, step}
use trade_post.Server.Control.{Action, control}
use trade_post.Server.Socket.{Frame, Tick, Peer, on_frame}

-- What the process is given: the outside of an analysis, which transactions commit, and how
-- passwords are verified and hashed.
pub record World (F : Type 0) : Type 0 where
  pub out : Outside F
  pub up : ℕ → Bool
  pub verify : String → String → Bool
  pub hash : String → String

-- The orchestrator and the trades that are under way.
pub record System (F : Type 0) : Type 0 where
  pub running : Orchestrator F
  pub tasks : List (Task F)

-- A proposal waits for its validation.
abbrev pub waiting : {F : Type 0} → Option (Proposal F) → List (Task F)
waiting none = []
waiting (some p) = proposed p ∷ []

-- A trade goes on, or is over.
abbrev pub left : {F : Type 0} → Option (Task F) → List (Task F)
left none = []
left (some t) = t ∷ []

module _ {F : Type 0} ⦃fl : Floats F⦄ (w : World F) where
  -- A request to a handler of sessions and users.
  unfoldable pub served : Call → Orchestrator F → Orchestrator F
  served c o = record o {
    execution = on_db (step o.execution.risk.settings w.verify w.hash c) o.execution;
  }

  -- What changes the orchestrator at once.
  pub data Move : Orchestrator F → Orchestrator F → Type 0 where
    streams : (quotes : ℕ → Quote F) (o : Orchestrator F) → Move o (market_round w.up quotes o)
    snapshots :
        (id : String) (quotes : String → Quote F) (taken : ℕ) (o : Orchestrator F)
        → Move o (portfolio_round w.up id quotes taken o)
    cycles :
        (scans : ℕ → Scan F) (o : Orchestrator F) → Move o (run_one_ai_cycle w.out w.up scans o).1
    analyses :
        (scan : Scan F) (symbol : String) (o : Orchestrator F)
        → Move o (analyse w.out w.up scan symbol o).1
    audits : (a : Audit) (o : Orchestrator F) → Move o (ledger_round w.up a o)
    cancels_orphans :
        (cancels : String → Bool) (now : F) (fetched : Option (List (OpenOrder F)))
        (o : Orchestrator F)
        → Move o (orphan_round cancels now fetched o).1
    controls :
        (r : Request) (a : Action F) (o : Orchestrator F) → Move o (control w.out w.up r a o).1
    hears :
        (t : Tick F) (peer : Peer) (f : Frame) (o : Orchestrator F)
        → Move o (on_frame w.out w.up t peer f o).1
    serves : (c : Call) (o : Orchestrator F) → Move o (served c o)

  pub data Step : System F → System F → Type 0 where
    moves :
        {o p : Orchestrator F} (ts : List (Task F))
        → Move o p
        → Step (record { running = o; tasks = ts }) (record { running = p; tasks = ts })
    prepares :
        (scan : Scan F) (symbol : String) (o : Orchestrator F) (ts : List (Task F))
        → Step
            (record { running = o; tasks = ts })
            (record {
              running = (prepare w.out w.up scan symbol o).1;
              tasks = waiting (prepare w.out w.up scan symbol o).0 ++ ts;
            })
    resumes :
        (o : Orchestrator F) (before : List (Task F)) (t : Task F) (behind : List (Task F))
        → Step
            (record { running = o; tasks = before ++ (t ∷ behind) })
            (record {
              running = record o { execution = (resume w.up t o.execution).1 };
              tasks = before ++ (left (resume w.up t o.execution).0 ++ behind);
            })

  pub data Reachable (s : System F) : System F → Type 0 where
    here : Reachable s s
    after : {p q : System F} → Reachable s p → Step p q → Reachable s q
