-- ===== src/Process/Killed.antt =====
-- Every state that the process reaches after a kill: only what was under way adds to the orders and to
-- the fills.
use trade_post.Base.{ℕ, ◌≡◌, sym, subst, String, List, All}
use trade_post.Floats.{Floats}
use trade_post.Orchestrator.{Orchestrator}
use trade_post.Orchestrator.Tasks.{Task}
use trade_post.Process.{World, System, Reachable}
use trade_post.Process.Invariants.{reachable_keeps}
use trade_post.Process.Requests.{kills-IsQuiet}
use trade_post.Process.Resumed.{IsNamed}
use trade_post.Security.{answer}
use trade_post.Server.{Request}
use trade_post.Server.Control.{kills, Done, control}
use trade_post.Server.Control.Authorized.{kill_switch_blocks}
use trade_post.Process.Confined.{
  IsConfined, OrderNamed, FillNamed, quiet-IsConfined, resume-IsKept, trade-IsConfined,
}

module _ {F : Type 0} ⦃fl : Floats F⦄ (w : World F) where
  -- A request to the kill switch is answered, whatever becomes of its write to the database, and any
  -- property of ids holds then of the id of every order, of the order's id of every fill, and of the
  -- order's id of every trade under way whose validation has begun. In every state that the process
  -- reaches from there, by steps in any order, trading is killed, and the property holds of the id of
  -- every order and of the order's id of every fill: so nothing but a trade that was under way at the
  -- kill adds an order or a fill.
  pub kill_switch_stops :
      (r : Request) (now : ℕ) (o : Orchestrator F) (ts : List (Task F)) (q : System F) (d : Done)
      (K : String → Type 0)
      → (control w.out w.up r (kills now) o).0 ≡ answer d
      → All (λ order. K order.id) o.execution.risk.db.orders
      → All (λ fill. K fill.order_id) o.execution.risk.db.fills
      → All (IsNamed K) ts
      → Reachable w (record { running = (control w.out w.up r (kills now) o).1; tasks = ts }) q
      → IsConfined K q.running.execution
  kill_switch_stops r now o ts q d K answered orders fills named path =
      let still = kills-IsQuiet w.out w.up r now o in
      (reachable_keeps w (IsConfined K) (IsNamed K) (quiet-IsConfined K) (trade-IsConfined K w.up)
        (λ p. tt) (resume-IsKept K w.up) _ q path
        (
          record {
            killed = kill_switch_blocks w.out w.up r now o d answered;
            orders_named = subst (All (OrderNamed K)) (sym still.orders_same) orders;
            fills_named = subst (All (FillNamed K)) (sym still.fills_same) fills;
          },
          named,
        )).0
