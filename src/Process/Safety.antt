-- ===== src/Process/Safety.antt =====
-- Every state that the process reaches from one in which trading is blocked.
use trade_post.Base.{◌≡◌, refl, ◌∙◌, All}
use trade_post.Execution.{Execution}
use trade_post.Floats.{Floats}
use trade_post.Orchestrator.{Proposal, trade}
use trade_post.Orchestrator.Gates.{IsBlocked, trade_blocked}
use trade_post.Orchestrator.Tasks.{Task, proposed, resume}
use trade_post.Process.{World, System, left, Reachable}
use trade_post.Process.Invariants.{reachable_keeps}
use trade_post.Process.Quiet.{IsQuiet}
use trade_post.Process.Resumed.{resume-blocked}

-- The paper account, the orders and the fills are the same, and trading is blocked.
pub record IsHalted {F : Type 0} (x y : Execution F) : Type 0 where
  pub paper_same : y.paper ≡ x.paper
  pub orders_same : y.risk.db.orders ≡ x.risk.db.orders
  pub fills_same : y.risk.db.fills ≡ x.risk.db.fills
  pub blocked : IsBlocked y.risk

quiet-IsHalted : {F : Type 0} (x y z : Execution F) → IsQuiet y z → IsHalted x y → IsHalted x z
quiet-IsHalted x y z q p = record {
  paper_same = q.paper_same ∙ p.paper_same;
  orders_same = q.orders_same ∙ p.orders_same;
  fills_same = q.fills_same ∙ p.fills_same;
  blocked = q.block_kept p.blocked;
}

-- The validation of the trade has not begun.
abbrev pub IsUnbegun : {F : Type 0} → Task F → Type 0
IsUnbegun {F} t = (p : Proposal F) × (t ≡ proposed p)

module _ {F : Type 0} ⦃fl : Floats F⦄ (w : World F) where
  trade-IsHalted :
      (x : Execution F) (p : Proposal F) (y : Execution F)
      → IsHalted x y
      → IsHalted x (trade w.up p y).1
  trade-IsHalted x p y h = rw (trade_blocked w.up p y h.blocked) h

  resume-IsHalted :
      (x : Execution F) (t : Task F) (y : Execution F)
      → IsUnbegun t
      → IsHalted x y
      → IsHalted x (resume w.up t y).1 × All IsUnbegun (left (resume w.up t y).0)
  resume-IsHalted x t y (p, e) h = rw (e, resume-blocked w.up p y h.blocked) (h, tt)

  -- Once the kill switch has tripped or the circuit has opened, and where no trade is under way whose
  -- validation has begun, in every state that the process reaches by any sequence of rounds of its
  -- loops, of analyses, of steps of trades, of operators' requests, of messages on control sockets and
  -- of requests about users and sessions, the paper account, the orders and the fills are the same,
  -- and trading is still blocked.
  pub reachable-IsHalted :
      (s q : System F)
      → IsBlocked s.running.execution.risk
      → All IsUnbegun s.tasks
      → Reachable w s q
      → IsHalted s.running.execution q.running.execution
  reachable-IsHalted s q h unbegun path =
      let x = s.running.execution in
      (reachable_keeps w (IsHalted x) IsUnbegun (quiet-IsHalted x) (trade-IsHalted x)
        (λ p. (p, refl)) (resume-IsHalted x) s q path
        (
          record { paper_same = refl; orders_same = refl; fills_same = refl; blocked = h },
          unbegun,
        )).0
