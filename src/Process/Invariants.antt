-- ===== src/Process/Invariants.antt =====
-- What each trade keeps, and each change that is none, holds in every state that the process reaches.
use trade_post.Execution.{Execution}
use trade_post.Base.{Option, none, some, List, [], ◌∷◌, ◌++◌, All, All-append}
use trade_post.Floats.{Floats}
use trade_post.Orchestrator.{Orchestrator, Proposal, trade}
use trade_post.Orchestrator.Rounds.{market_round, orphan_round}
use trade_post.Orchestrator.Cycle.Prepare.{prepare}
use trade_post.Orchestrator.Tasks.{Task, proposed, resume}
use trade_post.Process.{
  World, System, served, Move, streams, snapshots, cycles, analyses, audits, cancels_orphans,
  controls, hears, serves, waiting, left, Step, moves, prepares, resumes, Reachable, here, after,
}
use trade_post.Process.Quiet.{
  IsQuiet, on_db-IsQuiet, stream_all-IsQuiet, portfolio_round-IsQuiet, ledger_round-IsQuiet,
}
use trade_post.Process.Requests.{control_keeps, on_frame_keeps}
use trade_post.Process.Trading.{prepare-IsQuiet, analyse_keeps, cycle_keeps}
use trade_post.Process.Users.{step-KeepsTrades}
use trade_post.Server.Calls.{step}

All-front : {A : Type 0} (Q : A → Type 0) (xs ys : List A) → All Q (xs ++ ys) → All Q xs
All-front Q [] ys h = tt
All-front Q (x ∷ xs) ys h = (h.0, All-front Q xs ys h.1)

All-back : {A : Type 0} (Q : A → Type 0) (xs ys : List A) → All Q (xs ++ ys) → All Q ys
All-back Q [] ys h = h
All-back Q (x ∷ xs) ys h = All-back Q xs ys h.1

All-at :
    {A : Type 0} (Q : A → Type 0) (xs : List A) (y : A) (ys : List A) → All Q (xs ++ (y ∷ ys)) → Q y
All-at Q xs y ys h = (All-back Q xs (y ∷ ys) h).0

module _ {F : Type 0} ⦃fl : Floats F⦄ (w : World F) (P : Execution F → Type 0)
    (quiet : (x y : Execution F) → IsQuiet x y → P x → P y)
    (traded : (p : Proposal F) (x : Execution F) → P x → P (trade w.up p x).1) where
  move_keeps : (o p : Orchestrator F) → Move w o p → P o.execution → P p.execution
  unfolding market_round orphan_round served
  move_keeps _ _ (streams quotes o) h =
      quiet _ _ (stream_all-IsQuiet w.up quotes 0 o.execution.risk.settings.subscribed_symbols o) h
  move_keeps _ _ (snapshots id quotes taken o) h =
      quiet _ _ (portfolio_round-IsQuiet w.up id quotes taken o) h
  move_keeps _ _ (cycles scans o) h = cycle_keeps w.out w.up P quiet traded scans o h
  move_keeps _ _ (analyses scan symbol o) h =
      analyse_keeps w.out w.up P quiet traded scan symbol o h
  move_keeps _ _ (audits a o) h = quiet _ _ (ledger_round-IsQuiet w.up a o) h
  move_keeps _ _ (cancels_orphans cancels now fetched o) h = h
  move_keeps _ _ (controls r a o) h = control_keeps w.out w.up P quiet traded r a o h
  move_keeps _ _ (hears t peer f o) h = on_frame_keeps w.out w.up P quiet traded t peer f o h
  move_keeps _ _ (serves c o) h =
      let settings = o.execution.risk.settings in
      quiet _ _
        (on_db-IsQuiet (step settings w.verify w.hash c) o.execution
          (step-KeepsTrades settings w.verify w.hash c o.execution.risk.db))
        h

All-split :
    {A : Type 0} (Q : A → Type 0) (xs ys zs us : List A)
    → (All Q ys → All Q us)
    → All Q (xs ++ (ys ++ zs))
    → All Q (xs ++ (us ++ zs))
All-split Q [] ys zs us f h = All-append Q us zs (f (All-front Q ys zs h)) (All-back Q ys zs h)
All-split Q (x ∷ xs) ys zs us f h = (h.0, All-split Q xs ys zs us f h.1)

module _ {F : Type 0} ⦃fl : Floats F⦄ (w : World F) (P : Execution F → Type 0) (Q : Task F → Type 0)
    (quiet : (x y : Execution F) → IsQuiet x y → P x → P y)
    (traded : (p : Proposal F) (x : Execution F) → P x → P (trade w.up p x).1)
    (offered : (p : Proposal F) → Q (proposed p))
    (resumed : (t : Task F) (x : Execution F)
      → Q t
      → P x
      → P (resume w.up t x).1 × All Q (left (resume w.up t x).0)) where
  -- The one holds of the execution, and the other of all trades under way.
  abbrev IsKept : System F → Type 0
  IsKept s = P s.running.execution × All Q s.tasks

  waiting-All : (p : Option (Proposal F)) → All Q (waiting p)
  waiting-All none = tt
  waiting-All (some p) = (offered p, tt)

  next_keeps : (s q : System F) → Step w s q → IsKept s → IsKept q
  next_keeps _ _ (moves {o} {p} ts move) h = (move_keeps w P quiet traded o p move h.0, h.1)
  next_keeps _ _ (prepares scan symbol o ts) h = (
    quiet _ _ (prepare-IsQuiet w.out w.up scan symbol o) h.0,
    All-append Q _ ts (waiting-All (prepare w.out w.up scan symbol o).0) h.1,
  )
  next_keeps _ _ (resumes o before t behind) h = (
    (resumed t o.execution (All-at Q before t behind h.1) h.0).0,
    All-split Q before (t ∷ []) behind (left (resume w.up t o.execution).0)
        (λ one. (resumed t o.execution one.0 h.0).1) h.1,
  )

  pub reachable_keeps : (s q : System F) → Reachable w s q → IsKept s → IsKept q
  reachable_keeps s _ here h = h
  reachable_keeps s _ (after {p} {q} path last) h = next_keeps p q last (reachable_keeps s p path h)
