-- ===== src/Process/Requests.antt =====
-- What holds of the execution through the operators' requests and the messages on sockets: a predicate
-- that each trade keeps, and each change that is none.
use Prim.Native.String.{◌++◌}
use trade_post.Base.{
  ℕ, ◌≡◌, ◌⊎◌, ap, sym, subst, inl, inr, refl, arith, String, Bool, Option, none, some, List, [],
  ◌∷◌,
}
use trade_post.Floats.{Floats}
use trade_post.Execution.{Execution}
use trade_post.Orchestrator.{Orchestrator, Proposal, trade, set_autonomous}
use trade_post.Orchestrator.Cycle.{Outside, run_one_ai_cycle}
use trade_post.Orchestrator.Subscriptions.{subscribe_symbol, unsubscribe_symbol}
use trade_post.Persistence.Users.{insert_event}
use trade_post.Process.Quiet.{IsQuiet, IsQuiet-refl, IsQuiet-trans}
use trade_post.Process.Trading.{cycle_keeps}
use trade_post.Risk.States.{kill-state}
use trade_post.Risk.Tables.{kill-IsTableSafe}
use trade_post.Server.{Request}
use trade_post.Server.Control.{
  Action, kills, starts, stops, subscribes, unsubscribes, analyses, kill_by, change_each, perform,
  control,
}
use trade_post.Server.Control.Authorized.{control-IsLetIn}
use trade_post.Server.Socket.{
  Frame, not_json, not_object, command, Tick, Peer, each_symbol, obey, on_command, on_object,
  on_frame,
}

module _ {F : Type 0} (up : ℕ → Bool) where
  kill_by-IsQuiet :
      (now : ℕ) (username : String) (o : Orchestrator F)
      → IsQuiet o.execution (kill_by up now username o).execution
  unfolding kill_by insert_event
  kill_by-IsQuiet now username o =
      let why = "Requested by " ++ username in
      let kept = kill-IsTableSafe up now why o.execution.risk in
      record {
        paper_same = refl;
        orders_same = kept.orders_same;
        fills_same = kept.fills_same;
        block_kept = λ _. inl (ap (λ s. s.killed) (kill-state up now why o.execution.risk));
        kill_kept = λ _. ap (λ s. s.killed) (kill-state up now why o.execution.risk);
      }

module _ {F : Type 0} (change : String → Orchestrator F → Bool × Orchestrator F)
    (quiet : (s : String) (o : Orchestrator F) → IsQuiet o.execution (change s o).1.execution) where
  change_each-IsQuiet :
      (ss : List String) (o : Orchestrator F)
      → IsQuiet o.execution (change_each change ss o).1.execution
  unfolding change_each
  change_each-IsQuiet [] o = IsQuiet-refl o.execution
  change_each-IsQuiet (s ∷ ss) o = IsQuiet-trans (quiet s o) (change_each-IsQuiet ss (change s o).1)

  each_symbol-IsQuiet :
      (ss : List (Option String)) (o : Orchestrator F)
      → IsQuiet o.execution (each_symbol change ss o).1.execution
  unfolding each_symbol
  each_symbol-IsQuiet [] o = IsQuiet-refl o.execution
  each_symbol-IsQuiet (none ∷ ss) o = IsQuiet-refl o.execution
  each_symbol-IsQuiet (some s ∷ ss) o =
      IsQuiet-trans (quiet s o) (each_symbol-IsQuiet ss (change s o).1)

module _ {F : Type 0} ⦃fl : Floats F⦄ (out : Outside F) (up : ℕ → Bool) where
  subscribe_symbol-IsQuiet :
      (s : String) (o : Orchestrator F)
      → IsQuiet o.execution (subscribe_symbol out.wide s o).1.execution
  unfolding subscribe_symbol
  subscribe_symbol-IsQuiet s o = record {
    paper_same = refl;
    orders_same = refl;
    fills_same = refl;
    block_kept = λ h. h;
    kill_kept = λ h. h;
  }

  unsubscribe_symbol-IsQuiet :
      (s : String) (o : Orchestrator F)
      → IsQuiet o.execution (unsubscribe_symbol out.wide s o).1.execution
  unfolding unsubscribe_symbol
  unsubscribe_symbol-IsQuiet s o = record {
    paper_same = refl;
    orders_same = refl;
    fills_same = refl;
    block_kept = λ h. h;
    kill_kept = λ h. h;
  }

  module _ (P : Execution F → Type 0) (quiet : (x y : Execution F) → IsQuiet x y → P x → P y)
      (traded : (p : Proposal F) (x : Execution F) → P x → P (trade up p x).1) where
    perform_keeps :
        (a : Action F) (username : String) (o : Orchestrator F)
        → P o.execution
        → P (perform out up a username o).1.execution
    unfolding perform set_autonomous
    perform_keeps (kills now) username o h = quiet _ _ (kill_by-IsQuiet up now username o) h
    perform_keeps starts username o h = h
    perform_keeps stops username o h = h
    perform_keeps (subscribes symbols) username o h =
        quiet _ _
          (change_each-IsQuiet (subscribe_symbol out.wide) subscribe_symbol-IsQuiet symbols o) h
    perform_keeps (unsubscribes symbols) username o h =
        quiet _ _
          (change_each-IsQuiet (unsubscribe_symbol out.wide) unsubscribe_symbol-IsQuiet symbols o) h
    perform_keeps (analyses scans) username o h = cycle_keeps out up P quiet traded scans o h

    pub control_keeps :
        (r : Request) (a : Action F) (o : Orchestrator F)
        → P o.execution
        → P (control out up r a o).1.execution
    control_keeps r a o h = elim (control-IsLetIn out up r a o) [
      | inl (code, e) ↦ subst (λ c. P c.1.execution) (sym e) h
      | inr (who, let_in, e) ↦
          subst (λ c. P c.1.execution) (sym e) (perform_keeps a who.username o h)
    ]

  -- A request to the kill switch trades nothing.
  pub kills-IsQuiet :
      (r : Request) (now : ℕ) (o : Orchestrator F)
      → IsQuiet o.execution (control out up r (kills now) o).1.execution
  unfolding perform
  kills-IsQuiet r now o = elim (control-IsLetIn out up r (kills now) o) [
    | inl (code, e) ↦
        subst (λ c. IsQuiet o.execution c.1.execution) (sym e) (IsQuiet-refl o.execution)
    | inr (who, let_in, e) ↦
        subst (λ c. IsQuiet o.execution c.1.execution) (sym e)
          (kill_by-IsQuiet up now who.username o)
  ]

  -- What a command does: nothing that trades, or a cycle.
  abbrev IsQuietOrCycle : Tick F → Orchestrator F → Orchestrator F → Type 0
  IsQuietOrCycle t o p =
      IsQuiet o.execution p.execution ⊎ (p ≡ (run_one_ai_cycle out up t.scans o).1)

  obey_cases :
      (t : Tick F) (cmd : String) (symbols : List (Option String)) (username : String)
      (o : Orchestrator F)
      → IsQuietOrCycle t o (obey out up t cmd symbols username o).1
  unfolding obey set_autonomous
  obey_cases t cmd symbols username o = ground (
    arith,
    IsQuiet-refl o.execution,
    kill_by-IsQuiet up t.now username o,
    each_symbol-IsQuiet (subscribe_symbol out.wide) subscribe_symbol-IsQuiet symbols o,
    each_symbol-IsQuiet (unsubscribe_symbol out.wide) unsubscribe_symbol-IsQuiet symbols o,
  )

  on_command_cases :
      (t : Tick F) (peer : Peer) (cmd : Option String) (symbols : List (Option String))
      (o : Orchestrator F)
      → IsQuietOrCycle t o (on_command out up t peer cmd symbols o).1
  unfolding on_command
  on_command_cases t peer none symbols o = inl (IsQuiet-refl o.execution)
  on_command_cases t peer (some cmd) symbols o =
      ground (arith, IsQuiet-refl o.execution, obey_cases t cmd symbols peer.username o)

  on_frame_cases :
      (t : Tick F) (peer : Peer) (f : Frame) (o : Orchestrator F)
      → IsQuietOrCycle t o (on_frame out up t peer f o).1
  unfolding on_frame on_object
  on_frame_cases t peer not_json o = ground (arith, IsQuiet-refl o.execution)
  on_frame_cases t peer not_object o = ground (arith, IsQuiet-refl o.execution)
  on_frame_cases t peer (command cmd symbols) o =
      ground (arith, IsQuiet-refl o.execution, on_command_cases t peer cmd symbols o)

  module _ (P : Execution F → Type 0) (quiet : (x y : Execution F) → IsQuiet x y → P x → P y)
      (traded : (p : Proposal F) (x : Execution F) → P x → P (trade up p x).1) where
    pub on_frame_keeps :
        (t : Tick F) (peer : Peer) (f : Frame) (o : Orchestrator F)
        → P o.execution
        → P (on_frame out up t peer f o).1.execution
    on_frame_keeps t peer f o h = elim (on_frame_cases t peer f o) [
      | inl still ↦ quiet _ _ still h
      | inr cycle ↦
          subst (λ p. P p.execution) (sym cycle) (cycle_keeps out up P quiet traded t.scans o h)
    ]
