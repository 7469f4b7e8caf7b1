-- ===== src/Server/Control.antt =====
-- trade_post/api/server.py: the operators' handlers, on the orchestrator with its database.
pub mod Authorized
use Prim.Native.Char.{Char}
use Prim.Native.String.{◌++◌}
use trade_post.Base.{ℕ, String, Bool, true, false, List, [], ◌∷◌, if◌then◌else◌}
use trade_post.Floats.{Floats}
use trade_post.Orchestrator.{Orchestrator, set_autonomous}
use trade_post.Orchestrator.Cycle.{Outside, Scan, run_one_ai_cycle}
use trade_post.Orchestrator.Subscriptions.{subscribe_symbol, unsubscribe_symbol}
use trade_post.Persistence.{Database}
use trade_post.Risk.{Engine, kill}
use trade_post.Security.{Answer, answer, http_error, Identity, require_role, validate_csrf_token}
use trade_post.Server.{Request, audit}

abbrev pub operators : List String
operators = "operator" ∷ "admin" ∷ []

-- The checks of the session, of the role and of the double-submit token.
unfoldable pub gate : List String → Request → Database → Answer Identity
gate roles r db = elim (require_role roles r.seen r.checked r.cookie db) [
  | http_error code ↦ http_error code
  | answer who ↦
      if validate_csrf_token r.csrf_cookie r.csrf_header then answer who else http_error 403
]

-- A request to one of the operators' endpoints.
pub data Action (F : Type 0) : Type 0 where
  kills : ℕ → Action F  -- at a time
  starts : Action F
  stops : Action F
  subscribes : List String → Action F
  unsubscribes : List String → Action F
  analyses : (ℕ → Scan F) → Action F

-- The part of an answer that depends on the state: the symbols that were changed, or whether the
-- analysis went well.
pub data Done : Type 0 where
  killed : Done
  autonomous : Bool → Done
  changed : List String → Done
  analysed : Bool → Done

module _ {F : Type 0} where
  abbrev pub on_risk : (Engine F → Engine F) → Orchestrator F → Orchestrator F
  on_risk f o = record o { execution = record o.execution { risk = f o.execution.risk } }

  abbrev pub audited : String → String → String → Orchestrator F → Orchestrator F
  audited kind level who o = on_risk (λ e. record e { db = audit kind level who e.db }) o

  -- The kill switch and the line about it.
  unfoldable pub kill_by : (ℕ → Bool) → ℕ → String → Orchestrator F → Orchestrator F
  kill_by up now username o =
      audited "kill_switch_requested" "critical" username
        (on_risk (kill up now ("Requested by " ++ username)) o)

  -- `[s for s in symbols if change(s)]`
  unfoldable pub change_each :
      (String → Orchestrator F → Bool × Orchestrator F)
      → List String
      → Orchestrator F
      → List String × Orchestrator F
  change_each change [] o = ([], o)
  change_each change (s ∷ ss) o =
      let (b, o') = change s o in
      let (rest, o'') = change_each change ss o' in (if b then s ∷ rest else rest, o'')

module _ {F : Type 0} ⦃fl : Floats F⦄ (out : Outside F) (up : ℕ → Bool) where
  abbrev pub changed_by : List String × Orchestrator F → Done × Orchestrator F
  changed_by (symbols, o) = (changed symbols, o)

  abbrev pub analysed_by : Bool × Orchestrator F → Done × Orchestrator F
  analysed_by (ok, o) = (analysed ok, o)

  -- What an operator's request does once it is let in. `run_single_analysis` turns an exception into
  -- an answer.
  unfoldable pub perform : Action F → String → Orchestrator F → Done × Orchestrator F
  perform (kills now) username o = (killed, kill_by up now username o)
  perform starts username o = (autonomous true, set_autonomous true o)
  perform stops username o = (autonomous false, set_autonomous false o)
  perform (subscribes symbols) username o =
      changed_by (change_each (subscribe_symbol out.wide) symbols o)
  perform (unsubscribes symbols) username o =
      changed_by (change_each (unsubscribe_symbol out.wide) symbols o)
  perform (analyses scans) username o = analysed_by (run_one_ai_cycle out up scans o)

  abbrev pub answered : Done × Orchestrator F → Answer Done × Orchestrator F
  answered (d, o) = (answer d, o)

  unfoldable pub control : Request → Action F → Orchestrator F → Answer Done × Orchestrator F
  control r a o = elim (gate operators r o.execution.risk.db) [
    | http_error code ↦ (http_error code, o)
    | answer who ↦ answered (perform a who.username o)
  ]
