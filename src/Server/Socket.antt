-- ===== src/Server/Socket.antt =====
-- trade_post/api/server.py: `ws_control`, the control socket. A message is a step of the orchestrator;
-- what others do between two messages is a step of its own.
pub mod Roles
pub mod Example
mod Tests
use Prim.Native.Char.{Char}
use Prim.Native.String.{◌++◌}
use trade_post.Base.{
  ℕ, String, Bool, true, false, not, ◌||◌, Option, none, some, List, [], ◌∷◌, str_eq, any_of,
  is_some, if◌then◌else◌,
}
use trade_post.Config.{is_true_text}
use trade_post.Floats.{Floats}
use trade_post.Orchestrator.{Orchestrator, is_autonomous_running, set_autonomous}
use trade_post.Orchestrator.Cycle.{Outside, Scan, run_one_ai_cycle}
use trade_post.Orchestrator.Subscriptions.{subscribe_symbol, unsubscribe_symbol, symbols_of}
use trade_post.Persistence.{Database}
use trade_post.Persistence.Snapshots.{list_recent_equity}
use trade_post.Security.{Identity, resolve_session}
use trade_post.Server.Control.{kill_by}

-- What `json.loads` makes of a message. A symbol that is no text, and is not falsy, is none; what is
-- falsy is the empty text. A command that is no text is none.
pub data Frame : Type 0 where
  not_json : Frame
  not_object : Frame
  command : Option String → List (Option String) → Frame

pub data Reply (F : Type 0) : Type 0 where
  error : String → Reply F
  pong : Reply F
  state : List (ℕ × F) → Bool → Reply F
  acknowledged : String → Reply F
  system_status : Bool → Reply F
  analysed : Bool → Reply F
  subscribed : List String → Reply F
  expired : Reply F  -- and the socket is closed with 4001

-- The socket goes on after a reply, or it ends, where the session has expired or an exception is
-- raised.
pub data Heard (F : Type 0) : Type 0 where
  goes_on : Reply F → Heard F
  ends : Option (Reply F) → Heard F

-- The readings of the clock at a message, and the outside of an analysis.
pub record Tick (F : Type 0) : Type 0 where
  pub seen : ℕ
  pub checked : ℕ
  pub now : ℕ
  pub scans : ℕ → Scan F

-- What the handshake found, which stays for the life of the socket.
pub record Peer : Type 0 where
  pub sid : String
  pub role : String
  pub username : String

-- The handshake: none closes the socket with 4001.
unfoldable pub handshake : ℕ → ℕ → Option String → Database → Option Peer
handshake seen checked none db = none
handshake seen checked (some sid) db = elim (resolve_session seen checked sid db) [
  | none ↦ none
  | some who ↦ some (record { sid = sid; role = who.role; username = who.username })
]

-- `role in ("admin", "operator")`
abbrev pub may_control : String → Bool
may_control role = any_of (λ r. str_eq r role) ("admin" ∷ "operator" ∷ [])

abbrev pub controls : List String
controls = "KILL" ∷ "START_AUTO" ∷ "STOP_AUTO" ∷ "ANALYZE" ∷ "SUBSCRIBE" ∷ "UNSUBSCRIBE" ∷ []

module _ {F : Type 0} where
  -- The loop over the symbols, and whether it raises.
  unfoldable pub each_symbol :
      (String → Orchestrator F → Bool × Orchestrator F)
      → List (Option String)
      → Orchestrator F
      → Bool × Orchestrator F
  each_symbol change [] o = (true, o)
  each_symbol change (none ∷ ss) o = (false, o)
  each_symbol change (some s ∷ ss) o = each_symbol change ss (change s o).1

module _ {F : Type 0} ⦃fl : Floats F⦄ (out : Outside F) (up : ℕ → Bool) where
  abbrev pub subscribed_by : Bool × Orchestrator F → Heard F × Orchestrator F
  subscribed_by (ok, o) = (if ok then goes_on (subscribed (symbols_of o)) else ends none, o)

  abbrev pub analysed_by : Bool × Orchestrator F → Heard F × Orchestrator F
  analysed_by (ok, o) = (goes_on (analysed ok), o)

  -- The commands of operators and administrators.
  unfoldable pub obey :
      Tick F → String → List (Option String) → String → Orchestrator F → Heard F × Orchestrator F
  obey t cmd symbols username o =
      if str_eq cmd "KILL"
      then (goes_on (acknowledged "KILL"), kill_by up t.now username o)
      else if str_eq cmd "START_AUTO"
      then (goes_on (system_status true), set_autonomous true o)
      else if str_eq cmd "STOP_AUTO"
      then (goes_on (system_status false), set_autonomous false o)
      else if str_eq cmd "ANALYZE"
      then analysed_by (run_one_ai_cycle out up t.scans o)
      else if str_eq cmd "SUBSCRIBE"
      then subscribed_by (each_symbol (subscribe_symbol out.wide) symbols o)
      else subscribed_by (each_symbol (unsubscribe_symbol out.wide) symbols o)

  unfoldable pub on_command :
      Tick F
      → Peer
      → Option String
      → List (Option String)
      → Orchestrator F
      → Heard F × Orchestrator F
  on_command t peer none symbols o = (goes_on (error "unknown_cmd"), o)
  on_command t peer (some cmd) symbols o =
      if str_eq cmd "PING"
      then (goes_on pong, o)
      else if str_eq cmd "GET_STATE"
      then (goes_on (state (list_recent_equity 1 o.execution.risk.db) (is_autonomous_running o)), o)
      else if not (any_of (λ c. str_eq c cmd) controls)
      then (goes_on (error "unknown_cmd"), o)
      else if may_control peer.role
      then obey t cmd symbols peer.username o
      else (goes_on (error "insufficient_role"), o)

  unfoldable pub on_object : Tick F → Peer → Frame → Orchestrator F → Heard F × Orchestrator F
  on_object t peer not_json o = (goes_on (error "invalid_json"), o)
  on_object t peer not_object o = (ends none, o)
  on_object t peer (command cmd symbols) o = on_command t peer cmd symbols o

  -- A message: the session is resolved again, and what it resolves to is not looked at.
  unfoldable pub on_frame : Tick F → Peer → Frame → Orchestrator F → Heard F × Orchestrator F
  on_frame t peer f o =
      if is_some (resolve_session t.seen t.checked peer.sid o.execution.risk.db)
      then on_object t peer f o
      else (ends (some expired), o)

  -- The life of a socket.
  unfoldable pub serve :
      Peer → List (Tick F × Frame) → Orchestrator F → List (Heard F) × Orchestrator F
  serve peer [] o = ([], o)
  serve peer ((t, f) ∷ fs) o =
      let (h, o') = on_frame t peer f o in
      elim h [
        | ends r ↦ (ends r ∷ [], o')
        | goes_on r ↦ let (hs, o'') = serve peer fs o' in (goes_on r ∷ hs, o'')
      ]
