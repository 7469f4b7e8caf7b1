-- ===== src/Server/Socket/Roles.antt =====
-- The socket against the endpoints, and by the role of its user.
use trade_post.Base.{
  ℕ, ◌≡◌, ◌∙◌, refl, ap, String, Bool, true, false, Option, none, some, List, [], ◌∷◌, arith, map,
  any_of,
}
use trade_post.Floats.{Floats}
use trade_post.Orchestrator.{Orchestrator}
use trade_post.Orchestrator.Cycle.{Outside}
use trade_post.Orchestrator.Subscriptions.{subscribe_symbol, unsubscribe_symbol}
use trade_post.Persistence.{Database}
use trade_post.Security.{answer, http_error, Identity, resolve_session, current_user, require_role}
use trade_post.Server.{Request}
use trade_post.Server.Control.{
  Action, kills, starts, stops, subscribes, unsubscribes, analyses, operators, gate, change_each,
  perform, control,
}
use trade_post.Server.Socket.{
  Frame, not_json, not_object, command, Heard, goes_on, ends, Tick, Peer, may_control, each_symbol,
  obey, on_command, on_object, on_frame, serve,
}

module _ {F : Type 0} ⦃fl : Floats F⦄ (out : Outside F) (up : ℕ → Bool) where
  on_frame_viewer :
      (t : Tick F) (peer : Peer) (f : Frame) (o : Orchestrator F)
      → may_control peer.role ≡ false
      → (on_frame out up t peer f o).1 ≡ o
  unfolding on_frame on_object on_command
  on_frame_viewer t peer not_json o h = ground arith
  on_frame_viewer t peer not_object o h = ground arith
  on_frame_viewer t peer (command none symbols) o h = ground arith
  on_frame_viewer t peer (command (some cmd) symbols) o h = ground arith

  -- A socket that was opened by neither an operator nor an administrator changes nothing, whatever
  -- messages arrive on it.
  pub serve_viewer :
      (peer : Peer) (fs : List (Tick F × Frame)) (o : Orchestrator F)
      → may_control peer.role ≡ false
      → (serve out up peer fs o).1 ≡ o
  unfolding serve
  serve_viewer peer [] o h = refl
  serve_viewer peer ((t, f) ∷ fs) o h =
      at (on_frame out up t peer f o).0 refl
        (serve_viewer peer fs (on_frame out up t peer f o).1 h ∙ on_frame_viewer t peer f o h)
    where
      at :
          (x : Heard F)
          → (on_frame out up t peer f o).0 ≡ x
          → (serve out up peer fs (on_frame out up t peer f o).1).1 ≡ o
          → (serve out up peer ((t, f) ∷ fs) o).1 ≡ o
      at (goes_on r) e rest = rw (e, serve) rest
      at (ends r) e rest = rw (e, serve) (on_frame_viewer t peer f o h)

-- The command of the socket for an action.
abbrev pub command_of : {F : Type 0} → Action F → String
command_of (kills now) = "KILL"
command_of starts = "START_AUTO"
command_of stops = "STOP_AUTO"
command_of (subscribes symbols) = "SUBSCRIBE"
command_of (unsubscribes symbols) = "UNSUBSCRIBE"
command_of (analyses scans) = "ANALYZE"

abbrev pub symbols_in : {F : Type 0} → Action F → List (Option String)
symbols_in (subscribes symbols) = map some symbols
symbols_in (unsubscribes symbols) = map some symbols
symbols_in _ = []

-- The same clock and the same outside for the socket.
abbrev pub tick_of : {F : Type 0} → Action F → Tick F → Tick F
tick_of (kills now) t = record t { now = now }
tick_of (analyses scans) t = record t { scans = scans }
tick_of _ t = t

module _ {F : Type 0} (change : String → Orchestrator F → Bool × Orchestrator F) where
  each_symbol-change_each :
      (ss : List String) (o : Orchestrator F)
      → each_symbol change (map some ss) o ≡ (true, (change_each change ss o).1)
  unfolding each_symbol change_each
  each_symbol-change_each [] o = refl
  each_symbol-change_each (s ∷ ss) o = each_symbol-change_each ss (change s o).1

demoted_gate :
    (r : Request) (who : Identity) (db : Database) (sid : String)
    → may_control who.role ≡ false
    → r.cookie ≡ some sid
    → resolve_session r.seen r.checked sid db ≡ some who
    → gate operators r db ≡ http_error 403
unfolding gate require_role current_user any_of
demoted_gate r who db sid demoted cookie seen =
    rw (cookie, gate, require_role, current_user) (rw (seen, gate) (ground (arith, demoted)))

module _ {F : Type 0} ⦃fl : Floats F⦄ (out : Outside F) (up : ℕ → Bool) where
  obey-perform :
      (t : Tick F) (a : Action F) (username : String) (o : Orchestrator F)
      → (obey out up (tick_of a t) (command_of a) (symbols_in a) username o).1
        ≡ (perform out up a username o).1
  unfolding obey perform
  obey-perform t (kills now) username o = refl
  obey-perform t starts username o = refl
  obey-perform t stops username o = refl
  obey-perform t (subscribes symbols) username o =
      ap (λ p. p.1) (each_symbol-change_each (subscribe_symbol out.wide) symbols o)
  obey-perform t (unsubscribes symbols) username o =
      ap (λ p. p.1) (each_symbol-change_each (unsubscribe_symbol out.wide) symbols o)
  obey-perform t (analyses scans) username o = refl

  command_obeyed :
      (t : Tick F) (a : Action F) (peer : Peer) (o : Orchestrator F)
      → may_control peer.role ≡ true
      → (on_command out up (tick_of a t) peer (some (command_of a)) (symbols_in a) o).1
        ≡ (perform out up a peer.username o).1
  unfolding on_command any_of
  command_obeyed t (kills now) peer o h =
      rw (h, on_command) (obey-perform t (kills now) peer.username o)
  command_obeyed t a peer o h = rw (h, on_command) (obey-perform t a peer.username o)

  frame_obeyed :
      (t : Tick F) (a : Action F) (peer : Peer) (who : Identity) (o : Orchestrator F)
      → may_control peer.role ≡ true
      → resolve_session (tick_of a t).seen (tick_of a t).checked peer.sid o.execution.risk.db
        ≡ some who
      → (on_frame out up (tick_of a t) peer (command (some (command_of a)) (symbols_in a)) o).1
        ≡ (perform out up a peer.username o).1
  unfolding on_frame on_object
  frame_obeyed t a peer who o h live = rw (live, on_frame) (command_obeyed t a peer o h)

  -- A command on the socket of an operator or an administrator does to the orchestrator what the
  -- endpoint does for a request of the same user that is let in, as long as the session of
  -- the socket resolves.
  pub socket-control :
      (r : Request) (t : Tick F) (a : Action F) (peer : Peer) (who now_who : Identity)
      (o : Orchestrator F)
      → gate operators r o.execution.risk.db ≡ answer who
      → peer.username ≡ who.username
      → may_control peer.role ≡ true
      → resolve_session (tick_of a t).seen (tick_of a t).checked peer.sid o.execution.risk.db
        ≡ some now_who
      → (on_frame out up (tick_of a t) peer (command (some (command_of a)) (symbols_in a)) o).1
        ≡ (control out up r a o).1
  unfolding control
  socket-control r t a peer who now_who o let_in same h live =
      frame_obeyed t a peer now_who o h live
      ∙ ap (λ n. (perform out up a n o).1) same
      ∙ rw (let_in, control) refl

  -- The role is the one of the handshake. Where the user of an open socket is now neither an operator
  -- nor an administrator, each endpoint refuses a request with the same session and changes nothing,
  -- but the socket still obeys.
  pub demoted_obeyed :
      (r : Request) (t : Tick F) (a : Action F) (peer : Peer) (who : Identity) (o : Orchestrator F)
      → may_control peer.role ≡ true
      → may_control who.role ≡ false
      → r.cookie ≡ some peer.sid
      → resolve_session r.seen r.checked peer.sid o.execution.risk.db ≡ some who
      → resolve_session (tick_of a t).seen (tick_of a t).checked peer.sid o.execution.risk.db
        ≡ some who
      → (control out up r a o ≡ (http_error 403, o))
        × ((on_frame out up (tick_of a t) peer (command (some (command_of a)) (symbols_in a)) o).1
            ≡ (perform out up a peer.username o).1)
  unfolding control
  demoted_obeyed r t a peer who o h demoted cookie seen live =
      (refused, frame_obeyed t a peer who o h live)
    where
      refused : control out up r a o ≡ (http_error 403, o)
      refused =
          rw (demoted_gate r who o.execution.risk.db peer.sid demoted cookie seen, control) refl
