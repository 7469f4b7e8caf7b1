-- ===== src/Server/Socket/Tests.antt =====
-- The endpoints and the socket of an operator, of a viewer and of an operator who is demoted.
use trade_post.Base.{ℕ, ◌≡◌, ◌⊎◌, refl, some, [], ◌∷◌, any_of}
use trade_post.Decimal.{Decimal}
use trade_post.Floats.Sample.{decimal_floats}
use trade_post.Orchestrator.Example.{out}
use trade_post.Samples.{always}
use trade_post.Security.{answer, http_error, Identity}
use trade_post.Server.Control.{Action, kills, subscribes, perform, control}
use trade_post.Server.Control.Authorized.{IsLetIn, control-IsLetIn}
use trade_post.Server.Socket.{command, not_json, on_frame, serve}
use trade_post.Server.Socket.Roles.{
  command_of, symbols_in, tick_of, serve_viewer, socket-control, demoted_obeyed,
}
use trade_post.Server.Socket.Example.{office, request, who, peer, tick, program}

control-IsLetIn_example :
    ((code : ℕ) × (control out always request (kills 7) (office "operator")
        ≡ (http_error code, office "operator")))
    ⊎ ((it : Identity) × IsLetIn request (office "operator").execution.risk.db it
        × (control out always request (kills 7) (office "operator") ≡ (
          answer (perform out always (kills 7) it.username (office "operator")).0,
          (perform out always (kills 7) it.username (office "operator")).1,
        )))
control-IsLetIn_example = control-IsLetIn out always request (kills 7) (office "operator")

serve_viewer_example :
    (serve out always
      (peer "viewer")
      ((tick, command (some "KILL") []) ∷ (tick, not_json) ∷ [])
      (office "viewer")).1
    ≡ office "viewer"
unfolding any_of
serve_viewer_example =
    serve_viewer out always (peer "viewer")
      ((tick, command (some "KILL") []) ∷ (tick, not_json) ∷ []) (office "viewer") refl

abbrev wanted : Action Decimal
wanted = subscribes ("SOL/USDT" ∷ [])

socket-control_example :
    (on_frame out always
      (tick_of wanted tick)
      (peer "operator")
      (command (some (command_of wanted)) (symbols_in wanted))
      (office "operator")).1
    ≡ (control out always request wanted (office "operator")).1
unfolding program
socket-control_example =
    socket-control out always request tick wanted (peer "operator") (who "operator")
      (who "operator") (office "operator") refl refl refl refl

demoted_obeyed_example :
    (control out always request (kills 7) (office "viewer") ≡ (http_error 403, office "viewer"))
    × ((on_frame out always
          (tick_of (kills 7) tick)
          (peer "operator")
          (command (some "KILL") [])
          (office "viewer")).1
        ≡ (perform out always (kills 7) "bob" (office "viewer")).1)
unfolding program
demoted_obeyed_example =
    demoted_obeyed out always request tick (kills 7) (peer "operator") (who "viewer")
      (office "viewer") refl refl refl refl refl
