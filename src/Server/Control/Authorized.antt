-- ===== src/Server/Control/Authorized.antt =====
-- Who may give an order to the orchestrator, and what a kill leaves.
use Prim.Native.String.{◌++◌}
use trade_post.Base.{
  ℕ, ◌≡◌, ◌⊎◌, inl, inr, refl, String, Bool, true, Option, none, some, arith, eq_iff, any_of,
}
use trade_post.Floats.{Floats}
use trade_post.Orchestrator.{Orchestrator}
use trade_post.Orchestrator.Cycle.{Outside}
use trade_post.Persistence.{Database}
use trade_post.Risk.States.{kill-state}
use trade_post.Security.{
  Answer, answer, http_error, Identity, resolve_session, current_user, require_role,
  validate_csrf_token,
}
use trade_post.Server.{Request}
use trade_post.Server.Control.{Action, kills, Done, operators, gate, kill_by, perform, control}

-- The request has the cookie of a session that resolves to an operator or an administrator, and the
-- token of its header is the one of its cookie.
pub record IsLetIn (r : Request) (db : Database) (who : Identity) : Type 0 where
  pub sid : String
  pub cookie_given : r.cookie ≡ some sid
  pub resolved : resolve_session r.seen r.checked sid db ≡ some who
  pub ranked : (who.role ≡ "operator") ⊎ (who.role ≡ "admin")
  pub token : String
  pub token_given : r.csrf_cookie ≡ some token
  pub token_sent : r.csrf_header ≡ some token

current_user-session :
    (seen checked : ℕ) (cookie : Option String) (db : Database) (who : Identity)
    → current_user seen checked cookie db ≡ answer who
    → (sid : String) × (cookie ≡ some sid) × (resolve_session seen checked sid db ≡ some who)
unfolding current_user
current_user-session seen checked none db who h = cc
current_user-session seen checked (some sid) db who h =
    (sid, refl, at (resolve_session seen checked sid db) refl)
  where
    at :
        (o : Option Identity)
        → resolve_session seen checked sid db ≡ o
        → resolve_session seen checked sid db ≡ some who
    at none e = ground (arith, h, e)
    at (some it) e = ground (arith, h, e)

token-same :
    (a b : Option String)
    → validate_csrf_token a b ≡ true
    → (t : String) × (a ≡ some t) × (b ≡ some t)
unfolding validate_csrf_token
token-same (some s) (some t) h = (s, refl, ground (arith, eq_iff s t))
token-same (some s) none h = cc
token-same none b h = cc

gate_facts :
    (r : Request) (db : Database) (who : Identity)
    → gate operators r db ≡ answer who
    → (current_user r.seen r.checked r.cookie db ≡ answer who)
      × ((who.role ≡ "operator") ⊎ (who.role ≡ "admin"))
      × (validate_csrf_token r.csrf_cookie r.csrf_header ≡ true)
unfolding gate require_role any_of
gate_facts r db who h = at (current_user r.seen r.checked r.cookie db) refl
  where
    at :
        (a : Answer Identity)
        → current_user r.seen r.checked r.cookie db ≡ a
        → (current_user r.seen r.checked r.cookie db ≡ answer who)
          × ((who.role ≡ "operator") ⊎ (who.role ≡ "admin"))
          × (validate_csrf_token r.csrf_cookie r.csrf_header ≡ true)
    at (http_error code) e = ground (arith, h, e)
    at (answer it) e = ground (arith, h, e, eq_iff "operator" it.role, eq_iff "admin" it.role)

gate-IsLetIn :
    (r : Request) (db : Database) (who : Identity)
    → gate operators r db ≡ answer who
    → IsLetIn r db who
gate-IsLetIn r db who h =
    let (user, ranked, same) = gate_facts r db who h in
    let (sid, given, resolved) = current_user-session r.seen r.checked r.cookie db who user in
    let (token, in_cookie, in_header) = token-same r.csrf_cookie r.csrf_header same in
    record {
      sid = sid;
      cookie_given = given;
      resolved = resolved;
      ranked = ranked;
      token = token;
      token_given = in_cookie;
      token_sent = in_header;
    }

module _ {F : Type 0} ⦃fl : Floats F⦄ (out : Outside F) (up : ℕ → Bool) where
  -- A request to an operator's endpoint either changes nothing and is refused, or it comes from an
  -- operator or an administrator with a session that resolves and with equal tokens, and then it is
  -- performed under the name of that user.
  pub control-IsLetIn :
      (r : Request) (a : Action F) (o : Orchestrator F)
      → ((code : ℕ) × (control out up r a o ≡ (http_error code, o)))
        ⊎ ((who : Identity) × IsLetIn r o.execution.risk.db who
            × (control out up r a o ≡ (
              answer (perform out up a who.username o).0,
              (perform out up a who.username o).1,
            )))
  unfolding control
  control-IsLetIn r a o = at (gate operators r o.execution.risk.db) refl
    where
      at :
          (g : Answer Identity)
          → gate operators r o.execution.risk.db ≡ g
          → ((code : ℕ) × (control out up r a o ≡ (http_error code, o)))
            ⊎ ((who : Identity) × IsLetIn r o.execution.risk.db who
                × (control out up r a o ≡ (
                  answer (perform out up a who.username o).0,
                  (perform out up a who.username o).1,
                )))
      at (http_error code) e = inl (code, rw (e, control))
      at (answer who) e = inr (who, gate-IsLetIn r o.execution.risk.db who e, rw (e, control))

  kill_by_blocks :
      (now : ℕ) (username : String) (o : Orchestrator F)
      → (kill_by up now username o).execution.risk.state.killed ≡ true
  unfolding kill_by
  kill_by_blocks now username o =
      ground (arith, kill-state up now ("Requested by " ++ username) o.execution.risk)

  -- A request to the kill switch that is answered trips it, whatever becomes of its write.
  pub kill_switch_blocks :
      (r : Request) (now : ℕ) (o : Orchestrator F) (d : Done)
      → (control out up r (kills now) o).0 ≡ answer d
      → (control out up r (kills now) o).1.execution.risk.state.killed ≡ true
  unfolding control perform
  kill_switch_blocks r now o d h = at (gate operators r o.execution.risk.db) refl
    where
      at :
          (g : Answer Identity)
          → gate operators r o.execution.risk.db ≡ g
          → (control out up r (kills now) o).1.execution.risk.state.killed ≡ true
      at (http_error code) e = ground (arith, h, e)
      at (answer who) e = rw (e, control) (kill_by_blocks now who.username o)
