-- ===== src/Server/Tests.antt =====
-- The handlers on a database with an administrator, who is logged in, and another user.
use trade_post.Base.{
  ◌≡◌, ◌≢◌, refl, String, Bool, true, false, none, some, [], ◌∷◌, arith, str_eq, strip, lstrip,
  rstrip, is_space, find_first, keep_if, any_of, count_if, eq_iff,
}
use trade_post.Persistence.{Database, UserRow, SessionRow}
use trade_post.Persistence.Users.{
  new_user, has_username, insert_user, get_user_by_id, get_user_by_username, get_active_session,
  revoke_all_sessions_for_user, insert_event, delete_user_row, update_user_row,
  update_user_role_status, count_failed_attempts_by_ip, record_login_attempt, insert_session,
}
use trade_post.Samples.{settings, database}
use trade_post.Security.{
  Identity, is_locked, is_active, resolve_session, current_user, require_role, validate_csrf_token,
  session_expiry,
}
use trade_post.Server.{
  Request, guarded, login, logout, delete_user, update_user, create_user, may_try, admit,
  open_session, is_admitted, login_locked,
}
use trade_post.Server.Calls.{Call, logs_in, creates, deletes, step, run}
use trade_post.Server.Bodies.{accepts, receive, receive_all}
use trade_post.Server.Bodies.Rows.{IsTyped, all_typed}
use trade_post.Server.Bodies.Typed.{receive_all-IsTyped}
use trade_post.Server.Padded.{login-strip}
use trade_post.Domain.Texts.{of_value}
use trade_post.Server.Accounts.{delete_user_expels}
use trade_post.Server.Opening.{resolve-login}
use trade_post.Server.Revocation.{run_revoked}

program : Unit {0}
unfolding find_first keep_if any_of count_if strip lstrip rstrip is_space get_user_by_id
    get_user_by_username get_active_session revoke_all_sessions_for_user insert_event
    delete_user_row update_user_row update_user_role_status count_failed_attempts_by_ip
    record_login_attempt insert_session is_locked is_active resolve_session current_user
    require_role validate_csrf_token session_expiry guarded login logout delete_user update_user
    may_try admit open_session is_admitted login_locked
program = tt

abbrev root : UserRow
root = new_user "u1" "admin" none "secret" "admin" 1

abbrev bob : UserRow
bob = new_user "u2" "bob" none "pass" "operator" 2

abbrev session : String → String → SessionRow
session sid uid = record {
  id = sid;
  user_id = uid;
  issued_at = 3;
  expires_at = 1000;
  ip = "10.0.0.1";
  user_agent = "curl";
  revoked = false;
  revoked_at = none;
}

abbrev start : Database
start = record database {
  users = root ∷ bob ∷ [];
  sessions = session "sa" "u1" ∷ session "sb" "u2" ∷ [];
}

abbrev closed : Database
closed = record start { sessions = record (session "sb" "u2") { revoked = true } ∷ [] }

abbrev request : Request
request = record {
  cookie = some "sa";
  csrf_cookie = some "t";
  csrf_header = some "t";
  ip = "10.0.0.2";
  agent = "curl";
  seen = 900_000_500;
  checked = 900_000_500;
  now = 900_000_501;
  fresh = "sc";
}

abbrev early : Request
early = record request { seen = 500; checked = 500 }

-- Passwords are stored as they are.
abbrev plain : String → String → Bool
plain = str_eq

abbrev keep : String → String
keep p = p

run_revoked_example :
    resolve_session 600 600 "sb"
      (run settings plain keep (logs_in request "bob" "pass" ∷ deletes early "u2" ∷ []) closed)
    ≡ none
unfolding find_first any_of
run_revoked_example =
    run_revoked settings plain keep "sb" (logs_in request "bob" "pass" ∷ deletes early "u2" ∷ [])
      closed 600 600 (record { known = refl; dead = refl })

-- The deleted user's session is gone; the administrator's is not.
delete_user_expels_example : ◌≢◌ {A = String} "u1" "u2"
unfolding program
delete_user_expels_example =
    delete_user_expels early "u2" "sa" start 500 500
      (record {
        user_id = "u1";
        username = "admin";
        role = "admin";
        session_id = "sa";
        ip = "10.0.0.1";
      })
      refl refl

resolve-login_example :
    (who : Identity) × (resolve_session 900_000_600 900_000_600 "sc"
        (login settings plain request "bob" "pass" start).1
      ≡ some who)
    × (who.username ≡ "bob")
    × (who.role ≡ "operator")
unfolding program
resolve-login_example =
    resolve-login settings plain request "bob" "pass" "bob" "operator" start 900_000_600 900_000_600
      (refl, (refl, tt)) (λ e. ground (arith, eq_iff "sc" "")) (omega arith) refl

-- A name with a space before it is accepted and stored; a role that there is none of is refused.
abbrev padded : Call
padded = creates early " eve" "password" "viewer" none

stores_padded : any_of (has_username " eve") (receive settings plain keep padded start).users ≡ true
unfolding program insert_user create_user step accepts receive
stores_padded = refl

refuses_role :
    (receive settings plain keep (creates early "eve" "password" "root" none) start).users
    ≡ start.users
unfolding program insert_user create_user step accepts receive
refuses_role = refl

receive_all-IsTyped_example :
    IsTyped (receive_all settings plain keep (padded ∷ deletes early "u2" ∷ []) start)
unfolding all_typed of_value find_first
receive_all-IsTyped_example =
    receive_all-IsTyped settings plain keep (padded ∷ deletes early "u2" ∷ []) start refl

login-strip_example : strip "bob" ≡ "bob"
unfolding program
login-strip_example = login-strip settings plain request " bob" "pass" "bob" "operator" start refl
