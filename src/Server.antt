-- ===== src/Server.antt =====
-- trade_post/api/server.py: the handlers of sessions and users. Each is a function from the database
-- to an answer and the database after it; an exception inside `async with db.session()` rolls the
-- database back. Its statements fail on a duplicate key only. How passwords are hashed and verified
-- is an argument, and the bodies of the requests are those that their models accept.
mod Tests
pub mod Bodies
pub mod Calls
pub mod Revocation
pub mod Accounts
pub mod Login
pub mod Padded
pub mod Opening
pub mod Control
pub mod Socket
pub mod Cookies
pub mod Reading
use Prim.Native.String.{count}
use trade_post.Base.{
  ℕ, ◌-◌, ◌*◌, String, Bool, true, false, not, ◌&&◌, ◌||◌, Option, none, some, List, [], ◌∷◌, ltb,
  leb, str_eq, if◌then◌else◌, is_some, strip,
}
use trade_post.Config.{Settings}
use trade_post.Persistence.{Database, UserRow, SessionRow, EventRow, Stamp, moment, malformed}
use trade_post.Persistence.Users.{
  get_user_by_username, get_user_by_id, new_user, insert_user, update_user_login,
  update_user_password, reset_failed_login, update_user_role_status, delete_user_row,
  insert_session, revoke_session, revoke_all_sessions_for_user, record_login_attempt,
  count_failed_attempts_by_ip, insert_event,
}
use trade_post.Security.{
  Answer, answer, http_error, Identity, is_active, resolve_session, require_role, current_user,
  validate_csrf_token, session_expiry,
}

-- The readings of the clock, the fresh id and the facts of the request, in one call. `forwarded` is
-- the client's address, and `agent` its user agent, cut to 512 characters.
pub record Request : Type 0 where
  pub cookie : Option String  -- the session cookie
  pub csrf_cookie : Option String
  pub csrf_header : Option String
  pub ip : String
  pub agent : String
  pub seen : ℕ
  pub checked : ℕ
  pub now : ℕ
  pub fresh : String  -- the session id or the user id that the handler makes

abbrev pub audit : String → String → String → Database → Database
audit kind level who = insert_event (record { type = kind; severity = level; actor = who })

-- `login` lets a lock pass that it cannot read.
unfoldable pub login_locked : ℕ → Option Stamp → Bool
login_locked now none = false
login_locked now (some (moment until)) = ltb now until
login_locked now (some malformed) = false

module _ {F : Type 0} (s : Settings F) (verify : String → String → Bool) where
  -- `_check_login_rate_limit`: whether the address may try. A time is later than the window is long.
  unfoldable pub may_try : Request → Database → Bool
  may_try r db =
      ltb (count_failed_attempts_by_ip r.ip (r.seen - s.login_lockout_minutes * 60_000_000) db)
        s.login_max_attempts_per_ip

  abbrev pub session_of : Request → UserRow → SessionRow
  session_of r u = record {
    id = r.fresh;
    user_id = u.id;
    issued_at = r.now;
    expires_at = session_expiry s r.now;
    ip = r.ip;
    user_agent = r.agent;
    revoked = false;
    revoked_at = none;
  }

  -- Whether the credentials are right and the account may be used.
  unfoldable pub is_admitted : Request → String → Option UserRow → Bool
  is_admitted r password none = false
  is_admitted r password (some u) =
      verify password u.password_hash && is_active u && not (login_locked r.checked u.locked_until)

  abbrev pub password_ok : String → Option UserRow → Bool
  password_ok password none = false
  password_ok password (some u) = verify password u.password_hash

  -- The session of an admitted user. `start` is the database to which an error rolls back.
  unfoldable pub open_session :
      Request → UserRow → Database → Database → Answer (String × String) × Database
  open_session r u start db = elim (insert_session (session_of r u) db) [
    | none ↦ (http_error 500, start)
    | some db' ↦ (
      answer (u.username, u.role),
      audit "login_success" "info" u.username
          (update_user_login u.id r.now (reset_failed_login u.id db')),
    )
  ]

  unfoldable pub admit :
      Request
      → String
      → String
      → Option UserRow
      → Database
      → Database
      → Answer (String × String) × Database
  admit r name password none start db = (http_error 401, audit "login_failure" "warning" name db)
  admit r name password (some u) start db =
      if is_admitted r password (some u)
      then open_session r u start db
      else (http_error 401, audit "login_failure" "warning" name db)

  abbrev attempt :
      Request → String → String → Option UserRow → Database → Answer (String × String) × Database
  attempt r name password user db =
      admit r name password user db
        (record_login_attempt r.now r.ip name (password_ok password user) db)

  unfoldable pub login : Request → String → String → Database → Answer (String × String) × Database
  login r name password db =
      if may_try r db
      then attempt r name password (get_user_by_username (strip name) db) db
      else (http_error 429, db)

abbrev name_of : Option Identity → String
name_of none = "unknown"
name_of (some who) = who.username

-- Without a cookie nothing is revoked; an unknown cookie is revoked all the same.
unfoldable pub logout : Request → Database → Database
logout r db = elim r.cookie [
  | none ↦ db
  | some sid ↦
      if str_eq sid ""
      then db
      else audit "logout" "info" (name_of (resolve_session r.seen r.checked sid db))
          (revoke_session sid db)
]

module _ {F : Type 0} (s : Settings F) (verify : String → String → Bool)
    (hash : String → String) where
  abbrev is_proved : String → Option UserRow → Bool
  is_proved password none = false
  is_proved password (some u) = verify password u.password_hash

  abbrev password_changed : Identity → String → String → Database → Answer Bool × Database
  password_changed who current new db =
      if is_proved current (get_user_by_id who.user_id db)
      then (
        answer true,
        audit "password_changed" "info" who.username
            (update_user_password who.user_id (hash new) db),
      )
      else (http_error 401, audit "password_change_failure" "warning" who.username db)

  unfoldable pub change_password : Request → String → String → Database → Answer Bool × Database
  change_password r current new db = elim (current_user r.seen r.checked r.cookie db) [
    | http_error code ↦ (http_error code, db)
    | answer who ↦
        if not (validate_csrf_token r.csrf_cookie r.csrf_header)
        then (http_error 403, db)
        else if ltb (count new) s.password_min_length
        then (http_error 400, db)
        else password_changed who current new db
  ]

-- A handler behind a role: the checks of the session, of the role and of the double-submit token.
unfoldable pub guarded :
    {A : Type 0}
    → List String
    → Request
    → Database
    → (Identity → Answer A × Database)
    → Answer A × Database
guarded roles r db run = elim (require_role roles r.seen r.checked r.cookie db) [
  | http_error code ↦ (http_error code, db)
  | answer who ↦
      if validate_csrf_token r.csrf_cookie r.csrf_header then run who else (http_error 403, db)
]

abbrev pub admins : List String
admins = "admin" ∷ []

module _ (hash : String → String) where
  unfoldable pub create_user :
      Request → String → String → String → Option String → Database → Answer String × Database
  create_user r name password rank mail db = guarded admins r db (λ who.
      if is_some (get_user_by_username name db)
      then (http_error 409, db)
      else elim (insert_user (new_user r.fresh name mail (hash password) rank r.now) db) [
        | none ↦ (http_error 500, db)
        | some db' ↦ (answer r.fresh, audit "account_created" "info" who.username db')
      ])

unfoldable pub update_user :
    Request → String → Option String → Option String → Database → Answer Bool × Database
update_user r uid rank status db = guarded admins r db (λ who.
    if is_some (get_user_by_id uid db)
    then (
      answer true,
      audit "administrative_action" "info" who.username
          (update_user_role_status r.now uid rank status db),
    )
    else (http_error 404, db))

unfoldable pub delete_user : Request → String → Database → Answer Bool × Database
delete_user r uid db = guarded admins r db (λ who.
    if str_eq uid who.user_id
    then (http_error 400, db)
    else if is_some (get_user_by_id uid db)
    then (
      answer true,
      audit "account_deleted" "warning" who.username
          (delete_user_row uid (revoke_all_sessions_for_user r.now uid db)),
    )
    else (http_error 404, db))
