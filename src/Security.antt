-- ===== src/Security.antt =====
-- trade_post/security/auth.py: sessions, roles and the double-submit token.
pub mod Passwords
pub mod Address
mod Tests
use trade_post.Base.{
  ℕ, ◌+◌, ◌*◌, String, Bool, true, false, not, ◌&&◌, ◌||◌, Option, none, some, List, ltb, str_eq,
  if◌then◌else◌, any_of,
}
use trade_post.Config.{Settings, is_true_text}
use trade_post.Persistence.{Database, UserRow, SessionRow, Stamp, moment, malformed}
use trade_post.Persistence.Users.{get_active_session, get_user_by_id}

-- A handler's answer: a value, or an `HTTPException` with its status.
pub data Answer (A : Type 0) : Type 0 where
  answer : A → Answer A
  http_error : ℕ → Answer A

-- `{ip: …}` is always there, since the column is not null.
pub record Identity : Type 0 where
  pub user_id : String
  pub username : String
  pub role : String
  pub session_id : String
  pub ip : String

-- A time that cannot be read counts as a lock.
unfoldable pub is_locked : ℕ → Option Stamp → Bool
is_locked now none = false
is_locked now (some (moment until)) = ltb now until
is_locked now (some malformed) = true

-- `(account_status or "active") == "active"`
unfoldable pub is_active : UserRow → Bool
is_active u = not (is_true_text u.account_status) || str_eq u.account_status "active"

abbrev pub identity_of : String → SessionRow → UserRow → Identity
identity_of sid s u = record {
  user_id = u.id;
  username = u.username;
  role = u.role;
  session_id = sid;
  ip = s.ip;
}

-- `seen` and `checked` are the two readings of the clock.
unfoldable pub resolve_session : ℕ → ℕ → String → Database → Option Identity
resolve_session seen checked sid db =
    if not (is_true_text sid) then none else elim (get_active_session seen sid db) [
      | none ↦ none
      | some s ↦ elim (get_user_by_id s.user_id db) [
        | none ↦ none
        | some u ↦
            if is_locked checked u.locked_until || not (is_active u)
            then none
            else some (identity_of sid s u)
      ]
    ]

-- `CurrentUser(required=True)`: the session cookie's user, or 401.
unfoldable pub current_user : ℕ → ℕ → Option String → Database → Answer Identity
current_user seen checked none db = http_error 401
current_user seen checked (some sid) db = elim (resolve_session seen checked sid db) [
  | none ↦ http_error 401
  | some who ↦ answer who
]

unfoldable pub require_role : List String → ℕ → ℕ → Option String → Database → Answer Identity
require_role roles seen checked cookie db = elim (current_user seen checked cookie db) [
  | http_error code ↦ http_error code
  | answer who ↦ if any_of (λ r. str_eq r who.role) roles then answer who else http_error 403
]

-- Whether the token of the cookie and the one of the header let a request pass.
unfoldable pub validate_csrf_token : Option String → Option String → Bool
validate_csrf_token (some cookie) (some header) =
    is_true_text cookie && is_true_text header && str_eq cookie header
validate_csrf_token _ _ = false

unfoldable pub session_expiry : {F : Type 0} → Settings F → ℕ → ℕ
session_expiry s now = now + s.session_ttl_minutes * 60_000_000
