-- ===== src/Persistence/Users.antt =====
-- trade_post/persistence/repository.py: the statements on users, sessions, login attempts and
-- events. `none` is the database's refusal of a duplicate key. The tables that 0002_auth_hardening
-- extends are taken after it, and foreign keys are not enforced, as on SQLite's default.
use trade_post.Base.{
  ℕ, suc, String, Bool, true, not, ◌&&◌, ◌||◌, Option, none, some, [], ◌∷◌, ◌++◌, map, ltb, leb,
  str_eq, if◌then◌else◌, keep_if, count_if, any_of, find_first, is_some,
}
use trade_post.Persistence.{Database, UserRow, SessionRow, LoginAttempt, EventRow, moment}

abbrev pub has_user_id : String → UserRow → Bool
has_user_id i u = str_eq u.id i

abbrev pub has_username : String → UserRow → Bool
has_username n u = str_eq u.username n

unfoldable pub get_user_by_username : String → Database → Option UserRow
get_user_by_username n db = find_first (has_username n) db.users

unfoldable pub get_user_by_id : String → Database → Option UserRow
get_user_by_id i db = find_first (has_user_id i) db.users

-- A new row, with the defaults of its columns.
abbrev pub new_user : String → String → Option String → String → String → ℕ → UserRow
new_user i name mail hash rank created = record {
  id = i;
  username = name;
  email = mail;
  password_hash = hash;
  role = rank;
  created_at = created;
  last_login_at = none;
  failed_login_count = 0;
  locked_until = none;
  account_status = "active";
  updated_at = none;
}

-- `id` is the primary key, and `username` is unique.
unfoldable pub insert_user : UserRow → Database → Option Database
insert_user u db =
    if any_of (has_user_id u.id) db.users || any_of (has_username u.username) db.users
    then none
    else some (record db { users = db.users ++ (u ∷ []) })

-- `UPDATE users SET … WHERE id = :id`
unfoldable pub update_user_row : String → (UserRow → UserRow) → Database → Database
update_user_row i f db = record db {
  users = map (λ u. if has_user_id i u then f u else u) db.users;
}

unfoldable pub update_user_login : String → ℕ → Database → Database
update_user_login i when db = update_user_row i (λ u. record u { last_login_at = some when }) db

unfoldable pub update_user_password : String → String → Database → Database
update_user_password i hash db = update_user_row i (λ u. record u { password_hash = hash }) db

unfoldable pub increment_failed_login : String → Database → Database
increment_failed_login i db =
    update_user_row i (λ u. record u { failed_login_count = suc u.failed_login_count }) db

unfoldable pub reset_failed_login : String → Database → Database
reset_failed_login i db =
    update_user_row i (λ u. record u { failed_login_count = 0; locked_until = none }) db

unfoldable pub lock_user : String → ℕ → Database → Database
lock_user i until db = update_user_row i (λ u. record u { locked_until = some (moment until) }) db

abbrev pub given {ℓ} : {A : Type ℓ} → Option A → A → A
given none old = old
given (some a) _ = a

unfoldable pub update_user_role_status :
    ℕ → String → Option String → Option String → Database → Database
update_user_role_status now i rank status db =
    if is_some rank || is_some status
    then update_user_row i
        (λ u. record u {
          role = given rank u.role;
          account_status = given status u.account_status;
          updated_at = some now;
        })
        db
    else db

unfoldable pub count_users_by_role : String → Database → ℕ
count_users_by_role r db = count_if (λ u. str_eq u.role r) db.users

-- `DELETE FROM users WHERE id = :id`
unfoldable pub delete_user_row : String → Database → Database
delete_user_row i db = record db { users = keep_if (λ u. not (has_user_id i u)) db.users }

abbrev pub has_session_id : String → SessionRow → Bool
has_session_id i s = str_eq s.id i

unfoldable pub insert_session : SessionRow → Database → Option Database
insert_session s db =
    if any_of (has_session_id s.id) db.sessions
    then none
    else some (record db { sessions = db.sessions ++ (s ∷ []) })

abbrev pub is_unrevoked : String → SessionRow → Bool
is_unrevoked i s = has_session_id i s && not s.revoked

unfoldable pub get_active_session : ℕ → String → Database → Option SessionRow
get_active_session now i db = elim (find_first (is_unrevoked i) db.sessions) [
  | none ↦ none
  | some s ↦ if ltb s.expires_at now then none else some s
]

unfoldable pub revoke_session : String → Database → Database
revoke_session i db = record db {
  sessions = map (λ s. if has_session_id i s then record s { revoked = true } else s) db.sessions;
}

abbrev pub is_session_of : String → SessionRow → Bool
is_session_of uid s = str_eq s.user_id uid && not s.revoked

-- The number of revoked sessions is not used by any caller.
unfoldable pub revoke_all_sessions_for_user : ℕ → String → Database → Database
revoke_all_sessions_for_user now uid db = record db {
  sessions =
      map
        (λ s. if is_session_of uid s then record s { revoked = true; revoked_at = some now } else s)
        db.sessions;
}

unfoldable pub record_login_attempt : ℕ → String → String → Bool → Database → Database
record_login_attempt now ip name ok db = record db {
  login_attempts =
      db.login_attempts
      ++ (record { ip = ip; username = name; success = ok; attempted_at = now } ∷ []);
}

abbrev pub is_failed_from : String → ℕ → LoginAttempt → Bool
is_failed_from ip since a = str_eq a.ip ip && not a.success && leb since a.attempted_at

unfoldable pub count_failed_attempts_by_ip : String → ℕ → Database → ℕ
count_failed_attempts_by_ip ip since db = count_if (is_failed_from ip since) db.login_attempts

unfoldable pub insert_event : EventRow → Database → Database
insert_event e db = record db { events = db.events ++ (e ∷ []) }
