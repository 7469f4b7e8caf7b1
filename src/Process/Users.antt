-- ===== src/Process/Users.antt =====
-- The handlers of sessions and users write to none of the tables of the orders and the fills.
use trade_post.Base.{◌≡◌, inl, inr, refl, arith, String, Bool, Option, none, some, List, Bool-cases}
use trade_post.Config.{Settings}
use trade_post.Persistence.{Database, UserRow}
use trade_post.Persistence.Users.{
  insert_user, update_user_row, update_user_login, update_user_password, reset_failed_login,
  update_user_role_status, delete_user_row, insert_session, revoke_session,
  revoke_all_sessions_for_user, record_login_attempt, insert_event,
}
use trade_post.Process.Quiet.{KeepsTrades}
use trade_post.Security.{Answer, answer, http_error, Identity, require_role}
use trade_post.Server.{
  Request, guarded, login, logout, change_password, create_user, update_user, delete_user, admit,
  open_session, may_try,
}
use trade_post.Server.Calls.{
  Call, logs_in, logs_out, changes_password, creates, updates, deletes, step,
}

guarded-KeepsTrades :
    {A : Type 0} (roles : List String) (r : Request) (db : Database)
    (run : Identity → Answer A × Database)
    → ((who : Identity) → KeepsTrades db (run who).1)
    → KeepsTrades db (guarded roles r db run).1
unfolding guarded
guarded-KeepsTrades roles r db run h = at (require_role roles r.seen r.checked r.cookie db) refl
  where
    at :
        (a : Answer Identity)
        → require_role roles r.seen r.checked r.cookie db ≡ a
        → KeepsTrades db (guarded roles r db run).1
    at (http_error code) e = rw (e, guarded) (ground arith)
    at (answer who) e = rw (e, guarded) (ground (arith, h who))

insert_user-KeepsTrades :
    (u : UserRow) (db db' : Database) → insert_user u db ≡ some db' → KeepsTrades db db'
unfolding insert_user
insert_user-KeepsTrades u db db' e = ground arith

open_session-KeepsTrades :
    {F : Type 0} (s : Settings F) (verify : String → String → Bool) (r : Request) (u : UserRow)
    (start db : Database)
    → KeepsTrades start db
    → KeepsTrades start (open_session s verify r u start db).1
unfolding open_session insert_session insert_event update_user_login update_user_row
    reset_failed_login
open_session-KeepsTrades s verify r u start db h = ground arith

admit-KeepsTrades :
    {F : Type 0} (s : Settings F) (verify : String → String → Bool) (r : Request)
    (name password : String) (u : Option UserRow) (start db : Database)
    → KeepsTrades start db
    → KeepsTrades start (admit s verify r name password u start db).1
unfolding admit insert_event
admit-KeepsTrades s verify r name password none start db h = ground arith
admit-KeepsTrades s verify r name password (some u) start db h =
    ground (arith, open_session-KeepsTrades s verify r u start db h)

login-KeepsTrades :
    {F : Type 0} (s : Settings F) (verify : String → String → Bool) (r : Request)
    (name password : String) (db : Database)
    → KeepsTrades db (login s verify r name password db).1
unfolding login record_login_attempt
login-KeepsTrades s verify r name password db = elim (Bool-cases (may_try s verify r db)) [
  | inl may ↦ rw (may, login) (admit-KeepsTrades s verify r name password _ db _ (ground arith))
  | inr throttled ↦ rw (throttled, login) (ground arith)
]

logout-KeepsTrades : (r : Request) (db : Database) → KeepsTrades db (logout r db)
unfolding logout insert_event revoke_session
logout-KeepsTrades r db = ground arith

change_password-KeepsTrades :
    {F : Type 0} (s : Settings F) (verify : String → String → Bool) (hash : String → String)
    (r : Request) (current new : String) (db : Database)
    → KeepsTrades db (change_password s verify hash r current new db).1
unfolding change_password insert_event update_user_password update_user_row
change_password-KeepsTrades s verify hash r current new db = ground arith

create_user-KeepsTrades :
    (hash : String → String) (r : Request) (name password rank : String) (mail : Option String)
    (db : Database)
    → KeepsTrades db (create_user hash r name password rank mail db).1
unfolding create_user insert_event insert_user
create_user-KeepsTrades hash r name password rank mail db =
    guarded-KeepsTrades _ r db _ (λ who. ground arith)

update_user-KeepsTrades :
    (r : Request) (uid : String) (rank status : Option String) (db : Database)
    → KeepsTrades db (update_user r uid rank status db).1
unfolding update_user insert_event update_user_role_status update_user_row
update_user-KeepsTrades r uid rank status db = guarded-KeepsTrades _ r db _ (λ who. ground arith)

delete_user-KeepsTrades :
    (r : Request) (uid : String) (db : Database) → KeepsTrades db (delete_user r uid db).1
unfolding delete_user insert_event delete_user_row revoke_all_sessions_for_user
delete_user-KeepsTrades r uid db = guarded-KeepsTrades _ r db _ (λ who. ground arith)

pub step-KeepsTrades :
    {F : Type 0} (s : Settings F) (verify : String → String → Bool) (hash : String → String)
    (c : Call) (db : Database)
    → KeepsTrades db (step s verify hash c db)
unfolding step
step-KeepsTrades s verify hash (logs_in r name password) db =
    login-KeepsTrades s verify r name password db
step-KeepsTrades s verify hash (logs_out r) db = logout-KeepsTrades r db
step-KeepsTrades s verify hash (changes_password r current new) db =
    change_password-KeepsTrades s verify hash r current new db
step-KeepsTrades s verify hash (creates r name password rank mail) db =
    create_user-KeepsTrades hash r name password rank mail db
step-KeepsTrades s verify hash (updates r uid rank status) db =
    update_user-KeepsTrades r uid rank status db
step-KeepsTrades s verify hash (deletes r uid) db = delete_user-KeepsTrades r uid db
