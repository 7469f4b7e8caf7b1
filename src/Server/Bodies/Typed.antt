-- ===== src/Server/Bodies/Typed.antt =====
-- The rows of users stay such as the data model `User` takes.
use trade_post.Base.{
  ◌≡◌, refl, String, Bool, true, not, Option, none, some, List, [], ◌∷◌, inl, inr, arith,
  Bool-cases, if_cases,
}
use trade_post.Config.{Settings}
use trade_post.Persistence.{Database, UserRow}
use trade_post.Persistence.Users.{
  has_user_id, insert_user, delete_user_row, insert_session, revoke_session, new_user,
  revoke_all_sessions_for_user, record_login_attempt, insert_event,
}
use trade_post.Security.{Answer, answer, http_error, Identity, require_role, current_user}
use trade_post.Server.{
  Request, guarded, login, logout, change_password, create_user, update_user, delete_user, admit,
  open_session, may_try, session_of,
}
use trade_post.Server.Bodies.{
  create_user_request, update_user_request, accepts, receive, receive_all,
}
use trade_post.Server.Bodies.Rows.{
  IsTyped, all_typed-append, all_typed-keep_if, reset_failed_login-IsTyped,
  update_user_login-IsTyped, update_user_password-IsTyped, insert_session-IsTyped, new_user-IsTyped,
  update_user_role_status-IsTyped,
}
use trade_post.Server.Calls.{
  Call, logs_in, logs_out, changes_password, creates, updates, deletes, step,
}

-- What a handler has done to the users, where the caller's role lets it run.
guarded-IsTyped :
    {A : Type 0} (allowed : List String) (r : Request) (db : Database)
    (run : Identity → Answer A × Database)
    → ((who : Identity) → IsTyped (run who).1)
    → IsTyped db
    → IsTyped (guarded allowed r db run).1
unfolding guarded
guarded-IsTyped allowed r db run typed h =
    at (require_role allowed r.seen r.checked r.cookie db) refl
  where
    at :
        (a : Answer Identity)
        → require_role allowed r.seen r.checked r.cookie db ≡ a
        → IsTyped (guarded allowed r db run).1
    at (http_error code) e = rw (e, guarded) h
    at (answer who) e = rw (e, guarded) (ground (arith, typed who))

open_session-IsTyped :
    {F : Type 0} (s : Settings F) (verify : String → String → Bool) (r : Request) (u : UserRow)
    (start db : Database)
    → IsTyped start
    → IsTyped db
    → IsTyped (open_session s verify r u start db).1
unfolding open_session insert_event
open_session-IsTyped s verify r u start db g h =
    at (insert_session (session_of s verify r u) db) refl
  where
    at :
        (o : Option Database)
        → insert_session (session_of s verify r u) db ≡ o
        → IsTyped (open_session s verify r u start db).1
    at none e = rw (e, open_session) g
    at (some db') e =
        rw (e, open_session)
          (update_user_login-IsTyped u.id r.now _
            (reset_failed_login-IsTyped u.id db' (insert_session-IsTyped _ db db' e h)))

admit-IsTyped :
    {F : Type 0} (s : Settings F) (verify : String → String → Bool) (r : Request)
    (name password : String) (u : Option UserRow) (start db : Database)
    → IsTyped start
    → IsTyped db
    → IsTyped (admit s verify r name password u start db).1
unfolding admit insert_event
admit-IsTyped s verify r name password none start db g h = h
admit-IsTyped s verify r name password (some u) start db g h =
    ground (arith, open_session-IsTyped s verify r u start db g h)

login-IsTyped :
    {F : Type 0} (s : Settings F) (verify : String → String → Bool) (r : Request)
    (name password : String) (db : Database)
    → IsTyped db
    → IsTyped (login s verify r name password db).1
unfolding login record_login_attempt
login-IsTyped s verify r name password db h = elim (Bool-cases (may_try s verify r db)) [
  | inl may ↦ rw (may, login) (admit-IsTyped s verify r name password _ db _ h h)
  | inr throttled ↦ rw (throttled, login) h
]

change_password-IsTyped :
    {F : Type 0} (s : Settings F) (verify : String → String → Bool) (hash : String → String)
    (r : Request) (current new : String) (db : Database)
    → IsTyped db
    → IsTyped (change_password s verify hash r current new db).1
unfolding change_password insert_event
change_password-IsTyped s verify hash r current new db h =
    at (current_user r.seen r.checked r.cookie db) refl
  where
    at :
        (a : Answer Identity)
        → current_user r.seen r.checked r.cookie db ≡ a
        → IsTyped (change_password s verify hash r current new db).1
    at (http_error code) e = rw (e, change_password) h
    at (answer who) e =
        rw (e, change_password)
          (ground (arith, update_user_password-IsTyped who.user_id (hash new) db h))

create_user-IsTyped :
    (hash : String → String) (r : Request) (name password rank : String) (mail : Option String)
    (db : Database)
    → create_user_request name password rank ≡ true
    → IsTyped db
    → IsTyped (create_user hash r name password rank mail db).1
unfolding create_user insert_event insert_user
create_user-IsTyped hash r name password rank mail db ok h =
    guarded-IsTyped _ r db _
      (λ who. ground (
        arith,
        all_typed-append db.users (new_user r.fresh name mail (hash password) rank r.now) h
            (new_user-IsTyped r.fresh name (hash password) rank password mail r.now ok),
      ))
      h

update_user-IsTyped :
    (r : Request) (uid : String) (rank status : Option String) (db : Database)
    → update_user_request rank status ≡ true
    → IsTyped db
    → IsTyped (update_user r uid rank status db).1
unfolding update_user insert_event
update_user-IsTyped r uid rank status db ok h =
    guarded-IsTyped _ r db _
      (λ who. ground (arith, update_user_role_status-IsTyped r.now uid rank status db ok h)) h

delete_user-IsTyped :
    (r : Request) (uid : String) (db : Database) → IsTyped db → IsTyped (delete_user r uid db).1
unfolding delete_user insert_event delete_user_row revoke_all_sessions_for_user
delete_user-IsTyped r uid db h =
    guarded-IsTyped _ r db _
      (λ who. ground (arith, all_typed-keep_if (λ u. not (has_user_id uid u)) db.users)) h

logout-IsTyped : (r : Request) (db : Database) → IsTyped db → IsTyped (logout r db)
unfolding logout insert_event revoke_session
logout-IsTyped r db h = ground arith

module _ {F : Type 0} (s : Settings F) (verify : String → String → Bool)
    (hash : String → String) where
  step-IsTyped :
      (c : Call) (db : Database) → accepts c ≡ true → IsTyped db → IsTyped (step s verify hash c db)
  unfolding accepts step
  step-IsTyped (logs_in r name password) db ok h = login-IsTyped s verify r name password db h
  step-IsTyped (logs_out r) db ok h = logout-IsTyped r db h
  step-IsTyped (changes_password r current new) db ok h =
      change_password-IsTyped s verify hash r current new db h
  step-IsTyped (creates r name password rank mail) db ok h =
      create_user-IsTyped hash r name password rank mail db ok h
  step-IsTyped (updates r uid rank status) db ok h = update_user-IsTyped r uid rank status db ok h
  step-IsTyped (deletes r uid) db ok h = delete_user-IsTyped r uid db h

  -- Any requests with any bodies, from a table of users whose rows all have a username of 3 to 64
  -- characters, a role of the class Role, and the status active or disabled: after them all rows still
  -- have.
  pub receive_all-IsTyped :
      (cs : List Call) (db : Database) → IsTyped db → IsTyped (receive_all s verify hash cs db)
  unfolding receive_all receive
  receive_all-IsTyped [] db h = h
  receive_all-IsTyped (c ∷ cs) db h =
      receive_all-IsTyped cs _
        (if_cases IsTyped (accepts c) _ db (λ ok. step-IsTyped c db ok h) (λ _. h))
