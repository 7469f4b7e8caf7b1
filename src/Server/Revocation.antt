-- ===== src/Server/Revocation.antt =====
-- A session that was revoked never resolves again.
pub mod Rows
use trade_post.Base.{
  ℕ, ◌≡◌, ◌≢◌, refl, ◌∙◌, ap, subst, String, Bool, true, false, not, ◌&&◌, ◌||◌, Option, none, some,
  List, [], ◌∷◌, ◌++◌, map, arith, str_eq, eq_iff, if◌then◌else◌, any_of, find_first, is_some,
  Option-cases, Bool-cases, inl, inr,
}
use trade_post.Config.{Settings}
use trade_post.Persistence.{Database, UserRow, SessionRow}
use trade_post.Persistence.Users.{
  has_session_id, is_unrevoked, is_session_of, insert_session, revoke_session,
  revoke_all_sessions_for_user, get_active_session, update_user_row, update_user_login,
  update_user_password, reset_failed_login, update_user_role_status, delete_user_row, insert_user,
  record_login_attempt, insert_event, new_user,
}
use trade_post.Security.{Answer, answer, http_error, Identity, resolve_session, require_role}
use trade_post.Server.{
  Request, session_of, login, admit, open_session, logout, change_password, guarded, create_user,
  update_user, delete_user,
}
use trade_post.Server.Calls.{
  Call, logs_in, logs_out, changes_password, creates, updates, deletes, step, run,
}
use trade_post.Server.Revocation.Rows.{
  IsRevoked, insert_session-IsRevoked, revoke_session-IsRevoked, revoke_all-IsRevoked,
  resolve-IsRevoked, revoke_session_revokes,
}

module _ {F : Type 0} (s : Settings F) (verify : String → String → Bool) (hash : String → String)
    (sid : String) where
  open_session-IsRevoked :
      (r : Request) (u : UserRow) (start db : Database)
      → IsRevoked sid start.sessions
      → IsRevoked sid db.sessions
      → IsRevoked sid (open_session s verify r u start db).1.sessions
  unfolding open_session reset_failed_login update_user_login update_user_row insert_event
  open_session-IsRevoked r u start db k h =
      elim (Option-cases (insert_session (session_of s verify r u) db)) [
        | inl clash ↦ rw (clash, open_session) k
        | inr (db', e) ↦ rw (e, open_session) (insert_session-IsRevoked sid _ db h e)
      ]

  admit-IsRevoked :
      (r : Request) (name password : String) (found : Option UserRow) (start db : Database)
      → IsRevoked sid start.sessions
      → IsRevoked sid db.sessions
      → IsRevoked sid (admit s verify r name password found start db).1.sessions
  unfolding admit insert_event
  admit-IsRevoked r name password none start db k h = h
  admit-IsRevoked r name password (some u) start db k h =
      ground (arith, open_session-IsRevoked r u start db k h)

  login-IsRevoked :
      (r : Request) (name password : String) (db : Database)
      → IsRevoked sid db.sessions
      → IsRevoked sid (login s verify r name password db).1.sessions
  unfolding login record_login_attempt
  login-IsRevoked r name password db h = grind (arith, admit-IsRevoked r name password _ db _ h h)

  logout-IsRevoked :
      (r : Request) (db : Database)
      → IsRevoked sid db.sessions
      → IsRevoked sid (logout r db).sessions
  unfolding logout insert_event
  logout-IsRevoked r db h = elim (Option-cases r.cookie) [
    | inl e ↦ rw (e, logout) h
    | inr (i, e) ↦ rw (e, logout) (ground (arith, revoke_session-IsRevoked sid i db h))
  ]

  change_password-IsRevoked :
      (r : Request) (current new : String) (db : Database)
      → IsRevoked sid db.sessions
      → IsRevoked sid (change_password s verify hash r current new db).1.sessions
  unfolding change_password insert_event update_user_password update_user_row
  change_password-IsRevoked r current new db h = ground arith

  -- A handler behind a role keeps it if its body does.
  guarded-IsRevoked :
      {A : Type 0} (roles : List String) (r : Request) (db : Database)
      (body : Identity → Answer A × Database)
      → IsRevoked sid db.sessions
      → ((who : Identity) → IsRevoked sid (body who).1.sessions)
      → IsRevoked sid (guarded roles r db body).1.sessions
  unfolding guarded
  guarded-IsRevoked roles r db body h k =
      checked (require_role roles r.seen r.checked r.cookie db) refl
    where
      checked :
          (a : Answer Identity)
          → require_role roles r.seen r.checked r.cookie db ≡ a
          → IsRevoked sid (guarded roles r db body).1.sessions
      checked (http_error code) e = rw (e, guarded) h
      checked (answer who) e = rw (e, guarded) (ground (arith, k who))

  create_user-IsRevoked :
      (r : Request) (name password rank : String) (mail : Option String) (db : Database)
      → IsRevoked sid db.sessions
      → IsRevoked sid (create_user hash r name password rank mail db).1.sessions
  unfolding create_user insert_event insert_user
  create_user-IsRevoked r name password rank mail db h =
      guarded-IsRevoked _ r db _ h (λ who. ground arith)

  update_user-IsRevoked :
      (r : Request) (uid : String) (rank status : Option String) (db : Database)
      → IsRevoked sid db.sessions
      → IsRevoked sid (update_user r uid rank status db).1.sessions
  unfolding update_user insert_event update_user_role_status update_user_row
  update_user-IsRevoked r uid rank status db h = guarded-IsRevoked _ r db _ h (λ who. ground arith)

  delete_user-IsRevoked :
      (r : Request) (uid : String) (db : Database)
      → IsRevoked sid db.sessions
      → IsRevoked sid (delete_user r uid db).1.sessions
  unfolding delete_user insert_event delete_user_row
  delete_user-IsRevoked r uid db h =
      guarded-IsRevoked _ r db _ h (λ who. ground (arith, revoke_all-IsRevoked sid r.now uid db h))

  step-IsRevoked :
      (c : Call) (db : Database)
      → IsRevoked sid db.sessions
      → IsRevoked sid (step s verify hash c db).sessions
  unfolding step
  step-IsRevoked (logs_in r name password) db h = login-IsRevoked r name password db h
  step-IsRevoked (logs_out r) db h = logout-IsRevoked r db h
  step-IsRevoked (changes_password r current new) db h =
      change_password-IsRevoked r current new db h
  step-IsRevoked (creates r name password rank mail) db h =
      create_user-IsRevoked r name password rank mail db h
  step-IsRevoked (updates r uid rank status) db h = update_user-IsRevoked r uid rank status db h
  step-IsRevoked (deletes r uid) db h = delete_user-IsRevoked r uid db h

  run-IsRevoked :
      (cs : List Call) (db : Database)
      → IsRevoked sid db.sessions
      → IsRevoked sid (run s verify hash cs db).sessions
  unfolding run
  run-IsRevoked [] db h = h
  run-IsRevoked (c ∷ cs) db h = run-IsRevoked cs _ (step-IsRevoked c db h)

  -- A session that is in the table and revoked there resolves to nobody after any sequence of
  -- requests to the handlers of sessions and users, at any time.
  pub run_revoked :
      (cs : List Call) (db : Database) (seen checked : ℕ)
      → IsRevoked sid db.sessions
      → resolve_session seen checked sid (run s verify hash cs db) ≡ none
  run_revoked cs db seen checked h = resolve-IsRevoked sid seen checked _ (run-IsRevoked cs db h)

  logout_revokes :
      (r : Request) (db : Database)
      → r.cookie ≡ some sid
      → sid ≢ ""
      → any_of (has_session_id sid) db.sessions ≡ true
      → IsRevoked sid (logout r db).sessions
  unfolding logout insert_event
  logout_revokes r db e full known =
      rw (e, logout) (ground (arith, revoke_session_revokes sid db known, eq_iff sid ""))

  -- After a logout with the cookie of a session, that session resolves to nobody after any sequence
  -- of requests, at any time.
  logout_lasts :
      (r : Request) (cs : List Call) (db : Database) (seen checked : ℕ)
      → r.cookie ≡ some sid
      → sid ≢ ""
      → any_of (has_session_id sid) db.sessions ≡ true
      → resolve_session seen checked sid (run s verify hash cs (logout r db)) ≡ none
  logout_lasts r cs db seen checked e full known =
      run_revoked cs (logout r db) seen checked (logout_revokes r db e full known)
