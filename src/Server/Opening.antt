-- ===== src/Server/Opening.antt =====
-- The session that a login opens resolves to the user who logged in.
pub mod Rows
use mathlib.Core.Option
use trade_post.Base.{
  ℕ, ◌+◌, ◌-◌, ◌*◌, ◌≤◌, ◌<◌, ◌≡◌, ◌≢◌, refl, ◌∙◌, sym, ap, subst, String, Bool, true, false, not,
  ◌&&◌, ◌||◌, Option, none, some, List, [], ◌∷◌, ◌++◌, map, arith, ltb, leb, str_eq, eq_iff,
  if◌then◌else◌, find_first, any_of, Option-cases, Bool-cases, inl, inr, is_some, strip,
}
use trade_post.Config.{Settings}
use trade_post.Persistence.{Database, UserRow, SessionRow}
use trade_post.Persistence.Users.{
  has_user_id, has_username, has_session_id, is_unrevoked, get_user_by_id, get_user_by_username,
  get_active_session, insert_session, update_user_row, update_user_login, reset_failed_login,
  record_login_attempt, insert_event,
}
use trade_post.Security.{
  Answer, answer, http_error, Identity, identity_of, is_active, is_locked, resolve_session,
  session_expiry,
}
use trade_post.Server.{
  Request, may_try, session_of, is_admitted, open_session, admit, login, audit, password_ok,
}
use trade_post.Server.Opening.Rows.{HasUniqueIds, by_name-by_id, find_user-update, find_new}

module _ {F : Type 0} (s : Settings F) (verify : String → String → Bool) where
  -- What a login that answers has found and done, before its own record of success.
  pub record Opened (r : Request) (name password : String) (db : Database) : Type 0 where
    pub user : UserRow
    pub found : get_user_by_username (strip name) db ≡ some user
    pub admitted : is_admitted s verify r password (some user) ≡ true
    pub before : Database
    pub same_users : before.users ≡ db.users
    pub after : Database
    pub inserted : insert_session (session_of s verify r user) before ≡ some after
    pub result : login s verify r name password db ≡ (
      answer (user.username, user.role),
      audit "login_success" "info" user.username
          (update_user_login user.id r.now (reset_failed_login user.id after)),
    )

  pub login_answers :
      (r : Request) (name password : String) (db : Database) (a : String × String)
      → (login s verify r name password db).0 ≡ answer a
      → Opened r name password db
  unfolding login admit open_session record_login_attempt
  login_answers r name password db a e = elim (Bool-cases (may_try s verify r db)) [
    | inr throttled ↦ absurd (ground arith)
    | inl tried ↦ elim (Option-cases (get_user_by_username (strip name) db)) [
      | inl nobody ↦ absurd (ground arith)
      | inr (u, eu) ↦ elim (Bool-cases (is_admitted s verify r password (some u))) [
        | inr refused ↦ absurd (ground arith)
        | inl let_in ↦
            elim (Option-cases (
              insert_session (session_of s verify r u) (
                record_login_attempt r.now r.ip name (password_ok s verify password (some u))
                  db))) [
                    | inl clash ↦ absurd (ground arith)
                    | inr (db', ei) ↦ record {
                      user = u;
                      found = eu;
                      admitted = let_in;
                      before =
                          record_login_attempt r.now r.ip name
                            (password_ok s verify password (some u)) db;
                      same_users = refl;
                      after = db';
                      inserted = ei;
                      result = rw (tried, eu, let_in, ei, login, admit, open_session) refl;
                    }
                  ]
      ]
    ]
  ]

  inserted_sessions :
      (x : SessionRow) (db : Database) {db' : Database}
      → insert_session x db ≡ some db'
      → (db'.sessions ≡ db.sessions ++ (x ∷ []))
        × (any_of (has_session_id x.id) db.sessions ≡ false)
        × (db'.users ≡ db.users)
  unfolding insert_session
  inserted_sessions x db e = ground arith

  -- The row of a user after it has logged in.
  abbrev logged_in : ℕ → UserRow → UserRow
  logged_in now u = record u {
    failed_login_count = 0;
    locked_until = none;
    last_login_at = some now;
  }

  user_after :
      (now : ℕ) (u : UserRow) (db : Database)
      → get_user_by_id u.id db ≡ some u
      → get_user_by_id u.id (update_user_login u.id now (reset_failed_login u.id db))
        ≡ some (logged_in now u)
  unfolding get_user_by_id update_user_login reset_failed_login update_user_row
  user_after now u db e =
      find_user-update u.id (λ v. record v { last_login_at = some now }) _ _ (λ v. refl)
        (find_user-update u.id (λ v. record v { failed_login_count = 0; locked_until = none })
          db.users u (λ v. refl) e)

  admitted-active :
      (r : Request) (password : String) (u : UserRow)
      → is_admitted s verify r password (some u) ≡ true
      → is_active u ≡ true
  unfolding is_admitted
  admitted-active r password u h = ground arith

  active-logged_in : (now : ℕ) (u : UserRow) → is_active (logged_in now u) ≡ is_active u
  unfolding is_active
  active-logged_in now u = refl

  resolve_from :
      (seen checked : ℕ) (sid : String) (db : Database) (x : SessionRow) (u : UserRow)
      → sid ≢ ""
      → get_active_session seen sid db ≡ some x
      → get_user_by_id x.user_id db ≡ some u
      → is_locked checked u.locked_until ≡ false
      → is_active u ≡ true
      → resolve_session seen checked sid db ≡ some (identity_of sid x u)
  unfolding resolve_session
  resolve_from seen checked sid db x u full ex eu free active =
      rw (ex, eu, free, active, resolve_session) (ground (arith, eq_iff sid ""))

  -- The session that was added is active up to its expiry.
  active_after :
      (seen : ℕ) (x : SessionRow) (db : Database) (ss : List SessionRow)
      → db.sessions ≡ ss ++ (x ∷ [])
      → any_of (has_session_id x.id) ss ≡ false
      → x.revoked ≡ false
      → seen ≤ x.expires_at
      → get_active_session seen x.id db ≡ some x
  unfolding get_active_session
  active_after seen x db ss grown new live early =
      let found = ap (find_first (is_unrevoked x.id)) grown ∙ find_new x ss new live in
      ground (arith, found)

  -- The session cookie of a login that answers resolves to the user and the role of the answer, up
  -- to the expiry of the session. No two users may share an id, and the new id is not empty.
  pub resolve-login :
      (r : Request) (name password user_name rank : String) (db : Database) (seen checked : ℕ)
      → HasUniqueIds db.users
      → r.fresh ≢ ""
      → seen ≤ session_expiry s r.now
      → (login s verify r name password db).0 ≡ answer (user_name, rank)
      → (who : Identity) × (resolve_session seen checked r.fresh
            (login s verify r name password db).1
          ≡ some who)
        × (who.username ≡ user_name)
        × (who.role ≡ rank)
  unfolding insert_event get_user_by_username update_user_login reset_failed_login update_user_row
      is_locked get_user_by_id
  resolve-login r name password user_name rank db seen checked q full early e =
      let o = login_answers r name password db (user_name, rank) e in
      let x = session_of s verify r o.user in
      let (grown, new, same) = inserted_sessions x o.before o.inserted in
      let known = by_name-by_id (strip name) db.users o.user q o.found in
      let both : (o.user.username ≡ user_name) × (o.user.role ≡ rank) =
        named o (sym (ap (λ z. z.0) o.result) ∙ e) in
      let kept = ap (find_first (has_user_id o.user.id)) (same ∙ o.same_users) ∙ known in
      (
        identity_of r.fresh x (logged_in r.now o.user),
        ap (λ z. resolve_session seen checked r.fresh z.1) o.result
            ∙ resolve_from seen checked r.fresh _ x (logged_in r.now o.user) full
                (active_after seen x _ o.before.sessions grown new refl early)
                (user_after r.now o.user o.after kept) refl
                (active-logged_in r.now o.user ∙ admitted-active r password o.user o.admitted),
        both.0,
        both.1,
      )
    where
      named :
          (o : Opened r name password db)
          → ◌≡◌ {A = Answer (String × String)}
              (answer (o.user.username, o.user.role))
              (answer (user_name, rank))
          → (o.user.username ≡ user_name) × (o.user.role ≡ rank)
      named o h = ground arith
