-- ===== src/Server/Login.antt =====
-- What a login counts, when it is throttled, and the session that it opens.
use trade_post.Base.{
  ℕ, ◌+◌, ◌-◌, ◌*◌, ◌≤◌, ◌<◌, ◌⊎◌, ◌≡◌, ◌↔◌, refl, String, Bool, true, not, ◌&&◌, Option, none,
  some, List, [], ◌∷◌, ◌++◌, arith, leb, str_eq, if◌then◌else◌, count_if, Bool-cases, inl, inr,
  strip,
}
use trade_post.Config.{Settings}
use trade_post.Persistence.{Database, UserRow}
use trade_post.Persistence.Users.{
  get_user_by_username, insert_session, update_user_row, update_user_login, reset_failed_login,
  record_login_attempt, count_failed_attempts_by_ip, is_failed_from, insert_event,
}
use trade_post.Security.{http_error}
use trade_post.Server.{Request, may_try, is_admitted, password_ok, open_session, admit, login}

count_if-append :
    {A : Type 0} (p : A → Bool) (xs : List A) (x : A)
    → count_if p (xs ++ (x ∷ [])) ≡ count_if p xs + (if p x then 1 else 0)
unfolding count_if
count_if-append p [] x = ground arith
count_if-append p (y ∷ xs) x = ground (arith, count_if-append p xs x)

module _ {F : Type 0} (s : Settings F) (verify : String → String → Bool) where
  module _ (ip : String) (since : ℕ) where
    failures : Database → ℕ
    failures db = count_failed_attempts_by_ip ip since db

    open_session_counts :
        (r : Request) (u : UserRow) (start db : Database)
        → failures start ≡ failures db
        → failures (open_session s verify r u start db).1 ≡ failures db
    unfolding failures count_failed_attempts_by_ip open_session insert_session reset_failed_login
        update_user_login update_user_row insert_event
    open_session_counts r u start db e = ground (arith, e)

    admit_counts :
        (r : Request) (name password : String) (found : Option UserRow) (start db : Database)
        → (password_ok s verify password found ≡ true → failures start ≡ failures db)
        → failures (admit s verify r name password found start db).1 ≡ failures db
    unfolding failures count_failed_attempts_by_ip admit insert_event is_admitted
    admit_counts r name password none start db h = refl
    admit_counts r name password (some u) start db h =
        ground (arith, open_session_counts r u start db, h)

    record_counts :
        (now : ℕ) (from name : String) (ok : Bool) (db : Database)
        → failures (record_login_attempt now from name ok db)
          ≡ failures db + (if not ok && str_eq from ip && leb since now then 1 else 0)
    unfolding failures count_failed_attempts_by_ip record_login_attempt
    record_counts now from name ok db = ground (
      arith,
      count_if-append (is_failed_from ip since) db.login_attempts
          (record { ip = from; username = name; success = ok; attempted_at = now }),
    )

  -- A login that may be tried with a password that is wrong, or for an unknown user, adds one to the
  -- failures of its address since any time up to its own. No login adds anything else to the
  -- failures of any address.
  login_counts :
      (r : Request) (name password ip : String) (since : ℕ) (db : Database)
      → count_failed_attempts_by_ip ip since (login s verify r name password db).1
        ≡ count_failed_attempts_by_ip ip since db
          + (if may_try s verify r db
                && not (password_ok s verify password (get_user_by_username (strip name) db))
                && str_eq r.ip ip
                && leb since r.now
              then 1
              else 0)
  unfolding login failures
  login_counts r name password ip since db =
      let found = get_user_by_username (strip name) db in
      let ok = password_ok s verify password found in
      let recorded = record_counts ip since r.now r.ip name ok db in
      elim (Bool-cases (may_try s verify r db)) [
        | inr throttled ↦ rw (throttled, login) (omega arith)
        | inl tried ↦
            rw (tried, login)
              (ground (
                arith,
                admit_counts ip since r name password found db
                    (record_login_attempt r.now r.ip name ok db)
                    (λ right. ground (arith, recorded)),
                recorded,
              ))
      ]

  -- A login answers that there were too many attempts exactly if the failures of its address within
  -- the window have reached the limit, and then it has changed nothing.
  pub login_throttled :
      (r : Request) (name password : String) (db : Database)
      → let failures =
          count_failed_attempts_by_ip r.ip (r.seen - s.login_lockout_minutes * 60_000_000) db in
        (((login s verify r name password db).0 ≡ http_error 429)
          ↔ (s.login_max_attempts_per_ip ≤ failures))
        × ((failures < s.login_max_attempts_per_ip) ⊎ ((login s verify r name password db).1 ≡ db))
  unfolding login may_try admit open_session
  login_throttled r name password db = ground arith
