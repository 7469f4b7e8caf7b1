-- ===== src/Server/Padded.antt =====
-- A login strips the name that was typed, and the creation of a user does not.
use trade_post.Base.{◌≡◌, sym, ◌∙◌, ap, String, Bool, some, strip, strip_idem, arith}
use trade_post.Config.{Settings}
use trade_post.Domain.Texts.{find_first-IsMatch}
use trade_post.Persistence.{Database, UserRow}
use trade_post.Persistence.Users.{get_user_by_username}
use trade_post.Security.{Answer, answer}
use trade_post.Server.{Request, login}
use trade_post.Server.Opening.{login_answers}

found_name :
    (n : String) (db : Database) (u : UserRow) → get_user_by_username n db ≡ some u → n ≡ u.username
unfolding get_user_by_username
found_name n db u h = find_first-IsMatch (λ v. v.username) n db.users u h

answered_name :
    (a b n m : String) → Path (Answer (String × String)) (answer (a, b)) (answer (n, m)) → a ≡ n
answered_name a b n m h = ground arith

-- Whatever name is typed, the user that a login answers with has a name without white space at its
-- ends: a user whose name has some never logs in.
pub login-strip :
    {F : Type 0} (s : Settings F) (verify : String → String → Bool) (r : Request)
    (name password n rank : String) (db : Database)
    → (login s verify r name password db).0 ≡ answer (n, rank)
    → strip n ≡ n
login-strip s verify r name password n rank db e =
    let opened = login_answers s verify r name password db (n, rank) e in
    let stripped = found_name (strip name) db opened.user opened.found in
    let same : opened.user.username ≡ n =
      answered_name _ _ _ _ (sym (ap (λ x. x.0) opened.result) ∙ e) in
    rw (sym (stripped ∙ same)) (strip_idem name)
