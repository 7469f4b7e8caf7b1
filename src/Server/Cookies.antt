-- ===== src/Server/Cookies.antt =====
-- trade_post/api/server.py and trade_post/security/auth.py: the cookies of a session.
use trade_post.Base.{ℕ, ◌*◌, String, Bool, true, false, Option, none, some}
use trade_post.Config.{Settings, AppEnv}

pub data SameSite : Type 0 where
  strict lax : SameSite

pub record Cookie : Type 0 where
  pub key : String
  pub value : String
  pub httponly : Bool
  pub secure : Bool
  pub samesite : SameSite
  pub max_age : Option ℕ  -- in seconds; none deletes the cookie
  pub path : String

abbrev pub is_production : AppEnv → Bool
is_production AppEnv.production = true
is_production AppEnv.development = false
is_production AppEnv.staging = false

abbrev pub site_of : Bool → SameSite
site_of true = strict
site_of false = lax

module _ {F : Type 0} (s : Settings F) where
  abbrev pub cookie : String → String → Bool → Option ℕ → Cookie
  cookie key value httponly max_age = record {
    key = key;
    value = value;
    httponly = httponly;
    secure = is_production s.app_env;
    samesite = site_of (is_production s.app_env);
    max_age = max_age;
    path = "/";
  }

  -- `_set_session_cookie`
  unfoldable pub set_session_cookie : String → Cookie
  set_session_cookie sid = cookie "drox_session" sid true (some (s.session_ttl_minutes * 60))

  -- `_clear_session_cookie`
  unfoldable pub clear_session_cookie : Cookie
  clear_session_cookie = cookie "drox_session" "" true none

  unfoldable pub set_csrf_cookie : String → Cookie
  set_csrf_cookie token = cookie "drox_csrf" token false (some (s.session_ttl_minutes * 60))

  -- `_clear_csrf_cookie`
  unfoldable pub clear_csrf_cookie : Cookie
  clear_csrf_cookie = cookie "drox_csrf" "" false none
