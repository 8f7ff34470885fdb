-- ===== src/Online/Service.antt =====
-- OnlineServiceCore of onlinesvr/internal/service/online_service.cpp. The clock readings are
-- arguments, in the order in which a call makes them. The store is set by the constructor's caller.
use swift_chat_system.Common.{
  Bool, true, false, not, ◌&&◌, ◌||◌, Option, none, some, [], if◌then◌else◌,
}
use swift_chat_system.Common.Int.{ℤ, pos, ◌+ℤ◌, ltb_ℤ, leb_ℤ}
use swift_chat_system.Common.Text.{Text, codes, text_eq, is_empty}
use swift_chat_system.Json.{Json}
use swift_chat_system.Storage.{Db}
use swift_chat_system.Online.Store.{SessionData, set_session, get_session, remove_session}
use swift_chat_system.Online.Jwt.{Jwt}

pub record LoginResult : Type 0 where
  pub success : Bool
  pub token : Text
  pub expire_at : ℤ
  pub error : Text

pub record LogoutResult : Type 0 where
  pub success : Bool
  pub error : Text

pub record TokenResult : Type 0 where
  pub valid : Bool
  pub user_id : Text

-- The clock of a Login: its own reading, that of JwtVerify, and those of GenerateToken and of
-- JwtCreate in it.
pub record Times : Type 0 where
  pub now_ms : ℤ
  pub verify_ms : ℤ
  pub token_ms : ℤ
  pub create_ms : ℤ

-- kTokenExpireDays * 24, and kTokenExpireDays * kMsPerDay.
abbrev pub expire_hours : ℤ
expire_hours = pos 168

abbrev pub expire_ms : ℤ
expire_ms = pos 604800000

abbrev pub login_error : Text → LoginResult
login_error e = record { success = false; token = []; expire_at = pos 0; error = e }

abbrev pub logged_in : Text → ℤ → LoginResult
logged_in token expire_at = record {
  success = true;
  token = token;
  expire_at = expire_at;
  error = [];
}

abbrev pub no_token : TokenResult
no_token = record { valid = false; user_id = [] }

unfoldable pub normalize_device_id : Text → Text
normalize_device_id device_id = if is_empty device_id then codes "default" else device_id

-- What the constructor makes of an empty secret.
abbrev pub secret_of : Text → Text
secret_of jwt_secret = if is_empty jwt_secret then codes "swift_online_secret_2026" else jwt_secret

module _ (D : Db) (J : Json) (T : Jwt) (secret : Text) where
  unfoldable pub generate_token : Text → ℤ → ℤ → Text × ℤ
  generate_token user_id token_ms create_ms =
      (T.create user_id secret expire_hours create_ms, token_ms +ℤ expire_ms)

  -- The session of a new token.
  abbrev pub new_session : Text → Text → Times → SessionData
  new_session user_id device times =
      let generated = generate_token user_id times.token_ms times.create_ms in
      record {
        user_id = user_id;
        device_id = device;
        token = generated.0;
        login_time = times.now_ms;
        expire_at = generated.1;
      }

  -- The end of Login: a new token.
  unfoldable pub login_fresh : D.State → Text → Text → Times → D.State × LoginResult
  login_fresh s user_id device times =
      let session = new_session user_id device times in
      let stored = set_session D J s session in
      if not stored.1
      then (stored.0, login_error (codes "Failed to persist session"))
      else (stored.0, logged_in session.token session.expire_at)

  -- Login from the session that was found.
  unfoldable pub login_found :
      D.State → Text → Text → Times → Option SessionData → D.State × LoginResult
  login_found s user_id device times none = login_fresh s user_id device times
  login_found s user_id device times (some existing) =
      if not (text_eq existing.device_id device)
      then (s, login_error (codes "User already logged in on another device"))
      else if (T.verify existing.token secret times.verify_ms).valid
          && ltb_ℤ times.now_ms existing.expire_at
      then (s, logged_in existing.token existing.expire_at)
      else login_fresh s user_id device times

  unfoldable pub login : D.State → Text → Text → Times → D.State × LoginResult
  login s user_id device_id times =
      if is_empty user_id
      then (s, login_error (codes "user_id required"))
      else login_found s user_id (normalize_device_id device_id) times (get_session D J s user_id)

  -- Logout from the session that was found: the result of RemoveSession is not looked at.
  unfoldable pub logout_found : D.State → Text → Option SessionData → D.State × LogoutResult
  logout_found s user_id none = (s, record { success = true; error = [] })
  logout_found s user_id (some session) =
      ((remove_session D J s user_id).0, record { success = true; error = [] })

  -- The token is not looked at.
  unfoldable pub logout : D.State → Text → Text → D.State × LogoutResult
  logout s user_id token = logout_found s user_id (get_session D J s user_id)

  -- ValidateToken from the session of the user whom the token names.
  unfoldable pub validate_found :
      D.State → Text → Text → ℤ → Option SessionData → D.State × TokenResult
  validate_found s token user_id now_ms none = (s, no_token)
  validate_found s token user_id now_ms (some session) =
      if not (text_eq session.token token) || leb_ℤ session.expire_at now_ms
      then ((remove_session D J s user_id).0, no_token)
      else (s, record { valid = true; user_id = user_id })

  unfoldable pub validate_token : D.State → Text → ℤ → ℤ → D.State × TokenResult
  validate_token s token verify_ms now_ms =
      let payload = T.verify token secret verify_ms in
      if is_empty token
      then (s, no_token)
      else if not payload.valid
      then (s, no_token)
      else validate_found s token payload.user_id now_ms (get_session D J s payload.user_id)
