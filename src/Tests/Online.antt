-- ===== src/Tests/Online.antt =====
-- OnlineSvr at concrete inputs: a token is one byte and the user's identifier.
use swift_chat_system.Common.{◌≡◌, refl, true, none, List, [], ◌∷◌, drop}
use swift_chat_system.Common.Int.{pos}
use swift_chat_system.Common.Text.{Text, codes, text_eq, text_lt}
use swift_chat_system.Json.{find}
use swift_chat_system.Json.Codec.{codec, codec-IsLawful}
use swift_chat_system.Storage.{commit}
use swift_chat_system.Storage.Memory.{memory, memory-IsLawful, no_entries}
use swift_chat_system.Online.Jwt.{Jwt}
use swift_chat_system.Online.Store
use swift_chat_system.Online.Store.{
  SessionData, deserialize_session, serialize_session, deserialize-serialize_session,
}
use swift_chat_system.Online.Service
use swift_chat_system.Online.Service.{Times, LoginResult, login_error, normalize_device_id}
use swift_chat_system.Online.Sessions.{login_other_device}
use swift_chat_system.Online.History.{
  Call, login, logout, validate_token, NamesItsUser, step, run, login-validate_issued,
}

abbrev jwt : Jwt
jwt = record {
  create = λ u secret hours now. b't' ∷ u;
  verify = λ token secret now. record {
    user_id = drop 1 token;
    issuer = codes "swift-online";
    iat = pos 0;
    exp = pos 0;
    valid = true;
  };
}

abbrev times : Times
times = record { now_ms = pos 1; verify_ms = pos 2; token_ms = pos 3; create_ms = pos 4 }

abbrev after_login : memory.State
after_login = (Service.login memory codec jwt [] no_entries (codes "u") [] times).0

abbrev answer : LoginResult
answer = record { success = true; token = codes "tu"; expire_at = pos 604800003; error = [] }

login_succeeds :
    Service.login memory codec jwt [] no_entries (codes "u") [] times ≡ (after_login, answer)
unfolding memory codec no_entries text_eq text_lt commit Service.login Service.login_found
    Service.login_fresh Service.generate_token normalize_device_id Store.set_session
    Store.get_session Store.key_session serialize_session
login_succeeds = refl

abbrev session : SessionData
session = record {
  user_id = codes "u";
  device_id = codes "default";
  token = codes "tu";
  login_time = pos 1;
  expire_at = pos 604800003;
}

jwt-NamesItsUser : NamesItsUser jwt []
jwt-NamesItsUser = record {
  names = λ u hours created verified. refl;
  nonempty = λ u hours created. refl;
}

no_key : (k : Text) → memory.get no_entries k ≡ none
unfolding memory no_entries
no_key k = refl

-- A login, a logout, and a validation of the old token.
abbrev calls : List Call
calls =
    login (codes "u") [] times
    ∷ logout (codes "u") (codes "tu")
    ∷ validate_token (codes "tu") (pos 5) (pos 6)
    ∷ []

login_after_calls :
    Service.login memory codec jwt []
      (run memory codec jwt [] no_entries calls)
      (codes "u")
      []
      times
    ≡ (after_login, answer)
unfolding memory codec no_entries text_eq text_lt commit run step Service.login Service.logout
    Service.logout_found Service.validate_token Service.validate_found Service.login_found
    Service.login_fresh Service.generate_token normalize_device_id Store.set_session
    Store.get_session Store.remove_session Store.key_session serialize_session deserialize_session
    find
login_after_calls = refl

login-validate_issued_example :
    Service.validate_token memory codec jwt [] after_login (codes "tu") (pos 5) (pos 6)
    ≡ (after_login, record { valid = true; user_id = codes "u" })
login-validate_issued_example =
    login-validate_issued memory codec jwt [] memory-IsLawful codec-IsLawful jwt-NamesItsUser
      no_entries after_login calls (codes "u") [] times answer (pos 5) (pos 6) no_key
      login_after_calls refl refl refl

login_other_device_example :
    Service.login memory codec jwt [] after_login (codes "u") (codes "phone") times
    ≡ (after_login, login_error (codes "User already logged in on another device"))
unfolding normalize_device_id text_eq
login_other_device_example =
    login_other_device memory codec jwt [] memory-IsLawful codec-IsLawful no_entries after_login
      after_login (codes "u") [] (codes "phone") times times answer login_succeeds refl refl refl

abbrev after_old : memory.State
after_old = (Service.validate_token memory codec jwt [] after_login (codes "xu") (pos 5) (pos 6)).0
