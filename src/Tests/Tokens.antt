-- ===== src/Tests/Tokens.antt =====
-- A first login with the tokens of jwt_helper.cpp, at a time before and at one after 2038.
use swift_chat_system.Common.{◌≡◌, refl, arith, true, none, []}
use swift_chat_system.Common.Int.{ℤ, pos, ◌+ℤ◌, to_int32}
use swift_chat_system.Common.Text.{Text, codes, text_eq, text_lt}
use swift_chat_system.Json.Bytes.{byte_codec, byte_codec-IsLawful, byte_codec-PrintsBytes}
use swift_chat_system.Storage.{commit}
use swift_chat_system.Storage.Memory.{memory, memory-IsLawful, no_entries}
use swift_chat_system.Online.Service
use swift_chat_system.Online.Service.{Times, LoginResult, no_token, normalize_device_id}
use swift_chat_system.Online.Store
use swift_chat_system.Online.Tokens.{jwt_helper, login-validate_jwt, login-validate_jwt_overflow}

abbrev hmac : Text → Text → Text
hmac key text = key

abbrev at : ℤ → Times
at ms = record { now_ms = ms; verify_ms = ms; token_ms = ms; create_ms = ms }

abbrev logged_in_at : ℤ → memory.State × LoginResult
logged_in_at ms =
    Service.login memory byte_codec (jwt_helper byte_codec hmac) [] no_entries (codes "u") []
      (at ms)

no_session : Store.get_session memory byte_codec no_entries (codes "u") ≡ none
unfolding memory no_entries Store.get_session
no_session = refl

login_succeeds : (ms : ℤ) → (logged_in_at ms).1.success ≡ true
unfolding memory no_entries text_eq text_lt commit Service.login Service.login_found
    Service.login_fresh Service.generate_token normalize_device_id Store.set_session
    Store.get_session Store.key_session
login_succeeds ms = refl

expires : (ms : ℤ) → (logged_in_at ms).1.expire_at ≡ ms +ℤ pos 604800000
unfolding memory no_entries text_eq text_lt commit Service.login Service.login_found
    Service.login_fresh Service.generate_token normalize_device_id Store.set_session
    Store.get_session Store.key_session
expires ms = refl

login-validate_jwt_example :
    Service.validate_token memory byte_codec
      (jwt_helper byte_codec hmac)
      []
      (logged_in_at (pos 5000)).0
      (logged_in_at (pos 5000)).1.token
      (pos 6000)
      (pos 6000)
    ≡ ((logged_in_at (pos 5000)).0, record { valid = true; user_id = codes "u" })
unfolding to_int32
login-validate_jwt_example =
    login-validate_jwt memory byte_codec hmac [] memory-IsLawful byte_codec-IsLawful
      byte_codec-PrintsBytes no_entries (logged_in_at (pos 5000)).0 (codes "u") [] (at (pos 5000))
      (logged_in_at (pos 5000)).1 (pos 6000) (pos 6000) no_session refl (login_succeeds (pos 5000))
      refl (rw (expires (pos 5000)) refl)

-- 2147483648 seconds after 1970 is on 19 January 2038.
login-validate_jwt_overflow_example :
    Service.validate_token memory byte_codec
      (jwt_helper byte_codec hmac)
      []
      (logged_in_at (pos 2147483648000)).0
      (logged_in_at (pos 2147483648000)).1.token
      (pos 2147483649000)
      (pos 2147483649000)
    ≡ ((logged_in_at (pos 2147483648000)).0, no_token)
login-validate_jwt_overflow_example =
    login-validate_jwt_overflow memory byte_codec hmac [] memory-IsLawful byte_codec-IsLawful
      byte_codec-PrintsBytes no_entries (logged_in_at (pos 2147483648000)).0 (codes "u") []
      (at (pos 2147483648000)) (logged_in_at (pos 2147483648000)).1 (pos 2147483649000) 2148088448
      2147483649000 no_session refl (login_succeeds (pos 2147483648000)) refl (omega arith)
      (omega arith)
