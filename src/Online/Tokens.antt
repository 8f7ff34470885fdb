-- ===== src/Online/Tokens.antt =====
-- OnlineSvr with the tokens that jwt_helper.cpp makes: a first login and the validation of its token.
use swift_chat_system.Common.{ℕ, ◌≡◌, refl, ap, ◌≤◌, ◌<◌, true, false, not, none, [], ◌∷◌, arith}
use swift_chat_system.Common.Int.{ℤ, pos, ltb_ℤ, leb_ℤ, to_int32}
use swift_chat_system.Common.Text.{Text, codes, text_eq, is_empty}
use swift_chat_system.Json.{Json}
use swift_chat_system.Json
use swift_chat_system.Storage.{Db, IsLawful}
use swift_chat_system.Jwt.Token.{expiry, seconds, jwt_create, jwt_verify, with_dot}
use swift_chat_system.Jwt.Verify.{jwt_verify-jwt_create}
use swift_chat_system.Online.Jwt.{Jwt}
use swift_chat_system.Online.Store.{get_session}
use swift_chat_system.Online.Service.{
  Times, LoginResult, no_token, expire_hours, login, login_found, login_fresh, generate_token,
  validate_token,
}
use swift_chat_system.Online.Sessions.{login-validate_token}
use swift_chat_system.Online.History.{NamesItsUser}

-- JwtCreate has "swift-online" as its default issuer.
unfoldable pub jwt_helper : Json → (Text → Text → Text) → Jwt
jwt_helper J hmac = record {
  create =
      λ user_id secret hours now. jwt_create J hmac user_id secret hours (codes "swift-online") now;
  verify = jwt_verify J hmac;
}

negative :
    (n v : ℕ)
    → 2147483648 ≤ n
    → n < 4294967296
    → not (ltb_ℤ (to_int32 (pos n)) (seconds (pos v))) ≡ false
unfolding to_int32
negative n v low high = ground arith

is_empty-with_dot : (a b : Text) → is_empty (with_dot a b) ≡ false
is_empty-with_dot [] b = refl
is_empty-with_dot (c ∷ a) b = refl

module _ (D : Db) (J : Json) (hmac : Text → Text → Text) (secret : Text) (law : IsLawful D)
    (json_law : Json.IsLawful J) (bytes : Json.PrintsBytes J) where
  -- The token of a user who has no session is new.
  login-token :
      (s t : D.State) (u device : Text) (times : Times) (r : LoginResult)
      → get_session D J s u ≡ none
      → login D J (jwt_helper J hmac) secret s u device times ≡ (t, r)
      → r.success ≡ true
      → (r.token ≡ jwt_create J hmac u secret expire_hours (codes "swift-online") times.create_ms)
        × (is_empty u ≡ false)
  unfolding login login_found login_fresh generate_token jwt_helper
  login-token s t u device times r absent e ok = (ground arith, ground arith)

  jwt_create-given :
      (u issuer : Text) (hours now : ℤ)
      → is_empty (jwt_create J hmac u secret hours issuer now) ≡ false
  unfolding jwt_create
  jwt_create-given u issuer hours now = is_empty-with_dot _ _

  -- What the calls one after another rely on of the two functions.
  jwt_helper-NamesItsUser : NamesItsUser (jwt_helper J hmac) secret
  unfolding jwt_helper
  jwt_helper-NamesItsUser = record {
    names = λ u hours created verified.
        ap (λ p. p.user_id)
          (jwt_verify-jwt_create J hmac json_law bytes u secret (codes "swift-online") hours created
            verified);
    nonempty = λ u hours created. jwt_create-given u (codes "swift-online") hours created;
  }

  -- The token of a first login is valid for its user, and validating it changes nothing, as long as
  -- the expiry in the token, as an int, and that of the answer are not past.
  pub login-validate_jwt :
      (s t : D.State) (u device : Text) (times : Times) (r : LoginResult) (verify_ms now_ms : ℤ)
      → get_session D J s u ≡ none
      → login D J (jwt_helper J hmac) secret s u device times ≡ (t, r)
      → r.success ≡ true
      → ltb_ℤ (to_int32 (expiry expire_hours times.create_ms)) (seconds verify_ms) ≡ false
      → leb_ℤ r.expire_at now_ms ≡ false
      → validate_token D J (jwt_helper J hmac) secret t r.token verify_ms now_ms
        ≡ (t, record { valid = true; user_id = u })
  unfolding jwt_helper text_eq
  login-validate_jwt s t u device times r verify_ms now_ms absent e ok young early =
      let (made, named) = login-token s t u device times r absent e ok in
      let read =
        jwt_verify-jwt_create J hmac json_law bytes u secret (codes "swift-online") expire_hours
          times.create_ms verify_ms in
      login-validate_token D J (jwt_helper J hmac) secret law json_law s t u device times r
        verify_ms now_ms e ok
        (rw made (jwt_create-given u (codes "swift-online") expire_hours times.create_ms))
        (rw (made, read, young, named)) (rw (made, read)) early

  -- When the expiry of a token, in seconds, does not fit into 31 bits, but into 32, JwtVerify reads a
  -- negative time, so that the token of a first login is not valid at any time after 1970, and
  -- validating it changes nothing.
  pub login-validate_jwt_overflow :
      (s t : D.State) (u device : Text) (times : Times) (r : LoginResult) (now_ms : ℤ) (n v : ℕ)
      → get_session D J s u ≡ none
      → login D J (jwt_helper J hmac) secret s u device times ≡ (t, r)
      → r.success ≡ true
      → expiry expire_hours times.create_ms ≡ pos n
      → 2147483648 ≤ n
      → n < 4294967296
      → validate_token D J (jwt_helper J hmac) secret t r.token (pos v) now_ms ≡ (t, no_token)
  unfolding jwt_helper validate_token
  login-validate_jwt_overflow s t u device times r now_ms n v absent e ok late low high =
      let (made, named) = login-token s t u device times r absent e ok in
      let read =
        jwt_verify-jwt_create J hmac json_law bytes u secret (codes "swift-online") expire_hours
          times.create_ms (pos v) in
      let past : not (ltb_ℤ (to_int32 (expiry expire_hours times.create_ms)) (seconds (pos v)))
          ≡ false =
        rw late (negative n v low high) in
      rw (made, read, past, jwt_create-given u (codes "swift-online") expire_hours times.create_ms)
