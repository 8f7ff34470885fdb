-- ===== src/Online/Sessions.antt =====
-- One session for a user: what a login, a logout and a validation tell of each other.
use mathlib.Core.Path.{subst}
use swift_chat_system.Common.{
  ◌≡◌, refl, ap, ◌∙◌, true, false, ◌&&◌, Option, none, some, arith, Option-cases, Bool-cases, inl,
  inr,
}
use swift_chat_system.Common.Int.{ℤ, ltb_ℤ, leb_ℤ}
use swift_chat_system.Common.Text.{Text, codes, text_eq, is_empty, text_eq_iff, text_eq_refl}
use swift_chat_system.Json.{Json}
use swift_chat_system.Json
use swift_chat_system.Storage.{Db, IsLawful}
use swift_chat_system.Online.Store.{
  SessionData, get_session, set_session, remove_session, get_session-set_session,
  get_session-remove_session,
}
use swift_chat_system.Online.Jwt.{Jwt}
use swift_chat_system.Online.Service.{
  Times, LoginResult, login_error, no_token, normalize_device_id, login_fresh, login_found, login,
  logout, logout_found, validate_found, validate_token, new_session,
}

module _ (D : Db) (J : Json) (T : Jwt) (secret : Text) (law : IsLawful D)
    (json_law : Json.IsLawful J) where
  -- The session that a successful login leaves.
  abbrev pub IsLoggedIn : D.State → Text → Text → LoginResult → Type 0
  IsLoggedIn t u device r =
      (session : SessionData) × (get_session D J t u ≡ some session)
      × (session.device_id ≡ device)
      × (session.token ≡ r.token)
      × (session.expire_at ≡ r.expire_at)

  login_fresh-IsLoggedIn :
      (s : D.State) (u device : Text) (times : Times)
      → (login_fresh D J T secret s u device times).1.success ≡ true
      → IsLoggedIn
          (login_fresh D J T secret s u device times).0
          u
          device
          (login_fresh D J T secret s u device times).1
  unfolding login_fresh
  login_fresh-IsLoggedIn s u device times ok =
      let session = new_session D J T secret u device times in
      elim (Bool-cases (set_session D J s session).1) [
        | inr failed ↦ absurd (ground arith)
        | inl stored ↦ rw stored (
          session,
          ground (arith, get_session-set_session D J law json_law s session u, text_eq_refl u),
          refl,
          refl,
          refl,
        )
      ]

  login_found-IsLoggedIn :
      (s : D.State) (u device : Text) (times : Times) (o : Option SessionData)
      → get_session D J s u ≡ o
      → (login_found D J T secret s u device times o).1.success ≡ true
      → IsLoggedIn
          (login_found D J T secret s u device times o).0
          u
          device
          (login_found D J T secret s u device times o).1
  unfolding login_found
  login_found-IsLoggedIn s u device times none e ok = login_fresh-IsLoggedIn s u device times ok
  login_found-IsLoggedIn s u device times (some x) e ok =
      elim (Bool-cases (text_eq x.device_id device)) [
        | inr other ↦ absurd (ground arith)
        | inl same ↦
            let alive =
              (T.verify x.token secret times.verify_ms).valid && ltb_ℤ times.now_ms x.expire_at in
            elim (Bool-cases alive) [
              | inl kept ↦
                  rw (same, kept) (x, e, (text_eq_iff x.device_id device).0 same, refl, refl)
              | inr fresh ↦
                  rw (same, fresh) (login_fresh-IsLoggedIn s u device times (ground arith))
            ]
      ]

  -- A login that succeeds leaves a session of the user on the device, with the token and the time
  -- of expiry that the answer has, whether the session is new or was there.
  pub login-IsLoggedIn :
      (s t : D.State) (u device : Text) (times : Times) (r : LoginResult)
      → login D J T secret s u device times ≡ (t, r)
      → r.success ≡ true
      → IsLoggedIn t u (normalize_device_id device) r
  unfolding login
  login-IsLoggedIn s t u device times r e ok = elim (Bool-cases (is_empty u)) [
    | inl missing ↦ absurd (ground arith)
    | inr given ↦
        let found : login_found D J T secret s u (normalize_device_id device) times
              (get_session D J s u)
            ≡ (t, r) =
          ground arith in
        subst (λ (x : D.State × LoginResult). IsLoggedIn x.0 u (normalize_device_id device) x.1)
          found
          (login_found-IsLoggedIn s u (normalize_device_id device) times _ refl
            (ap (λ (x : D.State × LoginResult). x.1.success) found ∙ ok))
  ]

  -- The token of a login that succeeded is valid for its user if JwtVerify accepts it as one of the
  -- user and the expiry that the answer has is not reached, and validating it changes nothing.
  pub login-validate_token :
      (s t : D.State) (u device : Text) (times : Times) (r : LoginResult) (verify_ms now_ms : ℤ)
      → login D J T secret s u device times ≡ (t, r)
      → r.success ≡ true
      → is_empty r.token ≡ false
      → (T.verify r.token secret verify_ms).valid ≡ true
      → (T.verify r.token secret verify_ms).user_id ≡ u
      → leb_ℤ r.expire_at now_ms ≡ false
      → validate_token D J T secret t r.token verify_ms now_ms
        ≡ (t, record { valid = true; user_id = u })
  unfolding validate_token validate_found
  login-validate_token s t u device times r verify_ms now_ms e ok given verified names early =
      let (x, found, _, token, expiry) = login-IsLoggedIn s t u device times r e ok in
      ground (arith, text_eq_refl r.token)

  -- After a login that succeeded, in any later state that has the session that it left, a login from
  -- another device is refused and changes nothing, at any time, even after the session has expired.
  pub login_other_device :
      (s t later : D.State) (u device device' : Text) (times times' : Times) (r : LoginResult)
      → login D J T secret s u device times ≡ (t, r)
      → r.success ≡ true
      → get_session D J later u ≡ get_session D J t u
      → text_eq (normalize_device_id device) (normalize_device_id device') ≡ false
      → login D J T secret later u device' times'
        ≡ (later, login_error (codes "User already logged in on another device"))
  unfolding login login_found
  login_other_device s t later u device device' times times' r e ok kept other =
      let (x, found, on, _, _) = login-IsLoggedIn s t u device times r e ok in
      let named : is_empty u ≡ false = ground arith in ground arith

  get_session-logout :
      (s : D.State) (u token : Text)
      → (remove_session D J s u).1 ≡ true
      → get_session D J (logout D J T secret s u token).0 u ≡ none
  unfolding logout logout_found
  get_session-logout s u token written = elim (Option-cases (get_session D J s u)) [
    | inl missing ↦ rw missing missing
    | inr (x, found) ↦
        rw found (ground (arith, get_session-remove_session D J law json_law s u u, text_eq_refl u))
  ]

  -- After a logout whose removal was written the user has no session, and no token is valid for
  -- the user.
  logout-validate_token :
      (s : D.State) (u token token' : Text) (verify_ms now_ms : ℤ)
      → (remove_session D J s u).1 ≡ true
      → (T.verify token' secret verify_ms).user_id ≡ u
      → validate_token D J T secret (logout D J T secret s u token).0 token' verify_ms now_ms
        ≡ ((logout D J T secret s u token).0, no_token)
  unfolding validate_token validate_found
  logout-validate_token s u token token' verify_ms now_ms written names =
      let gone = get_session-logout s u token written in ground arith
