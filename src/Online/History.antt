-- ===== src/Online/History.antt =====
-- The calls of OnlineServiceCore one after another: whose token a session has.
use mathlib.Core.Path.{subst}
use swift_chat_system.Common.{
  ◌≡◌, sym, ap, ◌∙◌, true, false, not, ◌&&◌, ◌||◌, Option, none, some, List, [], ◌∷◌, arith,
  Bool-cases, inl, inr,
}
use swift_chat_system.Common.Int.{ℤ, ltb_ℤ, leb_ℤ}
use swift_chat_system.Common.Text.{Text, is_empty, text_eq, text_eq_iff}
use swift_chat_system.Json.{Json}
use swift_chat_system.Json
use swift_chat_system.Storage.{Db, IsLawful}
use swift_chat_system.Online.Store.{
  SessionData, key_session, get_session, set_session, remove_session, get_session-set_session,
  get_session-remove_session,
}
use swift_chat_system.Online.Jwt.{Jwt}
use swift_chat_system.Online.Service
use swift_chat_system.Online.Service.{
  Times, LoginResult, expire_hours, normalize_device_id, new_session,
}
use swift_chat_system.Online.Sessions.{login-IsLoggedIn, login-validate_token}

-- The arguments are those of the methods, then the clock readings.
pub data Call : Type 0 where
  login : Text → Text → Times → Call
  logout : Text → Text → Call
  validate_token : Text → ℤ → ℤ → Call

-- What JwtVerify says of a token that JwtCreate made with the secret: it names the user that it was
-- made for. The token is not empty, since it has two dots.
pub record NamesItsUser (T : Jwt) (secret : Text) : Type 0 where
  pub names :
      (u : Text) (hours created verified : ℤ)
      → (T.verify (T.create u secret hours created) secret verified).user_id ≡ u
  pub nonempty : (u : Text) (hours created : ℤ) → is_empty (T.create u secret hours created) ≡ false

module _ (D : Db) (J : Json) (T : Jwt) (secret : Text) where
  unfoldable pub step : D.State → Call → D.State
  step s (login u device times) = (Service.login D J T secret s u device times).0
  step s (logout u token) = (Service.logout D J T secret s u token).0
  step s (validate_token token verify_ms now_ms) =
      (Service.validate_token D J T secret s token verify_ms now_ms).0

  unfoldable pub run : D.State → List Call → D.State
  run s [] = s
  run s (c ∷ cs) = run (step s c) cs

  -- Every session has a token that was made for its user.
  record IsIssued (s : D.State) : Type 0 where
    issued :
        (u : Text) (x : SessionData)
        → get_session D J s u ≡ some x
        → (created : ℤ) × (x.token ≡ T.create u secret expire_hours created)

  module _ (law : IsLawful D) (json_law : Json.IsLawful J) where
    remove_session-IsIssued :
        (s : D.State) (u : Text) → IsIssued s → IsIssued (remove_session D J s u).0
    remove_session-IsIssued s u h = record {
      issued = λ v x found.
          h.issued v x (ground (arith, get_session-remove_session D J law json_law s u v));
    }

    login_fresh-IsIssued :
        (s : D.State) (u device : Text) (times : Times)
        → IsIssued s
        → IsIssued (Service.login_fresh D J T secret s u device times).0
    unfolding Service.login_fresh Service.generate_token
    login_fresh-IsIssued s u device times h =
        let session = new_session D J T secret u device times in
        let read = get_session-set_session D J law json_law s session in
        let stored : IsIssued (set_session D J s session).0 = record {
          issued = λ v x found. elim (Bool-cases ((set_session D J s session).1 && text_eq u v)) [
            | inl own ↦ (times.create_ms, ground (arith, read v, text_eq_iff u v))
            | inr other ↦ h.issued v x (ground (arith, read v))
          ];
        } in
        elim (Bool-cases (set_session D J s session).1) [
          | inl done ↦ rw done stored
          | inr failed ↦ rw failed stored
        ]

    login_found-IsIssued :
        (s : D.State) (u device : Text) (times : Times) (o : Option SessionData)
        → IsIssued s
        → IsIssued (Service.login_found D J T secret s u device times o).0
    unfolding Service.login_found
    login_found-IsIssued s u device times none h = login_fresh-IsIssued s u device times h
    login_found-IsIssued s u device times (some x) h =
        elim (Bool-cases (text_eq x.device_id device)) [
          | inr other ↦ rw other h
          | inl same ↦
              let alive =
                (T.verify x.token secret times.verify_ms).valid && ltb_ℤ times.now_ms x.expire_at in
              elim (Bool-cases alive) [
                | inl kept ↦ rw (same, kept) h
                | inr fresh ↦ rw (same, fresh) (login_fresh-IsIssued s u device times h)
              ]
        ]

    logout_found-IsIssued :
        (s : D.State) (u : Text) (o : Option SessionData)
        → IsIssued s
        → IsIssued (Service.logout_found D J T secret s u o).0
    unfolding Service.logout_found
    logout_found-IsIssued s u none h = h
    logout_found-IsIssued s u (some x) h = remove_session-IsIssued s u h

    validate_found-IsIssued :
        (s : D.State) (token u : Text) (now_ms : ℤ) (o : Option SessionData)
        → IsIssued s
        → IsIssued (Service.validate_found D J T secret s token u now_ms o).0
    unfolding Service.validate_found
    validate_found-IsIssued s token u now_ms none h = h
    validate_found-IsIssued s token u now_ms (some x) h =
        elim (Bool-cases (not (text_eq x.token token) || leb_ℤ x.expire_at now_ms)) [
          | inl ended ↦ rw ended (remove_session-IsIssued s u h)
          | inr valid ↦ rw valid h
        ]

    login-IsIssued :
        (s : D.State) (u device : Text) (times : Times)
        → IsIssued s
        → IsIssued (Service.login D J T secret s u device times).0
    unfolding Service.login
    login-IsIssued s u device times h = elim (Bool-cases (is_empty u)) [
      | inl missing ↦ rw missing h
      | inr given ↦
          rw given
            (login_found-IsIssued s u (normalize_device_id device) times (get_session D J s u) h)
    ]

    validate_token-IsIssued :
        (s : D.State) (token : Text) (verify_ms now_ms : ℤ)
        → IsIssued s
        → IsIssued (Service.validate_token D J T secret s token verify_ms now_ms).0
    unfolding Service.validate_token
    validate_token-IsIssued s token verify_ms now_ms h =
        let payload = T.verify token secret verify_ms in
        elim (Bool-cases (is_empty token)) [
          | inl missing ↦ rw missing h
          | inr given ↦ elim (Bool-cases payload.valid) [
            | inr refused ↦ rw (given, refused) h
            | inl accepted ↦
                rw (given, accepted)
                  (validate_found-IsIssued s token payload.user_id now_ms
                    (get_session D J s payload.user_id) h)
          ]
        ]

    step-IsIssued : (s : D.State) (c : Call) → IsIssued s → IsIssued (step s c)
    unfolding step Service.logout
    step-IsIssued s (login u device times) h = login-IsIssued s u device times h
    step-IsIssued s (logout u token) h = logout_found-IsIssued s u (get_session D J s u) h
    step-IsIssued s (validate_token token verify_ms now_ms) h =
        validate_token-IsIssued s token verify_ms now_ms h

    run-IsIssued : (s : D.State) (cs : List Call) → IsIssued s → IsIssued (run s cs)
    unfolding run
    run-IsIssued s [] h = h
    run-IsIssued s (c ∷ cs) h = run-IsIssued (step s c) cs (step-IsIssued s c h)

    empty-IsIssued : (e : D.State) → ((k : Text) → D.get e k ≡ none) → IsIssued e
    unfolding get_session
    empty-IsIssued e empty = record {
      issued = λ u x found. absurd (ground (arith, empty (key_session u)));
    }

    -- From an empty database, after any logins, logouts and validations, the token of a login that
    -- succeeds is valid for the user who logged in, as long as JwtVerify accepts it and the expiry of
    -- the answer is not reached, and validating it changes nothing. JwtVerify reads from a token of
    -- JwtCreate the user it was made for, and such a token is not empty.
    pub login-validate_issued :
        (token_law : NamesItsUser T secret) (e t : D.State) (cs : List Call) (u device : Text)
        (times : Times) (r : LoginResult) (verify_ms now_ms : ℤ)
        → ((k : Text) → D.get e k ≡ none)
        → Service.login D J T secret (run e cs) u device times ≡ (t, r)
        → r.success ≡ true
        → (T.verify r.token secret verify_ms).valid ≡ true
        → leb_ℤ r.expire_at now_ms ≡ false
        → Service.validate_token D J T secret t r.token verify_ms now_ms
          ≡ (t, record { valid = true; user_id = u })
    login-validate_issued token_law e t cs u device times r verify_ms now_ms empty answered ok valid
          early =
        let s = run e cs in
        let h : IsIssued (Service.login D J T secret s u device times).0 =
          login-IsIssued s u device times (run-IsIssued e cs (empty-IsIssued e empty)) in
        let h' : IsIssued t = subst (λ (x : D.State × LoginResult). IsIssued x.0) answered h in
        let (x, found, _, token, _) =
          login-IsLoggedIn D J T secret law json_law s t u device times r answered ok in
        let (created, made) = h'.issued u x found in
        let issued : r.token ≡ T.create u secret expire_hours created = sym token ∙ made in
        login-validate_token D J T secret law json_law s t u device times r verify_ms now_ms
          answered ok (ap is_empty issued ∙ token_law.nonempty u expire_hours created) valid
          (ap (λ y. (T.verify y secret verify_ms).user_id) issued
            ∙ token_law.names u expire_hours created verify_ms)
          early
