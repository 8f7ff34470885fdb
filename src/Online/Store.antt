-- ===== src/Online/Store.antt =====
-- RocksDBSessionStore of onlinesvr/internal/store/session_store.cpp: one record for a user.
use swift_chat_system.Common.{
  ◌≡◌, Bool, Option, none, some, [], ◌∷◌, ◌++◌, ◌>>=◌, if◌then◌else◌, arith,
}
use swift_chat_system.Common.Int.{ℤ, pos}
use swift_chat_system.Common.Text.{Text, codes, text_eq}
use swift_chat_system.Common.Text.Fields.{text_eq-append_left}
use swift_chat_system.Json.{Json, Object, str, int, text_value, int64_value, find}
use swift_chat_system.Json
use swift_chat_system.Storage.{Db, IsLawful, put, delete, after, commit, get-commit}

pub record SessionData : Type 0 where
  pub user_id : Text
  pub device_id : Text
  pub token : Text
  pub login_time : ℤ
  pub expire_at : ℤ

abbrev pub session_object : SessionData → Object
session_object session =
    (codes "user_id", str session.user_id)
    ∷ (codes "device_id", str session.device_id)
    ∷ (codes "token", str session.token)
    ∷ (codes "login_time", int session.login_time)
    ∷ (codes "expire_at", int session.expire_at)
    ∷ []

abbrev pub read_session : Object → Option SessionData
read_session j = do
  user_id ← text_value j (codes "user_id") []
  device_id ← text_value j (codes "device_id") []
  token ← text_value j (codes "token") []
  login_time ← int64_value j (codes "login_time") (pos 0)
  expire_at ← int64_value j (codes "expire_at") (pos 0)
  some (record {
    user_id = user_id;
    device_id = device_id;
    token = token;
    login_time = login_time;
    expire_at = expire_at;
  })

unfoldable pub key_session : Text → Text
key_session user_id = codes "session:" ++ user_id

module _ (J : Json) where
  unfoldable pub serialize_session : SessionData → Text
  serialize_session session = J.dump (session_object session)

  unfoldable pub deserialize_session : Text → Option SessionData
  deserialize_session text = do j ← J.parse text; read_session j

  -- A session comes back from its serialised form as it was.
  pub deserialize-serialize_session :
      (law : Json.IsLawful J) (session : SessionData)
      → deserialize_session (serialize_session session) ≡ some session
  unfolding deserialize_session serialize_session find text_eq
  deserialize-serialize_session law session =
      let (j, parsed, same) = law.parse-dump (session_object session) in rw parsed (simp same)

module _ (D : Db) (J : Json) where
  unfoldable pub set_session : D.State → SessionData → D.State × Bool
  set_session s session =
      commit D s (put (key_session session.user_id) (serialize_session J session) ∷ [])

  -- An exception of the parser gives no session.
  unfoldable pub get_session : D.State → Text → Option SessionData
  get_session s user_id = do value ← D.get s (key_session user_id); deserialize_session J value

  unfoldable pub remove_session : D.State → Text → D.State × Bool
  remove_session s user_id = commit D s (delete (key_session user_id) ∷ [])

  module _ (law : IsLawful D) (json_law : Json.IsLawful J) where
    text_eq-key_session : (u v : Text) → text_eq (key_session u) (key_session v) ≡ text_eq u v
    unfolding key_session
    text_eq-key_session u v = text_eq-append_left (codes "session:") u v

    -- A session that was set is there, and the other users keep theirs.
    pub get_session-set_session :
        (s : D.State) (session : SessionData) (v : Text)
        → get_session (set_session s session).0 v ≡ (
            if (set_session s session).1
            then (if text_eq session.user_id v then some session else get_session s v)
            else get_session s v)
    unfolding get_session set_session after
    get_session-set_session s session v = ground (
      arith,
      get-commit D law s (put (key_session session.user_id) (serialize_session J session) ∷ [])
          (key_session v),
      text_eq-key_session session.user_id v,
      deserialize-serialize_session J json_law session,
    )

    pub get_session-remove_session :
        (s : D.State) (u v : Text)
        → get_session (remove_session s u).0 v ≡ (
            if (remove_session s u).1
            then (if text_eq u v then none else get_session s v)
            else get_session s v)
    unfolding get_session remove_session after
    get_session-remove_session s u v = ground (
      arith,
      get-commit D law s (delete (key_session u) ∷ []) (key_session v),
      text_eq-key_session u v,
    )
