-- ===== src/Auth/Store.antt =====
-- UserData and RocksDBUserStore of authsvr/internal/store/user_store.h and user_store.cpp.
use swift_chat_system.Common.{
  ℕ, zero, suc, ◌+◌, ◌≡◌, Bool, true, false, not, ◌&&◌, ◌||◌, Option, none, some, List, [], ◌∷◌,
  ◌++◌, if◌then◌else◌, leb, is_some, map, ◌>>=◌,
}
use swift_chat_system.Common.Int.{ℤ, pos, to_int32, pos_part, leb_ℤ}
use swift_chat_system.Common.Text.{Text, codes, text_eq, is_empty, starts_with}
use swift_chat_system.Json.{Json, IsLawful, Object, find, str, int, text_value, int_value}
use swift_chat_system.Storage.{Db, Op, put, delete, commit}
use swift_chat_system.Storage.Order.{Entries}

pub record UserData : Type 0 where
  pub user_id : Text
  pub username : Text
  pub password_hash : Text
  pub nickname : Text
  pub avatar_url : Text
  pub signature : Text
  pub gender : ℤ
  pub created_at : ℤ
  pub updated_at : ℤ

abbrev pub user_object : UserData → Object
user_object u =
    (codes "user_id", str u.user_id)
    ∷ (codes "username", str u.username)
    ∷ (codes "password_hash", str u.password_hash)
    ∷ (codes "nickname", str u.nickname)
    ∷ (codes "avatar_url", str u.avatar_url)
    ∷ (codes "signature", str u.signature)
    ∷ (codes "gender", int u.gender)
    ∷ (codes "created_at", int u.created_at)
    ∷ (codes "updated_at", int u.updated_at)
    ∷ []

-- The default of the two times is an `int`, so that they are read as one.
abbrev pub read_user : Object → Option UserData
read_user j = do
  user_id ← text_value j (codes "user_id") []
  username ← text_value j (codes "username") []
  password_hash ← text_value j (codes "password_hash") []
  nickname ← text_value j (codes "nickname") []
  avatar_url ← text_value j (codes "avatar_url") []
  signature ← text_value j (codes "signature") []
  gender ← int_value j (codes "gender") (pos 0)
  created_at ← int_value j (codes "created_at") (pos 0)
  updated_at ← int_value j (codes "updated_at") (pos 0)
  some (record {
    user_id = user_id;
    username = username;
    password_hash = password_hash;
    nickname = nickname;
    avatar_url = avatar_url;
    signature = signature;
    gender = gender;
    created_at = created_at;
    updated_at = updated_at;
  })

-- The user as it is read back.
abbrev pub as_read : UserData → UserData
as_read u = record u {
  gender = to_int32 u.gender;
  created_at = to_int32 u.created_at;
  updated_at = to_int32 u.updated_at;
}

unfoldable pub key_user : Text → Text
key_user user_id = codes "user:" ++ user_id

unfoldable pub key_username : Text → Text
key_username username = codes "username:" ++ username

-- `std::tolower` of the C locale.
unfoldable pub to_lower : ℕ → ℕ
to_lower c = if leb b'A' c && leb c b'Z' then c + 32 else c

-- `find(key) != npos`
unfoldable pub occurs : Text → Text → Bool
occurs key [] = is_empty key
occurs key (c ∷ cs) = starts_with key (c ∷ cs) || occurs key cs

-- The user's texts have the keyword.
abbrev pub is_match : Text → UserData → Bool
is_match key u = occurs key (map to_lower (u.user_id ++ (b' ' ∷ u.username ++ (b' ' ∷ u.nickname))))

module _ (J : Json) where
  unfoldable pub serialize_user : UserData → Text
  serialize_user u = J.dump (user_object u)

  unfoldable pub deserialize_user : Text → Option UserData
  deserialize_user text = do j ← J.parse text; read_user j

  pub deserialize-serialize_user :
      (law : IsLawful J) (u : UserData) → deserialize_user (serialize_user u) ≡ some (as_read u)
  unfolding deserialize_user serialize_user find text_eq
  deserialize-serialize_user law u =
      let (j, parsed, same) = law.parse-dump (user_object u) in rw parsed (simp same)

  -- The loop of SearchUsers, with the room that is left in the result.
  unfoldable pub search : Text → ℕ → Entries → List UserData
  search key zero es = []
  search key (suc room) [] = []
  search key (suc room) ((k, v) ∷ es) = elim (deserialize_user v) [
    | none ↦ search key (suc room) es
    | some u ↦ elim (is_match key u) [
      | true ↦ u ∷ search key room es
      | false ↦ search key (suc room) es
    ]
  ]

module _ (D : Db) (J : Json) where
  unfoldable pub username_exists : D.State → Text → Bool
  username_exists s username =
      if is_empty username then false else is_some (D.get s (key_username username))

  abbrev pub user_batch : UserData → List Op
  user_batch u =
      put (key_user u.user_id) (serialize_user J u) ∷ put (key_username u.username) u.user_id ∷ []

  unfoldable pub create : D.State → UserData → D.State × Bool
  create s u = if username_exists s u.username then (s, false) else commit D s (user_batch u)

  unfoldable pub get_by_id : D.State → Text → Option UserData
  get_by_id s user_id =
      if is_empty user_id
      then none
      else (do value ← D.get s (key_user user_id); deserialize_user J value)

  unfoldable pub get_by_username : D.State → Text → Option UserData
  get_by_username s username =
      if is_empty username
      then none
      else (do user_id ← D.get s (key_username username); get_by_id s user_id)

  -- The operations that move the index to a new name.
  abbrev pub rename_batch : UserData → UserData → List Op
  rename_batch old u =
      if text_eq old.username u.username
      then []
      else delete (key_username old.username) ∷ put (key_username u.username) u.user_id ∷ []

  unfoldable pub update_found : D.State → UserData → Option UserData → D.State × Bool
  update_found s u none = (s, false)
  update_found s u (some old) =
      if not (text_eq old.username u.username) && username_exists s u.username
      then (s, false)
      else commit D s (rename_batch old u ++ put (key_user u.user_id) (serialize_user J u) ∷ [])

  unfoldable pub update : D.State → UserData → D.State × Bool
  update s u = if is_empty u.user_id then (s, false) else update_found s u (get_by_id s u.user_id)

  unfoldable pub search_users : D.State → Text → ℤ → List UserData
  search_users s keyword limit =
      if is_empty keyword || leb_ℤ limit (pos 0)
      then []
      else search J (map to_lower keyword) (pos_part limit) (D.scan s (codes "user:"))
