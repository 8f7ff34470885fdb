-- ===== src/Auth/Service.antt =====
-- AuthServiceCore of authsvr/internal/service/auth_service.cpp. The clock, the random part of an
-- identifier and OpenSSL's digest are arguments.
use swift_chat_system.Common.{
  ℕ, Bool, true, false, not, ◌||◌, Option, none, some, List, [], ◌++◌, if◌then◌else◌, ltb, ◌==◌,
  map, length,
}
use swift_chat_system.Common.Int.{ℤ, pos, leb_ℤ, ltb_ℤ}
use swift_chat_system.Common.Text.{Text, codes, text_eq, is_empty}
use swift_chat_system.ErrorCode.{
  ErrorCode, ok, user_not_found, password_wrong, user_already_exists, username_invalid,
  password_too_weak, rocksdb_error,
}
use swift_chat_system.Json.{Json}
use swift_chat_system.Storage.{Db}
use swift_chat_system.Utils.Codec.{is_digit, is_upper, is_lower, compute_digest_hex}
use swift_chat_system.Utils.Strings.{all_of}
use swift_chat_system.Auth.Store
use swift_chat_system.Auth.Store.{UserData}

pub record AuthProfile : Type 0 where
  pub user_id : Text
  pub username : Text
  pub nickname : Text
  pub avatar_url : Text
  pub signature : Text
  pub gender : ℤ
  pub created_at : ℤ

pub record RegisterResult : Type 0 where
  pub success : Bool
  pub user_id : Text
  pub error : Text
  pub error_code : ErrorCode

pub record VerifyCredentialsResult : Type 0 where
  pub success : Bool
  pub user_id : Text
  pub profile : Option AuthProfile
  pub error : Text
  pub error_code : ErrorCode

pub record UpdateProfileResult : Type 0 where
  pub success : Bool
  pub error : Text
  pub error_code : ErrorCode

abbrev pub password_salt : Text
password_salt = codes "swift_salt_2026"

abbrev pub is_name_char : ℕ → Bool
is_name_char c = (is_digit c || (is_upper c || is_lower c)) || c == b'_'

unfoldable pub validate_username : Text → Bool
validate_username username =
    if ltb (length username) 3 || ltb 32 (length username)
    then false
    else all_of is_name_char username

unfoldable pub validate_password : Text → Bool
validate_password password = not (ltb (length password) 8)

abbrev pub to_profile : UserData → AuthProfile
to_profile u = record {
  user_id = u.user_id;
  username = u.username;
  nickname = u.nickname;
  avatar_url = u.avatar_url;
  signature = u.signature;
  gender = u.gender;
  created_at = u.created_at;
}

abbrev pub register_error : Text → ErrorCode → RegisterResult
register_error why code = record { success = false; user_id = []; error = why; error_code = code }

abbrev pub credentials_error : Text → ErrorCode → VerifyCredentialsResult
credentials_error why code = record {
  success = false;
  user_id = [];
  profile = none;
  error = why;
  error_code = code;
}

abbrev pub update_error : Text → ErrorCode → UpdateProfileResult
update_error why code = record { success = false; error = why; error_code = code }

-- `GenerateShortId("u_", 12)` from its random letters and digits.
abbrev pub generate_user_id : Text → Text
generate_user_id random = codes "u_" ++ random

-- A text that replaces another unless it is empty.
abbrev pub or_else : Text → Text → Text
or_else new old = if is_empty new then old else new

module _ (digest : Text → Option Text) where
  unfoldable pub hash_password : Text → Text
  hash_password password = compute_digest_hex digest (password ++ password_salt)

  abbrev pub new_user : Text → Text → Text → Text → Text → ℤ → UserData
  new_user user_id username password nickname avatar_url now = record {
    user_id = user_id;
    username = username;
    password_hash = hash_password password;
    nickname = if is_empty nickname then username else nickname;
    avatar_url = avatar_url;
    signature = [];
    gender = pos 0;
    created_at = now;
    updated_at = now;
  }

  -- VerifyCredentials from the user that was found.
  unfoldable pub verify_found : Text → Option UserData → VerifyCredentialsResult
  verify_found password none = credentials_error (codes "User not found") user_not_found
  verify_found password (some u) =
      if not (text_eq (hash_password password) u.password_hash)
      then credentials_error (codes "Wrong password") password_wrong
      else record {
        success = true;
        user_id = u.user_id;
        profile = some (to_profile u);
        error = [];
        error_code = ok;
      }

module _ (D : Db) (J : Json) (digest : Text → Option Text) where
  -- The email is not looked at.
  unfoldable pub register :
      D.State → Text → Text → Text → Text → Text → Text → ℤ → D.State × RegisterResult
  register s username password nickname email avatar_url random now =
      let user_id = generate_user_id random in
      let created =
        Store.create D J s (new_user digest user_id username password nickname avatar_url now) in
      if not (validate_username username)
      then (
        s,
        register_error (codes "Username must be 3-32 chars, alphanumeric and underscore")
            username_invalid,
      )
      else if not (validate_password password)
      then (s, register_error (codes "Password must be at least 6 characters") password_too_weak)
      else if Store.username_exists D J s username
      then (s, register_error (codes "Username already exists") user_already_exists)
      else if created.1
      then (created.0, record { success = true; user_id = user_id; error = []; error_code = ok })
      else (created.0, register_error (codes "Failed to create user") rocksdb_error)

  unfoldable pub verify_credentials : D.State → Text → Text → VerifyCredentialsResult
  verify_credentials s username password =
      verify_found digest password (Store.get_by_username D J s username)

module _ (D : Db) (J : Json) where
  unfoldable pub get_profile : D.State → Text → Option AuthProfile
  get_profile s user_id = elim (Store.get_by_id D J s user_id) [
    | none ↦ none
    | some u ↦ some (to_profile u)
  ]

  -- UpdateProfile from the user that was found.
  unfoldable pub profile_found :
      D.State → Text → Text → Text → ℤ → Option UserData → D.State × UpdateProfileResult
  profile_found s nickname avatar_url signature now none =
      (s, update_error (codes "User not found") user_not_found)
  profile_found s nickname avatar_url signature now (some u) =
      let updated = Store.update D J s (record u {
        nickname = or_else nickname u.nickname;
        avatar_url = or_else avatar_url u.avatar_url;
        signature = or_else signature u.signature;
        updated_at = now;
      }) in
      if updated.1
      then (updated.0, record { success = true; error = []; error_code = ok })
      else (updated.0, update_error (codes "Failed to update profile") rocksdb_error)

  unfoldable pub update_profile :
      D.State → Text → Text → Text → Text → ℤ → D.State × UpdateProfileResult
  update_profile s user_id nickname avatar_url signature now =
      profile_found s nickname avatar_url signature now (Store.get_by_id D J s user_id)

  unfoldable pub search_users : D.State → Text → ℤ → List AuthProfile
  search_users s keyword limit =
      let capped =
        if leb_ℤ limit (pos 0) then pos 20 else if ltb_ℤ limit (pos 100) then limit else pos 100 in
      if is_empty keyword then [] else map to_profile (Store.search_users D J s keyword capped)
