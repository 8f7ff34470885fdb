-- ===== src/Auth/Accounts.antt =====
-- An account is kept: its name, identifier and password after any later calls.
use swift_chat_system.Common.{◌≡◌, false, Option, none, some}
use swift_chat_system.Common.Int.{ℤ}
use swift_chat_system.Common.Text.{Text, is_empty}
use swift_chat_system.Json.{Json}
use swift_chat_system.Storage.{Db}
use swift_chat_system.Auth.Store.{UserData, key_user, key_username, get_by_id}
use swift_chat_system.Auth.Service.{generate_user_id, register, update_profile}

-- What of a user no call changes.
pub record Credentials : Type 0 where
  pub user_id : Text
  pub username : Text
  pub password_hash : Text

abbrev pub credentials : Option UserData → Option Credentials
credentials none = none
credentials (some u) =
    some (record { user_id = u.user_id; username = u.username; password_hash = u.password_hash })

module _ (D : Db) (J : Json) where
  -- The name leads to the identifier, and the identifier to a user of the name and the password.
  pub record IsAccount (s : D.State) (username user_id hash : Text) : Type 0 where
    pub named : is_empty username ≡ false
    pub indexed : D.get s (key_username username) ≡ some user_id
    pub stored :
        credentials (get_by_id D J s user_id)
        ≡ some (record { user_id = user_id; username = username; password_hash = hash })

  -- Every user is stored under its own identifier.
  abbrev pub IsOwn : D.State → Type 0
  IsOwn s = (i : Text) (u : UserData) → get_by_id D J s i ≡ some u → u.user_id ≡ i

  -- One call of the service. An identifier that is drawn is one that is not taken.
  pub data Step (digest : Text → Option Text) (s : D.State) : D.State → Type 0 where
    registered :
        (username password nickname email avatar_url random : Text) (now : ℤ)
        → D.get s (key_user (generate_user_id random)) ≡ none
        → Step digest s
            (register D J digest s username password nickname email avatar_url random now).0
    updated :
        (user_id nickname avatar_url signature : Text) (now : ℤ)
        → Step digest s (update_profile D J s user_id nickname avatar_url signature now).0

  pub data Reach (digest : Text → Option Text) (s : D.State) : D.State → Type 0 where
    here : Reach digest s s
    next : {t u : D.State} → Reach digest s t → Step digest t u → Reach digest s u
