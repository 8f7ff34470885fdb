-- ===== src/Friend/Invariant.antt =====
-- The invariant of the friend store: friendship goes both ways, and what the records say agrees
-- with the keys that they stand under.
pub mod Entries
pub mod Reads
pub mod Store
pub mod Changes
use swift_chat_system.Common.{◌≡◌, Bool, true, some}
use swift_chat_system.Common.Text.{Text, text_eq}
use swift_chat_system.Common.Text.Fields.{IsColonFree}
use swift_chat_system.Json.{Json}
use swift_chat_system.Storage.{Db}
use swift_chat_system.Storage.Batch.{Valued}
use swift_chat_system.Friend.Data.{
  FriendData, FriendRequestData, deserialize_friend, deserialize_request,
}
use swift_chat_system.Friend.Keys.{key_friend, key_friend_req}
use swift_chat_system.Friend.Store.{is_friend}

abbrev pub IsSymmetric : (D : Db) → Json → D.State → Type 0
IsSymmetric D J s =
    (a b : Text) → IsColonFree a → IsColonFree b → is_friend D J s a b ≡ is_friend D J s b a

-- A friend record names the friend of its key.
abbrev pub NamesFriend : Json → Text → Text → Type 0
NamesFriend J k v =
    (a b : Text)
    → IsColonFree a
    → text_eq k (key_friend a b) ≡ true
    → (d : FriendData) → deserialize_friend J v ≡ some d
    → d.friend_id ≡ b

-- The sender of a request is an identifier with no colon.
abbrev pub NamesSender : Json → Text → Text → Type 0
NamesSender J k v =
    (i : Text)
    → text_eq k (key_friend_req i) ≡ true
    → (r : FriendRequestData) → deserialize_request J v ≡ some r
    → IsColonFree r.from_user_id

abbrev pub IsGoodEntry : Json → Text → Text → Type 0
IsGoodEntry J k v = NamesFriend J k v × NamesSender J k v

pub record Inv (D : Db) (J : Json) (s : D.State) : Type 0 where
  pub symmetric : IsSymmetric D J s
  pub good : Valued D (IsGoodEntry J) s
