-- ===== src/Friend/Invariant/Entries.antt =====
-- The entries that the store writes are good ones.
use mathlib.Core.Path.{subst}
use mathlib.Core.Option.{some-injective}
use swift_chat_system.Common.{◌≡◌, sym, ap, ◌∙◌, false, some, arith}
use swift_chat_system.Common.Text.{Text, codes, starts_with, text_eq_iff}
use swift_chat_system.Common.Text.Fields.{IsColonFree}
use swift_chat_system.Json.{Json}
use swift_chat_system.Json
use swift_chat_system.Friend.Data.{
  FriendData, FriendRequestData, serialize_friend, serialize_request, deserialize_friend,
  deserialize_request,
}
use swift_chat_system.Friend.Data.Roundtrip.{
  deserialize-serialize_friend, deserialize-serialize_request,
}
use swift_chat_system.Friend.Keys.{
  key_friend, key_friend_req, text_eq-key_friend, text_eq-friend_req,
}
use swift_chat_system.Friend.Invariant.{IsGoodEntry}

-- A key that is neither a friend's nor a request's holds anything.
pub IsGoodEntry-other :
    (J : Json) (k v : Text)
    → starts_with (codes "friend:") k ≡ false
    → starts_with (codes "friend_req:") k ≡ false
    → IsGoodEntry J k v
unfolding key_friend key_friend_req starts_with
IsGoodEntry-other J k v h h' = (
  λ a b _ e. cc (ap (starts_with (codes "friend:")) ((text_eq_iff k (key_friend a b)).0 e)),
  λ i e. cc (ap (starts_with (codes "friend_req:")) ((text_eq_iff k (key_friend_req i)).0 e)),
)

module _ (J : Json) (law : Json.IsLawful J) where
  -- What is read back names the same friend, and the same sender.
  friend_id-read :
      (d d' : FriendData)
      → deserialize_friend J (serialize_friend J d) ≡ some d'
      → d.friend_id ≡ d'.friend_id
  friend_id-read d d' q =
      ap (λ (x : FriendData). x.friend_id)
        (some-injective _ _ (sym (deserialize-serialize_friend J law d) ∙ q))

  from_user_id-read :
      (r r' : FriendRequestData)
      → deserialize_request J (serialize_request J r) ≡ some r'
      → r.from_user_id ≡ r'.from_user_id
  from_user_id-read r r' q =
      ap (λ (x : FriendRequestData). x.from_user_id)
        (some-injective _ _ (sym (deserialize-serialize_request J law r) ∙ q))

  pub IsGoodEntry-friend :
      (u f : Text) (d : FriendData)
      → IsColonFree u
      → d.friend_id ≡ f
      → IsGoodEntry J (key_friend u f) (serialize_friend J d)
  IsGoodEntry-friend u f d h same = (
    λ a b k e d' q.
        ground (arith, text_eq-key_friend u f a b h k, text_eq_iff f b, friend_id-read d d' q),
    λ i e. cc (text_eq-friend_req u f i).0,
  )

  pub IsGoodEntry-request :
      (i : Text) (r : FriendRequestData)
      → IsColonFree r.from_user_id
      → IsGoodEntry J (key_friend_req i) (serialize_request J r)
  IsGoodEntry-request i r h = (
    λ a b _ e. cc (text_eq-friend_req a b i).1,
    λ j e r' q. subst IsColonFree (from_user_id-read r r' q) h,
  )
