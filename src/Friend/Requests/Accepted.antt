-- ===== src/Friend/Requests/Accepted.antt =====
-- What HandleRequest makes of a request that it accepts.
use swift_chat_system.Common.{◌≡◌, refl, true, some, arith}
use swift_chat_system.Common.Int.{ℤ, pos}
use swift_chat_system.Common.Text.{Text, codes, text_eq_refl, starts_with}
use swift_chat_system.Common.Text.Fields.{IsColonFree}
use swift_chat_system.Json.{Json}
use swift_chat_system.Storage.{Db, IsLawful}
use swift_chat_system.Friend.Data.{FriendRequestData}
use swift_chat_system.Friend.Keys.{key_friend, key_friend_req}
use swift_chat_system.Friend.Store
use swift_chat_system.Friend.Store.{is_friend, get_request, update_request_status}
use swift_chat_system.Friend.Store.Frame.{get-update_request_status}
use swift_chat_system.Friend.Store.Relation.{is_friend-add_friend}
use swift_chat_system.Friend.Service.{
  ensure_default_group, accepted_friend, accept_request, handle_found, handle_request,
}

module _ (D : Db) (J : Json) (law : IsLawful D) where
  is_friend-update_request_status :
      (s : D.State) (i : Text) (n : ℤ) (a b : Text)
      → is_friend D J (update_request_status D J s i n).0 a b ≡ is_friend D J s a b
  unfolding is_friend key_friend key_friend_req starts_with
  is_friend-update_request_status s i n a b =
      rw (get-update_request_status D J law s i n (codes "friend:") (key_friend a b) refl refl)

  is_friend-accept_request :
      (s : D.State) (u i : Text) (r : FriendRequestData) (g : Text) (now : ℤ)
      → IsColonFree u
      → IsColonFree r.from_user_id
      → (accept_request D J s u i r g now).1 ≡ true
      → is_friend D J (accept_request D J s u i r g now).0 u r.from_user_id ≡ true
  unfolding accept_request
  is_friend-accept_request s u i r g now hu hf done =
      let s' = ensure_default_group D J s u in
      let d = accepted_friend u r g now in
      let added = Store.add_friend D J s' d in
      ground (
        arith,
        is_friend-add_friend D J law s' d u r.from_user_id hu hf hu,
        is_friend-update_request_status added.0 i (pos 1) u r.from_user_id,
        text_eq_refl u,
        text_eq_refl r.from_user_id,
      )

  -- If HandleRequest returns true for an accepted request, its receiver and its sender, whose
  -- identifiers have no colon, are friends.
  pub is_friend-handle_request :
      (s t : D.State) (u i : Text) (g : Text) (now : ℤ) (r : FriendRequestData)
      → IsColonFree u
      → IsColonFree r.from_user_id
      → get_request D J s i ≡ some r
      → handle_request D J s u i true g now ≡ (t, true)
      → is_friend D J t u r.from_user_id ≡ true
  unfolding handle_request handle_found
  is_friend-handle_request s t u i g now r hu hf found done =
      ground (arith, is_friend-accept_request s u i r g now hu hf)
