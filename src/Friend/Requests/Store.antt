-- ===== src/Friend/Requests/Store.antt =====
-- How requests are read after each write of the store.
use swift_chat_system.Common.{◌≡◌, refl, ap, true, false, some, [], ◌∷◌, arith}
use swift_chat_system.Common.Int.{ℤ, to_int32}
use swift_chat_system.Common.Text.{Text, codes, is_empty, starts_with, text_eq_refl}
use swift_chat_system.Json.{Json}
use swift_chat_system.Json
use swift_chat_system.Storage.{Db, IsLawful, put, after, get-commit}
use swift_chat_system.Friend.Data.{
  FriendData, FriendRequestData, FriendGroupData, serialize_request,
}
use swift_chat_system.Friend.Data.Roundtrip.{deserialize-serialize_request}
use swift_chat_system.Friend.Keys.{key_friend, key_friend_req, key_friend_group}
use swift_chat_system.Friend.Store.{
  add_friend, create_group, get_request, update_request_status, store_status,
}
use swift_chat_system.Friend.Store.Frame.{get-add_friend, get-create_group}

-- The request as it is read back.
abbrev pub as_read : FriendRequestData → FriendRequestData
as_read r = record r { status = to_int32 r.status; created_at = to_int32 r.created_at }

module _ (D : Db) (J : Json) (law : IsLawful D) (json_law : Json.IsLawful J) where
  get_request-same :
      (s t : D.State) (i : Text)
      → D.get t (key_friend_req i) ≡ D.get s (key_friend_req i)
      → get_request D J t i ≡ get_request D J s i
  unfolding get_request
  get_request-same s t i e = rw e

  -- Friends and groups are written beside the requests.
  pub get_request-add_friend :
      (s : D.State) (d : FriendData) (i : Text)
      → get_request D J (add_friend D J s d).0 i ≡ get_request D J s i
  unfolding key_friend key_friend_req starts_with
  get_request-add_friend s d i =
      get_request-same s _ i (
        get-add_friend D J law s d (codes "friend_req:") (key_friend_req i) (refl, (refl, tt)) refl)

  pub get_request-create_group :
      (s : D.State) (g : FriendGroupData) (i : Text)
      → get_request D J (create_group D J s g).0 i ≡ get_request D J s i
  unfolding key_friend_group key_friend_req starts_with
  get_request-create_group s g i =
      get_request-same s _ i
        (get-create_group D J law s g (codes "friend_req:") (key_friend_req i) refl refl)

  get_request-store_status :
      (s : D.State) (i : Text) (n : ℤ) (r : FriendRequestData)
      → is_empty i ≡ false
      → (store_status D J s i n (some r)).1 ≡ true
      → get_request D J (store_status D J s i n (some r)).0 i
        ≡ some (as_read (record r { status = n }))
  unfolding store_status get_request after
  get_request-store_status s i n r given done = ground (
    arith,
    get-commit D law s (put (key_friend_req i) (serialize_request J (record r { status = n })) ∷ [])
        (key_friend_req i),
    text_eq_refl (key_friend_req i),
    deserialize-serialize_request J json_law (record r { status = n }),
  )

  -- A status that was stored is read back, with the rest of the request.
  pub get_request-update_request_status :
      (s : D.State) (i : Text) (n : ℤ) (r : FriendRequestData)
      → get_request D J s i ≡ some r
      → (update_request_status D J s i n).1 ≡ true
      → get_request D J (update_request_status D J s i n).0 i
        ≡ some (as_read (record r { status = n }))
  unfolding update_request_status
  get_request-update_request_status s i n r e done =
      ground (arith, get_request-store_status s i n r, ap (store_status D J s i n) e)
