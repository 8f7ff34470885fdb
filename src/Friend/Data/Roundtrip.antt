-- ===== src/Friend/Data/Roundtrip.antt =====
-- What comes back of a record that friend_store.cpp serialises.
use mathlib.Core.Option.{some-injective}
use swift_chat_system.Common.{◌≡◌, ap, ◌∙◌, sym, ◌↔◌, some}
use swift_chat_system.Common.Int.{to_int32, IsInt32, to_int32_fixed}
use swift_chat_system.Common.Text.{text_eq}
use swift_chat_system.Json.{Json, IsLawful, find}
use swift_chat_system.Friend.Data.{
  FriendData, FriendRequestData, FriendGroupData, serialize_friend, deserialize_friend,
  serialize_request, deserialize_request, serialize_group, deserialize_group, friend_object,
  request_object, group_object,
}

module _ (J : Json) (law : IsLawful J) where
  -- The time of a friend comes back as the `int` of its low 32 bits, the rest unchanged.
  pub deserialize-serialize_friend :
      (d : FriendData)
      → deserialize_friend J (serialize_friend J d)
        ≡ some (record d { added_at = to_int32 d.added_at })
  unfolding deserialize_friend serialize_friend find text_eq
  deserialize-serialize_friend d =
      let (j, parsed, same) = law.parse-dump (friend_object d) in rw parsed (simp same)

  pub deserialize-serialize_request :
      (r : FriendRequestData)
      → deserialize_request J (serialize_request J r)
        ≡ some (record r { status = to_int32 r.status; created_at = to_int32 r.created_at })
  unfolding deserialize_request serialize_request find text_eq
  deserialize-serialize_request r =
      let (j, parsed, same) = law.parse-dump (request_object r) in rw parsed (simp same)

  pub deserialize-serialize_group :
      (g : FriendGroupData)
      → deserialize_group J (serialize_group J g)
        ≡ some (record g { sort_order = to_int32 g.sort_order })
  unfolding deserialize_group serialize_group find text_eq
  deserialize-serialize_group g =
      let (j, parsed, same) = law.parse-dump (group_object g) in rw parsed (simp same)

  -- A friend record survives a round trip exactly when its time fits into an `int`.
  pub friend_roundtrip_iff :
      (d : FriendData) → (deserialize_friend J (serialize_friend J d) ≡ some d) ↔ IsInt32 d.added_at
  friend_roundtrip_iff d = (
    λ e. (to_int32_fixed d.added_at).0 (
        ap (λ (x : FriendData). x.added_at)
          (some-injective _ _ (sym (deserialize-serialize_friend d) ∙ e))),
    λ h.
        deserialize-serialize_friend d
        ∙ ap (λ a. some (record d { added_at = a })) ((to_int32_fixed d.added_at).1 h),
  )
