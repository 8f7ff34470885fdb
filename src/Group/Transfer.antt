-- ===== src/Group/Transfer.antt =====
-- The roles in a group and its owner after UpdateMemberRole and after TransferOwner.
use swift_chat_system.Common.{
  ◌≡◌, refl, true, false, ◌&&◌, Option, none, some, arith, [], ◌∷◌, if◌then◌else◌,
}
use swift_chat_system.Common.Int.{ℤ, to_int32}
use swift_chat_system.Common.Text.{Text, text_eq, is_empty, text_eq_iff, text_eq_refl}
use swift_chat_system.Common.Text.Fields.{IsColonFree}
use swift_chat_system.ErrorCode.{ok}
use swift_chat_system.Json.{Json}
use swift_chat_system.Json
use swift_chat_system.Storage.{Db, IsLawful, after, put, get-commit}
use swift_chat_system.Group.Data.{
  GroupData, GroupMemberData, serialize_member, serialize_group, key_group, key_group_member,
  text_eq-key_group_member, deserialize-serialize_member, deserialize-serialize_group,
}
use swift_chat_system.Group.Store.{
  get_group, get_member, role_found, update_member_role, write_group, update_group_owner, is_member,
}
use swift_chat_system.Group.Service.{role_owner, role_member}
use swift_chat_system.Group.Roles.{hand_over, transfer_found, transfer_owner}
use swift_chat_system.Group.Members.{apart}

abbrev pub role_of : Option GroupMemberData → Option ℤ
role_of none = none
role_of (some m) = some m.role

abbrev pub owner_of : Option GroupData → Option Text
owner_of none = none
owner_of (some g) = some g.owner_id

module _ (D : Db) (J : Json) (law : IsLawful D) (json_law : Json.IsLawful J) where
  role-role_found :
      (s : D.State) (g u : Text) (r : ℤ) (o : Option GroupMemberData) (h v : Text)
      → IsColonFree g
      → IsColonFree h
      → is_empty g ≡ false
      → is_empty u ≡ false
      → let c = role_found D J s g u r o in
        role_of (get_member D J c.0 h v) ≡ (
          if c.1 && (text_eq g h && text_eq u v)
          then some (to_int32 r)
          else role_of (get_member D J s h v))
  unfolding role_found get_member after
  role-role_found s g u r none h v a b given named = ground arith
  role-role_found s g u r (some m) h v a b given named =
      let text = serialize_member J (record m { role = r }) in
      ground (
        arith,
        get-commit D law s (put (key_group_member g u) text ∷ []) (key_group_member h v),
        text_eq-key_group_member g u h v a b,
        text_eq_iff g h,
        text_eq_iff u v,
        deserialize-serialize_member J json_law (record m { role = r }),
      )

  -- UpdateMemberRole gives the one member the role, if it succeeds, and changes no other.
  role-update_member_role :
      (s : D.State) (g u : Text) (r : ℤ) (h v : Text)
      → IsColonFree g
      → IsColonFree h
      → let c = update_member_role D J s g u r in
        role_of (get_member D J c.0 h v) ≡ (
          if c.1 && (text_eq g h && text_eq u v)
          then some (to_int32 r)
          else role_of (get_member D J s h v))
  unfolding update_member_role
  role-update_member_role s g u r h v a b =
      ground (arith, role-role_found s g u r (get_member D J s g u) h v a b)

  role-write_group :
      (s : D.State) (g : Text) (change : GroupData → GroupData) (o : Option GroupData) (h v : Text)
      → role_of (get_member D J (write_group D J s g change o).0 h v)
        ≡ role_of (get_member D J s h v)
  unfolding write_group get_member after
  role-write_group s g change none h v = refl
  role-write_group s g change (some x) h v = ground (
    arith,
    get-commit D law s (put (key_group g) (serialize_group J (change x)) ∷ [])
        (key_group_member h v),
    apart g v h v,
  )

  role-update_group_owner :
      (s : D.State) (g u h v : Text)
      → role_of (get_member D J (update_group_owner D J s g u).0 h v)
        ≡ role_of (get_member D J s h v)
  unfolding update_group_owner
  role-update_group_owner s g u h v =
      ground (arith, role-write_group s g (λ x. record x { owner_id = u }) (get_group D J s g) h v)

  owner-write_group :
      (s : D.State) (g u : Text) (o : Option GroupData)
      → is_empty g ≡ false
      → (write_group D J s g (λ x. record x { owner_id = u }) o).1 ≡ true
      → owner_of (get_group D J (write_group D J s g (λ x. record x { owner_id = u }) o).0 g)
        ≡ some u
  unfolding write_group get_group after
  owner-write_group s g u none given done = cc
  owner-write_group s g u (some x) given done = ground (
    arith,
    get-commit D law s (put (key_group g) (serialize_group J (record x { owner_id = u })) ∷ [])
        (key_group g),
    text_eq_refl (key_group g),
    deserialize-serialize_group J json_law (record x { owner_id = u }),
  )

  owner-update_group_owner :
      (s : D.State) (g u : Text)
      → (update_group_owner D J s g u).1 ≡ true
      → owner_of (get_group D J (update_group_owner D J s g u).0 g) ≡ some u
  unfolding update_group_owner
  owner-update_group_owner s g u done = ground (arith, owner-write_group s g u (get_group D J s g))

  hand_over-roles :
      (s t : D.State) (g a b : Text)
      → IsColonFree g
      → hand_over D J s g a b ≡ (t, ok)
      → (owner_of (get_group D J t g) ≡ some b)
        × ((v : Text)
            → role_of (get_member D J t g v) ≡ (
                if text_eq b v
                then some role_owner
                else if text_eq a v
                then some role_member
                else role_of (get_member D J s g v)))
  unfolding hand_over to_int32
  hand_over-roles s t g a b plain e =
      let first = update_member_role D J s g a role_member in
      let second = update_member_role D J first.0 g b role_owner in
      (
        ground (arith, owner-update_group_owner second.0 g b),
        λ v. ground (
          arith,
          role-update_group_owner second.0 g b g v,
          role-update_member_role first.0 g b role_owner g v plain plain,
          role-update_member_role s g a role_member g v plain plain,
          text_eq_refl g,
        ),
      )

  transfer_found-owner :
      (s t : D.State) (g a b : Text) (o : Option GroupData)
      → transfer_found D J s g a b o ≡ (t, ok)
      → (owner_of o ≡ some a) × (is_member D J s g b ≡ true) × (hand_over D J s g a b ≡ (t, ok))
  unfolding transfer_found
  transfer_found-owner s t g a b none e = ground arith
  transfer_found-owner s t g a b (some x) e =
      (ground (arith, text_eq_iff x.owner_id a), ground arith, ground arith)

  -- When TransferOwner succeeds, in a group whose identifier has no colon, the caller was its owner
  -- and the new owner a member; the group then belongs to the new owner, who has the owner's role,
  -- the old owner, if it is another user, that of a member, and nobody else's role changes.
  pub transfer_owner-roles :
      (s t : D.State) (g a b v : Text)
      → IsColonFree g
      → transfer_owner D J s g a b ≡ (t, ok)
      → (owner_of (get_group D J s g) ≡ some a)
        × (is_member D J s g b ≡ true)
        × (owner_of (get_group D J t g) ≡ some b)
        × (role_of (get_member D J t g v) ≡ (
            if text_eq b v
            then some role_owner
            else if text_eq a v
            then some role_member
            else role_of (get_member D J s g v)))
  unfolding transfer_owner
  transfer_owner-roles s t g a b v plain e =
      let f = transfer_found-owner s t g a b (get_group D J s g) (ground arith) in
      let h = hand_over-roles s t g a b plain f.2 in (f.0, f.1, h.0, h.1 v)
