-- ===== src/Friend/Invariant/Store.antt =====
-- Every operation of the store keeps the invariant.
use swift_chat_system.Common.{refl, sym, ◌∙◌, List, [], ◌∷◌, arith, All}
use swift_chat_system.Common.Text.{Text, codes, starts_with}
use swift_chat_system.Common.Text.Fields.{IsColonFree}
use swift_chat_system.Json.{Json}
use swift_chat_system.Json
use swift_chat_system.Storage.{Db, IsLawful, Op, put, delete, commit}
use swift_chat_system.Storage.Batch.{Valued, OpValued, commit-Valued, keep_cases}
use swift_chat_system.Friend.Data.{FriendData, FriendRequestData, FriendGroupData, serialize_group}
use swift_chat_system.Friend.Keys.{
  key_friend, key_friend_req, key_friend_req_to, key_friend_req_from, key_friend_group, key_block,
}
use swift_chat_system.Friend.Store.{
  friend_batch, add_friend, remove_friend, request_batch, create_request, create_group, block,
  unblock,
}
use swift_chat_system.Friend.Store.Relation.{
  SameFriends, is_friend-Avoids, is_friend-add_friend, is_friend-remove_friend,
}
use swift_chat_system.Friend.Store.Cases.{
  add_friend_cases, remove_friend_cases, create_request_cases, create_group_cases, block_cases,
  unblock_cases,
}
use swift_chat_system.Friend.Invariant.{Inv, IsGoodEntry, IsSymmetric}
use swift_chat_system.Friend.Invariant.Entries.{
  IsGoodEntry-other, IsGoodEntry-friend, IsGoodEntry-request,
}

SameFriends-IsSymmetric :
    (D : Db) (J : Json) (s t : D.State)
    → SameFriends D J s t
    → IsSymmetric D J s
    → IsSymmetric D J t
SameFriends-IsSymmetric D J s t same h a b ha hb = same a b ∙ h a b ha hb ∙ sym (same b a)

module _ (D : Db) (J : Json) (law : IsLawful D) (json_law : Json.IsLawful J) where
  -- A batch of good entries that makes and ends no friendship keeps the invariant.
  pub Inv-commit :
      (s : D.State) (ops : List Op)
      → All (OpValued (IsGoodEntry J)) ops
      → SameFriends D J s (commit D s ops).0
      → Inv D J s
      → Inv D J (commit D s ops).0
  Inv-commit s ops a same v = record {
    symmetric = SameFriends-IsSymmetric D J s (commit D s ops).0 same v.symmetric;
    good = commit-Valued D law (IsGoodEntry J) s ops a v.good;
  }

  pub Inv-create_request :
      (s : D.State) (r : FriendRequestData)
      → IsColonFree r.from_user_id
      → Inv D J s
      → Inv D J (create_request D J s r).0
  unfolding key_friend_req key_friend_req_to key_friend_req_from starts_with
  Inv-create_request s r free v =
      keep_cases D (Inv D J) s (request_batch D J r) _ v
        (Inv-commit s (request_batch D J r)
          (
            IsGoodEntry-request J json_law r.request_id r free,
            (IsGoodEntry-other J _ _ refl refl, (IsGoodEntry-other J _ _ refl refl, tt)),
          )
          (is_friend-Avoids D J law s (request_batch D J r) (refl, (refl, (refl, tt)))) v)
        (create_request_cases D J s r)

  pub Inv-create_group :
      (s : D.State) (g : FriendGroupData) → Inv D J s → Inv D J (create_group D J s g).0
  unfolding key_friend_group starts_with
  Inv-create_group s g v =
      let ops : List Op = put (key_friend_group g.user_id g.group_id) (serialize_group J g) ∷ [] in
      keep_cases D (Inv D J) s ops _ v
        (Inv-commit s ops (IsGoodEntry-other J _ _ refl refl, tt)
          (is_friend-Avoids D J law s ops (refl, tt)) v)
        (create_group_cases D J s g)

  pub Inv-block : (s : D.State) (u t : Text) → Inv D J s → Inv D J (block D J s u t).0
  unfolding key_block starts_with
  Inv-block s u t v =
      let ops : List Op = put (key_block u t) (codes "1") ∷ [] in
      keep_cases D (Inv D J) s ops _ v
        (Inv-commit s ops (IsGoodEntry-other J _ _ refl refl, tt)
          (is_friend-Avoids D J law s ops (refl, tt)) v)
        (block_cases D J s u t)

  pub Inv-unblock : (s : D.State) (u t : Text) → Inv D J s → Inv D J (unblock D J s u t).0
  unfolding key_block starts_with
  Inv-unblock s u t v =
      let ops : List Op = delete (key_block u t) ∷ [] in
      keep_cases D (Inv D J) s ops _ v
        (Inv-commit s ops (tt, tt) (is_friend-Avoids D J law s ops (refl, tt)) v)
        (unblock_cases D J s u t)

  good_add_friend :
      (s : D.State) (d : FriendData)
      → IsColonFree d.user_id
      → IsColonFree d.friend_id
      → Inv D J s
      → Valued D (IsGoodEntry J) (add_friend D J s d).0
  good_add_friend s d hu hf v =
      keep_cases D (Valued D (IsGoodEntry J)) s (friend_batch D J d) _ v.good
        (commit-Valued D law (IsGoodEntry J) s (friend_batch D J d)
          (
            IsGoodEntry-friend J json_law d.user_id d.friend_id d hu refl,
            (IsGoodEntry-friend J json_law d.friend_id d.user_id _ hf refl, tt),
          )
          v.good)
        (add_friend_cases D J s d)

  pub Inv-add_friend :
      (s : D.State) (d : FriendData)
      → IsColonFree d.user_id
      → IsColonFree d.friend_id
      → Inv D J s
      → Inv D J (add_friend D J s d).0
  Inv-add_friend s d hu hf v = record {
    symmetric = λ a b ha hb. ground (
      arith,
      is_friend-add_friend D J law s d a b hu hf ha,
      is_friend-add_friend D J law s d b a hu hf hb,
      v.symmetric a b ha hb,
    );
    good = good_add_friend s d hu hf v;
  }

  pub Inv-remove_friend :
      (s : D.State) (u f : Text)
      → IsColonFree u
      → IsColonFree f
      → Inv D J s
      → Inv D J (remove_friend D J s u f).0
  Inv-remove_friend s u f hu hf v = record {
    symmetric = λ a b ha hb. ground (
      arith,
      is_friend-remove_friend D J law s u f a b hu hf ha,
      is_friend-remove_friend D J law s u f b a hu hf hb,
      v.symmetric a b ha hb,
    );
    good =
        let ops : List Op = delete (key_friend u f) ∷ delete (key_friend f u) ∷ [] in
        keep_cases D (Valued D (IsGoodEntry J)) s ops _ v.good
          (commit-Valued D law (IsGoodEntry J) s ops (tt, (tt, tt)) v.good)
          (remove_friend_cases D J s u f);
  }
