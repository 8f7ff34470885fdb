-- ===== src/Friend/Store/Relation.antt =====
-- Who is a friend of whom after each operation of the store.
use swift_chat_system.Common.{◌≡◌, refl, Bool, ◌&&◌, ◌||◌, not, List, [], ◌∷◌, All, arith}
use swift_chat_system.Common.Text.{Text, text_eq, codes, starts_with, text_eq_iff}
use swift_chat_system.Common.Text.Fields.{IsColonFree}
use swift_chat_system.Json.{Json}
use swift_chat_system.Storage.{Db, IsLawful, Op, delete, after, commit, get-commit}
use swift_chat_system.Storage.Batch.{Avoids, Replaces, get-commit-Avoids, is_some-commit-Replaces}
use swift_chat_system.Friend.Data.{FriendData}
use swift_chat_system.Friend.Keys.{key_friend, text_eq-key_friend}
use swift_chat_system.Friend.Store.{is_friend, friend_batch, add_friend, remove_friend}

-- The pair (a, b) is (u, f) or (f, u).
abbrev pub is_pair : Text → Text → Text → Text → Bool
is_pair u f a b = (text_eq u a && text_eq f b) || (text_eq f a && text_eq u b)

abbrev pub SameFriends : (D : Db) → Json → D.State → D.State → Type 0
SameFriends D J s t = (a b : Text) → is_friend D J t a b ≡ is_friend D J s a b

module _ (D : Db) (J : Json) (law : IsLawful D) where
  -- A successful AddFriend makes friends of the two, in both directions, and of nobody else; one
  -- that fails makes no friends.
  pub is_friend-add_friend :
      (s : D.State) (d : FriendData) (a b : Text)
      → IsColonFree d.user_id
      → IsColonFree d.friend_id
      → IsColonFree a
      → is_friend D J (add_friend D J s d).0 a b
        ≡ (is_friend D J s a b || ((add_friend D J s d).1 && is_pair d.user_id d.friend_id a b))
  unfolding is_friend add_friend after
  is_friend-add_friend s d a b hu hf ha = ground (
    arith,
    get-commit D law s (friend_batch D J d) (key_friend a b),
    text_eq-key_friend d.user_id d.friend_id a b hu ha,
    text_eq-key_friend d.friend_id d.user_id a b hf ha,
    text_eq_iff d.user_id a,
    text_eq_iff d.friend_id b,
    text_eq_iff d.user_id b,
    text_eq_iff d.friend_id a,
  )

  -- After RemoveFriend two users are friends if they were before, unless the call succeeded and they
  -- are the two that it names, in either order.
  pub is_friend-remove_friend :
      (s : D.State) (u f a b : Text)
      → IsColonFree u
      → IsColonFree f
      → IsColonFree a
      → is_friend D J (remove_friend D J s u f).0 a b
        ≡ (is_friend D J s a b && not ((remove_friend D J s u f).1 && is_pair u f a b))
  unfolding is_friend remove_friend after
  is_friend-remove_friend s u f a b hu hf ha = ground (
    arith,
    get-commit D law s (delete (key_friend u f) ∷ delete (key_friend f u) ∷ []) (key_friend a b),
    text_eq-key_friend u f a b hu ha,
    text_eq-key_friend f u a b hf ha,
  )

  -- A batch that touches no friend record, or replaces those that are there, makes and ends no
  -- friendship.
  pub is_friend-Avoids :
      (s : D.State) (ops : List Op)
      → Avoids (codes "friend:") ops
      → SameFriends D J s (commit D s ops).0
  unfolding is_friend key_friend starts_with
  is_friend-Avoids s ops h a b =
      rw (get-commit-Avoids D law s (codes "friend:") ops (key_friend a b) h refl)

  pub is_friend-Replaces :
      (s : D.State) (ops : List Op)
      → All (Replaces D (codes "friend:") s) ops
      → SameFriends D J s (commit D s ops).0
  unfolding is_friend key_friend starts_with
  is_friend-Replaces s ops h a b =
      rw (is_some-commit-Replaces D law s (codes "friend:") ops (key_friend a b) h refl)
