-- ===== src/Group/Members.antt =====
-- Who is a member of a group after each operation of the store, and the two indexes.
use swift_chat_system.Common.{
  ◌≡◌, refl, ◌∙◌, Bool, false, not, ◌&&◌, ◌||◌, Option, none, some, List, [], ◌∷◌, if◌then◌else◌,
  arith,
}
use swift_chat_system.Common.Text.{Text, codes, text_eq, is_empty, text_eq_iff}
use swift_chat_system.Common.Text.Fields.{IsColonFree, join, text_eq-append_left, text_eq-join}
use swift_chat_system.Json.{Json}
use swift_chat_system.Storage.{Db, IsLawful, after, get-commit}
use swift_chat_system.Group.Data.{
  GroupData, GroupMemberData, key_group, key_group_member, key_user_group, text_eq-key_group_member,
}
use swift_chat_system.Group.Store.{
  evict, get_group, join_batch, join_found, add_member, leave_batch, leave_found, remove_member,
  is_member,
}

unfoldable pub contains : Text → List Text → Bool
contains u [] = false
contains u (v ∷ vs) = text_eq v u || contains u vs

text_eq-key_user_group :
    (u g v h : Text)
    → IsColonFree u
    → IsColonFree v
    → text_eq (key_user_group u g) (key_user_group v h) ≡ (text_eq u v && text_eq g h)
unfolding key_user_group
text_eq-key_user_group u g v h a b =
    text_eq-append_left (codes "user_groups:") (join u g) (join v h) ∙ text_eq-join u g v h a b

-- Keys of different kinds differ.
pub apart :
    (g u h v : Text)
    → (text_eq (key_group g) (key_group_member h v) ≡ false)
      × (text_eq (key_user_group u g) (key_group_member h v) ≡ false)
      × (text_eq (key_group g) (key_user_group v h) ≡ false)
      × (text_eq (key_group_member g u) (key_user_group v h) ≡ false)
unfolding key_group key_group_member key_user_group text_eq
apart g u h v = (refl, refl, refl, refl)

-- What the eviction of users does to a membership.
pub after-evict :
    (g : Text) (us : List Text) (h v : Text) (old : Option Text)
    → IsColonFree g
    → IsColonFree h
    → after (evict g us) (key_group_member h v) old
      ≡ (if text_eq g h && contains v us then none else old)
unfolding evict after contains
after-evict g [] h v old a b = ground arith
after-evict g (u ∷ us) h v old a b = ground (
  arith,
  text_eq-key_group_member g u h v a b,
  apart g u h v,
  after-evict g us h v old a b,
  after-evict g us h v none a b,
)

module _ (D : Db) (J : Json) (law : IsLawful D) where
  is_member-join_found :
      (s : D.State) (g : Text) (m : GroupMemberData) (o : Option GroupData) (h v : Text)
      → IsColonFree g
      → IsColonFree h
      → is_empty g ≡ false
      → is_empty m.user_id ≡ false
      → is_member D J (join_found D J s g m o).0 h v ≡ (
          is_member D J s h v
          || ((join_found D J s g m o).1 && (text_eq g h && text_eq m.user_id v)))
  unfolding join_found is_member after
  is_member-join_found s g m none h v a b given named = ground arith
  is_member-join_found s g m (some x) h v a b given named = ground (
    arith,
    get-commit D law s (join_batch D J g m x) (key_group_member h v),
    text_eq-key_group_member g m.user_id h v a b,
    apart g m.user_id h v,
    text_eq_iff g h,
    text_eq_iff m.user_id v,
  )

  -- AddMember makes the one user a member of the one group, if it succeeds, and changes no other
  -- membership, for group identifiers without a colon.
  is_member-add_member :
      (s : D.State) (g : Text) (m : GroupMemberData) (h v : Text)
      → IsColonFree g
      → IsColonFree h
      → is_member D J (add_member D J s g m).0 h v ≡ (
          is_member D J s h v || ((add_member D J s g m).1 && (text_eq g h && text_eq m.user_id v)))
  unfolding add_member
  is_member-add_member s g m h v a b =
      ground (arith, is_member-join_found s g m (get_group D J s g) h v a b)

  is_member-leave_found :
      (s : D.State) (g u : Text) (o : Option GroupData) (h v : Text)
      → IsColonFree g
      → IsColonFree h
      → is_member D J (leave_found D J s g u o).0 h v
        ≡ (is_member D J s h v && not ((leave_found D J s g u o).1 && (text_eq g h && text_eq u v)))
  unfolding leave_found is_member after
  is_member-leave_found s g u none h v a b = ground arith
  is_member-leave_found s g u (some x) h v a b = ground (
    arith,
    get-commit D law s (leave_batch D J g u x) (key_group_member h v),
    text_eq-key_group_member g u h v a b,
    apart g u h v,
  )

  -- RemoveMember ends the one membership, if it succeeds, and changes no other, for group
  -- identifiers without a colon.
  pub is_member-remove_member :
      (s : D.State) (g u h v : Text)
      → IsColonFree g
      → IsColonFree h
      → is_member D J (remove_member D J s g u).0 h v
        ≡ (is_member D J s h v && not ((remove_member D J s g u).1 && (text_eq g h && text_eq u v)))
  unfolding remove_member
  is_member-remove_member s g u h v a b =
      ground (arith, is_member-leave_found s g u (get_group D J s g) h v a b)
