-- ===== src/Friend/Requests/Blocked.antt =====
-- The black list, and what it stops.
use swift_chat_system.Common.{◌≡◌, true, false, [], ◌∷◌, arith, ◌&&◌, ◌||◌, not}
use swift_chat_system.Common.Int.{ℤ}
use swift_chat_system.Common.Text.{Text, codes, text_eq, text_eq_iff, text_eq_refl}
use swift_chat_system.Common.Text.Fields.{IsColonFree}
use swift_chat_system.Json.{Json}
use swift_chat_system.Storage.{Db, IsLawful, put, delete, after, get-commit}
use swift_chat_system.Friend.Keys.{key_block, text_eq-key_block}
use swift_chat_system.Friend.Store
use swift_chat_system.Friend.Store.{is_blocked}
use swift_chat_system.Friend.Service.{add_friend, block, unblock}

module _ (D : Db) (J : Json) (law : IsLawful D) where
  -- After Block a pair is on the list if it was before, or if the call succeeded and it is the
  -- pair that the call names.
  is_blocked-block :
      (s : D.State) (u t a b : Text)
      → IsColonFree u
      → IsColonFree a
      → is_blocked D J (block D J s u t).0 a b
        ≡ (is_blocked D J s a b || ((block D J s u t).1 && (text_eq u a && text_eq t b)))
  unfolding is_blocked block Store.block after
  is_blocked-block s u t a b hu ha = ground (
    arith,
    get-commit D law s (put (key_block u t) (codes "1") ∷ []) (key_block a b),
    text_eq-key_block u t a b hu ha,
    text_eq_iff u a,
    text_eq_iff t b,
  )

  -- After Unblock a pair is on the list if it was before, unless the call succeeded and it is the
  -- pair that the call names.
  is_blocked-unblock :
      (s : D.State) (u t a b : Text)
      → IsColonFree u
      → IsColonFree a
      → is_blocked D J (unblock D J s u t).0 a b
        ≡ (is_blocked D J s a b && not ((unblock D J s u t).1 && (text_eq u a && text_eq t b)))
  unfolding is_blocked unblock Store.unblock after
  is_blocked-unblock s u t a b hu ha = ground (
    arith,
    get-commit D law s (delete (key_block u t) ∷ []) (key_block a b),
    text_eq-key_block u t a b hu ha,
  )

  -- While `f` has blocked `u`, AddFriend of `u` to `f` changes nothing and returns false.
  blocked_add_friend :
      (s t : D.State) (u f r i : Text) (now : ℤ)
      → IsColonFree f
      → block D J s f u ≡ (t, true)
      → add_friend D J t u f r i now ≡ (t, false)
  unfolding add_friend
  blocked_add_friend s t u f r i now hf e =
      ground (arith, is_blocked-block s f u f u hf hf, text_eq_refl f, text_eq_refl u)
