-- ===== src/Friend/History.antt =====
-- The calls of FriendService one after another, as friendsvr/internal/handler makes them.
pub mod Symmetry
use swift_chat_system.Common.{Bool, Option, none, some, List, [], ◌∷◌}
use swift_chat_system.Common.Int.{ℤ}
use swift_chat_system.Common.Text.{Text}
use swift_chat_system.Common.Text.Fields.{IsColonFree}
use swift_chat_system.Json.{Json}
use swift_chat_system.Storage.{Db}
use swift_chat_system.Friend.Service

-- The arguments are those of the methods, in their order, then the fresh identifier and the time.
pub data Call : Type 0 where
  add_friend : Text → Text → Text → Text → ℤ → Call
  handle_request : Text → Text → Bool → Text → ℤ → Call
  remove_friend : Text → Text → Call
  block : Text → Text → Call
  unblock : Text → Text → Call
  create_friend_group : Text → Text → Text → Call
  get_friend_groups : Text → Call
  delete_friend_group : Text → Text → Call
  move_friend : Text → Text → Text → Call
  set_remark : Text → Text → Text → Call

-- An exception leaves the database as it is.
abbrev pub after_throw {ℓ} : {A : Type ℓ} → A → Option (A × Bool) → A
after_throw s none = s
after_throw s (some (t, _)) = t

module _ (D : Db) (J : Json) where
  unfoldable pub step : D.State → Call → D.State
  step s (add_friend u f r i now) = (Service.add_friend D J s u f r i now).0
  step s (handle_request u i accept g now) = (Service.handle_request D J s u i accept g now).0
  step s (remove_friend u f) = (Service.remove_friend D J s u f).0
  step s (block u t) = (Service.block D J s u t).0
  step s (unblock u t) = (Service.unblock D J s u t).0
  step s (create_friend_group u n i) = (Service.create_friend_group D J s u n i).0
  step s (get_friend_groups u) = (Service.get_friend_groups D J s u).0
  step s (delete_friend_group u g) = (Service.delete_friend_group D J s u g).0
  step s (move_friend u f g) = after_throw s (Service.move_friend D J s u f g)
  step s (set_remark u f r) = after_throw s (Service.set_remark D J s u f r)

  unfoldable pub run : D.State → List Call → D.State
  run s [] = s
  run s (c ∷ cs) = run (step s c) cs

-- The user identifiers of a call have no colon. GenerateShortId makes them of letters and digits.
abbrev pub HasPlainIds : Call → Type 0
HasPlainIds (add_friend u f _ _ _) = IsColonFree u
HasPlainIds (handle_request u _ _ _ _) = IsColonFree u
HasPlainIds (remove_friend u f) = IsColonFree u × IsColonFree f
HasPlainIds (block u t) = Unit
HasPlainIds (unblock u t) = Unit
HasPlainIds (create_friend_group u _ _) = Unit
HasPlainIds (get_friend_groups u) = Unit
HasPlainIds (delete_friend_group u _) = IsColonFree u
HasPlainIds (move_friend u f _) = IsColonFree u
HasPlainIds (set_remark u f _) = IsColonFree u
