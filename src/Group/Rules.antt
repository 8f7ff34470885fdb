-- ===== src/Group/Rules.antt =====
-- Who may take a member out of a group, and what a transfer of a group leaves.
use swift_chat_system.Common.{◌≡◌, refl, Bool, true, not, ◌&&◌, ◌||◌, Option, none, some, arith}
use swift_chat_system.Common.Int.{ℤ, eq_ℤ}
use swift_chat_system.Common.Text.{Text, text_eq}
use swift_chat_system.Common.Text.Fields.{IsColonFree}
use swift_chat_system.ErrorCode.{ok}
use swift_chat_system.Json.{Json}
use swift_chat_system.Storage.{Db, IsLawful}
use swift_chat_system.Group.Data.{GroupMemberData}
use swift_chat_system.Group.Store
use swift_chat_system.Group.Service.{role_owner, role_admin}
use swift_chat_system.Group.Roles.{kick_code, kick, remove_member}
use swift_chat_system.Group.Members.{is_member-remove_member}

-- The role is that of an owner or an administrator, the other is below it.
abbrev pub outranks : ℤ → ℤ → Bool
outranks a b =
    (eq_ℤ a role_owner && not (eq_ℤ b role_owner))
    || (eq_ℤ a role_admin && (not (eq_ℤ b role_owner) && not (eq_ℤ b role_admin)))

-- The operator is a member of the group, and outranks the other member.
pub record MayKick (D : Db) (J : Json) (s : D.State) (g o u : Text) : Type 0 where
  pub operator : GroupMemberData
  pub target : GroupMemberData
  pub operator_found : Store.get_member D J s g o ≡ some operator
  pub target_found : Store.get_member D J s g u ≡ some target
  pub higher : outranks operator.role target.role ≡ true

kick_code-outranks : (a b : GroupMemberData) → kick_code a b ≡ ok → outranks a.role b.role ≡ true
unfolding kick_code
kick_code-outranks a b e = ground arith

module _ (D : Db) (J : Json) (s t : D.State) (g o u : Text) where
  kick-MayKick :
      (a b : Option GroupMemberData)
      → Store.get_member D J s g o ≡ a
      → Store.get_member D J s g u ≡ b
      → kick D J s g u a b ≡ (t, ok)
      → MayKick D J s g o u × (Store.remove_member D J s g u ≡ (t, true))
  unfolding kick
  kick-MayKick none b p q e = ground arith
  kick-MayKick (some x) none p q e = ground arith
  kick-MayKick (some x) (some y) p q e = (
    record {
      operator = x;
      target = y;
      operator_found = p;
      target_found = q;
      higher = kick_code-outranks x y (ground arith);
    },
    ground arith,
  )

  remove_member-kick :
      remove_member D J s g o u ≡ (t, ok)
      → kick D J s g u (Store.get_member D J s g o) (Store.get_member D J s g u) ≡ (t, ok)
  unfolding remove_member
  remove_member-kick e = ground arith

-- RemoveMember succeeds for an operator that outranks the member only, and then ends the one
-- membership and no other, for group identifiers without a colon.
pub remove_member-MayKick :
    (D : Db) (J : Json) (law : IsLawful D) (s t : D.State) (g o u h v : Text)
    → IsColonFree g
    → IsColonFree h
    → remove_member D J s g o u ≡ (t, ok)
    → MayKick D J s g o u
      × (Store.is_member D J t h v
          ≡ (Store.is_member D J s h v && not (text_eq g h && text_eq u v)))
remove_member-MayKick D J law s t g o u h v a b e =
    let k =
      kick-MayKick D J s t g o u (Store.get_member D J s g o) (Store.get_member D J s g u) refl refl
        (remove_member-kick D J s t g o u e) in
    (k.0, ground (arith, is_member-remove_member D J law s g u h v a b, k.1))
