-- ===== src/Friend/History/Symmetry.antt =====
-- Whatever the calls, friendship goes both ways.
use mathlib.Core.Path.{subst}
use swift_chat_system.Common.{
  ◌≡◌, refl, sym, ap, ◌⊎◌, inl, inr, Bool, false, Option, none, some, List, [], ◌∷◌, arith, All,
  Bool-cases,
}
use swift_chat_system.Common.Int.{ℤ}
use swift_chat_system.Common.Text.{Text, is_empty}
use swift_chat_system.Common.Text.Fields.{IsColonFree}
use swift_chat_system.Json.{Json}
use swift_chat_system.Json
use swift_chat_system.Storage.{Db, IsLawful}
use swift_chat_system.Storage.Batch.{Keeps, keep_rules}
use swift_chat_system.Friend.Data.{FriendData, FriendRequestData, default_friend_group_id}
use swift_chat_system.Friend.Keys.{key_friend}
use swift_chat_system.Friend.Store
use swift_chat_system.Friend.Service
use swift_chat_system.Friend.Invariant.{Inv}
use swift_chat_system.Friend.Invariant.Store.{
  Inv-create_request, Inv-create_group, Inv-block, Inv-unblock, Inv-add_friend, Inv-remove_friend,
}
use swift_chat_system.Friend.Invariant.Changes.{
  Inv-update_request_status, Inv-change_friend, Inv-delete_group, get_request-IsColonFree,
}
use swift_chat_system.Friend.History.{
  Call, add_friend, handle_request, remove_friend, block, unblock, create_friend_group,
  get_friend_groups, delete_friend_group, move_friend, set_remark, after_throw, step, run,
  HasPlainIds,
}

done {ℓ κ μ} : {S : Type ℓ} {A : Type κ} {P : S → Type μ} {r : S × A} → P r.0 → Keeps P r
done h = record { state = h }

module _ (D : Db) (J : Json) (law : IsLawful D) (json_law : Json.IsLawful J) where
  -- Nothing is stored yet.
  pub empty-Inv : (s : D.State) → ((k : Text) → D.get s k ≡ none) → Inv D J s
  unfolding Store.is_friend
  empty-Inv s empty = record {
    symmetric = λ a b _ _. ground (arith, empty (key_friend a b), empty (key_friend b a));
    good = λ k v e. cc (empty k);
  }

  Inv-step-add_friend :
      (s : D.State) (u f r i : Text) (now : ℤ)
      → IsColonFree u
      → Inv D J s
      → Keeps (Inv D J) (Service.add_friend D J s u f r i now)
  unfolding Service.add_friend
  Inv-step-add_friend s u f r i now free v =
      search (keep_rules, done, Inv-create_request D J law json_law s) depth 9

  Inv-ensure_default_group :
      (s : D.State) (u : Text) → Inv D J s → Inv D J (Service.ensure_default_group D J s u)
  unfolding Service.ensure_default_group
  Inv-ensure_default_group s u v = elim (Bool-cases (is_empty u)) [
    | inl e ↦ rw e v
    | inr e ↦
        elim (Bool-cases (Service.has_group default_friend_group_id (Store.get_groups D J s u))) [
          | inl there ↦ rw (e, there) v
          | inr missing ↦ rw (e, missing) (Inv-create_group D J law json_law s _ v)
        ]
  ]

  Inv-accept_request :
      (s : D.State) (u i : Text) (req : FriendRequestData) (g : Text) (now : ℤ)
      → IsColonFree u
      → IsColonFree req.from_user_id
      → Inv D J s
      → Keeps (Inv D J) (Service.accept_request D J s u i req g now)
  unfolding Service.accept_request
  Inv-accept_request s u i req g now free from v =
      let added =
        Inv-add_friend D J law json_law (Service.ensure_default_group D J s u)
          (Service.accepted_friend u req g now) free from (Inv-ensure_default_group s u v) in
      search (keep_rules, done, added, Inv-update_request_status D J law json_law) depth 9

  Inv-handle_found :
      (s : D.State) (u i : Text) (accept : Bool) (g : Text) (now : ℤ) (o : Option FriendRequestData)
      → IsColonFree u
      → ((r : FriendRequestData) → o ≡ some r → IsColonFree r.from_user_id)
      → Inv D J s
      → Keeps (Inv D J) (Service.handle_found D J s u i accept g now o)
  unfolding Service.handle_found
  Inv-handle_found s u i accept g now none free from v = done v
  Inv-handle_found s u i accept g now (some req) free from v =
      search
        (
          keep_rules,
          done,
          from req refl,
          Inv-accept_request s u i req g now free,
          Inv-update_request_status D J law json_law s,
        )
        depth 9

  Inv-handle_request :
      (s : D.State) (u i : Text) (accept : Bool) (g : Text) (now : ℤ)
      → IsColonFree u
      → Inv D J s
      → Keeps (Inv D J) (Service.handle_request D J s u i accept g now)
  unfolding Service.handle_request
  Inv-handle_request s u i accept g now free v =
      let found =
        Inv-handle_found s u i accept g now (Store.get_request D J s i) free
          (λ r e. get_request-IsColonFree D J law json_law s i r v e) v in
      search (keep_rules, found) depth 9

  Inv-step-remove_friend :
      (s : D.State) (u f : Text)
      → IsColonFree u
      → IsColonFree f
      → Inv D J s
      → Keeps (Inv D J) (Service.remove_friend D J s u f)
  unfolding Service.remove_friend
  Inv-step-remove_friend s u f hu hf v =
      search (keep_rules, done, Inv-remove_friend D J law json_law s u f hu hf) depth 9

  Inv-step-block :
      (s : D.State) (u t : Text) → Inv D J s → Keeps (Inv D J) (Service.block D J s u t)
  unfolding Service.block
  Inv-step-block s u t v = search (keep_rules, done, Inv-block D J law json_law) depth 9

  Inv-step-unblock :
      (s : D.State) (u t : Text) → Inv D J s → Keeps (Inv D J) (Service.unblock D J s u t)
  unfolding Service.unblock
  Inv-step-unblock s u t v = search (keep_rules, done, Inv-unblock D J law json_law) depth 9

  Inv-create_friend_group :
      (s : D.State) (u n i : Text)
      → Inv D J s
      → Keeps (Inv D J) (Service.create_friend_group D J s u n i)
  unfolding Service.create_friend_group
  Inv-create_friend_group s u n i v =
      search (keep_rules, done, Inv-create_group D J law json_law) depth 9

  Inv-get_friend_groups :
      (s : D.State) (u : Text) → Inv D J s → Keeps (Inv D J) (Service.get_friend_groups D J s u)
  unfolding Service.get_friend_groups
  Inv-get_friend_groups s u v = search (keep_rules, done, Inv-ensure_default_group) depth 9

  Inv-delete_friend_group :
      (s : D.State) (u g : Text)
      → IsColonFree u
      → Inv D J s
      → Keeps (Inv D J) (Service.delete_friend_group D J s u g)
  unfolding Service.delete_friend_group
  Inv-delete_friend_group s u g free v =
      search (keep_rules, done, Inv-delete_group D J law json_law) depth 9

  Inv-change :
      (s : D.State) (u f : Text) (change : FriendData → FriendData) (r : Option (D.State × Bool))
      → IsColonFree u
      → ((d : FriendData) → (change d).friend_id ≡ d.friend_id)
      → Inv D J s
      → (r ≡ some (s, false))
        ⊎ (r ≡ Store.change_friend D J s u f change (D.get s (key_friend u f)))
      → Inv D J (after_throw s r)
  Inv-change s u f change none free same v e = v
  Inv-change s u f change (some (t, ok)) free same v (inl e) =
      subst (Inv D J) (ap (λ (r : Option (D.State × Bool)). after_throw s r) (sym e)) v
  Inv-change s u f change (some (t, ok)) free same v (inr e) =
      Inv-change_friend D J law json_law s t u f change ok free same v (sym e)

  Inv-move_friend :
      (s : D.State) (u f g : Text)
      → IsColonFree u
      → Inv D J s
      → Inv D J (after_throw s (Service.move_friend D J s u f g))
  unfolding Service.move_friend Store.move_friend
  Inv-move_friend s u f g free v =
      Inv-change s u f (λ d. record d { group_id = g }) (Service.move_friend D J s u f g) free
        (λ d. refl) v (ground arith)

  Inv-set_remark :
      (s : D.State) (u f r : Text)
      → IsColonFree u
      → Inv D J s
      → Inv D J (after_throw s (Service.set_remark D J s u f r))
  unfolding Service.set_remark Store.update_remark
  Inv-set_remark s u f r free v =
      Inv-change s u f (λ d. record d { remark = r }) (Service.set_remark D J s u f r) free
        (λ d. refl) v (ground arith)

  pub Inv-step : (s : D.State) (c : Call) → HasPlainIds c → Inv D J s → Inv D J (step D J s c)
  unfolding step
  Inv-step s (add_friend u f r i now) h v = (Inv-step-add_friend s u f r i now h v).state
  Inv-step s (handle_request u i accept g now) h v =
      (Inv-handle_request s u i accept g now h v).state
  Inv-step s (remove_friend u f) h v = (Inv-step-remove_friend s u f h.0 h.1 v).state
  Inv-step s (block u t) h v = (Inv-step-block s u t v).state
  Inv-step s (unblock u t) h v = (Inv-step-unblock s u t v).state
  Inv-step s (create_friend_group u n i) h v = (Inv-create_friend_group s u n i v).state
  Inv-step s (get_friend_groups u) h v = (Inv-get_friend_groups s u v).state
  Inv-step s (delete_friend_group u g) h v = (Inv-delete_friend_group s u g h v).state
  Inv-step s (move_friend u f g) h v = Inv-move_friend s u f g h v
  Inv-step s (set_remark u f r) h v = Inv-set_remark s u f r h v

  pub Inv-run :
      (s : D.State) (cs : List Call) → All HasPlainIds cs → Inv D J s → Inv D J (run D J s cs)
  unfolding run
  Inv-run s [] h v = v
  Inv-run s (c ∷ cs) h v = Inv-run (step D J s c) cs h.1 (Inv-step s c h.0 v)

  -- From an empty database, after any calls whose user identifiers have no colon, whoever has a
  -- friend is a friend of that friend.
  pub is_friend_symmetric :
      (s : D.State) (cs : List Call) (a b : Text)
      → ((k : Text) → D.get s k ≡ none)
      → All HasPlainIds cs
      → IsColonFree a
      → IsColonFree b
      → Store.is_friend D J (run D J s cs) a b ≡ Store.is_friend D J (run D J s cs) b a
  is_friend_symmetric s cs a b empty h ha hb =
      (Inv-run s cs h (empty-Inv s empty)).symmetric a b ha hb
