-- ===== src/Friend/Requests/Settled/Calls.antt =====
-- The calls of FriendService after a request was decided.
use swift_chat_system.Common.{
  ◌≡◌, refl, ap, Bool, true, false, List, [], ◌∷◌, arith, Bool-cases, inl, inr,
}
use swift_chat_system.Common.Int.{ℤ, pos}
use swift_chat_system.Common.Text.{Text, text_eq, starts_with, text_eq_iff}
use swift_chat_system.Json.{Json}
use swift_chat_system.Json
use swift_chat_system.Storage.{Db, IsLawful, after}
use swift_chat_system.Friend.Data.{FriendRequestData, FriendGroupData}
use swift_chat_system.Friend.Keys.{key_friend, key_friend_req, key_friend_group, key_block}
use swift_chat_system.Friend.Store.Frame.{
  get-remove_friend, get-create_group, get-block, get-unblock,
}
use swift_chat_system.Friend.Service
use swift_chat_system.Friend.Service.{
  ensure_default_group, accept_request, accepted_friend, handle_found,
}
use swift_chat_system.Friend.History.{
  Call, add_friend, handle_request, remove_friend, block, unblock, create_friend_group,
  get_friend_groups, delete_friend_group, move_friend, set_remark, after_throw, step, run,
}
use swift_chat_system.Friend.Requests.Store.{as_read}
use swift_chat_system.Friend.Requests.Handle.{
  decided, handle_request-IsHandled, decided_not_pending,
}
use swift_chat_system.Friend.Requests.Settled.{
  requests, value, IsSettled, IsSettled-same, ensure_same, create_same, handle_other, handle_own,
  move_same, remark_same, delete_group_same,
}

module _ (D : Db) (J : Json) (law : IsLawful D) (json_law : Json.IsLawful J) (i : Text) where
  add_friend_same :
      (s : D.State) (u f r j : Text) (now : ℤ)
      → IsSettled D J law json_law i s
      → value D J law json_law i (Service.add_friend D J s u f r j now).0
        ≡ value D J law json_law i s
  unfolding Service.add_friend
  add_friend_same s u f r j now h =
      let q : FriendRequestData = record {
        request_id = j;
        from_user_id = u;
        to_user_id = f;
        remark = r;
        status = pos 0;
        created_at = now;
      } in
      ground (arith, create_same D J law json_law i s q h)

  remove_same :
      (s : D.State) (u f : Text)
      → value D J law json_law i (Service.remove_friend D J s u f).0 ≡ value D J law json_law i s
  unfolding Service.remove_friend key_friend key_friend_req starts_with
  remove_same s u f =
      ground
        (arith, get-remove_friend D J law s u f requests (key_friend_req i) (refl, (refl, tt)) refl)

  block_same :
      (s : D.State) (u t : Text)
      → value D J law json_law i (Service.block D J s u t).0 ≡ value D J law json_law i s
  unfolding Service.block key_block key_friend_req starts_with
  block_same s u t = ground (arith, get-block D J law s u t requests (key_friend_req i) refl refl)

  unblock_same :
      (s : D.State) (u t : Text)
      → value D J law json_law i (Service.unblock D J s u t).0 ≡ value D J law json_law i s
  unfolding Service.unblock key_block key_friend_req starts_with
  unblock_same s u t =
      ground (arith, get-unblock D J law s u t requests (key_friend_req i) refl refl)

  create_group_same :
      (s : D.State) (u n j : Text)
      → value D J law json_law i (Service.create_friend_group D J s u n j).0
        ≡ value D J law json_law i s
  unfolding Service.create_friend_group key_friend_group key_friend_req starts_with
  create_group_same s u n j =
      let g : FriendGroupData = record {
        group_id = j;
        user_id = u;
        group_name = n;
        sort_order = pos 0;
      } in
      ground (arith, get-create_group D J law s g requests (key_friend_req i) refl refl)

  groups_same :
      (s : D.State) (u : Text)
      → value D J law json_law i (Service.get_friend_groups D J s u).0 ≡ value D J law json_law i s
  unfolding Service.get_friend_groups
  groups_same s u = ground (arith, ensure_same D J law json_law i s u)

  delete_same :
      (s : D.State) (u g : Text)
      → value D J law json_law i (Service.delete_friend_group D J s u g).0
        ≡ value D J law json_law i s
  unfolding Service.delete_friend_group
  delete_same s u g = ground (arith, delete_group_same D J law json_law i s u g)

  move_friend_same :
      (s : D.State) (u f g : Text)
      → value D J law json_law i (after_throw s (Service.move_friend D J s u f g))
        ≡ value D J law json_law i s
  unfolding Service.move_friend
  move_friend_same s u f g = ground (arith, move_same D J law json_law i s u f g)

  set_remark_same :
      (s : D.State) (u f r : Text)
      → value D J law json_law i (after_throw s (Service.set_remark D J s u f r))
        ≡ value D J law json_law i s
  unfolding Service.set_remark
  set_remark_same s u f r = ground (arith, remark_same D J law json_law i s u f r)

  handle_same :
      (s : D.State) (u j : Text) (accept : Bool) (g : Text) (now : ℤ)
      → IsSettled D J law json_law i s
      → value D J law json_law i (Service.handle_request D J s u j accept g now).0
        ≡ value D J law json_law i s
  handle_same s u j accept g now h = elim (Bool-cases (text_eq j i)) [
    | inl own ↦ rw ((text_eq_iff j i).0 own) (
        ap (λ (x : D.State × Bool). value D J law json_law i x.0)
          (handle_own D J law json_law i s u accept g now h))
    | inr other ↦ handle_other D J law json_law i s u j accept g now other
  ]

  step_same :
      (s : D.State) (c : Call)
      → IsSettled D J law json_law i s
      → value D J law json_law i (step D J s c) ≡ value D J law json_law i s
  unfolding step
  step_same s (add_friend u f r j now) h = add_friend_same s u f r j now h
  step_same s (handle_request u j accept g now) h = handle_same s u j accept g now h
  step_same s (remove_friend u f) h = remove_same s u f
  step_same s (block u t) h = block_same s u t
  step_same s (unblock u t) h = unblock_same s u t
  step_same s (create_friend_group u n j) h = create_group_same s u n j
  step_same s (get_friend_groups u) h = groups_same s u
  step_same s (delete_friend_group u g) h = delete_same s u g
  step_same s (move_friend u f g) h = move_friend_same s u f g
  step_same s (set_remark u f r) h = set_remark_same s u f r

  run-IsSettled :
      (s : D.State) (cs : List Call)
      → IsSettled D J law json_law i s
      → IsSettled D J law json_law i (run D J s cs)
  unfolding run
  run-IsSettled s [] h = h
  run-IsSettled s (c ∷ cs) h =
      run-IsSettled (step D J s c) cs
        (IsSettled-same D J law json_law i s (step D J s c) (step_same s c h) h)

  -- A request that HandleRequest handled is refused from then on: after any calls of the service,
  -- whoever calls and whatever they decide, HandleRequest returns false and changes nothing.
  pub handle_request_once :
      (s t : D.State) (u : Text) (accept : Bool) (g : Text) (now : ℤ) (cs : List Call) (u' : Text)
      (accept' : Bool) (g' : Text) (now' : ℤ)
      → Service.handle_request D J s u i accept g now ≡ (t, true)
      → Service.handle_request D J (run D J t cs) u' i accept' g' now' ≡ (run D J t cs, false)
  handle_request_once s t u accept g now cs u' accept' g' now' e =
      let (r, _, _, _, after) = handle_request-IsHandled D J law json_law s t u i accept g now e in
      let h : IsSettled D J law json_law i t = record {
        request = as_read (record r { status = decided accept });
        found = after;
        settled = decided_not_pending accept;
      } in
      handle_own D J law json_law i (run D J t cs) u' accept' g' now' (run-IsSettled t cs h)
