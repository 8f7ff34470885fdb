-- ===== src/Friend/Requests/Settled.antt =====
-- A request that was decided stays as it is, whatever calls follow: the operations of the
-- store.
pub mod Calls
use swift_chat_system.Common.{
  ◌≡◌, refl, sym, ap, ◌∙◌, Bool, true, false, ◌||◌, Option, none, some, List, [], ◌∷◌, arith, All,
  is_some, Bool-cases, Option-cases, inl, inr,
}
use swift_chat_system.Common.Int.{ℤ, pos, eq_ℤ}
use swift_chat_system.Common.Text.{Text, codes, text_eq, is_empty, starts_with, text_eq_iff}
use swift_chat_system.Json.{Json}
use swift_chat_system.Json
use swift_chat_system.Storage.{Db, IsLawful, put, delete, after, commit, get-commit}
use swift_chat_system.Storage.Batch.{Avoids, get-commit-Avoids}
use swift_chat_system.Friend.Data.{
  FriendData, FriendRequestData, FriendGroupData, default_friend_group_id,
  default_friend_group_name, serialize_friend, deserialize_friend, serialize_request,
}
use swift_chat_system.Friend.Keys.{
  key_friend, key_friend_req, key_friend_req_to, key_friend_req_from, key_friend_group, key_block,
  text_eq-key_friend_req,
}
use swift_chat_system.Friend.Store
use swift_chat_system.Friend.Store.{
  change_friend, get_request, store_status, to_default_group, request_batch,
}
use swift_chat_system.Friend.Store.Frame.{
  get-add_friend, get-remove_friend, get-create_group, get-block, get-unblock,
}
use swift_chat_system.Friend.Service
use swift_chat_system.Friend.Service.{
  ensure_default_group, accept_request, accepted_friend, handle_found,
}
use swift_chat_system.Friend.History.{
  Call, add_friend, handle_request, remove_friend, block, unblock, create_friend_group,
  get_friend_groups, delete_friend_group, move_friend, set_remark, after_throw, step, run,
}
use swift_chat_system.Friend.Requests.Store.{as_read}
use swift_chat_system.Friend.Requests.Handle.{
  decided, handle_request-IsHandled, handled_refused, decided_not_pending,
}

abbrev pub requests : Text
requests = codes "friend_req:"

module _ (D : Db) (J : Json) (law : IsLawful D) (json_law : Json.IsLawful J) (i : Text) where
  -- The stored text of the request.
  abbrev pub value : D.State → Option Text
  value s = D.get s (key_friend_req i)

  -- The request is there and not pending.
  pub record IsSettled (s : D.State) : Type 0 where
    pub request : FriendRequestData
    pub found : get_request D J s i ≡ some request
    pub settled : eq_ℤ request.status (pos 0) ≡ false

  pub IsSettled-same : (s t : D.State) → value t ≡ value s → IsSettled s → IsSettled t
  unfolding get_request
  IsSettled-same s t e h = record { request = h.request; found = rw e h.found; settled = h.settled }

  IsSettled-stored : (s : D.State) → IsSettled s → is_some (value s) ≡ true
  unfolding get_request
  IsSettled-stored s h = ground (arith, h.found)

  avoiding_same :
      (s : D.State) (u f : Text) (d : FriendData)
      → value (commit D s (put (key_friend u f) (serialize_friend J d) ∷ [])).0 ≡ value s
  unfolding key_friend key_friend_req starts_with
  avoiding_same s u f d =
      get-commit-Avoids D law s requests (put (key_friend u f) (serialize_friend J d) ∷ [])
        (key_friend_req i) (refl, tt) refl

  change_same :
      (s : D.State) (u f : Text) (change : FriendData → FriendData) (o : Option Text)
      → value (after_throw s (change_friend D J s u f change o)) ≡ value s
  unfolding change_friend
  change_same s u f change none = refl
  change_same s u f change (some v) = elim (Option-cases (deserialize_friend J v)) [
    | inl unreadable ↦ rw unreadable refl
    | inr (d, read) ↦ rw read (avoiding_same s u f (change d))
  ]

  pub move_same :
      (s : D.State) (u f g : Text) → value (after_throw s (Store.move_friend D J s u f g)) ≡ value s
  unfolding Store.move_friend
  move_same s u f g = ground (
    arith,
    change_same s u f (λ (d : FriendData). record d { group_id = g }) (D.get s (key_friend u f)),
  )

  pub remark_same :
      (s : D.State) (u f r : Text)
      → value (after_throw s (Store.update_remark D J s u f r)) ≡ value s
  unfolding Store.update_remark
  remark_same s u f r = ground (
    arith,
    change_same s u f (λ (d : FriendData). record d { remark = r }) (D.get s (key_friend u f)),
  )

  to_default_group-Avoids :
      (u : Text) (fs : List FriendData) → Avoids requests (to_default_group D J u fs)
  unfolding to_default_group key_friend starts_with
  to_default_group-Avoids u [] = tt
  to_default_group-Avoids u (f ∷ fs) = (refl, to_default_group-Avoids u fs)

  pub delete_group_same :
      (s : D.State) (u g : Text) → value (Store.delete_group D J s u g).0 ≡ value s
  unfolding Store.delete_group key_friend_group key_friend_req starts_with
  delete_group_same s u g = ground (
    arith,
    get-commit-Avoids D law s requests
        (delete (key_friend_group u g) ∷ to_default_group D J u (Store.get_friends D J s u g))
        (key_friend_req i) (refl, to_default_group-Avoids u (Store.get_friends D J s u g)) refl,
  )

  pub ensure_same : (s : D.State) (u : Text) → value (ensure_default_group D J s u) ≡ value s
  unfolding ensure_default_group key_friend_group key_friend_req starts_with
  ensure_same s u =
      let g : FriendGroupData = record {
        group_id = default_friend_group_id;
        user_id = u;
        group_name = default_friend_group_name;
        sort_order = pos 0;
      } in
      ground (arith, get-create_group D J law s g requests (key_friend_req i) refl refl)

  status_same :
      (s : D.State) (j : Text) (n : ℤ) (o : Option FriendRequestData)
      → text_eq j i ≡ false
      → value (store_status D J s j n o).0 ≡ value s
  unfolding store_status after
  status_same s j n none other = refl
  status_same s j n (some r) other = ground (
    arith,
    get-commit D law s (put (key_friend_req j) (serialize_request J (record r { status = n })) ∷ [])
        (key_friend_req i),
    text_eq-key_friend_req j i,
  )

  update_same :
      (s : D.State) (j : Text) (n : ℤ)
      → text_eq j i ≡ false
      → value (Store.update_request_status D J s j n).0 ≡ value s
  unfolding Store.update_request_status
  update_same s j n other = ground (arith, status_same s j n (get_request D J s j) other)

  add_same : (s : D.State) (d : FriendData) → value (Store.add_friend D J s d).0 ≡ value s
  unfolding key_friend key_friend_req starts_with
  add_same s d = get-add_friend D J law s d requests (key_friend_req i) (refl, (refl, tt)) refl

  accept_same :
      (s : D.State) (u j : Text) (r : FriendRequestData) (g : Text) (now : ℤ)
      → text_eq j i ≡ false
      → value (accept_request D J s u j r g now).0 ≡ value s
  unfolding accept_request
  accept_same s u j r g now other =
      let s' = ensure_default_group D J s u in
      let d = accepted_friend u r g now in
      ground (
        arith,
        ensure_same s u,
        add_same s' d,
        update_same (Store.add_friend D J s' d).0 j (pos 1) other,
      )

  handle_found_same :
      (s : D.State) (u j : Text) (accept : Bool) (g : Text) (now : ℤ) (o : Option FriendRequestData)
      → text_eq j i ≡ false
      → value (handle_found D J s u j accept g now o).0 ≡ value s
  unfolding handle_found
  handle_found_same s u j accept g now none other = refl
  handle_found_same s u j accept g now (some r) other =
      ground (arith, accept_same s u j r g now other, update_same s j (pos 2) other)

  pub handle_other :
      (s : D.State) (u j : Text) (accept : Bool) (g : Text) (now : ℤ)
      → text_eq j i ≡ false
      → value (Service.handle_request D J s u j accept g now).0 ≡ value s
  unfolding Service.handle_request
  handle_other s u j accept g now other =
      ground (arith, handle_found_same s u j accept g now (get_request D J s j) other)

  pub handle_own :
      (s : D.State) (u : Text) (accept : Bool) (g : Text) (now : ℤ)
      → IsSettled s
      → Service.handle_request D J s u i accept g now ≡ (s, false)
  handle_own s u accept g now h =
      handled_refused D J law json_law s u i accept g now h.request h.found h.settled

  pub create_same :
      (s : D.State) (q : FriendRequestData)
      → IsSettled s
      → value (Store.create_request D J s q).0 ≡ value s
  unfolding Store.create_request after key_friend_req_to key_friend_req_from key_friend_req text_eq
  create_same s q h = elim (Bool-cases (text_eq q.request_id i)) [
    | inl own ↦ ground (arith, IsSettled-stored s h, text_eq_iff q.request_id i)
    | inr other ↦ ground (
      arith,
      get-commit D law s (request_batch D J q) (key_friend_req i),
      text_eq-key_friend_req q.request_id i,
    )
  ]
