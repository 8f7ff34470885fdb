-- ===== src/Friend/Requests/Pending.antt =====
-- AddFriend: one pending request for a pair of users.
use mathlib.Core.List.{append_assoc}
use swift_chat_system.Common.{
  ◌≡◌, refl, true, false, some, [], ◌∷◌, ◌++◌, arith, Bool-cases, inl, inr, ◌&&◌, length, drop, leb,
  length-append, drop-append_length,
}
use swift_chat_system.Common.Int.{ℤ, pos, eq_ℤ, to_int32}
use swift_chat_system.Common.Text.{
  Text, text_eq, is_empty, text_eq_iff, text_eq_refl, starts_with, starts_with-append,
}
use swift_chat_system.Json.{Json}
use swift_chat_system.Json
use swift_chat_system.Storage.{Db, IsLawful, after, get-commit}
use swift_chat_system.Storage.Order.{Entries, lookup}
use swift_chat_system.Friend.Data.{FriendRequestData}
use swift_chat_system.Friend.Data.Roundtrip.{deserialize-serialize_request}
use swift_chat_system.Friend.Keys.{
  key_friend_req, key_friend_req_to, key_friend_req_from, prefix_friend_req_to,
}
use swift_chat_system.Friend.Store.{
  read_requests, get_request, get_received_requests, create_request, request_batch,
}
use swift_chat_system.Friend.Service.{has_pending, add_friend}
use swift_chat_system.Friend.Requests.Store.{as_read}

append-prefix_friend_req_to : (u i : Text) → prefix_friend_req_to u ++ i ≡ key_friend_req_to u i
unfolding prefix_friend_req_to key_friend_req_to
append-prefix_friend_req_to u i = simp append_assoc

starts_with-prefix_friend_req_to :
    (u i : Text) → starts_with (prefix_friend_req_to u) (key_friend_req_to u i) ≡ true
starts_with-prefix_friend_req_to u i =
    rw (← append-prefix_friend_req_to u i) (starts_with-append (prefix_friend_req_to u) i)

drop-prefix_friend_req_to :
    (u i : Text) → drop (length (prefix_friend_req_to u)) (key_friend_req_to u i) ≡ i
drop-prefix_friend_req_to u i =
    rw (← append-prefix_friend_req_to u i) (drop-append_length (prefix_friend_req_to u) i)

key_is_longer :
    (u i : Text)
    → is_empty i ≡ false
    → leb (length (key_friend_req_to u i)) (length (prefix_friend_req_to u)) ≡ false
key_is_longer u [] h = cc
key_is_longer u (c ∷ i) h =
    rw (← append-prefix_friend_req_to u (c ∷ i))
      (ground (arith, length-append (prefix_friend_req_to u) (c ∷ i)))

-- The three keys of a request differ.
apart :
    (u i f : Text)
    → (text_eq (key_friend_req i) (key_friend_req_to u i) ≡ false)
      × (text_eq (key_friend_req_from f i) (key_friend_req_to u i) ≡ false)
      × (text_eq (key_friend_req_to u i) (key_friend_req i) ≡ false)
      × (text_eq (key_friend_req_from f i) (key_friend_req i) ≡ false)
unfolding key_friend_req key_friend_req_to key_friend_req_from text_eq
apart u i f = (refl, refl, refl, refl)

module _ (D : Db) (J : Json) (s : D.State) (u : Text) (r : FriendRequestData) where
  -- The loop finds a pending request of the user behind any entry of the index.
  has_pending-read_requests :
      (prefix : Text) (es : Entries) (k v : Text)
      → lookup k es ≡ some v
      → leb (length k) (length prefix) ≡ false
      → get_request D J s (drop (length prefix) k) ≡ some r
      → (text_eq r.from_user_id u && eq_ℤ r.status (pos 0)) ≡ true
      → has_pending u (read_requests D J s prefix es) ≡ true
  unfolding has_pending read_requests lookup
  has_pending-read_requests prefix [] k v e long found pending = cc
  has_pending-read_requests prefix ((j, w) ∷ es) k v e long found pending =
      elim (Bool-cases (text_eq j k)) [
        | inl hit ↦ rw ((text_eq_iff j k).0 hit) (ground arith)
        | inr miss ↦
            let later = has_pending-read_requests prefix es k v (ground arith) long found pending in
            ground arith
      ]

module _ (D : Db) (J : Json) (law : IsLawful D) (json_law : Json.IsLawful J) where
  -- What CreateRequest leaves when it succeeds: the request, and its entry in the index.
  create_request-stored :
      (s t : D.State) (q : FriendRequestData)
      → create_request D J s q ≡ (t, true)
      → (is_empty q.request_id ≡ false)
        × (D.get t (key_friend_req_to q.to_user_id q.request_id) ≡ some [])
        × (get_request D J t q.request_id ≡ some (as_read q))
  unfolding create_request get_request after
  create_request-stored s t q e = (
    ground arith,
    ground (
      arith,
      get-commit D law s (request_batch D J q) (key_friend_req_to q.to_user_id q.request_id),
      text_eq_refl (key_friend_req_to q.to_user_id q.request_id),
      apart q.to_user_id q.request_id q.from_user_id,
    ),
    ground (
      arith,
      get-commit D law s (request_batch D J q) (key_friend_req q.request_id),
      text_eq_refl (key_friend_req q.request_id),
      apart q.to_user_id q.request_id q.from_user_id,
      deserialize-serialize_request J json_law q,
    ),
  )

  -- So the receiver's list shows it as pending.
  has_pending-create_request :
      (s t : D.State) (q : FriendRequestData)
      → q.status ≡ pos 0
      → create_request D J s q ≡ (t, true)
      → is_empty q.to_user_id ≡ false
      → has_pending q.from_user_id (get_received_requests D J t q.to_user_id) ≡ true
  unfolding get_received_requests
  has_pending-create_request s t q pending e given =
      let (named, indexed, stored) = create_request-stored s t q e in
      let p = prefix_friend_req_to q.to_user_id in
      let k = key_friend_req_to q.to_user_id q.request_id in
      rw given (
        has_pending-read_requests D J t q.from_user_id (as_read q) p (D.scan t p) k []
          (ground (
            arith,
            law.lookup-scan t p k,
            starts_with-prefix_friend_req_to q.to_user_id q.request_id,
            indexed,
          ))
          (key_is_longer q.to_user_id q.request_id named) (rw drop-prefix_friend_req_to stored)
          (rw (text_eq_refl q.from_user_id, pending) (unfold to_int32 in refl)))

  -- After an AddFriend that succeeded, in any later state in which the requests that the friend has
  -- received are those that it left, an AddFriend of the same user to the same friend returns false
  -- and changes nothing.
  pub add_friend_once :
      (s t later : D.State) (u f r i : Text) (now : ℤ) (r' i' : Text) (now' : ℤ)
      → add_friend D J s u f r i now ≡ (t, true)
      → get_received_requests D J later f ≡ get_received_requests D J t f
      → add_friend D J later u f r' i' now' ≡ (later, false)
  unfolding add_friend
  add_friend_once s t later u f r i now r' i' now' e kept =
      let q : FriendRequestData = record {
        request_id = i;
        from_user_id = u;
        to_user_id = f;
        remark = r;
        status = pos 0;
        created_at = now;
      } in
      ground (arith, has_pending-create_request s t q refl)
