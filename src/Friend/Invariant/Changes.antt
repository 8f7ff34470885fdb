-- ===== src/Friend/Invariant/Changes.antt =====
-- The operations that change records which are there keep the invariant.
use mathlib.Core.Path.{subst}
use swift_chat_system.Common.{
  ◌≡◌, refl, sym, ap, ◌∙◌, inl, inr, Bool, some, List, [], ◌∷◌, arith, All, is_some, Option-cases,
}
use swift_chat_system.Common.Int.{ℤ}
use swift_chat_system.Common.Text.{Text, codes, starts_with, text_eq_refl}
use swift_chat_system.Common.Text.Fields.{IsColonFree}
use swift_chat_system.Json.{Json}
use swift_chat_system.Json
use swift_chat_system.Storage.{Db, IsLawful, Op, put, delete}
use swift_chat_system.Storage.Batch.{OpValued, Replaces, keep_cases}
use swift_chat_system.Friend.Data.{
  FriendData, FriendRequestData, serialize_request, serialize_friend, deserialize_request,
}
use swift_chat_system.Friend.Keys.{key_friend, key_friend_req, key_friend_group}
use swift_chat_system.Friend.Store.{
  get_request, update_request_status, change_friend, to_default_group, get_friends, delete_group,
}
use swift_chat_system.Friend.Store.Relation.{is_friend-Avoids, is_friend-Replaces}
use swift_chat_system.Friend.Store.Cases.{
  delete_group_cases, update_request_status_cases, change_friend_cases,
}
use swift_chat_system.Friend.Invariant.{Inv, IsGoodEntry}
use swift_chat_system.Friend.Invariant.Entries.{IsGoodEntry-friend, IsGoodEntry-request}
use swift_chat_system.Friend.Invariant.Store.{Inv-commit}
use swift_chat_system.Friend.Invariant.Reads.{IsStored, get_friends-IsStored}

module _ (D : Db) (J : Json) (law : IsLawful D) (json_law : Json.IsLawful J) where
  request_value :
      (s : D.State) (i : Text) (r : FriendRequestData)
      → get_request D J s i ≡ some r
      → (v : Text) × (D.get s (key_friend_req i) ≡ some v) × (deserialize_request J v ≡ some r)
  unfolding get_request
  request_value s i r e = elim (Option-cases (D.get s (key_friend_req i))) [
    | inl missing ↦ absurd (ground arith)
    | inr (v, found) ↦ (v, found, ground arith)
  ]

  pub get_request-IsColonFree :
      (s : D.State) (i : Text) (r : FriendRequestData)
      → Inv D J s
      → get_request D J s i ≡ some r
      → IsColonFree r.from_user_id
  get_request-IsColonFree s i r v e =
      let (value, found, read) = request_value s i r e in
      (v.good (key_friend_req i) value found).1 i (text_eq_refl (key_friend_req i)) r read

  pub Inv-update_request_status :
      (s : D.State) (i : Text) (n : ℤ) → Inv D J s → Inv D J (update_request_status D J s i n).0
  unfolding key_friend_req starts_with
  Inv-update_request_status s i n v = elim (update_request_status_cases D J s i n) [
    | inl e ↦ subst (λ (x : D.State × Bool). Inv D J x.0) (sym e) v
    | inr (r, read, e) ↦
        let ops : List Op =
          put (key_friend_req i) (serialize_request J (record r { status = n })) ∷ [] in
        keep_cases D (Inv D J) s ops _ v
          (Inv-commit D J law json_law s ops
            (
              IsGoodEntry-request J json_law i (record r { status = n })
                  (get_request-IsColonFree s i r v read),
              tt,
            )
            (is_friend-Avoids D J law s ops (refl, tt)) v)
          (inr e)
  ]

  pub Inv-change_friend :
      (s t : D.State) (u f : Text) (change : FriendData → FriendData) (ok : Bool)
      → IsColonFree u
      → ((d : FriendData) → (change d).friend_id ≡ d.friend_id)
      → Inv D J s
      → change_friend D J s u f change (D.get s (key_friend u f)) ≡ some (t, ok)
      → Inv D J t
  Inv-change_friend s t u f change ok free same v e =
      elim (change_friend_cases D J s t u f change (D.get s (key_friend u f)) ok e) [
        | inl unchanged ↦ subst (Inv D J) (sym unchanged) v
        | inr (value, d, found, read, done) ↦
            let ops : List Op = put (key_friend u f) (serialize_friend J (change d)) ∷ [] in
            keep_cases D (Inv D J) s ops (t, ok) v
              (Inv-commit D J law json_law s ops
                (
                  IsGoodEntry-friend J json_law u f (change d) free (
                      same d
                      ∙ (v.good (key_friend u f) value found).0 u f free (text_eq_refl _) d read),
                  tt,
                )
                (is_friend-Replaces D J law s ops (ap is_some found, tt)) v)
              (inr done)
      ]

  to_default_group-good :
      (u : Text) (fs : List FriendData)
      → IsColonFree u
      → All (OpValued (IsGoodEntry J)) (to_default_group D J u fs)
  unfolding to_default_group
  to_default_group-good u [] free = tt
  to_default_group-good u (f ∷ fs) free =
      (IsGoodEntry-friend J json_law u f.friend_id _ free refl, to_default_group-good u fs free)

  to_default_group-Replaces :
      (s : D.State) (u : Text) (fs : List FriendData)
      → All (IsStored D J s u) fs
      → All (Replaces D (codes "friend:") s) (to_default_group D J u fs)
  unfolding to_default_group
  to_default_group-Replaces s u [] h = tt
  to_default_group-Replaces s u (f ∷ fs) h = (h.0, to_default_group-Replaces s u fs h.1)

  pub Inv-delete_group :
      (s : D.State) (u g : Text) → IsColonFree u → Inv D J s → Inv D J (delete_group D J s u g).0
  Inv-delete_group s u g free v =
      let fs = get_friends D J s u g in
      let ops : List Op = delete (key_friend_group u g) ∷ to_default_group D J u fs in
      keep_cases D (Inv D J) s ops _ v
        (Inv-commit D J law json_law s ops (tt, to_default_group-good u fs free)
          (is_friend-Replaces D J law s ops (
            unfold key_friend_group starts_with in refl,
            to_default_group-Replaces s u fs (get_friends-IsStored D J s u free v.good law g),
          ))
          v)
        (delete_group_cases D J s u g)
