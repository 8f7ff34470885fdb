-- ===== src/Friend/Requests/Handle.antt =====
-- HandleRequest succeeds for the receiver of a pending request, once.
use mathlib.Core.Path.{subst}
use swift_chat_system.Common.{
  ◌≡◌, refl, ap, Bool, true, false, Option, none, some, arith, Bool-cases, inl, inr, ◌||◌,
}
use swift_chat_system.Common.Int.{ℤ, pos, eq_ℤ, eq_ℤ_iff, to_int32}
use swift_chat_system.Common.Text.{Text, is_empty, text_eq_iff}
use swift_chat_system.Json.{Json}
use swift_chat_system.Json
use swift_chat_system.Storage.{Db, IsLawful}
use swift_chat_system.Friend.Data.{FriendRequestData, default_friend_group_id}
use swift_chat_system.Friend.Store
use swift_chat_system.Friend.Service.{
  ensure_default_group, accepted_friend, accept_request, handle_found, handle_request, has_group,
}
use swift_chat_system.Friend.Requests.Store.{
  as_read, get_request-add_friend, get_request-create_group, get_request-update_request_status,
}

-- The status that a decision gives: 1 accepted, 2 declined.
abbrev pub decided : Bool → ℤ
decided true = pos 1
decided false = pos 2

pub decided_not_pending : (accept : Bool) → eq_ℤ (to_int32 (decided accept)) (pos 0) ≡ false
unfolding to_int32
decided_not_pending true = refl
decided_not_pending false = refl

module _ (D : Db) (J : Json) (law : IsLawful D) (json_law : Json.IsLawful J) where
  get_request-ensure_default_group :
      (s : D.State) (u i : Text)
      → Store.get_request D J (ensure_default_group D J s u) i ≡ Store.get_request D J s i
  unfolding ensure_default_group
  get_request-ensure_default_group s u i = elim (Bool-cases (is_empty u)) [
    | inl e ↦ rw e
    | inr e ↦ elim (Bool-cases (has_group default_friend_group_id (Store.get_groups D J s u))) [
      | inl there ↦ rw (e, there)
      | inr missing ↦ rw (e, missing) (get_request-create_group D J law json_law s _ i)
    ]
  ]

  accept_request-status :
      (s : D.State) (u i : Text) (r : FriendRequestData) (g : Text) (now : ℤ)
      → Store.get_request D J s i ≡ some r
      → (accept_request D J s u i r g now).1 ≡ true
      → Store.get_request D J (accept_request D J s u i r g now).0 i
        ≡ some (as_read (record r { status = pos 1 }))
  unfolding accept_request
  accept_request-status s u i r g now e done =
      let s' = ensure_default_group D J s u in
      let d = accepted_friend u r g now in
      ground (
        arith,
        get_request-ensure_default_group s u i,
        get_request-add_friend D J law json_law s' d i,
        get_request-update_request_status D J law json_law (Store.add_friend D J s' d).0 i (pos 1)
            r,
      )

  -- What a success of HandleRequest tells of the request before, and of the request after.
  abbrev pub IsHandled : D.State → D.State → Text → Text → Bool → Type 0
  IsHandled s t u i accept =
      (r : FriendRequestData) × (Store.get_request D J s i ≡ some r)
      × (r.to_user_id ≡ u)
      × (r.status ≡ pos 0)
      × (Store.get_request D J t i ≡ some (as_read (record r { status = decided accept })))

  handle_found-IsHandled :
      (s : D.State) (u i : Text) (accept : Bool) (g : Text) (now : ℤ) (o : Option FriendRequestData)
      → Store.get_request D J s i ≡ o
      → (handle_found D J s u i accept g now o).1 ≡ true
      → IsHandled s (handle_found D J s u i accept g now o).0 u i accept
  unfolding handle_found
  handle_found-IsHandled s u i accept g now none e done = cc
  handle_found-IsHandled s u i true g now (some r) e done = (
    r,
    e,
    ground (arith, text_eq_iff r.to_user_id u),
    ground (arith, eq_ℤ_iff r.status (pos 0)),
    ground (arith, accept_request-status s u i r g now e),
  )
  handle_found-IsHandled s u i false g now (some r) e done = (
    r,
    e,
    ground (arith, text_eq_iff r.to_user_id u),
    ground (arith, eq_ℤ_iff r.status (pos 0)),
    ground (arith, get_request-update_request_status D J law json_law s i (pos 2) r e),
  )

  -- If HandleRequest returns true, the caller is the receiver of a request that was pending, and
  -- the request is now accepted or declined as the caller decided, its other fields as before
  -- (the time as the `int` that comes back).
  pub handle_request-IsHandled :
      (s t : D.State) (u i : Text) (accept : Bool) (g : Text) (now : ℤ)
      → handle_request D J s u i accept g now ≡ (t, true)
      → IsHandled s t u i accept
  unfolding handle_request
  handle_request-IsHandled s t u i accept g now e = elim (Bool-cases (is_empty u || is_empty i)) [
    | inl missing ↦ absurd (ground arith)
    | inr given ↦
        let found : handle_found D J s u i accept g now (Store.get_request D J s i) ≡ (t, true) =
          ground arith in
        subst (λ x. IsHandled s x u i accept) (ap (λ (x : D.State × Bool). x.0) found)
          (handle_found-IsHandled s u i accept g now (Store.get_request D J s i) refl
            (ap (λ (x : D.State × Bool). x.1) found))
  ]

  pub handled_refused :
      (s : D.State) (u i : Text) (accept : Bool) (g : Text) (now : ℤ) (r : FriendRequestData)
      → Store.get_request D J s i ≡ some r
      → eq_ℤ r.status (pos 0) ≡ false
      → handle_request D J s u i accept g now ≡ (s, false)
  unfolding handle_request handle_found
  handled_refused s u i accept g now r e h = ground arith
