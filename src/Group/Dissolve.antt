-- ===== src/Group/Dissolve.antt =====
-- DissolveGroup and DeleteGroup: the memberships they end, and the identifier that stays taken.
use mathlib.Core.List.{append_assoc}
use swift_chat_system.Common.{
  ◌≡◌, refl, ◌∙◌, true, false, not, ◌&&◌, Option, none, some, List, [], ◌∷◌, ◌++◌, if◌then◌else◌,
  arith, is_some, Bool-cases, Option-cases, inl, inr, length, ltb, drop-append_length,
  length-append,
}
use swift_chat_system.Common.Int.{pos, eq_ℤ}
use swift_chat_system.Common.Text.{
  Text, text_eq, is_empty, text_eq_iff, text_eq_refl, starts_with-append,
}
use swift_chat_system.Common.Text.Fields.{IsColonFree}
use swift_chat_system.Json.{Json}
use swift_chat_system.Storage.{Db, IsLawful, after, get-commit, delete}
use swift_chat_system.Storage.Order.{Entries, lookup}
use swift_chat_system.Group.Data.{
  GroupData, serialize_group, key_group, key_group_member, key_user_group, prefix_group_member,
}
use swift_chat_system.Group.Store.{
  read_ids, evict, member_ids, create_group, get_group, delete_group, dissolve_batch,
  dissolve_found, dissolve_group, is_member,
}
use swift_chat_system.Group.Members.{contains, after-evict, apart}

append-prefix_group_member : (g u : Text) → prefix_group_member g ++ u ≡ key_group_member g u
unfolding prefix_group_member key_group_member
append-prefix_group_member g u = simp append_assoc

ltb-length_append : (p u : Text) → is_empty u ≡ false → ltb (length p) (length (p ++ u)) ≡ true
ltb-length_append p [] h = cc
ltb-length_append p (c ∷ u) h = ground (arith, length-append p (c ∷ u))

-- The keys of members differ from the key of a group.
apart_group :
    (g u h : Text)
    → (text_eq (key_group_member g u) (key_group h) ≡ false)
      × (text_eq (key_user_group u g) (key_group h) ≡ false)
unfolding key_group key_group_member key_user_group text_eq
apart_group g u h = (refl, refl)

contains-read_ids :
    (p u w : Text) (es : Entries)
    → is_empty u ≡ false
    → lookup (p ++ u) es ≡ some w
    → contains u (read_ids p es) ≡ true
unfolding contains read_ids lookup
contains-read_ids p u w [] named h = cc
contains-read_ids p u w ((k, x) ∷ es) named h = elim (Bool-cases (text_eq k (p ++ u))) [
  | inl hit ↦ rw ((text_eq_iff k (p ++ u)).0 hit) (
      rw (ltb-length_append p u named)
        (rw (drop-append_length p u) (ground (arith, text_eq_refl u))))
  | inr miss ↦ let later = contains-read_ids p u w es named (ground arith) in ground arith
]

-- The eviction of users leaves the groups.
pub after-evict_group :
    (g : Text) (us : List Text) (h : Text) (old : Option Text)
    → after (evict g us) (key_group h) old ≡ old
unfolding evict after
after-evict_group g [] h old = refl
after-evict_group g (u ∷ us) h old = ground (arith, apart_group g u h, after-evict_group g us h old)

module _ (D : Db) (J : Json) (law : IsLawful D) where
  -- The scan meets every member.
  contains-member_ids :
      (s : D.State) (g u : Text)
      → is_member D J s g u ≡ true
      → contains u (member_ids D J s g) ≡ true
  unfolding is_member
  contains-member_ids s g u m = elim (Option-cases (D.get s (key_group_member g u))) [
    | inl absent ↦ ground arith
    | inr (w, found) ↦
        contains-read_ids (prefix_group_member g) u w (D.scan s (prefix_group_member g))
          (ground arith)
          (ground (
            arith,
            law.lookup-scan s (prefix_group_member g) (prefix_group_member g ++ u),
            starts_with-append (prefix_group_member g) u,
            append-prefix_group_member g u,
          ))
  ]

  -- The members' part of the batch ends every membership of the group.
  after-member_ids :
      (s : D.State) (g h v : Text)
      → IsColonFree g
      → IsColonFree h
      → is_empty h ≡ false
      → is_empty v ≡ false
      → after (evict g (member_ids D J s g)) (key_group_member h v) (D.get s (key_group_member h v))
        ≡ (if text_eq g h then none else D.get s (key_group_member h v))
  unfolding is_member
  after-member_ids s g h v a b given named =
      after-evict g (member_ids D J s g) h v (D.get s (key_group_member h v)) a b
      ∙ elim (Bool-cases (text_eq g h)) [
        | inl same ↦ elim (Option-cases (D.get s (key_group_member h v))) [
          | inl absent ↦ ground arith
          | inr (w, found) ↦
              ground (arith, text_eq_iff g h, contains-member_ids s h v (ground arith))
        ]
        | inr other ↦ ground arith
      ]

  is_member-dissolve_found :
      (s : D.State) (g : Text) (x : GroupData) (h v : Text)
      → IsColonFree g
      → IsColonFree h
      → eq_ℤ x.status (pos 1) ≡ false
      → is_member D J (dissolve_found D J s g (some x)).0 h v
        ≡ (is_member D J s h v && not ((dissolve_found D J s g (some x)).1 && text_eq g h))
  unfolding is_member dissolve_found after
  is_member-dissolve_found s g x h v a b open_status = ground (
    arith,
    get-commit D law s (dissolve_batch D J s g x) (key_group_member h v),
    after-member_ids s g h v a b,
    apart g v h v,
  )

  -- DissolveGroup of a group that is not dissolved ends every membership of the group, if it
  -- succeeds, and changes no other, for group identifiers without a colon.
  pub is_member-dissolve_group :
      (s : D.State) (g : Text) (x : GroupData) (h v : Text)
      → IsColonFree g
      → IsColonFree h
      → get_group D J s g ≡ some x
      → eq_ℤ x.status (pos 1) ≡ false
      → is_member D J (dissolve_group D J s g).0 h v
        ≡ (is_member D J s h v && not ((dissolve_group D J s g).1 && text_eq g h))
  unfolding dissolve_group
  is_member-dissolve_group s g x h v a b found open_status =
      rw found (ground (arith, is_member-dissolve_found s g x h v a b open_status))

  -- DeleteGroup ends every membership of the group, if it succeeds, and changes no other, for
  -- group identifiers without a colon.
  is_member-delete_group :
      (s : D.State) (g h v : Text)
      → IsColonFree g
      → IsColonFree h
      → is_member D J (delete_group D J s g).0 h v
        ≡ (is_member D J s h v && not ((delete_group D J s g).1 && text_eq g h))
  unfolding is_member delete_group after
  is_member-delete_group s g h v a b = ground (
    arith,
    get-commit D law s (delete (key_group g) ∷ evict g (member_ids D J s g)) (key_group_member h v),
    after-member_ids s g h v a b,
    apart g v h v,
  )

  get_group-taken :
      (s : D.State) (g : Text) (x : GroupData)
      → get_group D J s g ≡ some x
      → is_some (D.get s (key_group g)) ≡ true
  unfolding get_group
  get_group-taken s g x found = elim (Option-cases (D.get s (key_group g))) [
    | inl absent ↦ ground arith
    | inr (w, present) ↦ ground arith
  ]

  dissolve_found-taken :
      (s t : D.State) (g : Text) (o : Option GroupData)
      → get_group D J s g ≡ o
      → dissolve_found D J s g o ≡ (t, true)
      → is_some (D.get t (key_group g)) ≡ true
  unfolding dissolve_found after
  dissolve_found-taken s t g none found e = cc
  dissolve_found-taken s t g (some x) found e = ground (
    arith,
    get-commit D law s (dissolve_batch D J s g x) (key_group g),
    after-evict_group g (member_ids D J s g) g
        (some (serialize_group J (record x { status = pos 1; member_count = pos 0 }))),
    get_group-taken s g x found,
    text_eq_refl (key_group g),
  )

  -- When DissolveGroup of a group has succeeded, CreateGroup in the state it leaves refuses a group
  -- of that identifier.
  create_group-dissolve_group :
      (s t : D.State) (g : Text) (x : GroupData)
      → dissolve_group D J s g ≡ (t, true)
      → x.group_id ≡ g
      → create_group D J t x ≡ (t, false)
  unfolding create_group dissolve_group
  create_group-dissolve_group s t g x e same =
      let taken = dissolve_found-taken s t g (get_group D J s g) refl in
      rw same (ground (arith, taken))
