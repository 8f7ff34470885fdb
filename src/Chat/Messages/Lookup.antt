-- ===== src/Chat/Messages/Lookup.antt =====
-- What GetById sees after each operation of the message store.
use swift_chat_system.Common.{
  ◌≡◌, refl, true, false, ◌&&◌, Option, none, some, List, [], ◌∷◌, if◌then◌else◌, arith, All,
  Bool-cases, inl, inr, ◌>>=◌,
}
use swift_chat_system.Common.Int.{ℤ, pos, to_int32}
use swift_chat_system.Common.Text.{Text, codes, text_eq, is_empty, text_eq_iff, starts_with}
use swift_chat_system.Common.Text.Fields.{text_eq-append_left}
use swift_chat_system.Json.{Json}
use swift_chat_system.Json
use swift_chat_system.Storage.{Db, IsLawful, Op, put, after, commit, get-commit}
use swift_chat_system.Storage.Order.{Entries}
use swift_chat_system.Storage.Batch.{Avoids, get-commit-Avoids}
use swift_chat_system.Storage.Scan.{IsEntry, scan_IsEntry}
use swift_chat_system.Chat.Data.{MessageData, serialize_message, deserialize-serialize_message}
use swift_chat_system.Chat.Keys.{key_msg, key_chat, key_offline, prefix_offline}
use swift_chat_system.Chat.Messages.{
  expired, all_deleted, message_batch, timeline_id, save, get_by_id, store_recalled, mark_recalled,
  queue_found, add_to_offline, clear_until, clear_offline,
}

-- The message as it is read back.
abbrev pub as_read : MessageData → MessageData
as_read m = record m { chat_type = to_int32 m.chat_type; status = to_int32 m.status }

text_eq-key_msg : (i j : Text) → text_eq (key_msg i) (key_msg j) ≡ text_eq i j
unfolding key_msg
text_eq-key_msg i j = text_eq-append_left (codes "msg:") i j

text_eq-key_chat_msg :
    (c : Text) (t : ℤ) (i j : Text) → text_eq (key_chat c t i) (key_msg j) ≡ false
unfolding key_chat key_msg text_eq
text_eq-key_chat_msg c t i j = refl

module _ (D : Db) (J : Json) (law : IsLawful D) (json_law : Json.IsLawful J) where
  -- A message that Save stored is found with all its fields, and no other message changes; a Save
  -- that fails changes nothing.
  pub get_by_id-save :
      (s : D.State) (m : MessageData) (i : Text)
      → get_by_id D J (save D J s m).0 i
        ≡ (if (save D J s m).1 && text_eq m.msg_id i then some (as_read m) else get_by_id D J s i)
  unfolding save get_by_id after
  get_by_id-save s m i = ground (
    arith,
    get-commit D law s (message_batch D J m) (key_msg i),
    text_eq-key_msg m.msg_id i,
    text_eq_iff m.msg_id i,
    text_eq-key_chat_msg (timeline_id D J m) m.timestamp m.msg_id i,
    deserialize-serialize_message J json_law m,
  )

  -- Save never overwrites a message.
  pub save_existing :
      (s : D.State) (m n : MessageData)
      → get_by_id D J s m.msg_id ≡ some n
      → save D J s m ≡ (s, false)
  unfolding save get_by_id
  save_existing s m n found = ground arith

  recalled-found :
      (s : D.State) (i j : Text) (at : ℤ) (o : Option MessageData)
      → get_by_id D J s i ≡ o
      → is_empty i ≡ false
      → get_by_id D J (store_recalled D J s i at o).0 j ≡ (
          if (store_recalled D J s i at o).1 && text_eq i j
          then (do m ← o; some (as_read (record m { status = pos 1; recall_at = at })))
          else get_by_id D J s j)
  unfolding store_recalled get_by_id after
  recalled-found s i j at none found given = refl
  recalled-found s i j at (some m) found given =
      let r : MessageData = record m { status = pos 1; recall_at = at } in
      ground (
        arith,
        get-commit D law s (put (key_msg i) (serialize_message J r) ∷ []) (key_msg j),
        text_eq-key_msg i j,
        text_eq_iff i j,
        deserialize-serialize_message J json_law r,
      )

  -- A recall that succeeds marks the message and keeps the rest of it, and no other message changes.
  pub get_by_id-mark_recalled :
      (s : D.State) (i j : Text) (at : ℤ)
      → get_by_id D J (mark_recalled D J s i at).0 j ≡ (
          if (mark_recalled D J s i at).1 && text_eq i j
          then (do
            m ← get_by_id D J s i
            some (as_read (record m { status = pos 1; recall_at = at })))
          else get_by_id D J s j)
  unfolding mark_recalled
  get_by_id-mark_recalled s i j at = elim (Bool-cases (is_empty i)) [
    | inl missing ↦ rw missing refl
    | inr given ↦ rw given (recalled-found s i j at (get_by_id D J s i) refl given)
  ]

  get_by_id-Avoids :
      (s : D.State) (ops : List Op) (i : Text)
      → Avoids (codes "msg:") ops
      → get_by_id D J (commit D s ops).0 i ≡ get_by_id D J s i
  unfolding get_by_id key_msg starts_with
  get_by_id-Avoids s ops i a = rw (get-commit-Avoids D law s (codes "msg:") ops (key_msg i) a refl)

  get_by_id-queue_found :
      (s : D.State) (u i j : Text) (o : Option MessageData)
      → get_by_id D J (queue_found D J s u i o).0 j ≡ get_by_id D J s j
  unfolding queue_found key_offline starts_with
  get_by_id-queue_found s u i j none = refl
  get_by_id-queue_found s u i j (some m) = get_by_id-Avoids s _ j (refl, tt)

  -- The offline queue is beside the messages.
  pub get_by_id-add_to_offline :
      (s : D.State) (u i j : Text)
      → get_by_id D J (add_to_offline D J s u i).0 j ≡ get_by_id D J s j
  unfolding add_to_offline
  get_by_id-add_to_offline s u i j =
      ground (arith, get_by_id-queue_found s u i j (get_by_id D J s i))

  -- The keys of the queue are no keys of messages.
  not_msg :
      (u k : Text) → starts_with (prefix_offline u) k ≡ true → starts_with (codes "msg:") k ≡ false
  unfolding prefix_offline starts_with
  not_msg u [] h = refl
  not_msg u (c ∷ k) h = ground arith

  all_deleted-Avoids :
      (s : D.State) (u : Text) (es : Entries)
      → All (IsEntry D s (prefix_offline u)) es
      → Avoids (codes "msg:") (all_deleted es)
  unfolding all_deleted
  all_deleted-Avoids s u [] a = tt
  all_deleted-Avoids s u ((k, v) ∷ es) a = (not_msg u k a.0.1, all_deleted-Avoids s u es a.1)

  expired-Avoids :
      (s : D.State) (u prefix : Text) (until : ℤ) (es : Entries)
      → All (IsEntry D s (prefix_offline u)) es
      → Avoids (codes "msg:") (expired prefix until es)
  unfolding expired
  expired-Avoids s u prefix until [] a = tt
  expired-Avoids s u prefix until ((k, v) ∷ es) a =
      ground (arith, not_msg u k a.0.1, expired-Avoids s u prefix until es a.1)

  get_by_id-clear_until :
      (s : D.State) (u j : Text) (o : Option MessageData)
      → get_by_id D J (clear_until D J s u o).0 j ≡ get_by_id D J s j
  unfolding clear_until
  get_by_id-clear_until s u j none = refl
  get_by_id-clear_until s u j (some m) = get_by_id-Avoids s _ j (
      expired-Avoids s u (prefix_offline u) m.timestamp (D.scan s (prefix_offline u))
        (scan_IsEntry D law s (prefix_offline u)))

  pub get_by_id-clear_offline :
      (s : D.State) (u i j : Text) → get_by_id D J (clear_offline D J s u i).0 j ≡ get_by_id D J s j
  unfolding clear_offline
  get_by_id-clear_offline s u i j =
      let entries = D.scan s (prefix_offline u) in
      ground (
        arith,
        get_by_id-clear_until s u j (get_by_id D J s i),
        get_by_id-Avoids s (all_deleted entries) j
            (all_deleted-Avoids s u entries (scan_IsEntry D law s (prefix_offline u))),
      )
