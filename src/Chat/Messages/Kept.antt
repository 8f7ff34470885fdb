-- ===== src/Chat/Messages/Kept.antt =====
-- A message, once stored, keeps its content through any later calls of the store.
use mathlib.Core.Path.{subst}
use swift_chat_system.Common.{
  ◌≡◌, refl, sym, ap, ◌∙◌, ◌&&◌, some, List, [], ◌∷◌, arith, Bool-cases, inl, inr,
}
use swift_chat_system.Common.Int.{ℤ, pos, to_int32, IsInt32, to_int32_fixed}
use swift_chat_system.Common.Text.{Text, text_eq, text_eq_iff}
use swift_chat_system.Json.{Json}
use swift_chat_system.Json
use swift_chat_system.Storage.{Db, IsLawful}
use swift_chat_system.Chat.Data.{MessageData}
use swift_chat_system.Chat.Messages
use swift_chat_system.Chat.Messages.{get_by_id}
use swift_chat_system.Chat.Messages.Lookup.{
  as_read, get_by_id-save, save_existing, get_by_id-mark_recalled, get_by_id-add_to_offline,
  get_by_id-clear_offline,
}

-- The calls that write, with their arguments.
pub data Call : Type 0 where
  save : MessageData → Call
  mark_recalled : Text → ℤ → Call
  add_to_offline : Text → Text → Call
  clear_offline : Text → Text → Call

-- The same message, but for a recall.
pub record Keeps (m n : MessageData) : Type 0 where
  pub same : n ≡ record m { status = n.status; recall_at = n.recall_at }

Keeps-refl : (m : MessageData) → Keeps m m
Keeps-refl m = record { same = refl }

module _ (D : Db) (J : Json) where
  unfoldable pub step : D.State → Call → D.State
  step s (save m) = (Messages.save D J s m).0
  step s (mark_recalled i at) = (Messages.mark_recalled D J s i at).0
  step s (add_to_offline u i) = (Messages.add_to_offline D J s u i).0
  step s (clear_offline u i) = (Messages.clear_offline D J s u i).0

  unfoldable pub run : D.State → List Call → D.State
  run s [] = s
  run s (c ∷ cs) = run (step s c) cs

  -- What stays of a message.
  abbrev pub IsKept : D.State → Text → MessageData → Type 0
  IsKept t i m = (n : MessageData) × (get_by_id D J t i ≡ some n) × Keeps m n

  module _ (law : IsLawful D) (json_law : Json.IsLawful J) where
    IsKept-save :
        (s : D.State) (x m : MessageData) (i : Text)
        → get_by_id D J s i ≡ some m
        → get_by_id D J (Messages.save D J s x).0 i ≡ some m
    IsKept-save s x m i found = ground (
      arith,
      get_by_id-save D J law json_law s x i,
      save_existing D J law json_law s x m,
      text_eq_iff x.msg_id i,
    )

    IsKept-mark_recalled :
        (s : D.State) (i j : Text) (at : ℤ) (m : MessageData)
        → get_by_id D J s j ≡ some m
        → IsInt32 m.chat_type
        → IsKept (Messages.mark_recalled D J s i at).0 j m
    IsKept-mark_recalled s i j at m found small =
        elim (Bool-cases ((Messages.mark_recalled D J s i at).1 && text_eq i j)) [
          | inr other ↦
              (m, ground (arith, get_by_id-mark_recalled D J law json_law s i j at), Keeps-refl m)
          | inl hit ↦
              let r : MessageData = record m { status = pos 1; recall_at = at } in
              (
                as_read r,
                ground (arith, get_by_id-mark_recalled D J law json_law s i j at, text_eq_iff i j),
                record {
                  same =
                      ap
                        (λ t. record m { chat_type = t; status = to_int32 (pos 1); recall_at = at })
                        ((to_int32_fixed m.chat_type).1 small);
                },
              )
        ]

    IsKept-step :
        (s : D.State) (c : Call) (i : Text) (m : MessageData)
        → get_by_id D J s i ≡ some m
        → IsInt32 m.chat_type
        → IsKept (step s c) i m
    unfolding step
    IsKept-step s (save x) i m found small = (m, IsKept-save s x m i found, Keeps-refl m)
    IsKept-step s (mark_recalled j at) i m found small = IsKept-mark_recalled s j i at m found small
    IsKept-step s (add_to_offline u j) i m found small =
        (m, get_by_id-add_to_offline D J law json_law s u j i ∙ found, Keeps-refl m)
    IsKept-step s (clear_offline u j) i m found small =
        (m, get_by_id-clear_offline D J law json_law s u j i ∙ found, Keeps-refl m)

    Keeps-trans : (m n k : MessageData) → Keeps m n → Keeps n k → Keeps m k
    Keeps-trans m n k a b = record {
      same =
          b.same
          ∙ ap (λ (x : MessageData). record x { status = k.status; recall_at = k.recall_at })
              a.same;
    }

    -- A message that is stored is there after any later calls, and only its status and the time of
    -- its recall may have changed, if its chat type fits into an `int`.
    pub run-IsKept :
        (s : D.State) (cs : List Call) (i : Text) (m : MessageData)
        → get_by_id D J s i ≡ some m
        → IsInt32 m.chat_type
        → IsKept (run s cs) i m
    unfolding run
    run-IsKept s [] i m found small = (m, found, Keeps-refl m)
    run-IsKept s (c ∷ cs) i m found small =
        let (n, found', kept) = IsKept-step s c i m found small in
        let small' : IsInt32 n.chat_type =
          subst IsInt32 (sym (ap (λ (x : MessageData). x.chat_type) kept.same)) small in
        let (k, found'', kept') = run-IsKept (step s c) cs i n found' small' in
        (k, found'', Keeps-trans m n k kept kept')
