-- ===== src/Utils/Strings/Split.antt =====
-- Split, Join and ReplaceAll.
use mathlib.Core.List.{append_assoc, append-nil}
use swift_chat_system.Common.{
  ℕ, zero, suc, ◌≡◌, refl, sym, ap, ◌∙◌, ◌<◌, false, some, List, [], ◌∷◌, ◌++◌, length, arith,
  length-append, Bool-cases, Option-cases, inl, inr,
}
use swift_chat_system.Common.Text.{Text, is_empty, starts_with, append-drop_prefix}
use swift_chat_system.Utils.Strings.{
  find, split_loop, split, join_rest, join, replace_loop, replace_all,
}

-- What `find` gives is the text, taken apart at the needle.
find-append :
    (needle s before behind : Text)
    → find needle s ≡ some (before, behind)
    → s ≡ before ++ (needle ++ behind)
unfolding find
find-append [] [] before behind e = ground arith
find-append (n ∷ ns) [] before behind e = cc
find-append needle (c ∷ cs) before behind e = elim (Bool-cases (starts_with needle (c ∷ cs))) [
  | inl here ↦ ground (arith, append-drop_prefix needle (c ∷ cs) here)
  | inr later ↦ elim (Option-cases (find needle cs)) [
    | inl nowhere ↦ absurd (ground arith)
    | inr ((a, b), found) ↦ ground (arith, find-append needle cs a b found)
  ]
]

-- A needle that is not empty takes a byte at least.
find-shorter :
    (needle s before behind : Text)
    → is_empty needle ≡ false
    → find needle s ≡ some (before, behind)
    → length behind < length s
find-shorter [] s before behind given e = cc
find-shorter (n ∷ ns) s before behind given e =
    rw (find-append (n ∷ ns) s before behind e)
      (omega (arith, length-append before (n ∷ ns ++ behind), length-append ns behind))

split_loop-cons :
    (fuel : ℕ) (d s p : Text) (ps : List Text) (e : Text)
    → split_loop fuel d s ≡ some ps
    → join (p ∷ ps) e ≡ p ++ (e ++ join ps e)
unfolding split_loop join join_rest
split_loop-cons zero d s p ps e h = cc
split_loop-cons (suc fuel) d s p [] e h = ground arith
split_loop-cons (suc fuel) d s p (q ∷ qs) e h = refl

join-one : (s d : Text) → join (s ∷ []) d ≡ s
unfolding join join_rest
join-one s d = append-nil s

-- With as many rounds as there are bytes the loop ends, and its parts make the text again.
split_loop_total :
    (fuel : ℕ) (d s : Text)
    → is_empty d ≡ false
    → length s < fuel
    → (parts : List Text) × (split_loop fuel d s ≡ some parts) × (join parts d ≡ s)
unfolding split_loop
split_loop_total zero d s given enough = absurd (omega arith)
split_loop_total (suc fuel) d s given enough = elim (Option-cases (find d s)) [
  | inl whole ↦ (s ∷ [], rw (whole, split_loop), join-one s d)
  | inr ((a, b), found) ↦
      let shorter = find-shorter d s a b given found in
      let (parts, made, same) = split_loop_total fuel d b given (omega arith) in
      (
        a ∷ parts,
        ground arith,
        split_loop-cons fuel d b a parts d made
            ∙ (ap (λ (t : Text). a ++ (d ++ t)) same ∙ sym (find-append d s a b found)),
      )
]

replace_loop-split :
    (fuel : ℕ) (from to done s : Text) (parts : List Text)
    → split_loop fuel from s ≡ some parts
    → replace_loop fuel from to done s ≡ some (done ++ join parts to)
unfolding split_loop replace_loop
replace_loop-split zero from to done s parts e = cc
replace_loop-split (suc fuel) from to done s parts e = elim (Option-cases (find from s)) [
  | inl whole ↦ ground (arith, join-one s to)
  | inr ((a, b), found) ↦ elim (Option-cases (split_loop fuel from b)) [
    | inl out ↦ absurd (ground arith)
    | inr (ps, made) ↦ ground (
      arith,
      replace_loop-split fuel from to (done ++ (a ++ to)) b ps made,
      split_loop-cons fuel from b a ps to made,
      append_assoc done (a ++ to) (join ps to),
      append_assoc a to (join ps to),
    )
  ]
]

-- Split always ends, and Join with the same delimiter makes the text of the parts again.
pub join-split : (s d : Text) → (parts : List Text) × (split s d ≡ some parts) × (join parts d ≡ s)
unfolding split
join-split s d = elim (Bool-cases (is_empty d)) [
  | inl missing ↦ (s ∷ [], rw missing refl, join-one s d)
  | inr given ↦ rw given (split_loop_total (suc (length s)) d s given (omega arith))
]

-- ReplaceAll of an old text that is not empty is Join, with the new text, of what Split makes with
-- the old one.
pub replace_all-split :
    (s from to : Text) (parts : List Text)
    → is_empty from ≡ false
    → split s from ≡ some parts
    → replace_all s from to ≡ some (join parts to)
unfolding split replace_all
replace_all-split s from to parts given e =
    ground (arith, replace_loop-split (suc (length s)) from to [] s parts)
