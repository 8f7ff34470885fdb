-- ===== src/Storage/Memory.antt =====
-- A database in memory that meets the laws: the entries in the order of their keys.
use swift_chat_system.Common.{◌≡◌, refl, true, none, some, List, [], ◌∷◌, if◌then◌else◌, arith}
use swift_chat_system.Common.Text.{Text, text_eq, text_lt, starts_with, text_eq_iff}
use mathlib.Core.Option.{some-injective}
use swift_chat_system.Storage.{Db, IsLawful, Op, put, delete, after}
use swift_chat_system.Storage.Order.{Entries, lookup, Above, IsSorted, text_lt_total, Above-trans}

insert : Text → Text → Entries → Entries
insert k v [] = (k, v) ∷ []
insert k v ((j, w) ∷ es) =
    let rest = insert k v es in
    if text_lt k j then (k, v) ∷ (j, w) ∷ es else if text_eq j k then (k, v) ∷ es else (j, w) ∷ rest

erase : Text → Entries → Entries
erase k [] = []
erase k ((j, w) ∷ es) = let rest = erase k es in if text_eq j k then rest else (j, w) ∷ rest

under : Text → Entries → Entries
under p [] = []
under p ((j, w) ∷ es) = let rest = under p es in if starts_with p j then (j, w) ∷ rest else rest

Above-insert :
    (i k v : Text) (es : Entries) → text_lt i k ≡ true → Above i es → Above i (insert k v es)
unfolding insert
Above-insert i k v [] h a = (h, tt)
Above-insert i k v ((j, w) ∷ es) h a = ground (arith, Above-insert i k v es h a.1)

insert-IsSorted : (k v : Text) (es : Entries) → IsSorted es → IsSorted (insert k v es)
unfolding insert
insert-IsSorted k v [] s = (tt, tt)
insert-IsSorted k v ((j, w) ∷ es) s = ground (
  arith,
  insert-IsSorted k v es s.1,
  Above-insert j k v es,
  Above-trans k j es,
  text_lt_total k j,
  text_eq_iff j k,
  text_eq_iff k j,
)

Above-erase : (i k : Text) (es : Entries) → Above i es → Above i (erase k es)
unfolding erase
Above-erase i k [] a = tt
Above-erase i k ((j, w) ∷ es) a = ground (arith, Above-erase i k es a.1)

erase-IsSorted : (k : Text) (es : Entries) → IsSorted es → IsSorted (erase k es)
unfolding erase
erase-IsSorted k [] s = tt
erase-IsSorted k ((j, w) ∷ es) s = ground (arith, erase-IsSorted k es s.1, Above-erase j k es s.0)

Above-under : (i p : Text) (es : Entries) → Above i es → Above i (under p es)
unfolding under
Above-under i p [] a = tt
Above-under i p ((j, w) ∷ es) a = ground (arith, Above-under i p es a.1)

under-IsSorted : (p : Text) (es : Entries) → IsSorted es → IsSorted (under p es)
unfolding under
under-IsSorted p [] s = tt
under-IsSorted p ((j, w) ∷ es) s = ground (arith, under-IsSorted p es s.1, Above-under j p es s.0)

lookup-insert :
    (i k v : Text) (es : Entries)
    → lookup i (insert k v es) ≡ (if text_eq k i then some v else lookup i es)
unfolding insert lookup
lookup-insert i k v [] = refl
lookup-insert i k v ((j, w) ∷ es) =
    ground (arith, lookup-insert i k v es, text_eq_iff j k, text_eq_iff k i, text_eq_iff j i)

lookup-erase :
    (i k : Text) (es : Entries)
    → lookup i (erase k es) ≡ (if text_eq k i then none else lookup i es)
unfolding erase lookup
lookup-erase i k [] = ground arith
lookup-erase i k ((j, w) ∷ es) =
    ground (arith, lookup-erase i k es, text_eq_iff j k, text_eq_iff k i, text_eq_iff j i)

lookup-under :
    (i p : Text) (es : Entries)
    → lookup i (under p es) ≡ (if starts_with p i then lookup i es else none)
unfolding under lookup
lookup-under i p [] = ground arith
lookup-under i p ((j, w) ∷ es) = ground (arith, lookup-under i p es, text_eq_iff j i)

pub record Table : Type 0 where
  pub entries : Entries
  pub sorted : IsSorted entries

pub apply : Entries → List Op → Entries
apply es [] = es
apply es (put k v ∷ ops) = apply (insert k v es) ops
apply es (delete k ∷ ops) = apply (erase k es) ops

pub apply-IsSorted : (es : Entries) (ops : List Op) → IsSorted es → IsSorted (apply es ops)
unfolding apply
apply-IsSorted es [] s = s
apply-IsSorted es (put k v ∷ ops) s = apply-IsSorted (insert k v es) ops (insert-IsSorted k v es s)
apply-IsSorted es (delete k ∷ ops) s = apply-IsSorted (erase k es) ops (erase-IsSorted k es s)

lookup-apply :
    (es : Entries) (ops : List Op) (k : Text) → lookup k (apply es ops) ≡ after ops k (lookup k es)
unfolding apply after
lookup-apply es [] k = refl
lookup-apply es (put j v ∷ ops) k = rw (lookup-apply (insert j v es) ops k, lookup-insert k j v es)
lookup-apply es (delete j ∷ ops) k = rw (lookup-apply (erase j es) ops k, lookup-erase k j es)

pub stored : Table → List Op → Table
stored s ops = record {
  entries = apply s.entries ops;
  sorted = apply-IsSorted s.entries ops s.sorted;
}

unfoldable pub memory : Db
unfolding stored insert erase apply under lookup
memory = record {
  State = Table;
  get = λ s k. lookup k s.entries;
  write = λ s ops. some (stored s ops);
  scan = λ s p. under p s.entries;
}

unfoldable pub no_entries : memory.State
unfolding memory
no_entries = record { entries = []; sorted = tt }

pub memory-IsLawful : IsLawful memory
unfolding memory stored
memory-IsLawful = record {
  get-write = λ s t ops k e. rw (← some-injective _ _ e) (lookup-apply s.entries ops k);
  lookup-scan = λ s p k. lookup-under k p s.entries;
  scan-IsSorted = λ s p. under-IsSorted p s.entries s.sorted;
}
