-- ===== src/Storage.antt =====
-- RocksDB, which the stores of every service sit on: an interface with its documented laws.
-- `Get`, `Write` of a batch (`Put` and `Delete` are batches of one), and iteration from `Seek(p)`
-- while the key starts with `p`. A status that is not ok is `none` or `false`.
pub mod Order
pub mod Memory
pub mod Batch
pub mod Scan
use swift_chat_system.Common.{
  ◌≡◌, refl, Bool, true, false, Option, none, some, List, [], ◌∷◌, if◌then◌else◌, arith,
}
use swift_chat_system.Common.Text.{Text, text_eq, starts_with}
use Order.{Entries, lookup, IsSorted}

pub data Op : Type 0 where
  put : Text → Text → Op
  delete : Text → Op

-- What a batch does to the value of one key.
unfoldable pub after : List Op → Text → Option Text → Option Text
after [] k old = old
after (put j v ∷ ops) k old = after ops k (if text_eq j k then some v else old)
after (delete j ∷ ops) k old = after ops k (if text_eq j k then none else old)

pub record Db : Type 1 where
  pub State : Type 0
  pub get : State → Text → Option Text
  pub write : State → List Op → Option State
  pub scan : State → Text → Entries

pub record IsLawful (D : Db) : Type 0 where
  -- A batch that is written is there as a whole.
  pub get-write :
      (s t : D.State) (ops : List Op) (k : Text)
      → D.write s ops ≡ some t
      → D.get t k ≡ after ops k (D.get s k)
  -- An iteration meets the keys with the prefix, with the values that `Get` has.
  pub lookup-scan :
      (s : D.State) (p k : Text)
      → lookup k (D.scan s p) ≡ (if starts_with p k then D.get s k else none)
  -- It meets them in the order of the keys.
  pub scan-IsSorted : (s : D.State) (p : Text) → IsSorted (D.scan s p)

module _ (D : Db) where
  -- `db->Write(wo, &batch).ok()`: a batch that fails leaves the database as it was.
  unfoldable pub commit : D.State → List Op → D.State × Bool
  commit s ops = elim (D.write s ops) [ none ↦ (s, false) | some t ↦ (t, true) ]

  pub get-commit :
      (law : IsLawful D) (s : D.State) (ops : List Op) (k : Text)
      → D.get (commit s ops).0 k ≡ (if (commit s ops).1 then after ops k (D.get s k) else D.get s k)
  unfolding commit
  get-commit law s ops k = go (D.write s ops) refl
    where
      go :
          (r : Option D.State)
          → D.write s ops ≡ r
          → let c : D.State × Bool = elim r [ none ↦ (s, false) | some t ↦ (t, true) ] in
            D.get c.0 k ≡ (if c.1 then after ops k (D.get s k) else D.get s k)
      go none e = refl
      go (some t) e = law.get-write s t ops k e
