-- ===== src/Storage/Scan.antt =====
-- What the entries of an iteration are.
use swift_chat_system.Common.{◌≡◌, true, some, [], ◌∷◌, arith, All}
use swift_chat_system.Common.Text.{Text, starts_with, text_eq_refl}
use swift_chat_system.Storage.{Db, IsLawful}
use swift_chat_system.Storage.Order.{Entries, lookup, Above, IsSorted, text_lt_ne}

-- The entry is one of the database, under the prefix.
abbrev pub IsEntry : (D : Db) → D.State → Text → Text × Text → Type 0
IsEntry D s p (k, v) = (D.get s k ≡ some v) × (starts_with p k ≡ true)

abbrev Found : Entries → Text × Text → Type 0
Found es (k, v) = lookup k es ≡ some v

Found-cons :
    (k v : Text) (es all : Entries)
    → Above k es
    → All (Found all) es
    → All (Found ((k, v) ∷ all)) es
unfolding lookup
Found-cons k v [] all a f = tt
Found-cons k v ((j, w) ∷ es) all a f =
    (ground (arith, text_lt_ne k j a.0), Found-cons k v es all a.1 f.1)

-- A list in order is found entry by entry.
IsSorted-Found : (es : Entries) → IsSorted es → All (Found es) es
unfolding lookup
IsSorted-Found [] s = tt
IsSorted-Found ((k, v) ∷ es) s =
    (ground (arith, text_eq_refl k), Found-cons k v es es s.0 (IsSorted-Found es s.1))

module _ (D : Db) (law : IsLawful D) (s : D.State) (p : Text) where
  entry : (k v : Text) → lookup k (D.scan s p) ≡ some v → IsEntry D s p (k, v)
  entry k v e = ground (arith, law.lookup-scan s p k)

  entries : (es : Entries) → All (Found (D.scan s p)) es → All (IsEntry D s p) es
  entries [] f = tt
  entries ((k, v) ∷ es) f = (entry k v f.0, entries es f.1)

  pub scan_IsEntry : All (IsEntry D s p) (D.scan s p)
  scan_IsEntry = entries (D.scan s p) (IsSorted-Found (D.scan s p) (law.scan-IsSorted s p))
