-- ===== src/Common/Dict.antt =====
-- `std::unordered_map` from strings, as its entries in the order in which an iteration meets them.
-- The place of a new entry is not specified; here it is the last. Clients go by the laws.
use swift_chat_system.Common.{◌≡◌, refl, Option, none, some, List, [], ◌∷◌, if◌then◌else◌, arith}
use swift_chat_system.Common.Text.{Text, text_eq, text_eq_iff}

abbrev pub Dict {ℓ} : Type ℓ → Type ℓ
Dict V = List (Text × V)

module _ {ℓ} {V : Type ℓ} where
  -- `find`
  unfoldable pub lookup : Text → Dict V → Option V
  lookup k [] = none
  lookup k ((j, v) ∷ d) = if text_eq j k then some v else lookup k d

  -- `d[k] = v`
  unfoldable pub insert : Text → V → Dict V → Dict V
  insert k v [] = (k, v) ∷ []
  insert k v ((j, w) ∷ d) =
      let rest = insert k v d in if text_eq j k then (j, v) ∷ d else (j, w) ∷ rest

  -- `erase`: every entry of the key goes, of which a map has at most one.
  unfoldable pub erase : Text → Dict V → Dict V
  erase k [] = []
  erase k ((j, w) ∷ d) = let rest = erase k d in if text_eq j k then rest else (j, w) ∷ rest

  pub lookup-insert :
      (i k : Text) (v : V) (d : Dict V)
      → lookup i (insert k v d) ≡ (if text_eq k i then some v else lookup i d)
  unfolding lookup insert
  lookup-insert i k v [] = refl
  lookup-insert i k v ((j, w) ∷ d) =
      ground (arith, lookup-insert i k v d, text_eq_iff j k, text_eq_iff k i, text_eq_iff j i)

  pub lookup-erase :
      (i k : Text) (d : Dict V) → lookup i (erase k d) ≡ (if text_eq k i then none else lookup i d)
  unfolding lookup erase
  lookup-erase i k [] = ground arith
  lookup-erase i k ((j, w) ∷ d) =
      ground (arith, lookup-erase i k d, text_eq_iff j k, text_eq_iff k i, text_eq_iff j i)
