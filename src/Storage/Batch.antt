-- ===== src/Storage/Batch.antt =====
-- Reads after a batch of writes.
use mathlib.Core.Path.{subst}
use swift_chat_system.Common.{
  ◌≡◌, refl, ap, sym, ◌⊎◌, inl, inr, Bool, true, false, Option, some, List, [], ◌∷◌, if◌then◌else◌,
  arith, All, is_some, Bool-cases,
}
use swift_chat_system.Common.Text.{Text, text_eq, starts_with, text_eq_iff}
use swift_chat_system.Storage.{Db, IsLawful, Op, put, delete, after, commit, get-commit}

abbrev pub op_key : Op → Text
op_key (put k v) = k
op_key (delete k) = k

-- No key of the batch starts with `p`.
abbrev pub Avoids : Text → List Op → Type 0
Avoids p = All (λ op. starts_with p (op_key op) ≡ false)

-- Among the keys that start with `p`, the batch only replaces values that are there.
abbrev pub Replaces : (D : Db) → Text → D.State → Op → Type 0
Replaces D p s (put k v) = is_some (D.get s k) ≡ true
Replaces D p s (delete k) = starts_with p k ≡ false

starts_with-eq : (p j k : Text) → text_eq j k ≡ true → starts_with p j ≡ starts_with p k
starts_with-eq p j k e = ap (starts_with p) ((text_eq_iff j k).0 e)

pub after-Avoids :
    (p : Text) (ops : List Op) (k : Text) (old : Option Text)
    → Avoids p ops
    → starts_with p k ≡ true
    → after ops k old ≡ old
unfolding after
after-Avoids p [] k old a h = refl
after-Avoids p (put j v ∷ ops) k old a h =
    ground (arith, starts_with-eq p j k, after-Avoids p ops k old a.1 h)
after-Avoids p (delete j ∷ ops) k old a h =
    ground (arith, starts_with-eq p j k, after-Avoids p ops k old a.1 h)

module _ (D : Db) (p : Text) where
  is_some-after-Replaces :
      (s : D.State) (ops : List Op) (k : Text) (old : Option Text)
      → All (Replaces D p s) ops
      → starts_with p k ≡ true
      → is_some old ≡ is_some (D.get s k)
      → is_some (after ops k old) ≡ is_some (D.get s k)
  unfolding after
  is_some-after-Replaces s [] k old a q h = h
  is_some-after-Replaces s (put j v ∷ ops) k old a q h =
      is_some-after-Replaces s ops k _ a.1 q
        (ground (arith, ap (λ i. is_some (D.get s i)), text_eq_iff j k))
  is_some-after-Replaces s (delete j ∷ ops) k old a q h =
      is_some-after-Replaces s ops k _ a.1 q (ground (arith, starts_with-eq p j k))

module _ (D : Db) (law : IsLawful D) where
  -- A batch leaves the keys of other kinds alone, whether it is written or not.
  pub get-commit-Avoids :
      (s : D.State) (p : Text) (ops : List Op) (k : Text)
      → Avoids p ops
      → starts_with p k ≡ true
      → D.get (commit D s ops).0 k ≡ D.get s k
  get-commit-Avoids s p ops k a h =
      ground (arith, get-commit D law s ops k, after-Avoids p ops k (D.get s k) a h)

  pub is_some-commit-Replaces :
      (s : D.State) (p : Text) (ops : List Op) (k : Text)
      → All (Replaces D p s) ops
      → starts_with p k ≡ true
      → is_some (D.get (commit D s ops).0 k) ≡ is_some (D.get s k)
  is_some-commit-Replaces s p ops k a h =
      ground
        (arith, get-commit D law s ops k, is_some-after-Replaces D p s ops k (D.get s k) a h refl)

-- A property of the key and the value of every entry.
abbrev pub Valued {ℓ} : (D : Db) → (Text → Text → Type ℓ) → D.State → Type ℓ
Valued D V s = (k v : Text) → D.get s k ≡ some v → V k v

abbrev pub OpValued {ℓ} : (Text → Text → Type ℓ) → Op → Type ℓ
OpValued V (put k v) = V k v
OpValued V (delete k) = Unit

module _ {ℓ} (V : Text → Text → Type ℓ) (k : Text) where
  after-Valued :
      (ops : List Op) (old : Option Text)
      → All (OpValued V) ops
      → ((v : Text) → old ≡ some v → V k v)
      → (v : Text) → after ops k old ≡ some v
      → V k v
  unfolding after
  after-Valued [] old a h v e = h v e
  after-Valued (put j w ∷ ops) old a h v e =
      after-Valued ops _ a.1 (split (Bool-cases (text_eq j k))) v e
    where
      split :
          (text_eq j k ≡ true) ⊎ (text_eq j k ≡ false)
          → (x : Text) → (if text_eq j k then some w else old) ≡ some x
          → V k x
      split (inl hit) x q =
          subst (λ y. V k y) (ground arith) (subst (λ i. V i w) ((text_eq_iff j k).0 hit) a.0)
      split (inr miss) x q = h x (ground arith)
  after-Valued (delete j ∷ ops) old a h v e = after-Valued ops _ a.1 (λ x q. h x (ground arith)) v e

module _ {ℓ} (D : Db) (law : IsLawful D) (V : Text → Text → Type ℓ) where
  -- A batch of good entries keeps all entries good.
  pub commit-Valued :
      (s : D.State) (ops : List Op)
      → All (OpValued V) ops
      → Valued D V s
      → Valued D V (commit D s ops).0
  commit-Valued s ops a h k v e = elim (Bool-cases (commit D s ops).1) [
    | inl done ↦
        after-Valued V k ops (D.get s k) a (h k) v (ground (arith, get-commit D law s ops k))
    | inr failed ↦ h k v (ground (arith, get-commit D law s ops k))
  ]

-- An operation that does nothing or commits a batch keeps what that batch keeps.
pub keep_cases {ℓ} :
    (D : Db) (P : D.State → Type ℓ) (s : D.State) (ops : List Op) (r : D.State × Bool)
    → P s
    → P (commit D s ops).0
    → (r ≡ (s, false)) ⊎ (r ≡ commit D s ops)
    → P r.0
keep_cases D P s ops r h k (inl e) = subst (λ (x : D.State × Bool). P x.0) (sym e) h
keep_cases D P s ops r h k (inr e) = subst (λ (x : D.State × Bool). P x.0) (sym e) k

-- The database that a call leaves meets `P`.
pub record Keeps {ℓ κ μ} {S : Type ℓ} {A : Type κ} (P : S → Type μ) (r : S × A) : Type μ where
  pub state : P r.0

module _ {ℓ κ μ} {S : Type ℓ} {A : Type κ} {P : S → Type μ} where
  -- A test keeps what its two branches keep.
  pub keep_if : (b : Bool) (x y : S × A) → Keeps P x → Keeps P y → Keeps P (if b then x else y)
  keep_if true x y h k = h
  keep_if false x y h k = k

  -- A guard that returns the database as it is.
  pub keep_guard :
      (b : Bool) (s : S) (a : A) (y : S × A) → P s → Keeps P y → Keeps P (if b then (s, a) else y)
  keep_guard true s a y h k = record { state = h }
  keep_guard false s a y h k = k

pub ruleset keep_rules = (keep_guard, keep_if)
