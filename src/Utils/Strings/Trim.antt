-- ===== src/Utils/Strings/Trim.antt =====
-- What Trim leaves and takes.
use mathlib.Core.List.{append_assoc}
use swift_chat_system.Common.{
  ℕ, ◌≡◌, refl, ap, ◌∙◌, Bool, true, false, not, ◌&&◌, [], ◌∷◌, ◌++◌, arith, Bool-cases, inl, inr,
}
use swift_chat_system.Common.Text.{Text, is_empty}
use swift_chat_system.Utils.Strings.{is_space, trim_left, trim_right, trim, all_of, is_blank}

-- The text starts with no space, or is empty; and so for its end.
abbrev pub starts_tight : Text → Bool
starts_tight [] = true
starts_tight (c ∷ cs) = not (is_space c)

unfoldable pub ends_tight : Text → Bool
ends_tight [] = true
ends_tight (c ∷ []) = not (is_space c)
ends_tight (c ∷ d ∷ cs) = ends_tight (d ∷ cs)

-- Trimming took spaces only, on both sides.
pub record IsTrimmed (s t : Text) : Type 0 where
  pub before : Text
  pub behind : Text
  pub whole : s ≡ before ++ (t ++ behind)
  pub before_blank : is_blank before ≡ true
  pub behind_blank : is_blank behind ≡ true
  pub tight_start : starts_tight t ≡ true
  pub tight_end : ends_tight t ≡ true

trim_left_parts :
    (s : Text)
    → (a : Text) × (s ≡ a ++ trim_left s)
      × (is_blank a ≡ true)
      × (starts_tight (trim_left s) ≡ true)
unfolding trim_left is_blank all_of
trim_left_parts [] = ([], refl, refl, refl)
trim_left_parts (c ∷ cs) = elim (Bool-cases (is_space c)) [
  | inl space ↦
      let (a, whole, blank, tight) = trim_left_parts cs in
      (c ∷ a, ground arith, ground arith, ground arith)
  | inr ink ↦ ([], ground arith, refl, ground arith)
]

trim_left-ends_tight : (s : Text) → ends_tight s ≡ true → ends_tight (trim_left s) ≡ true
unfolding trim_left ends_tight
trim_left-ends_tight [] h = refl
trim_left-ends_tight (c ∷ []) h = ground arith
trim_left-ends_tight (c ∷ d ∷ cs) h = ground (arith, trim_left-ends_tight (d ∷ cs) h)

ends_tight-cons :
    (c : ℕ) (r : Text)
    → ends_tight r ≡ true
    → (is_empty r && is_space c) ≡ false
    → ends_tight (c ∷ r) ≡ true
unfolding ends_tight
ends_tight-cons c [] h k = ground arith
ends_tight-cons c (d ∷ r) h k = h

trim_right_parts :
    (s : Text)
    → (b : Text) × (s ≡ trim_right s ++ b)
      × (is_blank b ≡ true)
      × (ends_tight (trim_right s) ≡ true)
unfolding trim_right is_blank all_of
trim_right_parts [] = ([], refl, refl, unfold ends_tight in refl)
trim_right_parts (c ∷ cs) =
    let (b, whole, blank, tight) = trim_right_parts cs in
    elim (Bool-cases (is_empty (trim_right cs) && is_space c)) [
      | inl gone ↦
          (c ∷ b, rw gone (ground arith), ground arith, rw gone (unfold ends_tight in refl))
      | inr kept ↦
          (b, rw kept (ground arith), blank, rw kept (ends_tight-cons c (trim_right cs) tight kept))
    ]

-- Trim takes the spaces at both ends and nothing else.
pub trim-IsTrimmed : (s : Text) → IsTrimmed s (trim s)
unfolding trim
trim-IsTrimmed s =
    let (b, right, b_blank, b_tight) = trim_right_parts s in
    let (a, left, a_blank, a_tight) = trim_left_parts (trim_right s) in
    record {
      before = a;
      behind = b;
      whole =
          right ∙ (ap (λ (t : Text). t ++ b) left ∙ append_assoc a (trim_left (trim_right s)) b);
      before_blank = a_blank;
      behind_blank = b_blank;
      tight_start = a_tight;
      tight_end = trim_left-ends_tight (trim_right s) b_tight;
    }
