-- ===== src/Storage/Order.antt =====
-- Entries in the order of their keys.
use swift_chat_system.Common.{
  ◌≡◌, refl, true, false, Option, none, some, List, [], ◌∷◌, if◌then◌else◌, arith,
}
use swift_chat_system.Common.Text.{Text, text_eq, text_lt, text_eq_iff}

abbrev pub Entries : Type 0
Entries = List (Text × Text)

unfoldable pub lookup : Text → Entries → Option Text
lookup k [] = none
lookup k ((j, v) ∷ es) = if text_eq j k then some v else lookup k es

-- Every key of the list comes after `k`.
abbrev pub Above : Text → Entries → Type 0
Above k [] = Unit
Above k ((j, v) ∷ es) = (text_lt k j ≡ true) × Above k es

abbrev pub IsSorted : Entries → Type 0
IsSorted [] = Unit
IsSorted ((j, v) ∷ es) = Above j es × IsSorted es

pub text_lt_trans : (a b c : Text) → text_lt a b ≡ true → text_lt b c ≡ true → text_lt a c ≡ true
unfolding text_lt
text_lt_trans [] [] c h k = cc
text_lt_trans [] (y ∷ b) [] h k = cc
text_lt_trans [] (y ∷ b) (z ∷ c) h k = refl
text_lt_trans (x ∷ a) [] c h k = cc
text_lt_trans (x ∷ a) (y ∷ b) [] h k = cc
text_lt_trans (x ∷ a) (y ∷ b) (z ∷ c) h k = ground (arith, text_lt_trans a b c)

pub text_lt_total : (a b : Text) → text_lt a b ≡ false → text_eq a b ≡ false → text_lt b a ≡ true
unfolding text_lt text_eq
text_lt_total [] [] h k = cc
text_lt_total [] (y ∷ b) h k = cc
text_lt_total (x ∷ a) [] h k = refl
text_lt_total (x ∷ a) (y ∷ b) h k = ground (arith, text_lt_total a b)

pub text_lt_ne : (a b : Text) → text_lt a b ≡ true → text_eq a b ≡ false
unfolding text_lt text_eq
text_lt_ne [] [] h = cc
text_lt_ne [] (y ∷ b) h = refl
text_lt_ne (x ∷ a) [] h = refl
text_lt_ne (x ∷ a) (y ∷ b) h = ground (arith, text_lt_ne a b)

pub Above-trans : (j k : Text) (es : Entries) → text_lt j k ≡ true → Above k es → Above j es
Above-trans j k [] h a = tt
Above-trans j k ((i, v) ∷ es) h a = (text_lt_trans j k i h a.0, Above-trans j k es h a.1)

-- A key is not among the entries above it.
pub lookup-Above : (k : Text) (es : Entries) → Above k es → lookup k es ≡ none
unfolding lookup
lookup-Above k [] a = refl
lookup-Above k ((j, v) ∷ es) a =
    ground (arith, lookup-Above k es a.1, text_lt_ne k j a.0, text_eq_iff j k, text_eq_iff k j)
