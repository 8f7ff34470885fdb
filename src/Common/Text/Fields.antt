-- ===== src/Common/Text/Fields.antt =====
-- Keys are built of fields with a colon between them. A field with no colon in it can be read off.
use swift_chat_system.Common.Tests.{◌==◌}
use swift_chat_system.Common.Lists.{All}
use swift_chat_system.Common.Text.{Text, text_eq, starts_with}
use Prim.Native.Nat.{ℕ}
use mathlib.Core.Path.{◌≡◌, refl}
use mathlib.Core.Bool.{false, ◌&&◌}
use mathlib.Core.List.{[], ◌∷◌, ◌++◌}
use native.Mathlib.Omega.{arith}

abbrev pub colon : ℕ
colon = b':'

abbrev pub IsColonFree : Text → Type 0
IsColonFree = All (λ c. (c == colon) ≡ false)

-- `a + ":" + b`
abbrev pub join : Text → Text → Text
join a b = a ++ (colon ∷ b)

pub text_eq-append_left : (p a b : Text) → text_eq (p ++ a) (p ++ b) ≡ text_eq a b
unfolding text_eq
text_eq-append_left [] a b = refl
text_eq-append_left (x ∷ p) a b = ground (arith, text_eq-append_left p a b)

pub starts_with-append_left : (p a b : Text) → starts_with (p ++ a) (p ++ b) ≡ starts_with a b
unfolding starts_with
starts_with-append_left [] a b = refl
starts_with-append_left (x ∷ p) a b = ground (arith, starts_with-append_left p a b)

pub text_eq-join :
    (a b c d : Text)
    → IsColonFree a
    → IsColonFree c
    → text_eq (join a b) (join c d) ≡ (text_eq a c && text_eq b d)
unfolding text_eq
text_eq-join [] b [] d h k = refl
text_eq-join [] b (y ∷ c) d h k = ground arith
text_eq-join (x ∷ a) b [] d h k = ground arith
text_eq-join (x ∷ a) b (y ∷ c) d h k = ground (arith, text_eq-join a b c d h.1 k.1)

pub starts_with-join :
    (a c d : Text)
    → IsColonFree a
    → IsColonFree c
    → starts_with (join a []) (join c d) ≡ text_eq a c
unfolding text_eq starts_with
starts_with-join [] [] d h k = refl
starts_with-join [] (y ∷ c) d h k = ground arith
starts_with-join (x ∷ a) [] d h k = ground arith
starts_with-join (x ∷ a) (y ∷ c) d h k = ground (arith, starts_with-join a c d h.1 k.1)
