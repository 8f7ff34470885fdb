-- ===== src/Json/Codec.antt =====
-- A printer and a parser that meet the law: every item behind its tag and its length.
use swift_chat_system.Common.{
  ℕ, zero, suc, ◌≡◌, refl, true, false, Option, none, some, List, [], ◌∷◌, ◌++◌, length, take, drop,
  take-append_length, drop-append_length, ◌>>=◌, arith,
}
use mathlib.Core.List.{append_assoc}
use swift_chat_system.Common.Int.{pos, negsuc}
use swift_chat_system.Common.Text.{Text}
use swift_chat_system.Json.{Value, str, int, bool, strs, Object, Json, IsLawful}

print_text : Text → Text
print_text t = length t ∷ t

read_text : Text → Option (Text × Text)
read_text [] = none
read_text (n ∷ rest) = some (take n rest, drop n rest)

read_text-print : (t rest : Text) → read_text (print_text t ++ rest) ≡ some (t, rest)
unfolding read_text print_text
read_text-print t rest = rw (take-append_length t rest, drop-append_length t rest)

print_texts : List Text → Text
print_texts [] = []
print_texts (t ∷ ts) = print_text t ++ print_texts ts

read_texts : ℕ → Text → Option (List Text × Text)
read_texts zero rest = some ([], rest)
read_texts (suc n) rest = do
  (t, rest') ← read_text rest
  (ts, rest'') ← read_texts n rest'
  some (t ∷ ts, rest'')

read_texts-print :
    (ts : List Text) (rest : Text)
    → read_texts (length ts) (print_texts ts ++ rest) ≡ some (ts, rest)
unfolding read_texts print_texts
read_texts-print [] rest = refl
read_texts-print (t ∷ ts) rest = rw (
  append_assoc (print_text t) (print_texts ts) rest,
  read_text-print t (print_texts ts ++ rest),
  read_texts-print ts rest,
)

print_value : Value → Text
unfolding print_text print_texts
print_value (str t) = 0 ∷ print_text t
print_value (int (pos n)) = 1 ∷ n ∷ []
print_value (int (negsuc n)) = 2 ∷ n ∷ []
print_value (bool true) = 3 ∷ []
print_value (bool false) = 4 ∷ []
print_value (strs ts) = 5 ∷ length ts ∷ print_texts ts

read_value : Text → Option (Value × Text)
unfolding read_text read_texts
read_value (zero ∷ rest) = do (t, rest') ← read_text rest; some (str t, rest')
read_value (suc zero ∷ n ∷ rest) = some (int (pos n), rest)
read_value (suc (suc zero) ∷ n ∷ rest) = some (int (negsuc n), rest)
read_value (suc (suc (suc zero)) ∷ rest) = some (bool true, rest)
read_value (suc (suc (suc (suc zero))) ∷ rest) = some (bool false, rest)
read_value (suc (suc (suc (suc (suc zero)))) ∷ n ∷ rest) = do
  (ts, rest') ← read_texts n rest
  some (strs ts, rest')
read_value _ = none

read_value-print : (v : Value) (rest : Text) → read_value (print_value v ++ rest) ≡ some (v, rest)
unfolding read_value print_value
read_value-print (str t) rest = ground (arith, read_text-print t rest)
read_value-print (int (pos n)) rest = refl
read_value-print (int (negsuc n)) rest = refl
read_value-print (bool true) rest = refl
read_value-print (bool false) rest = refl
read_value-print (strs ts) rest = ground (arith, read_texts-print ts rest)

print_entries : Object → Text
print_entries [] = []
print_entries ((k, v) ∷ o) = print_text k ++ (print_value v ++ print_entries o)

read_entries : ℕ → Text → Option Object
read_entries zero rest = some []
read_entries (suc n) rest = do
  (k, rest') ← read_text rest
  (v, rest'') ← read_value rest'
  o ← read_entries n rest''
  some ((k, v) ∷ o)

read_entries-print : (o : Object) → read_entries (length o) (print_entries o) ≡ some o
unfolding read_entries print_entries
read_entries-print [] = refl
read_entries-print ((k, v) ∷ o) = rw (
  read_text-print k (print_value v ++ print_entries o),
  read_value-print v (print_entries o),
  read_entries-print o,
)

read_object : Text → Option Object
unfolding read_entries
read_object [] = none
read_object (n ∷ rest) = read_entries n rest

unfoldable pub codec : Json
unfolding read_object print_entries print_text print_value read_text read_value
codec = record { dump = λ o. length o ∷ print_entries o; parse = read_object }

pub codec-IsLawful : IsLawful codec
unfolding codec
codec-IsLawful = record { parse-dump = λ o. (o, read_entries-print o, λ k. refl) }
