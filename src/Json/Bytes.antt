-- ===== src/Json/Bytes.antt =====
-- A printer of bytes that meets the law: the numbers of `codec`, seven bits at a time.
use swift_chat_system.Common.{
  ℕ, zero, suc, ◌≡◌, refl, ap, ◌∙◌, ◌+◌, ◌-◌, ◌*◌, ◌/◌, ◌%◌, ◌<◌, [], ◌∷◌, ◌++◌, All, arith, ltb,
  if◌then◌else◌, Bool-cases, false, inl, inr,
}
use swift_chat_system.Common.Text.{Text, IsByte}
use swift_chat_system.Json.{Json, IsLawful, PrintsBytes}
use swift_chat_system.Json.Codec.{codec, codec-IsLawful}

print_number : ℕ → ℕ → Text
print_number zero n = []
print_number (suc fuel) n =
    let more = print_number fuel (n / 128) in if ltb n 128 then n ∷ [] else (128 + n % 128) ∷ more

print_numbers : Text → Text
print_numbers [] = []
print_numbers (n ∷ ns) = print_number (suc n) n ++ print_numbers ns

-- The number so far, and the weight of the next digit.
read_numbers : ℕ → ℕ → Text → Text
read_numbers acc weight [] = []
read_numbers acc weight (c ∷ cs) =
    let done = read_numbers 0 1 cs in
    let more = read_numbers (acc + weight * (c - 128)) (weight * 128) cs in
    if ltb c 128 then (acc + weight * c) ∷ done else more

tail_digit : (d : ℕ) → ltb (128 + d) 128 ≡ false
tail_digit d = ground arith

weigh_parts :
    (r q acc weight : ℕ) → acc + weight * r + weight * 128 * q ≡ acc + weight * (r + 128 * q)
weigh_parts r q acc weight = grind arith

weigh : (n acc weight : ℕ) → acc + weight * (n % 128) + weight * 128 * (n / 128) ≡ acc + weight * n
weigh n acc weight =
    weigh_parts (n % 128) (n / 128) acc weight ∙ ap (λ m. acc + weight * m) (omega arith)

read_numbers-print_number :
    (fuel n acc weight : ℕ) (rest : Text)
    → n < fuel
    → read_numbers acc weight (print_number fuel n ++ rest)
      ≡ (acc + weight * n) ∷ read_numbers 0 1 rest
unfolding read_numbers print_number
read_numbers-print_number zero n acc weight rest h = absurd (omega arith)
read_numbers-print_number (suc fuel) n acc weight rest h = elim (Bool-cases (ltb n 128)) [
  | inl small ↦ rw (small, small)
  | inr large ↦
      let digit : 128 + n % 128 - 128 ≡ n % 128 = omega arith in
      let next =
        read_numbers-print_number fuel (n / 128) (acc + weight * (n % 128)) (weight * 128) rest
          (ground arith) in
      rw (large, tail_digit (n % 128), digit, next, weigh n acc weight)
]

one : (n : ℕ) → 0 + 1 * n ≡ n
one n = omega arith

read_numbers-print_numbers : (ns : Text) → read_numbers 0 1 (print_numbers ns) ≡ ns
unfolding print_numbers read_numbers
read_numbers-print_numbers [] = refl
read_numbers-print_numbers (n ∷ ns) =
    read_numbers-print_number (suc n) n 0 1 (print_numbers ns) (omega arith)
    ∙ rw (read_numbers-print_numbers ns, one n)

All-++ : (a b : Text) → All IsByte a → All IsByte b → All IsByte (a ++ b)
All-++ [] b h h' = h'
All-++ (c ∷ a) b h h' = (h.0, All-++ a b h.1 h')

print_number-IsByte : (fuel n : ℕ) → All IsByte (print_number fuel n)
unfolding print_number
print_number-IsByte zero n = tt
print_number-IsByte (suc fuel) n = elim (Bool-cases (ltb n 128)) [
  | inl small ↦ rw small (ground arith, tt)
  | inr large ↦ rw large (omega arith, print_number-IsByte fuel (n / 128))
]

print_numbers-IsByte : (ns : Text) → All IsByte (print_numbers ns)
unfolding print_numbers
print_numbers-IsByte [] = tt
print_numbers-IsByte (n ∷ ns) =
    All-++ (print_number (suc n) n) (print_numbers ns) (print_number-IsByte (suc n) n)
      (print_numbers-IsByte ns)

pub byte_codec : Json
byte_codec = record {
  dump = λ o. print_numbers (codec.dump o);
  parse = λ t. codec.parse (read_numbers 0 1 t);
}

pub byte_codec-IsLawful : IsLawful byte_codec
unfolding byte_codec
byte_codec-IsLawful = record {
  parse-dump = λ o. rw (read_numbers-print_numbers (codec.dump o)) (codec-IsLawful.parse-dump o);
}

pub byte_codec-PrintsBytes : PrintsBytes byte_codec
unfolding byte_codec
byte_codec-PrintsBytes o = print_numbers-IsByte (codec.dump o)
