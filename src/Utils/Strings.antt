-- ===== src/Utils/Strings.antt =====
-- The text functions of common/src/utils.cpp. The classes of characters are those of the C locale,
-- for bytes below 128. A position in a text is written as the text before it and from it on.
pub mod Split
pub mod Trim
use swift_chat_system.Common.{
  ℕ, zero, suc, ◌+◌, ◌-◌, Bool, true, false, not, ◌&&◌, ◌||◌, Option, none, some, List, [], ◌∷◌,
  ◌++◌, if◌then◌else◌, leb, ltb, ◌==◌, length, drop, map, is_some,
}
use swift_chat_system.Common.Text.{Text, codes, text_eq, is_empty, starts_with}
use swift_chat_system.Utils.Codec.{is_digit, is_upper, is_lower}

-- `find(needle)`: the text before the first occurrence, and the text behind it.
unfoldable pub find : Text → Text → Option (Text × Text)
find needle [] = if is_empty needle then some ([], []) else none
find needle (c ∷ cs) =
    let rest = find needle cs in
    if starts_with needle (c ∷ cs)
    then some ([], drop (length needle) (c ∷ cs))
    else elim rest [ none ↦ none | some (a, b) ↦ some (c ∷ a, b) ]

-- Split by a delimiter that is not empty, on fuel; `none` means that the fuel ran out.
unfoldable pub split_loop : ℕ → Text → Text → Option (List Text)
split_loop zero delimiter s = none
split_loop (suc fuel) delimiter s = elim (find delimiter s) [
  | none ↦ some (s ∷ [])
  | some (before, behind) ↦ elim (split_loop fuel delimiter behind) [
    | none ↦ none
    | some parts ↦ some (before ∷ parts)
  ]
]

-- Each round takes a byte at least.
unfoldable pub split : Text → Text → Option (List Text)
split s delimiter =
    if is_empty delimiter then some (s ∷ []) else split_loop (suc (length s)) delimiter s

-- The end of Join, behind the first part.
unfoldable pub join_rest : Text → List Text → Text
join_rest delimiter [] = []
join_rest delimiter (p ∷ ps) = delimiter ++ (p ++ join_rest delimiter ps)

unfoldable pub join : List Text → Text → Text
join [] delimiter = []
join (p ∷ ps) delimiter = p ++ join_rest delimiter ps

-- `while (getline(ss, item, delimiter))`: the text that is left when the input ends is an item
-- unless it is empty.
unfoldable pub getlines : Text → ℕ → Text → List Text
getlines item delimiter [] = if is_empty item then [] else item ∷ []
getlines item delimiter (c ∷ cs) =
    let next = getlines [] delimiter cs in
    let more = getlines (item ++ (c ∷ [])) delimiter cs in
    if c == delimiter then item ∷ next else more

unfoldable pub split_char : Text → ℕ → List Text
split_char s delimiter = getlines [] delimiter s

abbrev pub is_space : ℕ → Bool
is_space c = c == 32 || (leb 9 c && leb c 13)

unfoldable pub trim_left : Text → Text
trim_left [] = []
trim_left (c ∷ cs) = if is_space c then trim_left cs else c ∷ cs

unfoldable pub trim_right : Text → Text
trim_right [] = []
trim_right (c ∷ cs) =
    let rest = trim_right cs in if is_empty rest && is_space c then [] else c ∷ rest

unfoldable pub trim : Text → Text
trim s = trim_left (trim_right s)

unfoldable pub to_lower : Text → Text
to_lower = map (λ c. if is_upper c then c + 32 else c)

unfoldable pub to_upper : Text → Text
to_upper = map (λ c. if is_lower c then c - 32 else c)

unfoldable pub replace : Text → Text → Text → Text
replace s from to =
    if is_empty from
    then s
    else elim (find from s) [ none ↦ s | some (before, behind) ↦ before ++ (to ++ behind) ]

-- ReplaceAll, on fuel: the text before `pos`, and the text from it on.
unfoldable pub replace_loop : ℕ → Text → Text → Text → Text → Option Text
replace_loop zero from to done s = none
replace_loop (suc fuel) from to done s = elim (find from s) [
  | none ↦ some (done ++ s)
  | some (before, behind) ↦ replace_loop fuel from to (done ++ (before ++ to)) behind
]

unfoldable pub replace_all : Text → Text → Text → Option Text
replace_all s from to = if is_empty from then some s else replace_loop (suc (length s)) from to [] s

unfoldable pub ends_with : Text → Text → Bool
ends_with s suffix =
    if ltb (length s) (length suffix)
    then false
    else text_eq (drop (length s - length suffix) s) suffix

unfoldable pub all_of : (ℕ → Bool) → Text → Bool
all_of p [] = true
all_of p (c ∷ cs) = p c && all_of p cs

unfoldable pub is_digits : Text → Bool
is_digits s = not (is_empty s) && all_of is_digit s

unfoldable pub is_blank : Text → Bool
is_blank s = all_of is_space s
