-- ===== src/Json.antt =====
-- nlohmann::json, as the stores use it: an object is filled by `j[key] = value`, printed by
-- `dump`, read by `parse`, and asked by `value(key, default)`, which throws on a value of
-- another type. The printer and the parser are an interface with the law that they fit.
pub mod Codec
pub mod Bytes
use swift_chat_system.Common.{
  ◌≡◌, Bool, true, false, Option, none, some, List, [], ◌∷◌, if◌then◌else◌, All,
}
use swift_chat_system.Common.Int.{ℤ, pos, to_int32}
use swift_chat_system.Common.Text.{Text, IsByte, text_eq}

pub data Value : Type 0 where
  str : Text → Value
  int : ℤ → Value
  bool : Bool → Value
  strs : List Text → Value

abbrev pub Object : Type 0
Object = List (Text × Value)

unfoldable pub find : Text → Object → Option Value
find k [] = none
find k ((j, v) ∷ o) = if text_eq j k then some v else find k o

pub record Json : Type 0 where
  pub dump : Object → Text
  -- `none`: the text is no object, and `parse` or the read of it throws.
  pub parse : Text → Option Object

-- What was printed is read back, up to the order of the keys.
pub record IsLawful (J : Json) : Type 0 where
  pub parse-dump :
      (o : Object)
      → (o' : Object) × (J.parse (J.dump o) ≡ some o') × ((k : Text) → find k o' ≡ find k o)

-- A printed text is a `std::string`: its characters are bytes.
abbrev pub PrintsBytes : Json → Type 0
PrintsBytes J = (o : Object) → All IsByte (J.dump o)

abbrev pub as_text : Text → Option Value → Option Text
as_text d none = some d
as_text d (some (str t)) = some t
as_text d (some (int _)) = none
as_text d (some (bool _)) = none
as_text d (some (strs _)) = none

-- `get<int64_t>`: the type of the library's integers, for which a Boolean is a type error.
abbrev pub as_int64 : ℤ → Option Value → Option ℤ
as_int64 d none = some d
as_int64 d (some (int n)) = some n
as_int64 d (some (bool _)) = none
as_int64 d (some (str _)) = none
as_int64 d (some (strs _)) = none

-- `get<int>`: a Boolean is taken as a number.
abbrev pub as_int : ℤ → Option Value → Option ℤ
as_int d none = some d
as_int d (some (int n)) = some (to_int32 n)
as_int d (some (bool true)) = some (pos 1)
as_int d (some (bool false)) = some (pos 0)
as_int d (some (str _)) = none
as_int d (some (strs _)) = none

-- `j.value(key, "")`, `j.value(key, static_cast<int64_t>(d))` and `j.value(key, d)` for an int `d`.
abbrev pub text_value : Object → Text → Text → Option Text
text_value o k d = as_text d (find k o)

abbrev pub int64_value : Object → Text → ℤ → Option ℤ
int64_value o k d = as_int64 d (find k o)

abbrev pub int_value : Object → Text → ℤ → Option ℤ
int_value o k d = as_int d (find k o)

-- `get<bool>`: only Booleans.
abbrev pub as_bool : Bool → Option Value → Option Bool
as_bool d none = some d
as_bool d (some (bool b)) = some b
as_bool d (some (int _)) = none
as_bool d (some (str _)) = none
as_bool d (some (strs _)) = none

-- `j.value(key, b)` for a Boolean `b`.
abbrev pub bool_value : Object → Text → Bool → Option Bool
bool_value o k d = as_bool d (find k o)

-- The strings of an array, and none of any other value.
abbrev pub as_strs : Option Value → List Text
as_strs (some (strs ts)) = ts
as_strs _ = []
