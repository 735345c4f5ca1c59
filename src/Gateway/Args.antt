-- ===== src/Gateway/Args.antt =====
-- internal/syscall/gateway.go: the arguments of a call and how they are read.
--
-- A value of `map[string]any` is one of the types that the readers tell apart; an `[]any` is the list
-- of its items, `none` for an item that is no string. `float64` is the type `F`, with its conversion
-- to an `int`, and `strconv.Atoi` a function, without its error.
use os_complete.Base.{
  String, List, [], ◌∷◌, Option, none, some, lookup, ite, dec_str, Bool, true, false, ℤ, pos, ltb_ℤ,
  if◌then◌else◌,
}

pub data Arg (F : Type 0) : Type 0 where
  text : String → Arg F
  texts : List String → Arg F
  items : List (Option String) → Arg F
  flag : Bool → Arg F
  int : ℤ → Arg F
  real : F → Arg F
  number : String → Arg F
  other : Arg F

-- `none` is a `nil` map.
abbrev pub Args : Type 0 → Type 0
Args F = Option (List (String × Arg F))

only_strings : List (Option String) → List String
only_strings [] = []
only_strings (none ∷ rest) = only_strings rest
only_strings (some item ∷ rest) = item ∷ only_strings rest

module _ {F : Type 0} where
  unfoldable pub arg_of : Args F → String → Option (Arg F)
  arg_of none key = none
  arg_of (some args) key = lookup dec_str key args

  as_string : Option (Arg F) → String × Bool
  as_string (some (text value)) = (value, true)
  as_string _ = ("", false)

  unfoldable pub string_arg : Args F → String → String × Bool
  unfolding arg_of as_string
  string_arg args key = as_string (arg_of args key)

  as_strings : Option (Arg F) → List String
  unfolding only_strings
  as_strings (some (texts values)) = values
  as_strings (some (items values)) = only_strings values
  as_strings _ = []

  unfoldable pub string_slice_arg : Args F → String → List String
  unfolding arg_of as_strings
  string_slice_arg args key = as_strings (arg_of args key)

  as_int : (F → ℤ) → (String → ℤ) → Option (Arg F) → ℤ
  as_int int_of atoi (some (int value)) = value
  as_int int_of atoi (some (real value)) = int_of value
  as_int int_of atoi (some (number value)) = atoi value
  as_int int_of atoi _ = pos 0

  unfoldable pub int_arg : (F → ℤ) → (String → ℤ) → Args F → String → ℤ
  unfolding arg_of as_int
  int_arg int_of atoi args key = as_int int_of atoi (arg_of args key)

  as_bool : Option (Arg F) → Bool
  as_bool (some (flag value)) = value
  as_bool (some (text value)) = ite (dec_str value "true") true false
  as_bool _ = false

  unfoldable pub bool_arg : Args F → String → Bool
  unfolding arg_of as_bool
  bool_arg args key = as_bool (arg_of args key)

unfoldable pub max_int : ℤ → ℤ → ℤ
max_int left right = if ltb_ℤ right left then left else right
