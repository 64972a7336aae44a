-- ===== src/Token/Scalar.antt =====
-- token/token.go: what a plain scalar's text resolves to (`ScalarType`), and what the encoder takes
-- for a number (`isNumber`).
pub mod Quoting
pub mod Cover
pub mod Signed
use go_yaml.Base.{
  ℕ, Bool, true, false, not, ◌&&◌, ◌||◌, Option, none, some, List, [], ◌∷◌, leb, within, ◌==◌,
  if◌then◌else◌, drop, Bytes, codes, is_digit, contains_byte, has_prefix,
}
use go_yaml.Token.Kind.{
  TokenType, integer, binary_integer, octet_integer, hex_integer, float, string, infinity, nan,
  is_integer,
}
use go_yaml.Token.Keyword.{Schema, schema12, schema11, keyword_type}
use go_yaml.Token.Number.{
  NumberType, NumberShape, shape12, shape11, may_be_number, in_base, unseparate, all_sexagesimal,
}

unfoldable pub shape_of_number : Bytes → Schema → Option NumberShape
unfolding shape12 shape11 may_be_number
shape_of_number value schema12 = if not (may_be_number value) then none else shape12 value
shape_of_number value schema11 = if not (may_be_number value) then none else shape11 value

unfoldable pub number_type : Bytes → Schema → Option NumberType
number_type value schema = elim (shape_of_number value schema) [
  | none ↦ none
  | some shape ↦ some shape.typ
]

unfoldable pub type_of_number : NumberType → TokenType
type_of_number NumberType.float = float
type_of_number NumberType.binary = binary_integer
type_of_number NumberType.octet = octet_integer
type_of_number NumberType.hex = hex_integer
type_of_number NumberType.decimal = integer

-- behind the keyword test
unfoldable pub scalar_number : Bytes → Schema → TokenType
unfolding may_be_number number_type shape_of_number type_of_number
scalar_number value schema =
    if not (may_be_number value)
    then string
    else elim (number_type value schema) [ none ↦ string | some typ ↦ type_of_number typ ]

unfoldable pub scalar_type : Bytes → Schema → TokenType
unfolding keyword_type scalar_number
scalar_type value schema = elim (keyword_type value schema) [
  | some typ ↦ typ
  | none ↦ scalar_number value schema
]

unfoldable pub integer_base : Bytes → Schema → TokenType × Bool
unfolding scalar_type is_integer
integer_base text schema =
    let typ = scalar_type text schema in if is_integer typ then (typ, true) else (integer, false)

-- the switch of `FloatBase`
unfoldable pub is_real : TokenType → Bool
unfolding is_integer
is_real float = true
is_real infinity = true
is_real nan = true
is_real t = is_integer t

unfoldable pub float_base : Bytes → Schema → TokenType × Bool
unfolding scalar_type is_real
float_base text schema =
    let typ = scalar_type text schema in if is_real typ then (typ, true) else (float, false)

-- `strings.TrimPrefix` with a prefix of one byte
unfoldable pub trim_byte : ℕ → Bytes → Bytes
trim_byte b [] = []
trim_byte b (c ∷ cs) = if c == b then cs else c ∷ cs

-- `strings.TrimPrefix(strings.TrimPrefix(value, "+"), "-")`
unfoldable pub unsigned_text : Bytes → Bytes
unfolding trim_byte
unsigned_text value = trim_byte b'-' (trim_byte b'+' value)

unfoldable pub is_binary_literal : Bytes → Bool
unfolding unsigned_text has_prefix in_base unseparate
is_binary_literal value =
    let digits = unsigned_text value in
    has_prefix digits (codes "0b") && in_base (unseparate (drop 2 digits)) 2

unfoldable pub is_sexagesimal : Bytes → Bool
unfolding unsigned_text contains_byte all_sexagesimal
is_sexagesimal value =
    let digits = unsigned_text value in contains_byte b':' digits && all_sexagesimal digits

unfoldable pub is_number12 : Bytes → Bool
unfolding number_type shape_of_number
is_number12 value = elim (number_type value schema12) [ none ↦ false | some typ ↦ true ]

unfoldable pub is_number : Bytes → Bool
unfolding is_number12 may_be_number contains_byte unseparate is_binary_literal is_sexagesimal
is_number value =
    if is_number12 value
    then true
    else if not (may_be_number value)
    then false
    else if contains_byte b'_' value && is_number12 (unseparate value)
    then true
    else is_binary_literal value || is_sexagesimal value
