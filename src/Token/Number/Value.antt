-- ===== src/Token/Number/Value.antt =====
-- token/token.go: what the text of an integer is worth. The type was settled before, so
-- `shapeOfTypedNumber` takes the base from it. `big.Int` holds an integer of any size.
use go_yaml.Token.Kind.{TokenType, integer, octet_integer, hex_integer, binary_integer, float}
use go_yaml.Token.Number.Digits.{
  NumberType, NumberType.decimal, NumberShape, digit_value, in_base, unseparate, split_sign,
}
use go_yaml.Token.Number.Legacy.{sexagesimal_base}
use go_yaml.Base.{
  ℕ, ◌+◌, ◌-◌, ◌*◌, ◌/◌, ◌%◌, ◌^◌, Bool, true, false, not, ◌&&◌, ◌||◌, Option, none, some, List, [],
  ◌∷◌, ltb, ◌==◌, if◌then◌else◌, drop, length, Bytes, codes, contains_byte, has_prefix, ℤ, pos, neg,
  negate, scaled, ◌+ℤ◌,
}

-- `strings.TrimPrefix`
unfoldable pub trim_prefix : Bytes → Bytes → Bytes
unfolding has_prefix
trim_prefix s p = if has_prefix s p then drop (length p) s else s

abbrev pub is_float : NumberType → Bool
is_float NumberType.float = true
is_float _ = false

-- behind the switch on the type
unfoldable pub typed_shape : NumberType → ℕ → Bool → Bytes → Option NumberShape
unfolding unseparate contains_byte in_base
typed_shape kind base negative text =
    let body = unseparate text in
    let based = if contains_byte b':' body then sexagesimal_base else base in
    if not (is_float kind) && not (based == sexagesimal_base) && not (in_base body based)
    then none
    else some (record { typ = kind; base = based; digits = body; negative = negative })

-- the switch on the type
unfoldable pub shape_by_type : TokenType → Bool → Bytes → Option NumberShape
unfolding typed_shape trim_prefix
shape_by_type integer negative body = typed_shape decimal 10 negative body
shape_by_type octet_integer negative body =
    typed_shape NumberType.octet 8 negative (trim_prefix body (codes "0o"))
shape_by_type hex_integer negative body =
    typed_shape NumberType.hex 16 negative (trim_prefix body (codes "0x"))
shape_by_type binary_integer negative body =
    typed_shape NumberType.binary 2 negative (trim_prefix body (codes "0b"))
shape_by_type float negative body = typed_shape NumberType.float 10 negative body
shape_by_type _ negative body = none

unfoldable pub shape_of_typed_number : Bytes → TokenType → Option NumberShape
unfolding split_sign shape_by_type
shape_of_typed_number [] typ = none
shape_of_typed_number (c ∷ cs) typ =
    let (negative, body) = split_sign (c ∷ cs) in shape_by_type typ negative body

unfoldable pub base_value : ℕ → ℕ → Bytes → ℕ
unfolding digit_value
base_value base v [] = v
base_value base v (c ∷ cs) = base_value base (v * base + digit_value c) cs

-- `strconv.ParseUint(digits, base, 64)`, for a base up to 16
unfoldable pub parse_uint_in : ℕ → Bytes → Option ℕ
unfolding in_base base_value
parse_uint_in base s =
    let v = base_value base 0 s in if in_base s base && ltb v (2 ^ 64) then some v else none

-- `strings.IndexByte(digits, '.')` and the text in front of it
unfoldable pub before_point : Bytes → Bytes
before_point [] = []
before_point (c ∷ cs) = let more = before_point cs in if c == b'.' then [] else c ∷ more

unfoldable pub from_point : Bytes → Bytes
from_point [] = []
from_point (c ∷ cs) = let more = from_point cs in if c == b'.' then c ∷ cs else more

abbrev pub on_first : ℕ → List Bytes → List Bytes
on_first c [] = []
on_first c (g ∷ gs) = (c ∷ g) ∷ gs

-- `strings.Split(digits, ":")`
unfoldable pub split_groups : Bytes → List Bytes
split_groups [] = [] ∷ []
split_groups (c ∷ cs) =
    let more = split_groups cs in if c == b':' then [] ∷ more else on_first c more

-- the loop of `sexagesimalValue`, on `uint64`
unfoldable pub add_groups : ℕ → List Bytes → Option ℕ
unfolding parse_uint_in
add_groups n [] = some n
add_groups n (group ∷ rest) = elim (parse_uint_in 10 group) [
  | none ↦ none
  | some g ↦
      if ltb ((2 ^ 64 - 1 - g) / sexagesimal_base) n
      then none
      else add_groups ((n * sexagesimal_base + g) % 2 ^ 64) rest
]

-- the whole part, and the fraction as text
unfoldable pub sexagesimal_value : Bytes → Option (ℕ × Bytes)
unfolding add_groups split_groups before_point from_point
sexagesimal_value digits = elim (add_groups 0 (split_groups (before_point digits))) [
  | none ↦ none
  | some n ↦ some (n, from_point digits)
]

unfoldable pub parse_digits : NumberShape → Option ℕ
unfolding sexagesimal_value parse_uint_in
parse_digits shape =
    if shape.base == sexagesimal_base
    then elim (sexagesimal_value shape.digits) [ none ↦ none | some (n, fraction) ↦ some n ]
    else parse_uint_in shape.base shape.digits

-- `ParseWholeNumber` behind its digits
unfoldable pub whole_of : Bool → Option ℕ → Option (ℕ × Bool)
whole_of negative none = none
whole_of negative (some u) = if negative && ltb (2 ^ 63) u then none else some (u, negative)

-- how large the number is, and whether it is negative
unfoldable pub parse_whole_number : Bytes → TokenType → Option (ℕ × Bool)
unfolding shape_of_typed_number parse_digits whole_of
parse_whole_number text typ = elim (shape_of_typed_number text typ) [
  | none ↦ none
  | some shape ↦ if is_float shape.typ then none else whole_of shape.negative (parse_digits shape)
]

-- what `any` holds
pub data Word : Type 0 where
  uint64 : ℕ → Word
  int64 : ℤ → Word

-- the conversion `int64(u)`
abbrev pub as_int64 : ℕ → ℤ
as_int64 u = if ltb u (2 ^ 63) then pos u else neg (2 ^ 64 - u)

-- the switch of `ParseInteger`, on what `ParseWholeNumber` answers
unfoldable pub word_by_sign : Option (ℕ × Bool) → Option Word
word_by_sign none = none
word_by_sign (some (u, negative)) =
    if not negative || u == 0
    then some (uint64 u)
    else if u == 2 ^ 63
    then some (int64 (neg (2 ^ 63)))
    else some (int64 (negate (as_int64 u)))

unfoldable pub parse_integer : Bytes → TokenType → Option Word
unfolding parse_whole_number word_by_sign
parse_integer text typ = word_by_sign (parse_whole_number text typ)

-- `big.Int.SetString`: a sign or none, then digits of the base
unfoldable pub set_string : ℕ → Bytes → Option ℤ
unfolding split_sign in_base base_value
set_string base s =
    let (negative, body) = split_sign s in
    let v = base_value base 0 body in
    if in_base body base then some (if negative then neg v else pos v) else none

unfoldable pub add_big_groups : ℤ → List Bytes → Option ℤ
unfolding set_string
add_big_groups n [] = some n
add_big_groups n (text ∷ rest) = elim (set_string 10 text) [
  | none ↦ none
  | some group ↦ add_big_groups (scaled sexagesimal_base n +ℤ group) rest
]

unfoldable pub big_digits : NumberShape → Option ℤ
unfolding set_string add_big_groups split_groups
big_digits shape =
    if not (shape.base == sexagesimal_base)
    then set_string shape.base shape.digits
    else add_big_groups (pos 0) (split_groups shape.digits)

abbrev pub signed : Bool → Option ℤ → Option ℤ
signed negative none = none
signed negative (some n) = some (if negative then negate n else n)

unfoldable pub parse_big_integer : Bytes → TokenType → Option ℤ
unfolding shape_of_typed_number big_digits
parse_big_integer text typ = elim (shape_of_typed_number text typ) [
  | none ↦ none
  | some shape ↦ if is_float shape.typ then none else signed shape.negative (big_digits shape)
]
