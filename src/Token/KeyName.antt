-- ===== src/Token/KeyName.antt =====
-- token/keyname.go: the name an integer key takes, and the texts beside it. Float names are left out.
pub mod Integers
use go_yaml.Token.Kind.{TokenType}
use go_yaml.Token.Number.{parse_whole_number, parse_big_integer}
use go_yaml.Base.{
  ℕ, Bool, not, ◌&&◌, ◌||◌, Option, none, some, [], ◌∷◌, ◌++◌, ◌==◌, if◌then◌else◌, Bytes, codes,
  contains_byte, decimal, decimal_ℤ, ℤ,
}

-- the name of a magnitude and its sign
unfoldable pub name_of_whole : ℕ → Bool → Bytes
unfolding decimal
name_of_whole u negative = if negative && not (u == 0) then b'-' ∷ decimal u else decimal u

unfoldable pub name_of_big : Bytes → Option ℤ → Bytes
unfolding decimal_ℤ
name_of_big text none = text
name_of_big text (some b) = decimal_ℤ b

-- on what `ParseWholeNumber` answers, and `ParseBigInteger`, which counts where the other gave nothing
unfoldable pub named_by : Bytes → Option (ℕ × Bool) → Option ℤ → Bytes
unfolding name_of_whole name_of_big
named_by text (some (u, negative)) big = name_of_whole u negative
named_by text none big = name_of_big text big

unfoldable pub integer_key_name : Bytes → TokenType → Bytes
unfolding parse_whole_number parse_big_integer named_by
integer_key_name text typ = named_by text (parse_whole_number text typ) (parse_big_integer text typ)

abbrev pub is_base64_blank : ℕ → Bool
is_base64_blank c = c == b' ' || c == b'\t' || c == b'\r' || c == b'\n'

-- the loop of `CanonicalBase64`
unfoldable pub unblanked : Bytes → Bytes
unblanked [] = []
unblanked (c ∷ cs) = let rest = unblanked cs in if is_base64_blank c then rest else c ∷ rest

-- `strings.ContainsAny(text, " \t\r\n")`
unfoldable pub has_blank : Bytes → Bool
unfolding contains_byte
has_blank text =
    contains_byte b' ' text
    || contains_byte b'\t' text
    || contains_byte b'\r' text
    || contains_byte b'\n' text

unfoldable pub canonical_base64 : Bytes → Bytes
unfolding unblanked has_blank
canonical_base64 text = if not (has_blank text) then text else unblanked text

unfoldable pub with_decimal_point : Bytes → Bytes
unfolding contains_byte
with_decimal_point [] = []
with_decimal_point (c ∷ cs) =
    let s = c ∷ cs in
    if contains_byte b'.' s || contains_byte b'e' s || contains_byte b'E' s
    then s
    else s ++ codes ".0"
