-- ===== src/Scanner/Escape.antt =====
-- internal/scanner/string.go: what a backslash in a double-quoted scalar stands for. The text is what
-- follows the backslash, in bytes; the switch compares the first rune of it with characters of one byte.
use go_yaml.Base.{
  ℕ, ◌+◌, ◌-◌, ◌*◌, ◌/◌, ◌%◌, ◌^◌, Bool, true, false, not, ◌&&◌, ◌||◌, Option, none, some, [], ◌∷◌,
  ltb, leb, within, ◌==◌, if◌then◌else◌, length, take, drop, get_or, Bytes,
}

unfoldable pub hex_to_int : ℕ → Option ℕ
hex_to_int b =
    if within b'0' b'9' b
    then some (b - b'0')
    else if within b'a' b'f' b
    then some (b - b'a' + 10)
    else if within b'A' b'F' b
    then some (b - b'A' + 10)
    else none

-- the loop adds each digit shifted by its place
unfoldable pub hex_digits_to_int : Bytes → Option ℕ
unfolding hex_to_int
hex_digits_to_int [] = some 0
hex_digits_to_int (c ∷ cs) = elim (hex_to_int c) [
  | none ↦ none
  | some digit ↦ elim (hex_digits_to_int cs) [
    | none ↦ none
    | some sum ↦ some (digit * 2 ^ (length cs * 4) + sum)
  ]
]

abbrev pub max_rune : ℕ
max_rune = 1114111

abbrev pub is_surrogate : ℕ → Bool
is_surrogate c = within 55296 57343 c

-- `utf8.ValidRune`
unfoldable pub valid_rune : ℕ → Bool
valid_rune c = leb c max_rune && not (is_surrogate c)

unfoldable pub escaped_rune : ℕ → Option ℕ
unfolding valid_rune
escaped_rune code = if ltb max_rune code then none else if valid_rune code then some code else none

abbrev pub continued : ℕ → ℕ
continued n = 128 + n % 64

-- `utf8.AppendRune`, which writes U+FFFD for what is no character
unfoldable pub rune_bytes : ℕ → Bytes
unfolding valid_rune
rune_bytes c =
    if not (valid_rune c)
    then 239 ∷ 191 ∷ 189 ∷ []
    else if ltb c 128
    then c ∷ []
    else if ltb c 2048
    then (192 + c / 64) ∷ continued c ∷ []
    else if ltb c 65536
    then (224 + c / 4096) ∷ continued (c / 64) ∷ continued c ∷ []
    else (240 + c / 262144) ∷ continued (c / 4096) ∷ continued (c / 64) ∷ continued c ∷ []

-- the refusals, without their texts
pub data EscapeError : Type 0 where
  short_8 no_hex_8 short_16 no_hex_16 short_pair no_pair no_hex_low no_low : EscapeError
  short_32 no_hex_32 no_character unknown_escape : EscapeError

-- What the escape adds to the value, how far it reaches behind the backslash, and whether it is a line
-- break, which goes on with the next line.
pub record Escape : Type 0 where
  pub value : Bytes
  pub progress : ℕ
  pub breaks : Bool

pub data Escaped : Type 0 where
  refused : EscapeError → Escaped
  accepted : Escape → Escaped

abbrev pub reads : Bytes → ℕ → Escaped
reads value progress = accepted (record { value = value; progress = progress; breaks = false })

-- the bytes of `src` from the one place to the other
abbrev pub slice : ℕ → ℕ → Bytes → Bytes
slice from to r = take (to - from) (drop from r)

-- what the digits name, or the refusal
unfoldable pub read_rune : ℕ → Option ℕ → Escaped
unfolding rune_bytes
read_rune progress none = refused no_character
read_rune progress (some c) = reads (rune_bytes c) progress

unfoldable pub escape_8 : Bytes → Escaped
unfolding hex_digits_to_int rune_bytes
escape_8 r = if leb (length r) 2 then refused short_8 else elim (hex_digits_to_int (slice 1 3 r)) [
  | none ↦ refused no_hex_8
  | some code ↦ reads (rune_bytes code) 3
]

-- the low half of a pair
unfoldable pub escape_low : ℕ → Option ℕ → Escaped
unfolding read_rune escaped_rune
escape_low high none = refused no_hex_low
escape_low high (some low) =
    if ltb low 56320 || ltb 57343 low
    then refused no_low
    else read_rune 11 (escaped_rune ((high - 55296) * 1024 + (low - 56320) + 65536))

unfoldable pub escape_pair : ℕ → Bytes → Escaped
unfolding escape_low hex_digits_to_int
escape_pair high r =
    if leb (length r) 10
    then refused short_pair
    else if not (get_or r 5 0 == b'\\') || not (get_or r 6 0 == b'u')
    then refused no_pair
    else escape_low high (hex_digits_to_int (slice 7 11 r))

unfoldable pub escape_16 : Bytes → Escaped
unfolding hex_digits_to_int escape_pair read_rune escaped_rune
escape_16 r =
    if leb (length r) 4 then refused short_16 else elim (hex_digits_to_int (slice 1 5 r)) [
      | none ↦ refused no_hex_16
      | some code ↦
          if leb 55296 code && leb code 56319
          then escape_pair code r
          else read_rune 5 (escaped_rune code)
    ]

unfoldable pub escape_32 : Bytes → Escaped
unfolding hex_digits_to_int read_rune escaped_rune
escape_32 r =
    if leb (length r) 8 then refused short_32 else elim (hex_digits_to_int (slice 1 9 r)) [
      | none ↦ refused no_hex_32
      | some code ↦ read_rune 9 (escaped_rune code)
    ]

-- the cases that stand for one character
unfoldable pub simple_escape : ℕ → Option ℕ
simple_escape c =
    if c == b'0'
    then some 0
    else if c == b'a'
    then some 7
    else if c == b'b'
    then some 8
    else if c == b't'
    then some 9
    else if c == b'n'
    then some 10
    else if c == b'v'
    then some 11
    else if c == b'f'
    then some 12
    else if c == b'r'
    then some 13
    else if c == b'e'
    then some 27
    else if c == b' '
    then some 32
    else if c == b'"'
    then some 34
    else if c == b'/'
    then some 47
    else if c == b'\\'
    then some 92
    else if c == b'N'
    then some 133
    else if c == b'_'
    then some 160
    else if c == b'L'
    then some 8232
    else if c == b'P'
    then some 8233
    else if c == b'\t'
    then some 9
    else none

-- the cases with digits, the line breaks, and the rest
unfoldable pub long_escape : ℕ → Bytes → Escaped
unfolding escape_8 escape_16 escape_32
long_escape c r =
    if c == b'x'
    then escape_8 r
    else if c == b'u'
    then escape_16 r
    else if c == b'U'
    then escape_32 r
    else if c == b'\n'
    then accepted (record { value = []; progress = 1; breaks = true })
    else if c == b'\r'
    then accepted (record {
      value = [];
      progress = if ltb 1 (length r) && get_or r 1 0 == b'\n' then 2 else 1;
      breaks = true;
    })
    else refused unknown_escape

-- a backslash that ends the source stands for itself
unfoldable pub escape : Bytes → Escaped
unfolding simple_escape long_escape rune_bytes
escape [] = reads (b'\\' ∷ []) 0
escape (c ∷ cs) = elim (simple_escape c) [
  | some code ↦ reads (rune_bytes code) 1
  | none ↦ long_escape c (c ∷ cs)
]

unfoldable pub is_code_point_escape : ℕ → Bool
is_code_point_escape marker = marker == b'x' || marker == b'u' || marker == b'U'
