-- ===== src/Scanner/EscapeRefusal.antt =====
-- Escapes with hexadecimal digits that name no character, for internal/scanner/string.go.
use go_yaml.Scanner.Escape.{
  hex_digits_to_int, valid_rune, escaped_rune, refused, no_character, no_low, slice, read_rune,
  escape_low, escape_pair, escape_16, escape_32, escape,
}
use go_yaml.Scanner.EscapeHex.{
  hex_text, hex_8, hex_4, escape_32_eq, escape_16_eq, slice-hex_8, length-hex_text,
}
use go_yaml.Base.{
  ℕ, ◌^◌, ◌<◌, Bool, true, false, ◌&&◌, ◌||◌, none, some, ◌∷◌, ◌++◌, ltb, leb, length,
  length-append, drop, Bytes, ◌≡◌, refl, ap, ◌∙◌, arith, within,
}

escaped_rune_refused : (c : ℕ) → valid_rune c ≡ false → escaped_rune c ≡ none
unfolding escaped_rune valid_rune
escaped_rune_refused c h = ground (arith, h)

read_rune-refused :
    (progress c : ℕ)
    → valid_rune c ≡ false
    → read_rune progress (escaped_rune c) ≡ refused no_character
unfolding read_rune
read_rune-refused progress c h = rw (escaped_rune_refused c h) refl

escape-refused_8 :
    (up : ℕ → Bool) (c : ℕ) (rest : Bytes)
    → c < 2 ^ 32
    → valid_rune c ≡ false
    → escape (b'U' ∷ hex_text up 8 c ++ rest) ≡ refused no_character
unfolding escape_32
escape-refused_8 up c rest small h =
    let r = b'U' ∷ hex_text up 8 c ++ rest in
    let long : leb (length r) 8 ≡ false =
      ground (arith, length-append (hex_text up 8 c) rest, length-hex_text up 8 c) in
    let digits = ap hex_digits_to_int (slice-hex_8 up c rest) ∙ hex_8 up c small in
    escape_32_eq (hex_text up 8 c ++ rest) ∙ rw (escape_32, long, digits) (read_rune-refused 9 c h)

low_is_invalid : (c : ℕ) → within 56320 57343 c ≡ true → valid_rune c ≡ false
unfolding valid_rune
low_is_invalid c h = ground (arith, h)

low_is_not_high : (c : ℕ) → within 56320 57343 c ≡ true → (leb 55296 c && leb c 56319) ≡ false
low_is_not_high c h = ground (arith, h)

escape-refused_low :
    (up : ℕ → Bool) (c : ℕ) (rest : Bytes)
    → within 56320 57343 c ≡ true
    → escape (b'u' ∷ hex_text up 4 c ++ rest) ≡ refused no_character
unfolding escape_16 hex_text
escape-refused_low up c rest h =
    let r = b'u' ∷ hex_text up 4 c ++ rest in
    let long : leb (length r) 4 ≡ false = ground arith in
    let digits : hex_digits_to_int (slice 1 5 r) ≡ some c = hex_4 up c (ground (arith, h)) in
    escape_16_eq (hex_text up 4 c ++ rest)
    ∙ rw (escape_16, long, digits, low_is_not_high c h) (read_rune-refused 5 c (low_is_invalid c h))

-- two codes of four digits, one behind the other
abbrev pub two_codes : (ℕ → Bool) → ℕ → ℕ → Bytes → Bytes
two_codes up c d rest = b'u' ∷ hex_text up 4 c ++ b'\\' ∷ b'u' ∷ hex_text up 4 d ++ rest

outside_low : (d : ℕ) → within 56320 57343 d ≡ false → (ltb d 56320 || ltb 57343 d) ≡ true
outside_low d h = ground (arith, h)

escape_pair-refused :
    (up : ℕ → Bool) (c d : ℕ) (rest : Bytes)
    → d < 65536
    → within 56320 57343 d ≡ false
    → escape_pair c (two_codes up c d rest) ≡ refused no_low
unfolding escape_pair hex_text escape_low
escape_pair-refused up c d rest small h =
    let r = two_codes up c d rest in
    let long : leb (length r) 10 ≡ false = ground arith in
    let digits : hex_digits_to_int (slice 7 11 r) ≡ some d = hex_4 up d small in
    rw (escape_pair, long, digits, outside_low d h) refl

escape-refused_pair :
    (up : ℕ → Bool) (c d : ℕ) (rest : Bytes)
    → within 55296 56319 c ≡ true
    → d < 65536
    → within 56320 57343 d ≡ false
    → escape (two_codes up c d rest) ≡ refused no_low
unfolding escape_16 hex_text
escape-refused_pair up c d rest high small h =
    let r = two_codes up c d rest in
    let long : leb (length r) 4 ≡ false = ground arith in
    let digits : hex_digits_to_int (slice 1 5 r) ≡ some c = hex_4 up c (ground (arith, high)) in
    let first : (leb 55296 c && leb c 56319) ≡ true = ground (arith, high) in
    escape_16_eq (drop 1 r)
    ∙ rw (escape_16, long, digits, first) (escape_pair-refused up c d rest small h)

-- Eight digits that name a surrogate or a number past 10FFFF, and four that name the low half of a pair,
-- are refused as no character; the high half of a pair is refused in front of four digits that name no
-- low half.
pub escape-refused :
    (up : ℕ → Bool) (c low high d : ℕ) (rest : Bytes)
    → c < 2 ^ 32
    → valid_rune c ≡ false
    → within 56320 57343 low ≡ true
    → within 55296 56319 high ≡ true
    → d < 65536
    → within 56320 57343 d ≡ false
    → (escape (b'U' ∷ hex_text up 8 c ++ rest) ≡ refused no_character)
      × (escape (b'u' ∷ hex_text up 4 low ++ rest) ≡ refused no_character)
      × (escape (two_codes up high d rest) ≡ refused no_low)
escape-refused up c low high d rest small h l g s n = (
  escape-refused_8 up c rest small h,
  escape-refused_low up low rest l,
  escape-refused_pair up high d rest g s n,
)
