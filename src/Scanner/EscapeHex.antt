-- ===== src/Scanner/EscapeHex.antt =====
-- Characters written as escapes with hexadecimal digits, for internal/scanner/string.go.
use go_yaml.Scanner.Escape.{
  hex_to_int, hex_digits_to_int, valid_rune, escaped_rune, rune_bytes, reads, slice, read_rune,
  escape_low, escape_pair, escape_16, escape_32, simple_escape, long_escape, escape,
}
use go_yaml.Base.{
  ℕ, zero, suc, ◌+◌, ◌-◌, ◌*◌, ◌/◌, ◌%◌, ◌^◌, ◌≤◌, ◌<◌, Bool, true, false, ◌&&◌, ◌||◌, Option, none,
  some, [], ◌∷◌, ◌++◌, ltb, leb, if◌then◌else◌, length, length-append, drop, Bytes, ◌≡◌, refl, ap,
  ◌∙◌, arith, inl, inr, Option-cases, Bool-cases,
}

-- a digit, as a capital letter or a small one
abbrev pub hex_digit : Bool → ℕ → ℕ
hex_digit capital d =
    if ltb d 10 then b'0' + d else if capital then b'A' + d - 10 else b'a' + d - 10

-- A number in so many hexadecimal digits, each a capital where `up` says so of its place.
unfoldable pub hex_text : (ℕ → Bool) → ℕ → ℕ → Bytes
hex_text up zero n = []
hex_text up (suc k) n = hex_digit (up k) (n / 16 ^ k % 16) ∷ hex_text up k n

-- the halves of the pair that UTF-16 writes a character past FFFF as, and their escapes
abbrev pub high_of : ℕ → ℕ
high_of c = 55296 + (c - 65536) / 1024

abbrev pub low_of : ℕ → ℕ
low_of c = 56320 + (c - 65536) % 1024

unfoldable pub pair_text : (ℕ → Bool) → ℕ → Bytes
unfolding hex_text
pair_text up c = b'u' ∷ hex_text up 4 (high_of c) ++ b'\\' ∷ b'u' ∷ hex_text up 4 (low_of c)

hex_to_int-hex_digit : (up : Bool) (d : ℕ) → d < 16 → hex_to_int (hex_digit up d) ≡ some d
unfolding hex_to_int
hex_to_int-hex_digit true d h = ground (arith, h)
hex_to_int-hex_digit false d h = ground (arith, h)

pub length-hex_text : (up : ℕ → Bool) (k n : ℕ) → length (hex_text up k n) ≡ k
unfolding hex_text
length-hex_text up zero n = refl
length-hex_text up (suc k) n = ap suc (length-hex_text up k n)

digit_sum : Option ℕ → Option ℕ → ℕ → Option ℕ
digit_sum none sum k = none
digit_sum (some digit) none k = none
digit_sum (some digit) (some sum) k = some (digit * 2 ^ (k * 4) + sum)

hex_cons :
    (c : ℕ) (cs : Bytes)
    → hex_digits_to_int (c ∷ cs) ≡ digit_sum (hex_to_int c) (hex_digits_to_int cs) (length cs)
unfolding hex_digits_to_int digit_sum
hex_cons c cs = elim (Option-cases (hex_to_int c)) [
  | inl e ↦ rw (hex_digits_to_int, e) refl
  | inr (d, e) ↦ elim (Option-cases (hex_digits_to_int cs)) [
    | inl f ↦ rw (hex_digits_to_int, e, f) refl
    | inr (n, f) ↦ rw (hex_digits_to_int, e, f) refl
  ]
]

hex_none : (up : ℕ → Bool) (n : ℕ) → hex_digits_to_int (hex_text up 0 n) ≡ some 0
unfolding hex_digits_to_int hex_text
hex_none up n = refl

hex_step :
    (up : ℕ → Bool) (k n : ℕ) {sum : ℕ}
    → hex_digits_to_int (hex_text up k n) ≡ some sum
    → hex_digits_to_int (hex_text up (suc k) n) ≡ some (n / 16 ^ k % 16 * 2 ^ (k * 4) + sum)
unfolding hex_text digit_sum
hex_step up k n e =
    let d = n / 16 ^ k % 16 in
    hex_cons (hex_digit (up k) d) (hex_text up k n)
    ∙ rw (hex_to_int-hex_digit (up k) d (omega arith), e, length-hex_text up k n) refl

pub hex_4 : (up : ℕ → Bool) (n : ℕ) → n < 2 ^ 16 → hex_digits_to_int (hex_text up 4 n) ≡ some n
hex_4 up n h =
    hex_step up 3 n (hex_step up 2 n (hex_step up 1 n (hex_step up 0 n (hex_none up n))))
    ∙ ap some (omega (arith, h))

pub hex_8 : (up : ℕ → Bool) (n : ℕ) → n < 2 ^ 32 → hex_digits_to_int (hex_text up 8 n) ≡ some n
hex_8 up n h =
    hex_step up 7 n (
      hex_step up 6 n (
        hex_step up 5 n (
          hex_step up 4 n (
            hex_step up 3 n
              (hex_step up 2 n (hex_step up 1 n (hex_step up 0 n (hex_none up n))))))))
    ∙ ap some (omega (arith, h))

escaped_rune_valid : (c : ℕ) → valid_rune c ≡ true → escaped_rune c ≡ some c
unfolding escaped_rune valid_rune
escaped_rune_valid c h = ground (arith, h)

read_rune-valid :
    (progress c : ℕ)
    → valid_rune c ≡ true
    → read_rune progress (escaped_rune c) ≡ reads (rune_bytes c) progress
unfolding read_rune
read_rune-valid progress c h = rw (escaped_rune_valid c h) refl

rune_bound : (c : ℕ) → valid_rune c ≡ true → c < 2 ^ 32
unfolding valid_rune
rune_bound c h = ground (arith, h)

pub escape_32_eq : (cs : Bytes) → escape (b'U' ∷ cs) ≡ escape_32 (b'U' ∷ cs)
unfolding escape simple_escape long_escape
escape_32_eq cs = refl

pub slice-hex_8 :
    (up : ℕ → Bool) (c : ℕ) (rest : Bytes)
    → slice 1 9 (b'U' ∷ hex_text up 8 c ++ rest) ≡ hex_text up 8 c
unfolding hex_text
slice-hex_8 up c rest = refl

escape-hex_8 :
    (up : ℕ → Bool) (c : ℕ) (rest : Bytes)
    → valid_rune c ≡ true
    → escape (b'U' ∷ hex_text up 8 c ++ rest) ≡ reads (rune_bytes c) 9
unfolding escape_32
escape-hex_8 up c rest h =
    let r = b'U' ∷ hex_text up 8 c ++ rest in
    let long : leb (length r) 8 ≡ false =
      ground (arith, length-append (hex_text up 8 c) rest, length-hex_text up 8 c) in
    let digits : hex_digits_to_int (slice 1 9 r) ≡ some c =
      ap hex_digits_to_int (slice-hex_8 up c rest) ∙ hex_8 up c (rune_bound c h) in
    escape_32_eq (hex_text up 8 c ++ rest) ∙ rw (escape_32, long, digits) (read_rune-valid 9 c h)

-- The two halves of a pair name the character.
escape_low-pair :
    (c : ℕ)
    → valid_rune c ≡ true
    → 65536 ≤ c
    → escape_low (high_of c) (some (low_of c)) ≡ reads (rune_bytes c) 11
unfolding escape_low
escape_low-pair c h big =
    let inside : (ltb (low_of c) 56320 || ltb 57343 (low_of c)) ≡ false = ground arith in
    let sum : (high_of c - 55296) * 1024 + (low_of c - 56320) + 65536 ≡ c = omega (arith, big) in
    rw (inside, sum) (read_rune-valid 11 c h)

escape_pair-hex :
    (up : ℕ → Bool) (c : ℕ) (rest : Bytes)
    → valid_rune c ≡ true
    → 65536 ≤ c
    → escape_pair (high_of c) (pair_text up c ++ rest) ≡ reads (rune_bytes c) 11
unfolding escape_pair hex_text valid_rune pair_text
escape_pair-hex up c rest h big =
    let r = pair_text up c ++ rest in
    let long : leb (length r) 10 ≡ false = ground arith in
    let digits : hex_digits_to_int (slice 7 11 r) ≡ some (low_of c) =
      hex_4 up (low_of c) (ground (arith, h)) in
    rw (escape_pair, long, digits) (escape_low-pair c h big)

pub escape_16_eq : (cs : Bytes) → escape (b'u' ∷ cs) ≡ escape_16 (b'u' ∷ cs)
unfolding escape simple_escape long_escape
escape_16_eq cs = refl

high_is_high :
    (c : ℕ) → valid_rune c ≡ true → (leb 55296 (high_of c) && leb (high_of c) 56319) ≡ true
unfolding valid_rune
high_is_high c h = ground (arith, h)

no_half : (c : ℕ) → valid_rune c ≡ true → (leb 55296 c && leb c 56319) ≡ false
unfolding valid_rune
no_half c h = ground (arith, h)

escape_16-pair :
    (up : ℕ → Bool) (c : ℕ) (rest : Bytes)
    → valid_rune c ≡ true
    → 65536 ≤ c
    → escape_16 (pair_text up c ++ rest) ≡ reads (rune_bytes c) 11
unfolding escape_16 hex_text pair_text valid_rune
escape_16-pair up c rest h big =
    let r = pair_text up c ++ rest in
    let long : leb (length r) 4 ≡ false = ground arith in
    let digits : hex_digits_to_int (slice 1 5 r) ≡ some (high_of c) =
      hex_4 up (high_of c) (ground (arith, h)) in
    let high : (leb 55296 (high_of c) && leb (high_of c) 56319) ≡ true = high_is_high c h in
    rw (escape_16, long, digits, high) (escape_pair-hex up c rest h big)

escape_16-one :
    (up : ℕ → Bool) (c : ℕ) (rest : Bytes)
    → valid_rune c ≡ true
    → c < 65536
    → escape_16 (b'u' ∷ hex_text up 4 c ++ rest) ≡ reads (rune_bytes c) 5
unfolding escape_16 hex_text valid_rune
escape_16-one up c rest h small =
    let r = b'u' ∷ hex_text up 4 c ++ rest in
    let long : leb (length r) 4 ≡ false = ground arith in
    let digits : hex_digits_to_int (slice 1 5 r) ≡ some c = hex_4 up c small in
    let high : (leb 55296 c && leb c 56319) ≡ false = no_half c h in
    rw (escape_16, long, digits, high) (read_rune-valid 5 c h)

-- a character as UTF-16 writes it in escapes: alone, or as a pair
unfoldable pub utf16_text : (ℕ → Bool) → ℕ → Bytes
unfolding hex_text pair_text
utf16_text up c = if ltb c 65536 then b'u' ∷ hex_text up 4 c else pair_text up c

-- A character written with eight digits, and one written with four or as a pair of halves, in capital or
-- small digits, is read as
-- the encoding of that character, whatever follows.
pub escape-hex :
    (up : ℕ → Bool) (c : ℕ) (rest : Bytes)
    → valid_rune c ≡ true
    → (escape (b'U' ∷ hex_text up 8 c ++ rest) ≡ reads (rune_bytes c) 9)
      × (escape (utf16_text up c ++ rest) ≡ reads (rune_bytes c) (if ltb c 65536 then 5 else 11))
unfolding utf16_text pair_text
escape-hex up c rest h = (
  escape-hex_8 up c rest h,
  elim (Bool-cases (ltb c 65536)) [
    | inl y ↦
        rw y
          (escape_16_eq (hex_text up 4 c ++ rest) ∙ escape_16-one up c rest h (ground (arith, y)))
    | inr n ↦ rw n (
        escape_16_eq (drop 1 (pair_text up c ++ rest))
        ∙ escape_16-pair up c rest h (ground (arith, n)))
  ],
)
