-- ===== src/Scanner/Printable.antt =====
-- internal/scanner/printable.go: the first byte of a source that a YAML stream may not hold. An index i
-- goes with the text from there, so that `text[i:]` is at hand.
use go_yaml.Scanner.Swar.{pack, and_not, high_bits, first_byte, control_mask, allowed_control_mask}
use go_yaml.Base.{
  ℕ, zero, suc, ◌+◌, ◌-◌, ◌*◌, ◌%◌, ◌^◌, Bool, true, not, ◌&&◌, ◌||◌, Option, none, some, [], ◌∷◌,
  ltb, leb, within, ◌==◌, if◌then◌else◌, length, take, drop, Bytes,
}
use Prim.Native.Nat.{bit_and}

abbrev pub rune_error : ℕ
rune_error = 65533

pub record Decoded : Type 0 where
  pub rune : ℕ
  pub width : ℕ

abbrev decodes : ℕ → ℕ → Decoded
decodes rune width = record { rune = rune; width = width }

-- a byte that goes on with a character
abbrev pub is_tail : ℕ → Bool
is_tail b = within 128 191 b

unfoldable pub decode_two : ℕ → Bytes → Decoded
decode_two a [] = decodes rune_error 1
decode_two a (b ∷ _) = if is_tail b then decodes (a % 32 * 64 + b % 64) 2 else decodes rune_error 1

-- the second byte that keeps a character of three bytes off the shorter forms and the surrogates
abbrev pub second_of_three : ℕ → ℕ → Bool
second_of_three a b = within (if a == 224 then 160 else 128) (if a == 237 then 159 else 191) b

abbrev pub second_of_four : ℕ → ℕ → Bool
second_of_four a b = within (if a == 240 then 144 else 128) (if a == 244 then 143 else 191) b

unfoldable pub decode_three : ℕ → Bytes → Decoded
decode_three a (b ∷ c ∷ _) =
    if second_of_three a b && is_tail c
    then decodes (a % 16 * 4096 + b % 64 * 64 + c % 64) 3
    else decodes rune_error 1
decode_three a _ = decodes rune_error 1

unfoldable pub decode_four : ℕ → Bytes → Decoded
decode_four a (b ∷ c ∷ d ∷ _) =
    if second_of_four a b && is_tail c && is_tail d
    then decodes (a % 8 * 262144 + b % 64 * 4096 + c % 64 * 64 + d % 64) 4
    else decodes rune_error 1
decode_four a _ = decodes rune_error 1

-- `utf8.DecodeRuneInString`
unfoldable pub decode_rune : Bytes → Decoded
unfolding decode_two decode_three decode_four
decode_rune [] = decodes rune_error 0
decode_rune (a ∷ r) =
    if ltb a 128
    then decodes a 1
    else if within 194 223 a
    then decode_two a r
    else if within 224 239 a
    then decode_three a r
    else if within 240 244 a
    then decode_four a r
    else decodes rune_error 1

unfoldable pub printable_ascii : ℕ → Bool
printable_ascii c = leb 32 c && leb c 126 || c == 9 || c == 10 || c == 13

-- YAML 1.2's c-printable
unfoldable pub printable : ℕ → Bool
printable r =
    if r == 9 || r == 10 || r == 13
    then true
    else if leb 32 r && leb r 126
    then true
    else if r == 133
    then true
    else if leb 160 r && leb r 55295
    then true
    else if leb 57344 r && leb r 65533
    then true
    else leb 65536 r && leb r 1114111

-- The two tests that both loops make of a character over 0x7f: a byte that is part of no character, or
-- a character that is not printable.
unfoldable pub refuses : Decoded → Bool
refuses d = if d.rune == rune_error && leb d.width 1 then true else not (printable d.rune)

-- The characters over 0x7f from i on: `bad_at` is the offset of one the stream may not hold, `next_at`
-- where the bytes are ASCII again, with the text from there, `unfinished` a loop out of fuel.
pub data Reading : Type 0 where
  bad_at : ℕ → Reading
  next_at : ℕ → Bytes → Reading
  unfinished : Reading

unfoldable pub skip_non_ascii : ℕ → ℕ → Bytes → Reading
skip_non_ascii zero i r = unfinished
skip_non_ascii (suc n) i [] = next_at i []
skip_non_ascii (suc n) i (c ∷ cs) =
    let d = decode_rune (c ∷ cs) in
    let rest = skip_non_ascii n (i + d.width) (drop d.width (c ∷ cs)) in
    if leb 128 c then if refuses d then bad_at i else rest else next_at i (c ∷ cs)

-- the mask of the control characters a stream may not hold, as both callers write it
abbrev pub refused_mask : ℕ → ℕ
refused_mask w = and_not (control_mask w) (allowed_control_mask w)

unfoldable pub read_non_ascii : Bytes → ℕ → ℕ → Reading
read_non_ascii r w i =
    let k = first_byte (bit_and w high_bits) in
    let m = bit_and (refused_mask w) (2 ^ (8 * k) - 1) in
    if not (m == 0)
    then bad_at (i + first_byte m)
    else skip_non_ascii (suc (length r)) (i + k) (drop k r)

-- What a loop answers: `none` is out of fuel, `some none` is -1.
abbrev pub Answer : Type 0
Answer = Option (Option ℕ)

abbrev pub answers : ℕ → Answer
answers i = some (some i)

unfoldable pub first_unprintable_tail : ℕ → ℕ → Bytes → Answer
first_unprintable_tail zero i r = none
first_unprintable_tail (suc n) i [] = some none
first_unprintable_tail (suc n) i (c ∷ cs) =
    let d = decode_rune (c ∷ cs) in
    let one = first_unprintable_tail n (suc i) cs in
    let rest = first_unprintable_tail n (i + d.width) (drop d.width (c ∷ cs)) in
    if ltb c 128
    then if not (printable_ascii c) then answers i else one
    else if refuses d
    then answers i
    else rest

-- the loop over words
unfoldable pub first_unprintable_words : ℕ → ℕ → Bytes → Answer
first_unprintable_words zero i r = none
first_unprintable_words (suc n) i r =
    let w = pack (take 8 r) in
    let m = refused_mask w in
    let words = first_unprintable_words n (i + 8) (drop 8 r) in
    if leb 8 (length r)
    then if bit_and w high_bits == 0
      then if not (m == 0) then answers (i + first_byte m) else words
      else elim (read_non_ascii r w i) [
        | bad_at j ↦ answers j
        | unfinished ↦ none
        | next_at j rest ↦ first_unprintable_words n j rest
      ]
    else first_unprintable_tail (suc (length r)) i r

unfoldable pub first_unprintable : Bytes → Answer
first_unprintable text = first_unprintable_words (suc (length text)) 0 text
