-- ===== src/Scanner/Exact.antt =====
-- The masks of internal/scanner/swar/swar.go that flag a lane for its own byte only.
use go_yaml.Scanner.Swar.{
  pack, high_bits, lanes_below, mask_equal, control_mask, allowed_control_mask, space_mask,
  letter_mask, digit_mask,
}
use go_yaml.Scanner.Lanes.{are_bytes, bytes-IsLanes, constant-IsLanes, and-IsLanes, as_lanes}
use go_yaml.Scanner.Masks.{
  flag, is_control, is_allowed, is_letter, agree, check_below_lem, equal_of, mask_equal-flags,
  control_mask-flags, allowed_control_mask-flags, space_mask-flags, letter_mask-flags,
  digit_mask-flags,
}
use go_yaml.Base.Bits.{suc_add, double_pow, bit_and-mask_sum}
use go_yaml.Base.{
  ℕ, zero, suc, ◌+◌, ◌-◌, ◌*◌, ◌/◌, ◌%◌, ◌^◌, ◌≤◌, ◌<◌, Bool, true, not, [], ◌∷◌, map, leb, within,
  ◌==◌, length, take, drop, Bytes, ◌≡◌, refl, ap, ◌∙◌, arith,
}
use Prim.Native.Nat.{bit_and}
use native.Mathlib.Nat.{pow-suc, one-le-pow}

abbrev pub is_high : ℕ → Bool
is_high b = leb 128 b

zero_add : (n : ℕ) → 0 + n ≡ n
zero_add n = omega arith

pow_add : (k n : ℕ) → 2 ^ (k + n) ≡ 2 ^ n * 2 ^ k
pow_add zero n = omega (arith, ap (λ t. 2 ^ t) (zero_add n))
pow_add (suc k) n =
    ap (λ t. 2 ^ t) (suc_add k n)
    ∙ omega (arith, pow-suc 2 (k + n), pow_add k n, double_pow (2 ^ n) k)

byte_more : (k : ℕ) → 2 ^ (8 * suc k) ≡ 2 ^ (8 * k) * 256
byte_more k = let e : 8 * suc k ≡ 8 + 8 * k = omega arith in ap (λ t. 2 ^ t) e ∙ pow_add 8 (8 * k)

-- the first k bytes and the ones from there on
pack_split : (k : ℕ) (bs : Bytes) → pack bs ≡ pack (drop k bs) * 2 ^ (8 * k) + pack (take k bs)
unfolding pack
pack_split zero bs = omega arith
pack_split (suc k) [] = omega arith
pack_split (suc k) (b ∷ bs) =
    omega (arith, pack_split k bs, byte_more k, ap (λ t. pack (drop k bs) * t) (byte_more k))

low_bound : (k : ℕ) (bs : Bytes) → are_bytes bs ≡ true → pack (take k bs) < 2 ^ (8 * k)
unfolding pack are_bytes
low_bound zero bs h = omega arith
low_bound (suc k) [] h = omega (arith, byte_more k, one-le-pow (8 * k) 2 (omega arith))
low_bound (suc k) (b ∷ bs) h = ground (arith, h, low_bound k bs, byte_more k)

-- A mask of the low k lanes keeps the first k bytes.
pub pack-take :
    (k : ℕ) (bs : Bytes)
    → are_bytes bs ≡ true
    → bit_and (pack bs) (2 ^ (8 * k) - 1) ≡ pack (take k bs)
pack-take k bs h =
    ap (λ t. bit_and t (2 ^ (8 * k) - 1)) (pack_split k bs)
    ∙ bit_and-mask_sum (8 * k) (pack (drop k bs)) (pack (take k bs)) (low_bound k bs h)

shifted_ones : (k : ℕ) → k < 9 → 18446744073709551615 / 2 ^ (64 - 8 * k) ≡ 2 ^ (8 * k) - 1
shifted_ones k h =
    equal_of _ _
      (check_below_lem (λ k. 18446744073709551615 / 2 ^ (64 - 8 * k) == 2 ^ (8 * k) - 1) 9 refl k h)

lanes_below-take :
    (k : ℕ) (bs : Bytes) → are_bytes bs ≡ true → k ≤ 8 → lanes_below (pack bs) k ≡ pack (take k bs)
unfolding lanes_below
lanes_below-take k bs h g = ap (bit_and (pack bs)) (shifted_ones k (omega arith)) ∙ pack-take k bs h

-- The high bits of a word say which bytes are over 0x7f.
pub high_bits-flags :
    (bs : Bytes)
    → are_bytes bs ≡ true
    → length bs ≡ 8
    → bit_and (pack bs) high_bits ≡ pack (map (λ b. flag (is_high b)) bs)
unfolding flag
high_bits-flags bs bytes eight =
    as_lanes bs bytes eight (λ b. flag (is_high b))
      (agree (λ b. bit_and b 128) (λ b. flag (is_high b)) refl)
      (and-IsLanes bs bytes eight (bytes-IsLanes bs bytes eight)
        (constant-IsLanes bs bytes eight 128 (omega arith)))

-- In a word of eight bytes, each of these masks flags the lanes of the bytes it is named for and no
-- others: a letter or a digit by the low seven bits of its lane. Below lane k, the word holds its first
-- k bytes.
pub exact_masks-flags :
    (bs : Bytes) (c k : ℕ)
    → are_bytes bs ≡ true
    → length bs ≡ 8
    → c < 256
    → k ≤ 8
    → (mask_equal (pack bs) c ≡ pack (map (λ b. flag (b == c)) bs))
      × (control_mask (pack bs) ≡ pack (map (λ b. flag (is_control b)) bs))
      × (allowed_control_mask (pack bs) ≡ pack (map (λ b. flag (is_allowed b)) bs))
      × (space_mask (pack bs) ≡ pack (map (λ b. flag (not (b == b' '))) bs))
      × (letter_mask (pack bs) ≡ pack (map (λ b. flag (is_letter (b % 128))) bs))
      × (digit_mask (pack bs) ≡ pack (map (λ b. flag (within b'0' b'9' (b % 128))) bs))
      × (lanes_below (pack bs) k ≡ pack (take k bs))
exact_masks-flags bs c k bytes eight h g = (
  mask_equal-flags bs bytes eight c h,
  control_mask-flags bs bytes eight,
  allowed_control_mask-flags bs bytes eight,
  space_mask-flags bs bytes eight,
  letter_mask-flags bs bytes eight,
  digit_mask-flags bs bytes eight,
  lanes_below-take k bs bytes g,
)
