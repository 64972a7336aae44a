-- ===== src/Scanner/Masks.antt =====
-- What the exact masks of internal/scanner/swar/swar.go flag, byte by byte.
use go_yaml.Scanner.Swar.{
  pack, and_not, lo, high, lanes_zero, mask_equal, control_mask, allowed_control_mask, space_mask,
  at_least, letter_mask, digit_mask,
}
use go_yaml.Scanner.Lanes.{
  are_bytes, IsLanes, bytes-IsLanes, constant-IsLanes, and-IsLanes, or-IsLanes, xor-IsLanes,
  plus-IsLanes, minus-IsLanes, complement-IsLanes, as_lanes,
}
use go_yaml.Base.Bits.{bit_and-mask}
use go_yaml.Base.Xor.{bit_xor_self, bit_xor-zero, bit_xor-bound}
use go_yaml.Base.{
  ℕ, zero, suc, ◌+◌, ◌-◌, ◌*◌, ◌%◌, ◌≤◌, ◌<◌, Bool, true, false, not, ◌&&◌, ◌||◌, map, ltb, leb,
  within, ◌==◌, length, Bytes, ◌≡◌, refl, ap, ◌∙◌, arith, Bool-cases, inl, inr,
}
use Prim.Native.Nat.{bit_and, bit_or, bit_xor}

-- a test that holds of every number under n
abbrev pub check_below : (ℕ → Bool) → ℕ → Bool
check_below test zero = true
check_below test (suc n) = test n && check_below test n

pub check_below_lem :
    (test : ℕ → Bool) (n : ℕ) → check_below test n ≡ true → (b : ℕ) → b < n → test b ≡ true
check_below_lem test zero h b g = absurd (omega arith)
check_below_lem test (suc n) h b g = elim (Bool-cases (b == n)) [
  | inl y ↦ let e : b ≡ n = ground (arith, y) in rw e (ground (arith, h))
  | inr m ↦ check_below_lem test n (ground (arith, h)) b (ground (arith, m))
]

pub equal_of : (x y : ℕ) → (x == y) ≡ true → x ≡ y
equal_of x y e = ground (arith, e)

-- two functions that agree on every byte
pub agree : (f g : ℕ → ℕ) → check_below (λ b. f b == g b) 256 ≡ true → (b : ℕ) → b < 256 → f b ≡ g b
agree f g h b small = equal_of (f b) (g b) (check_below_lem (λ b. f b == g b) 256 h b small)

unfoldable pub flag : Bool → ℕ
flag true = 128
flag false = 0

join : (a b : Bool) → bit_and (flag a) (255 - flag b) ≡ flag (a && not b)
unfolding flag
join true true = refl
join true false = refl
join false true = refl
join false false = refl

-- the masks on one byte
zero_byte : ℕ → ℕ
zero_byte x = bit_and (255 - bit_or (bit_and x (255 - 128) + (255 - 128)) x) 128

abbrev least_byte : ℕ → ℕ → ℕ
least_byte n b = bit_and (bit_or b 128 - n) 128

module _ (bs : Bytes) (bytes : are_bytes bs ≡ true) (eight : length bs ≡ 8) where
  high-IsLanes : IsLanes bs (λ b. 128) high
  high-IsLanes = constant-IsLanes bs bytes eight 128 (omega arith)

  zero-IsLanes :
      {f : ℕ → ℕ} {w : ℕ} → IsLanes bs f w → IsLanes bs (λ b. zero_byte (f b)) (lanes_zero w)
  unfolding zero_byte lanes_zero
  zero-IsLanes {f} {w} p =
      let low = complement-IsLanes bs bytes eight high-IsLanes in
      let room : (b : ℕ) → b < 256 → bit_and (f b) (255 - 128) + (255 - 128) < 256 =
        λ b h. omega (arith, bit_and-mask 7 (f b)) in
      let sum = plus-IsLanes bs bytes eight (and-IsLanes bs bytes eight p low) low room in
      and-IsLanes bs bytes eight
        (complement-IsLanes bs bytes eight (or-IsLanes bs bytes eight sum p)) high-IsLanes

  least-IsLanes :
      {f : ℕ → ℕ} {w : ℕ} (n : ℕ)
      → n ≤ 128
      → IsLanes bs f w
      → IsLanes bs (λ b. least_byte n (f b)) (at_least w n)
  unfolding at_least
  least-IsLanes {f} n low p =
      let set = or-IsLanes bs bytes eight p high-IsLanes in
      let below : (b : ℕ) → b < 256 → n ≤ bit_or (f b) 128 = λ b h.
        ground (arith, check_below_lem (λ x. leb 128 (bit_or x 128)) 256 refl (f b) (p.fits b h)) in
      and-IsLanes bs bytes eight
        (minus-IsLanes bs bytes eight set (constant-IsLanes bs bytes eight n (omega arith)) below)
        high-IsLanes

  -- the word compared with a byte in every lane
  differ-IsLanes : (c : ℕ) → c < 256 → IsLanes bs (λ b. bit_xor b c) (bit_xor (pack bs) (lo * c))
  differ-IsLanes c h =
      xor-IsLanes bs bytes eight (bytes-IsLanes bs bytes eight)
        (constant-IsLanes bs bytes eight c h)

  equal-IsLanes :
      (c : ℕ)
      → c < 256
      → IsLanes bs (λ b. zero_byte (bit_xor b c)) (lanes_zero (bit_xor (pack bs) (lo * c)))
  equal-IsLanes c h = zero-IsLanes (differ-IsLanes c h)

zero_byte-flag : (x : ℕ) → x < 256 → zero_byte x ≡ flag (x == 0)
unfolding zero_byte flag
zero_byte-flag x h = agree zero_byte (λ x. flag (x == 0)) refl x h

xor_test : (b c : ℕ) → b < 256 → c < 256 → (bit_xor b c == 0) ≡ (b == c)
xor_test b c h g = elim (Bool-cases (b == c)) [
  | inl y ↦ let e : b ≡ c = ground (arith, y) in rw e (ground (arith, bit_xor_self 8 c g))
  | inr n ↦ elim (Bool-cases (bit_xor b c == 0)) [
    | inl y ↦ absurd (ground (arith, bit_xor-zero 8 b c h g, y, n))
    | inr m ↦ ground (arith, m, n)
  ]
]

-- the bytes the masks are for, and the control characters c-printable admits
abbrev pub is_control : ℕ → Bool
is_control b = ltb b 32 || b == 127

abbrev pub is_allowed : ℕ → Bool
is_allowed b = b == 9 || b == 10 || b == 13

abbrev pub is_letter : ℕ → Bool
is_letter b = within b'a' b'z' b || within b'A' b'Z' b

control_byte : ℕ → ℕ
control_byte b = bit_or (zero_byte (bit_and b 224)) (zero_byte (bit_xor b 127))

allowed_byte : ℕ → ℕ
allowed_byte b =
    bit_or (bit_or (zero_byte (bit_xor b 9)) (zero_byte (bit_xor b 10))) (zero_byte (bit_xor b 13))

space_byte : ℕ → ℕ
space_byte b =
    bit_and (bit_or (bit_and (bit_xor b 32) (255 - 128) + (255 - 128)) (bit_xor b 32)) 128

letter_byte : ℕ → ℕ
letter_byte b = bit_and (least_byte b'a' (bit_or b 32)) (255 - least_byte (b'z' + 1) (bit_or b 32))

digit_byte : ℕ → ℕ
digit_byte b = bit_and (least_byte b'0' b) (255 - least_byte (b'9' + 1) b)

control_agrees : (b : ℕ) → b < 256 → control_byte b ≡ flag (is_control b)
unfolding control_byte zero_byte flag
control_agrees = agree control_byte (λ b. flag (is_control b)) refl

allowed_agrees : (b : ℕ) → b < 256 → allowed_byte b ≡ flag (is_allowed b)
unfolding allowed_byte zero_byte flag
allowed_agrees = agree allowed_byte (λ b. flag (is_allowed b)) refl

space_agrees : (b : ℕ) → b < 256 → space_byte b ≡ flag (not (b == b' '))
unfolding space_byte flag
space_agrees = agree space_byte (λ b. flag (not (b == b' '))) refl

letter_agrees : (b : ℕ) → b < 256 → letter_byte b ≡ flag (is_letter (b % 128))
unfolding letter_byte flag
letter_agrees = agree letter_byte (λ b. flag (is_letter (b % 128))) refl

digit_agrees : (b : ℕ) → b < 256 → digit_byte b ≡ flag (within b'0' b'9' (b % 128))
unfolding digit_byte flag
digit_agrees = agree digit_byte (λ b. flag (within b'0' b'9' (b % 128))) refl

module _ (bs : Bytes) (bytes : are_bytes bs ≡ true) (eight : length bs ≡ 8) where
  pub mask_equal-flags :
      (c : ℕ) → c < 256 → mask_equal (pack bs) c ≡ pack (map (λ b. flag (b == c)) bs)
  unfolding mask_equal
  mask_equal-flags c h =
      let same : (b : ℕ) → b < 256 → zero_byte (bit_xor b c) ≡ flag (b == c) = λ b small.
        zero_byte-flag (bit_xor b c) (bit_xor-bound 8 b c small h)
        ∙ ap flag (xor_test b c small h) in
      as_lanes bs bytes eight (λ b. flag (b == c)) same (equal-IsLanes bs bytes eight c h)

  control-IsLanes : IsLanes bs control_byte (control_mask (pack bs))
  unfolding control_mask control_byte
  control-IsLanes =
      or-IsLanes bs bytes eight
        (zero-IsLanes bs bytes eight (
          and-IsLanes bs bytes eight (bytes-IsLanes bs bytes eight)
            (constant-IsLanes bs bytes eight 224 (omega arith))))
        (equal-IsLanes bs bytes eight 127 (omega arith))

  allowed-IsLanes : IsLanes bs allowed_byte (allowed_control_mask (pack bs))
  unfolding allowed_control_mask allowed_byte
  allowed-IsLanes =
      or-IsLanes bs bytes eight
        (or-IsLanes bs bytes eight (equal-IsLanes bs bytes eight 9 (omega arith))
          (equal-IsLanes bs bytes eight 10 (omega arith)))
        (equal-IsLanes bs bytes eight 13 (omega arith))

  pub control_mask-flags : control_mask (pack bs) ≡ pack (map (λ b. flag (is_control b)) bs)
  control_mask-flags = as_lanes bs bytes eight _ control_agrees control-IsLanes

  pub allowed_control_mask-flags :
      allowed_control_mask (pack bs) ≡ pack (map (λ b. flag (is_allowed b)) bs)
  allowed_control_mask-flags = as_lanes bs bytes eight _ allowed_agrees allowed-IsLanes

  -- The control characters a stream may not hold, as the callers join the two masks.
  pub refused_mask-flags :
      and_not (control_mask (pack bs)) (allowed_control_mask (pack bs))
      ≡ pack (map (λ b. flag (is_control b && not (is_allowed b))) bs)
  unfolding flag
  refused_mask-flags =
      let joint : (b : ℕ)
          → b < 256
          → bit_and (control_byte b) (255 - allowed_byte b)
            ≡ flag (is_control b && not (is_allowed b)) =
        λ b h. rw (control_agrees b h, allowed_agrees b h) (join (is_control b) (is_allowed b)) in
      as_lanes bs bytes eight _ joint (
        and-IsLanes bs bytes eight control-IsLanes
          (complement-IsLanes bs bytes eight allowed-IsLanes))

  space-IsLanes : IsLanes bs space_byte (space_mask (pack bs))
  unfolding space_mask space_byte
  space-IsLanes =
      let p = differ-IsLanes bs bytes eight 32 (omega arith) in
      let low = complement-IsLanes bs bytes eight (high-IsLanes bs bytes eight) in
      let room : (b : ℕ) → b < 256 → bit_and (bit_xor b 32) (255 - 128) + (255 - 128) < 256 =
        λ b h. omega (arith, bit_and-mask 7 (bit_xor b 32)) in
      let sum = plus-IsLanes bs bytes eight (and-IsLanes bs bytes eight p low) low room in
      and-IsLanes bs bytes eight (or-IsLanes bs bytes eight sum p) (high-IsLanes bs bytes eight)

  letter-IsLanes : IsLanes bs letter_byte (letter_mask (pack bs))
  unfolding letter_mask letter_byte
  letter-IsLanes =
      let folded =
        or-IsLanes bs bytes eight (bytes-IsLanes bs bytes eight)
          (constant-IsLanes bs bytes eight 32 (omega arith)) in
      and-IsLanes bs bytes eight (least-IsLanes bs bytes eight b'a' (omega arith) folded) (
        complement-IsLanes bs bytes eight
          (least-IsLanes bs bytes eight (b'z' + 1) (omega arith) folded))

  digit-IsLanes : IsLanes bs digit_byte (digit_mask (pack bs))
  unfolding digit_mask digit_byte
  digit-IsLanes =
      let w = bytes-IsLanes bs bytes eight in
      and-IsLanes bs bytes eight (least-IsLanes bs bytes eight b'0' (omega arith) w) (
        complement-IsLanes bs bytes eight (least-IsLanes bs bytes eight (b'9' + 1) (omega arith) w))

  pub space_mask-flags : space_mask (pack bs) ≡ pack (map (λ b. flag (not (b == b' '))) bs)
  space_mask-flags = as_lanes bs bytes eight _ space_agrees space-IsLanes

  pub letter_mask-flags : letter_mask (pack bs) ≡ pack (map (λ b. flag (is_letter (b % 128))) bs)
  letter_mask-flags = as_lanes bs bytes eight _ letter_agrees letter-IsLanes

  pub digit_mask-flags :
      digit_mask (pack bs) ≡ pack (map (λ b. flag (within b'0' b'9' (b % 128))) bs)
  digit_mask-flags = as_lanes bs bytes eight _ digit_agrees digit-IsLanes
