-- ===== src/Scanner/Swar.antt =====
-- internal/scanner/swar/swar.go: eight bytes at a time in one word of 64 bits, a mask with the high bit of
-- each lane that matches.
use go_yaml.Base.{ℕ, zero, suc, ◌+◌, ◌-◌, ◌*◌, ◌/◌, ◌%◌, ◌^◌, [], ◌∷◌, ◌==◌, if◌then◌else◌, Bytes}
use Prim.Native.Nat.{bit_and, bit_or, bit_xor}

-- `binary.LittleEndian.Uint64`
unfoldable pub pack : Bytes → ℕ
pack [] = 0
pack (b ∷ bs) = pack bs * 256 + b

-- `^w`, `a + b`, `a - b` and `x &^ y` of words
abbrev pub complement : ℕ → ℕ
complement w = 18446744073709551615 - w

abbrev pub plus : ℕ → ℕ → ℕ
plus a b = (a + b) % 18446744073709551616

abbrev pub minus : ℕ → ℕ → ℕ
minus a b = (a + 18446744073709551616 - b) % 18446744073709551616

abbrev pub and_not : ℕ → ℕ → ℕ
and_not x y = bit_and x (complement y)

-- the low bit of every lane, and the high bit of every lane
abbrev pub lo : ℕ
lo = 18446744073709551615 / 255

abbrev pub high : ℕ
high = lo * 128

abbrev pub high_bits : ℕ
high_bits = high

-- `bits.TrailingZeros64`
unfoldable pub trailing_zeros : ℕ → ℕ → ℕ
trailing_zeros zero w = 0
trailing_zeros (suc n) w = let rest = trailing_zeros n (w / 2) in if w % 2 == 1 then 0 else suc rest

unfoldable pub first_byte : ℕ → ℕ
unfolding trailing_zeros
first_byte mask = trailing_zeros 64 mask / 2 ^ 3

unfoldable pub lanes_below : ℕ → ℕ → ℕ
lanes_below w k = bit_and w (18446744073709551615 / 2 ^ (64 - 8 * k))

abbrev pub broadcast : ℕ → ℕ
broadcast b = lo * b

unfoldable pub lanes_zero : ℕ → ℕ
lanes_zero x = bit_and (complement (bit_or (plus (and_not x high) (complement high)) x)) high

unfoldable pub mask_equal : ℕ → ℕ → ℕ
unfolding lanes_zero
mask_equal w b = lanes_zero (bit_xor w (broadcast b))

unfoldable pub control_mask : ℕ → ℕ
unfolding lanes_zero
control_mask w = bit_or (lanes_zero (bit_and w (lo * 224))) (lanes_zero (bit_xor w (lo * 127)))

unfoldable pub allowed_control_mask : ℕ → ℕ
unfolding lanes_zero
allowed_control_mask w =
    let m = lanes_zero (bit_xor w (lo * 9)) in
    let m_2 = bit_or m (lanes_zero (bit_xor w (lo * 10))) in
    bit_or m_2 (lanes_zero (bit_xor w (lo * 13)))

unfoldable pub space_mask : ℕ → ℕ
space_mask w =
    let x = bit_xor w (lo * 32) in
    let y = bit_or (plus (bit_and x (complement high)) (complement high)) x in bit_and y high

unfoldable pub at_least : ℕ → ℕ → ℕ
at_least w n = bit_and (minus (bit_or w high) (broadcast n)) high

unfoldable pub letter_mask : ℕ → ℕ
unfolding at_least
letter_mask w =
    let folded = bit_or w (lo * 32) in and_not (at_least folded b'a') (at_least folded (b'z' + 1))

unfoldable pub digit_mask : ℕ → ℕ
unfolding at_least
digit_mask w = and_not (at_least w b'0') (at_least w (b'9' + 1))

-- The term of the stop masks for the bytes equal to b, and the one for the bytes under 0x20; both borrow
-- from lane to lane.
unfoldable pub equal_stop : ℕ → ℕ → ℕ
equal_stop w b = let q = bit_xor w (lo * b) in bit_and (and_not (minus q lo) q) high

unfoldable pub control_stop : ℕ → ℕ
control_stop w = bit_and (and_not (minus w (lo * 32)) w) high

unfoldable pub double_quote_stop_mask : ℕ → ℕ
unfolding control_stop equal_stop
double_quote_stop_mask w =
    let m = control_stop w in
    let m_2 = bit_or m (equal_stop w b'"') in bit_or m_2 (equal_stop w b'\\')

unfoldable pub single_quote_stop_mask : ℕ → ℕ
unfolding control_stop equal_stop
single_quote_stop_mask w = bit_or (control_stop w) (equal_stop w b'\'')
