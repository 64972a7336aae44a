-- ===== src/Token/Position.antt =====
-- token/token.go: `Position`, whose offset and indent share one 64-bit word.
-- An int32 is held as its bit pattern, a number below 2 ^ 32.
use Prim.Native.Nat.{bit_and, bit_or}
use go_yaml.Base.Bits.{bit_or-disjoint, bit_or_comm, bit_and-mask, bit_and-shifted}
use go_yaml.Base.{ℕ, ◌+◌, ◌*◌, ◌/◌, ◌%◌, ◌^◌, ◌<◌, ◌≡◌, arith}

pub record Position : Type 0 where
  pub line : ℕ
  pub column : ℕ
  pub place : ℕ

-- `position.where`, a reserved word here, is the field `place`
unfoldable pub offset : Position → ℕ
offset p = bit_and p.place 0xFFFF_FFFF

unfoldable pub indent_num : Position → ℕ
indent_num p = p.place / 2 ^ 32

-- `p.where &^ 0xFFFFFFFF | uint64(uint32(offset))`
unfoldable pub set_offset : Position → ℕ → Position
set_offset p o = record p { place = bit_or (bit_and p.place 0xFFFF_FFFF_0000_0000) (o % 2 ^ 32) }

unfoldable pub set_indent_num : Position → ℕ → Position
set_indent_num p indent = record p {
  place = bit_or (bit_and p.place 0xFFFF_FFFF) (indent % 2 ^ 32 * 2 ^ 32 % 2 ^ 64);
}

unfoldable pub at : ℕ → ℕ → ℕ → ℕ → Position
at line column o indent = record {
  line = line;
  column = column;
  place = bit_or (o % 2 ^ 32) (indent % 2 ^ 32 * 2 ^ 32 % 2 ^ 64);
}

-- `Position{}`
abbrev pub no_position : Position
no_position = record { line = 0; column = 0; place = 0 }

low_half : (x : ℕ) → bit_and x 0xFFFF_FFFF ≡ x % 2 ^ 32
low_half x = bit_and-mask 32 x

high_half : (x : ℕ) → x < 2 ^ 64 → bit_and x 0xFFFF_FFFF_0000_0000 ≡ x / 2 ^ 32 * 2 ^ 32
high_half x h =
    ground (
      arith,
      bit_and-shifted 32 (x / 2 ^ 32) (x % 2 ^ 32) 0xFFFF_FFFF,
      bit_and-mask 32 (x / 2 ^ 32),
    )

join_halves : (hi lo : ℕ) → lo < 2 ^ 32 → bit_or lo (hi * 2 ^ 32) ≡ hi * 2 ^ 32 + lo
join_halves hi lo h = ground (arith, bit_or_comm lo (hi * 2 ^ 32), bit_or-disjoint 32 hi lo)

place-set_offset :
    (p : Position) (v : ℕ)
    → p.place < 2 ^ 64
    → (set_offset p v).place ≡ p.place / 2 ^ 32 * 2 ^ 32 + v % 2 ^ 32
unfolding set_offset
place-set_offset p v h =
    rw (high_half p.place h) (bit_or-disjoint 32 (p.place / 2 ^ 32) (v % 2 ^ 32) (omega arith))

place-set_indent_num :
    (p : Position) (v : ℕ) → (set_indent_num p v).place ≡ v % 2 ^ 32 * 2 ^ 32 + p.place % 2 ^ 32
unfolding set_indent_num
place-set_indent_num p v =
    let e : v % 2 ^ 32 * 2 ^ 32 % 2 ^ 64 ≡ v % 2 ^ 32 * 2 ^ 32 = omega arith in
    rw (low_half p.place, e) (join_halves (v % 2 ^ 32) (p.place % 2 ^ 32) (omega arith))

place-at :
    (line column o indent : ℕ)
    → (at line column o indent).place ≡ indent % 2 ^ 32 * 2 ^ 32 + o % 2 ^ 32
unfolding at
place-at line column o indent =
    let e : indent % 2 ^ 32 * 2 ^ 32 % 2 ^ 64 ≡ indent % 2 ^ 32 * 2 ^ 32 = omega arith in
    rw e (join_halves (indent % 2 ^ 32) (o % 2 ^ 32) (omega arith))

offset-eq : (p : Position) → offset p ≡ p.place % 2 ^ 32
unfolding offset
offset-eq p = low_half p.place

-- Each setter writes its own half and keeps the other, whatever the int32 written, and the fields
-- that are read back lie in 32 bits.
pub position_halves :
    (p : Position) (v : ℕ)
    → p.place < 2 ^ 64
    → (offset (set_offset p v) ≡ v % 2 ^ 32)
      × (indent_num (set_offset p v) ≡ indent_num p)
      × (indent_num (set_indent_num p v) ≡ v % 2 ^ 32)
      × (offset (set_indent_num p v) ≡ offset p)
      × ((set_offset p v).place < 2 ^ 64)
      × ((set_indent_num p v).place < 2 ^ 64)
unfolding indent_num
position_halves p v h = omega (
  arith,
  place-set_offset p v h,
  place-set_indent_num p v,
  offset-eq p,
  offset-eq (set_offset p v),
  offset-eq (set_indent_num p v),
)

-- `At` packs the offset and the indent so that each is read back modulo 2 ^ 32, into a word below 2 ^ 64.
pub at_halves :
    (line column o indent : ℕ)
    → (offset (at line column o indent) ≡ o % 2 ^ 32)
      × (indent_num (at line column o indent) ≡ indent % 2 ^ 32)
      × ((at line column o indent).place < 2 ^ 64)
unfolding indent_num
at_halves line column o indent =
    omega (arith, place-at line column o indent, offset-eq (at line column o indent))
