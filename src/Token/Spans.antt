-- ===== src/Token/Spans.antt =====
-- token/token.go: `spans`, the word of 64 bits in which a token keeps the line it ends on, the breaks of
-- the comments above it, the breaks behind it, and two flags. An int32 is held as its bit pattern.
pub mod Fields
use Prim.Native.Nat.{bit_and, bit_or}
use native.Mathlib.Nat.{mod-eq_of_lt, one-le-pow}
use go_yaml.Base.Bits.{
  bit_and-zero, bit_or_comm, bit_or-disjoint, bit_and-mask, bit_and-split, bit_or-split,
  bit_or-zero,
}
use go_yaml.Base.{
  ℕ, zero, suc, ◌+◌, ◌-◌, ◌*◌, ◌/◌, ◌%◌, ◌^◌, ◌<◌, ◌≤◌, Bool, true, false, not, ◌&&◌, ltb, ◌==◌,
  if◌then◌else◌, ◌≡◌, refl, sym, ap, ◌∙◌, arith,
}

-- `x &^ y` on words of 64 bits
abbrev and_not : ℕ → ℕ → ℕ
and_not x y = bit_and x (2 ^ 64 - 1 - y)

abbrev comment_shift : ℕ
comment_shift = 32

abbrev trailing_shift : ℕ
trailing_shift = 48

abbrev blank_line_shift : ℕ
blank_line_shift = 62

abbrev from_source_shift : ℕ
from_source_shift = 63

abbrev end_line_mask : ℕ
end_line_mask = 2 ^ 32 - 1

abbrev pub comment_mask : ℕ
comment_mask = 2 ^ 16 - 1

abbrev pub trailing_mask : ℕ
trailing_mask = 2 ^ 14 - 1

-- `n > mask` of an int32
abbrev pub is_past : ℕ → ℕ → Bool
is_past n mask = ltb mask n && ltb n (2 ^ 31)

unfoldable pub end_line : ℕ → ℕ
end_line spans = bit_and spans end_line_mask

unfoldable pub comment_breaks : ℕ → ℕ
comment_breaks spans = bit_and (spans / 2 ^ comment_shift) comment_mask

unfoldable pub trailing_breaks : ℕ → ℕ
trailing_breaks spans = bit_and (spans / 2 ^ trailing_shift) trailing_mask

unfoldable pub blank_line_above : ℕ → Bool
blank_line_above spans = not (bit_and (spans / 2 ^ blank_line_shift) 1 == 0)

unfoldable pub from_source : ℕ → Bool
from_source spans = not (bit_and (spans / 2 ^ from_source_shift) 1 == 0)

-- the breaks from the first character on
unfoldable pub breaks_after_leading : ℕ → ℕ → ℕ
unfolding end_line trailing_breaks
breaks_after_leading line spans = (end_line spans + 2 ^ 32 - line + trailing_breaks spans) % 2 ^ 32

unfoldable pub set_end_line : ℕ → ℕ → ℕ
set_end_line spans line = bit_or (and_not spans end_line_mask) (bit_and line end_line_mask)

unfoldable pub set_comment_breaks : ℕ → ℕ → ℕ
set_comment_breaks spans n =
    let m = if is_past n comment_mask then comment_mask else n in
    bit_or (and_not spans (comment_mask * 2 ^ comment_shift))
      (bit_and m comment_mask * 2 ^ comment_shift)

unfoldable pub set_trailing_breaks : ℕ → ℕ → ℕ
set_trailing_breaks spans n =
    let m = if is_past n trailing_mask then trailing_mask else n in
    bit_or (and_not spans (trailing_mask * 2 ^ trailing_shift))
      (bit_and m trailing_mask * 2 ^ trailing_shift)

unfoldable pub set_blank_line_above : ℕ → Bool → ℕ
set_blank_line_above spans blank =
    let cleared = and_not spans (2 ^ blank_line_shift) in
    if blank then bit_or cleared (2 ^ blank_line_shift) else cleared

unfoldable pub mark_from_source : ℕ → ℕ
mark_from_source spans = bit_or spans (2 ^ from_source_shift)

-- of `Detached`
unfoldable pub detached : ℕ → ℕ
detached spans = and_not spans (2 ^ from_source_shift)

-- `Extent.spans`
unfoldable pub extent_spans : ℕ → ℕ → ℕ
extent_spans line trailing =
    bit_or (bit_and line end_line_mask) (bit_and trailing trailing_mask * 2 ^ trailing_shift)

-- a word with one field written
abbrev with_field : ℕ → ℕ → ℕ → ℕ → ℕ
with_field s w x v = x / 2 ^ (s + w) * 2 ^ (s + w) + v * 2 ^ s + x % 2 ^ s

-- The word is a high part, a field of w bits and a low part of s bits.
abbrev pub joined : ℕ → ℕ → ℕ → ℕ → ℕ → ℕ
joined s w h f l = (h * 2 ^ w + f) * 2 ^ s + l

bit_and-joined :
    (s w r h f l : ℕ)
    → h < 2 ^ r
    → f < 2 ^ w
    → l < 2 ^ s
    → bit_and (joined s w h f l) (joined s w (2 ^ r - 1) 0 (2 ^ s - 1)) ≡ joined s w h 0 l
bit_and-joined s w r h f l hr fw ls =
    bit_and-split s (h * 2 ^ w + f) l ((2 ^ r - 1) * 2 ^ w + 0) (2 ^ s - 1) ls
      (omega (arith, one-le-pow s 2 (omega arith)))
    ∙ rw
        (
          bit_and-split w h f (2 ^ r - 1) 0 fw (omega (arith, one-le-pow w 2 (omega arith))),
          bit_and-mask r h,
          bit_and-mask s l,
          bit_and-zero f,
          mod-eq_of_lt hr,
          mod-eq_of_lt ls,
        )
        refl

bit_or-joined :
    (s w h v l : ℕ)
    → v < 2 ^ w
    → l < 2 ^ s
    → bit_or (joined s w h 0 l) (v * 2 ^ s) ≡ joined s w h v l
bit_or-joined s w h v l vw ls =
    ap (bit_or (joined s w h 0 l)) (plus_zero (v * 2 ^ s))
    ∙ bit_or-split s (h * 2 ^ w + 0) l v 0 ls (omega (arith, one-le-pow s 2 (omega arith)))
    ∙ rw (bit_or-zero l, ← plus_zero (h * 2 ^ w), bit_or-disjoint w h v vw) refl
  where
    plus_zero : (n : ℕ) → n ≡ n + 0
    plus_zero n = omega arith

flag_set : (f : ℕ) → f < 2 → bit_or f 1 ≡ 1
flag_set zero h = refl
flag_set (suc zero) h = refl
flag_set (suc (suc n)) h = absurd (omega arith)

-- one field written over, at a word
module _ (x : ℕ) (small : x < 2 ^ 64) where
  pub set_end_line-value : (n : ℕ) → n < 2 ^ 32 → set_end_line x n ≡ x / 2 ^ 32 * 2 ^ 32 + n
  unfolding set_end_line
  set_end_line-value n h =
      let parts : x ≡ joined 0 32 (x / 2 ^ 32) (x % 2 ^ 32) 0 = omega arith in
      let cleared : and_not x end_line_mask ≡ x / 2 ^ 32 * 2 ^ 32 =
        ap (λ (t : ℕ). and_not t end_line_mask) parts
        ∙ bit_and-joined 0 32 32 (x / 2 ^ 32) (x % 2 ^ 32) 0 (omega arith) (omega arith)
            (omega arith)
        ∙ omega arith in
      rw (cleared, bit_and-mask 32 n, mod-eq_of_lt h) (bit_or-disjoint 32 (x / 2 ^ 32) n h)

  pub set_comment_breaks-value :
      (n : ℕ)
      → set_comment_breaks x n
        ≡ joined 32 16
            (x / 2 ^ 48)
            ((if is_past n comment_mask then comment_mask else n) % 2 ^ 16)
            (x % 2 ^ 32)
  unfolding set_comment_breaks
  set_comment_breaks-value n =
      let m = if is_past n comment_mask then comment_mask else n in
      let parts : x ≡ joined 32 16 (x / 2 ^ 48) (x / 2 ^ 32 % 2 ^ 16) (x % 2 ^ 32) = omega arith in
      let cleared : and_not x (comment_mask * 2 ^ comment_shift)
          ≡ joined 32 16 (x / 2 ^ 48) 0 (x % 2 ^ 32) =
        ap (λ (t : ℕ). and_not t (comment_mask * 2 ^ comment_shift)) parts
        ∙ bit_and-joined 32 16 16 (x / 2 ^ 48) (x / 2 ^ 32 % 2 ^ 16) (x % 2 ^ 32) (omega arith)
            (omega arith) (omega arith) in
      rw (cleared, bit_and-mask 16 m)
        (bit_or-joined 32 16 (x / 2 ^ 48) (m % 2 ^ 16) (x % 2 ^ 32) (omega arith) (omega arith))

  pub set_trailing_breaks-value :
      (n : ℕ)
      → set_trailing_breaks x n
        ≡ joined 48 14
            (x / 2 ^ 62)
            ((if is_past n trailing_mask then trailing_mask else n) % 2 ^ 14)
            (x % 2 ^ 48)
  unfolding set_trailing_breaks
  set_trailing_breaks-value n =
      let m = if is_past n trailing_mask then trailing_mask else n in
      let parts : x ≡ joined 48 14 (x / 2 ^ 62) (x / 2 ^ 48 % 2 ^ 14) (x % 2 ^ 48) = omega arith in
      let cleared : and_not x (trailing_mask * 2 ^ trailing_shift)
          ≡ joined 48 14 (x / 2 ^ 62) 0 (x % 2 ^ 48) =
        ap (λ (t : ℕ). and_not t (trailing_mask * 2 ^ trailing_shift)) parts
        ∙ bit_and-joined 48 14 2 (x / 2 ^ 62) (x / 2 ^ 48 % 2 ^ 14) (x % 2 ^ 48) (omega arith)
            (omega arith) (omega arith) in
      rw (cleared, bit_and-mask 14 m)
        (bit_or-joined 48 14 (x / 2 ^ 62) (m % 2 ^ 14) (x % 2 ^ 48) (omega arith) (omega arith))

  blank_line_cleared : and_not x (2 ^ blank_line_shift) ≡ joined 62 1 (x / 2 ^ 63) 0 (x % 2 ^ 62)
  blank_line_cleared =
      let parts : x ≡ joined 62 1 (x / 2 ^ 63) (x / 2 ^ 62 % 2) (x % 2 ^ 62) = omega arith in
      ap (λ (t : ℕ). and_not t (2 ^ blank_line_shift)) parts
      ∙ bit_and-joined 62 1 1 (x / 2 ^ 63) (x / 2 ^ 62 % 2) (x % 2 ^ 62) (omega arith) (omega arith)
          (omega arith)

  pub set_blank_line_above-value :
      (blank : Bool)
      → set_blank_line_above x blank
        ≡ joined 62 1 (x / 2 ^ 63) (if blank then 1 else 0) (x % 2 ^ 62)
  unfolding set_blank_line_above
  set_blank_line_above-value true =
      rw blank_line_cleared
        (bit_or-joined 62 1 (x / 2 ^ 63) 1 (x % 2 ^ 62) (omega arith) (omega arith))
  set_blank_line_above-value false = blank_line_cleared

  pub mark_from_source-value : mark_from_source x ≡ joined 63 1 0 1 (x % 2 ^ 63)
  unfolding mark_from_source
  mark_from_source-value =
      let f = x / 2 ^ 63 in
      let parts : x ≡ f * 2 ^ 63 + x % 2 ^ 63 = omega arith in
      ap (λ (t : ℕ). bit_or t (2 ^ 63)) parts
      ∙ bit_or-split 63 f (x % 2 ^ 63) 1 0 (omega arith) (omega arith)
      ∙ rw (bit_or-zero (x % 2 ^ 63), flag_set f (omega arith)) refl

  pub detached-value : detached x ≡ joined 63 1 0 0 (x % 2 ^ 63)
  unfolding detached
  detached-value =
      let parts : x ≡ joined 63 1 0 (x / 2 ^ 63) (x % 2 ^ 63) = omega arith in
      ap (λ (t : ℕ). and_not t (2 ^ from_source_shift)) parts
      ∙ bit_and-joined 63 1 0 0 (x / 2 ^ 63) (x % 2 ^ 63) (omega arith) (omega arith) (omega arith)
