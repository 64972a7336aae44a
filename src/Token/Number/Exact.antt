-- ===== src/Token/Number/Exact.antt =====
-- token/token.go: an integer read as a word of 64 bits and as one of any size.
use go_yaml.Token.Kind.{TokenType, integer, octet_integer, hex_integer, binary_integer, float}
use go_yaml.Token.Number.Digits.{NumberType, NumberShape, in_base, unseparate, split_sign}
use go_yaml.Token.Number.Value.{
  trim_prefix, typed_shape, shape_by_type, shape_of_typed_number, base_value, parse_uint_in,
  before_point, split_groups, on_first, add_groups, sexagesimal_value, parse_digits, whole_of,
  is_float, signed, word_by_sign, parse_whole_number, Word, uint64, int64, parse_integer,
  set_string, add_big_groups, big_digits, parse_big_integer,
}
use go_yaml.Base.{
  ℕ, zero, suc, ◌+◌, ◌*◌, ◌%◌, ◌^◌, ◌≤◌, ◌<◌, Bool, true, false, not, ◌&&◌, ◌||◌, Option, none,
  some, List, [], ◌∷◌, ltb, ◌==◌, if◌then◌else◌, drop, length, Bytes, codes, ℤ, pos, negsuc, ◌≡◌,
  refl, arith, Option-cases, inl, inr,
}

-- the number that groups in base 60 stand for
unfoldable pub groups_value : ℕ → List Bytes → Option ℕ
unfolding in_base base_value
groups_value n [] = some n
groups_value n (g ∷ gs) =
    let rest = groups_value (n * 60 + base_value 10 0 g) gs in if in_base g 10 then rest else none

-- a number that a `uint64` holds
abbrev pub within_word : Option ℕ → Option ℕ
within_word none = none
within_word (some n) = if ltb n (2 ^ 64) then some n else none

groups_value-large : (gs : List Bytes) (n : ℕ) → 2 ^ 64 ≤ n → within_word (groups_value n gs) ≡ none
unfolding groups_value
groups_value-large [] n h = ground arith
groups_value-large (g ∷ gs) n h = ground (arith, groups_value-large gs (n * 60 + base_value 10 0 g))

add_groups-bounded :
    (gs : List Bytes) (n : ℕ) → n < 2 ^ 64 → add_groups n gs ≡ within_word (groups_value n gs)
unfolding add_groups groups_value parse_uint_in
add_groups-bounded [] n h = ground arith
add_groups-bounded (g ∷ gs) n h = ground (
  arith,
  groups_value-large gs (n * 60 + base_value 10 0 g),
  add_groups-bounded gs ((n * 60 + base_value 10 0 g) % 2 ^ 64),
)

-- neither a point nor a sign
unfoldable pub is_plain : Bytes → Bool
is_plain [] = true
is_plain (c ∷ cs) = not (c == b'.' || c == b'+' || c == b'-') && is_plain cs

are_plain : List Bytes → Bool
unfolding is_plain
are_plain [] = true
are_plain (g ∷ gs) = is_plain g && are_plain gs

abbrev pub counted : Option ℕ → Option ℤ
counted none = none
counted (some n) = some (pos n)

set_string-plain :
    (base : ℕ) (s : Bytes)
    → is_plain s ≡ true
    → set_string base s ≡ (if in_base s base then some (pos (base_value base 0 s)) else none)
unfolding set_string split_sign is_plain in_base
set_string-plain base [] h = refl
set_string-plain base (c ∷ cs) h = ground arith

add_big_groups-plain :
    (gs : List Bytes) (n : ℕ)
    → are_plain gs ≡ true
    → add_big_groups (pos n) gs ≡ counted (groups_value n gs)
unfolding add_big_groups groups_value are_plain
add_big_groups-plain [] n h = refl
add_big_groups-plain (g ∷ gs) n h =
    ground (arith, set_string-plain 10 g, add_big_groups-plain gs (n * 60 + base_value 10 0 g))

on_first-plain :
    (c : ℕ) (gs : List Bytes)
    → is_plain (c ∷ []) ≡ true
    → are_plain gs ≡ true
    → are_plain (on_first c gs) ≡ true
unfolding are_plain is_plain
on_first-plain c [] p h = refl
on_first-plain c (g ∷ gs) p h = ground arith

split_groups-plain : (s : Bytes) → is_plain s ≡ true → are_plain (split_groups s) ≡ true
unfolding split_groups is_plain are_plain
split_groups-plain [] h = refl
split_groups-plain (c ∷ cs) h =
    ground (arith, on_first-plain c (split_groups cs), split_groups-plain cs)

before_point-plain : (s : Bytes) → is_plain s ≡ true → before_point s ≡ s
unfolding before_point is_plain
before_point-plain [] h = refl
before_point-plain (c ∷ cs) h = ground (arith, before_point-plain cs)

-- the unsigned number of a shape's digits
pub shape_value : NumberShape → Option ℕ
unfolding in_base base_value groups_value split_groups
shape_value shape =
    if shape.base == 60
    then groups_value 0 (split_groups shape.digits)
    else if in_base shape.digits shape.base
    then some (base_value shape.base 0 shape.digits)
    else none

pub parse_digits-value :
    (shape : NumberShape)
    → is_plain shape.digits ≡ true
    → parse_digits shape ≡ within_word (shape_value shape)
unfolding parse_digits shape_value parse_uint_in sexagesimal_value
parse_digits-value shape h =
    rw (before_point-plain shape.digits h)
      (ground (arith, add_groups-bounded (split_groups shape.digits) 0))

pub big_digits-value :
    (shape : NumberShape)
    → is_plain shape.digits ≡ true
    → big_digits shape ≡ counted (shape_value shape)
unfolding big_digits shape_value
big_digits-value shape h = ground (
  arith,
  set_string-plain shape.base shape.digits,
  add_big_groups-plain (split_groups shape.digits) 0 (split_groups-plain shape.digits h),
)

unseparate-plain : (s : Bytes) → is_plain s ≡ true → is_plain (unseparate s) ≡ true
unfolding is_plain unseparate
unseparate-plain [] h = refl
unseparate-plain (c ∷ cs) h = ground (arith, unseparate-plain cs)

drop-plain : (n : ℕ) (s : Bytes) → is_plain s ≡ true → is_plain (drop n s) ≡ true
unfolding is_plain
drop-plain zero s h = h
drop-plain (suc n) [] h = h
drop-plain (suc n) (c ∷ cs) h = drop-plain n cs (ground arith)

trim_prefix-plain : (s p : Bytes) → is_plain s ≡ true → is_plain (trim_prefix s p) ≡ true
unfolding trim_prefix
trim_prefix-plain s p h = ground (arith, drop-plain (length p) s)

typed_shape-plain :
    (kind : NumberType) (base : ℕ) (negative : Bool) (text : Bytes) {shape : NumberShape}
    → is_plain text ≡ true
    → typed_shape kind base negative text ≡ some shape
    → is_plain shape.digits ≡ true
unfolding typed_shape
typed_shape-plain kind base negative text h e = ground (arith, unseparate-plain text)

shape_by_type-plain :
    (typ : TokenType) (negative : Bool) (body : Bytes) {shape : NumberShape}
    → is_plain body ≡ true
    → shape_by_type typ negative body ≡ some shape
    → is_plain shape.digits ≡ true
unfolding shape_by_type
shape_by_type-plain integer negative body h e =
    typed_shape-plain NumberType.decimal 10 negative body h e
shape_by_type-plain octet_integer negative body h e =
    typed_shape-plain NumberType.octet 8 negative (trim_prefix body (codes "0o"))
      (trim_prefix-plain body (codes "0o") h) e
shape_by_type-plain hex_integer negative body h e =
    typed_shape-plain NumberType.hex 16 negative (trim_prefix body (codes "0x"))
      (trim_prefix-plain body (codes "0x") h) e
shape_by_type-plain binary_integer negative body h e =
    typed_shape-plain NumberType.binary 2 negative (trim_prefix body (codes "0b"))
      (trim_prefix-plain body (codes "0b") h) e
shape_by_type-plain float negative body h e =
    typed_shape-plain NumberType.float 10 negative body h e
shape_by_type-plain _ negative body h e = absurd (unfold shape_by_type in cc)

pub shape_of_typed_number-plain :
    (text : Bytes) (typ : TokenType) {shape : NumberShape}
    → is_plain (split_sign text).1 ≡ true
    → shape_of_typed_number text typ ≡ some shape
    → is_plain shape.digits ≡ true
unfolding shape_of_typed_number
shape_of_typed_number-plain [] typ h e = cc
shape_of_typed_number-plain (c ∷ cs) typ h e =
    shape_by_type-plain typ (split_sign (c ∷ cs)).0 (split_sign (c ∷ cs)).1 h e

-- the word of a number that an int64 or a uint64 holds
unfoldable pub word : ℤ → Option Word
word (pos n) = if ltb n (2 ^ 64) then some (uint64 n) else none
word (negsuc n) = if ltb n (2 ^ 63) then some (int64 (negsuc n)) else none

unfoldable pub word_of_big : Option ℤ → Option Word
unfolding word
word_of_big none = none
word_of_big (some n) = word n

word_by_sign-exact :
    (negative : Bool) (v : Option ℕ)
    → word_by_sign (whole_of negative (within_word v)) ≡ word_of_big (signed negative (counted v))
unfolding word_by_sign whole_of word_of_big word
word_by_sign-exact negative none = refl
word_by_sign-exact true (some zero) = refl
word_by_sign-exact true (some (suc n)) = ground arith
word_by_sign-exact false (some n) = ground arith

shape_exact :
    (float : Bool) (negative : Bool) (v : Option ℕ)
    → word_by_sign (if float then none else whole_of negative (within_word v))
      ≡ word_of_big (if float then none else signed negative (counted v))
unfolding word_by_sign word_of_big
shape_exact true negative v = refl
shape_exact false negative v = word_by_sign-exact negative v

-- Where the text holds a point or a sign behind its own nowhere, `ParseInteger` gives the number that
-- `ParseBigInteger` reads, below zero as an int64 and else as a uint64, a "+" in front or not, just if
-- that type holds it.
pub parse_integer-exact :
    (text : Bytes) (typ : TokenType)
    → is_plain (split_sign text).1 ≡ true
    → parse_integer text typ ≡ word_of_big (parse_big_integer text typ)
unfolding parse_integer parse_big_integer parse_whole_number word_of_big word_by_sign
parse_integer-exact text typ h = elim (Option-cases (shape_of_typed_number text typ)) [
  | inl e ↦ rw (parse_integer, parse_whole_number, parse_big_integer, e) refl
  | inr (shape, e) ↦
      let plain = shape_of_typed_number-plain text typ h e in
      rw
        (
          parse_integer,
          parse_whole_number,
          parse_big_integer,
          e,
          parse_digits-value shape plain,
          big_digits-value shape plain,
        )
        (shape_exact (is_float shape.typ) shape.negative (shape_value shape))
]
