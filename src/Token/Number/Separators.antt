-- ===== src/Token/Number/Separators.antt =====
-- A number of YAML 1.1 in decimal or octal digits is one of YAML 1.2 once its "_" are gone.
use go_yaml.Token.Number.Digits.{
  NumberType, NumberType.decimal, in_base, all_in_base, digit_value, count_digits, past_digits,
  count_digits11, past_digits11, unseparate, is_empty, split_sign, may_be_number,
}
use go_yaml.Token.Number.Core.{after_fraction, after_whole, decimal_form, shape12_body, shaped}
use go_yaml.Token.Number.Legacy.{after_fraction11, after_whole11, decimal_form11}
use go_yaml.Base.{
  ℕ, Bool, true, false, ◌||◌, Option, none, some, [], ◌∷◌, ◌==◌, Bytes, contains_byte, ◌≡◌, refl,
  arith, is_some,
}

count-unseparate : (s : Bytes) → count_digits (unseparate s) ≡ count_digits11 s
unfolding count_digits unseparate count_digits11
count-unseparate [] = refl
count-unseparate (c ∷ cs) = ground (arith, count-unseparate cs)

past-unseparate : (s : Bytes) → past_digits (unseparate s) ≡ unseparate (past_digits11 s)
unfolding past_digits unseparate past_digits11
past-unseparate [] = refl
past-unseparate (c ∷ cs) = ground (arith, past-unseparate cs)

-- a run of digits up to the end holds no separator
unseparate-digits : (s : Bytes) → is_empty (past_digits s) ≡ true → unseparate s ≡ s
unfolding is_empty past_digits unseparate
unseparate-digits [] h = refl
unseparate-digits (c ∷ cs) h = ground (arith, unseparate-digits cs)

after_fraction-unseparate :
    (s : Bytes) {t : NumberType}
    → after_fraction11 s ≡ some t
    → after_fraction true (unseparate s) ≡ some t
unfolding after_fraction11 after_fraction unseparate
after_fraction-unseparate [] h = h
after_fraction-unseparate (c ∷ []) h = ground arith
after_fraction-unseparate (c ∷ s ∷ ds) h = ground (arith, unseparate-digits ds)

after_whole-unseparate :
    (whole : ℕ) (s : Bytes) {t : NumberType}
    → after_whole11 whole s ≡ some t
    → after_whole whole (unseparate s) ≡ some t
unfolding after_whole11 after_whole unseparate
after_whole-unseparate whole [] h = h
after_whole-unseparate whole (c ∷ cs) {t} h = ground (
  arith,
  count-unseparate cs,
  past-unseparate cs,
  after_fraction-unseparate (past_digits11 cs) {t = t},
)

pub decimal_form-unseparate :
    (body : Bytes) {t : NumberType}
    → decimal_form11 body ≡ some t
    → decimal_form (unseparate body) ≡ some t
unfolding decimal_form11 decimal_form
decimal_form-unseparate body {t} h =
    rw (count-unseparate body, past-unseparate body)
      (after_whole-unseparate (count_digits11 body) (past_digits11 body) h)

all_octal : (s : Bytes) → all_in_base s 8 ≡ true → is_empty (past_digits s) ≡ true
unfolding all_in_base digit_value past_digits is_empty
all_octal [] h = refl
all_octal (c ∷ cs) h = ground (arith, all_octal cs)

-- octal digits are decimal digits
pub decimal_form-octal : (s : Bytes) → in_base s 8 ≡ true → decimal_form s ≡ some decimal
unfolding in_base decimal_form all_in_base digit_value count_digits past_digits is_empty after_whole
decimal_form-octal [] h = cc
decimal_form-octal (c ∷ cs) h = ground (arith, all_octal cs)

-- a decimal form has no base prefix
pub prefix_is_not_decimal :
    (p : ℕ) (ds : Bytes) → (p == b'o' || p == b'x') ≡ true → decimal_form (b'0' ∷ p ∷ ds) ≡ none
unfolding decimal_form count_digits past_digits after_whole
prefix_is_not_decimal p ds h = ground arith

is_some-shaped :
    (negative : Bool) (body : Bytes) (o : Option NumberType)
    → is_some (shaped negative body o) ≡ is_some o
unfolding shaped
is_some-shaped negative body none = refl
is_some-shaped negative body (some t) = refl

pub shape12_body-decimal :
    (unsigned negative : Bool) (body : Bytes)
    → is_some (decimal_form body) ≡ true
    → is_some (shape12_body unsigned negative body) ≡ true
unfolding shape12_body
shape12_body-decimal unsigned negative [] h =
    absurd (unfold decimal_form after_whole count_digits past_digits in cc)
shape12_body-decimal unsigned negative (z ∷ []) h = rw is_some-shaped h
shape12_body-decimal unsigned negative (z ∷ p ∷ []) h = rw is_some-shaped h
shape12_body-decimal unsigned negative (z ∷ p ∷ d ∷ ds) h = ground (
  arith,
  prefix_is_not_decimal p (d ∷ ds),
  is_some-shaped negative (z ∷ p ∷ d ∷ ds) (decimal_form (z ∷ p ∷ d ∷ ds)),
)

pub unseparate_none : (s : Bytes) → contains_byte b'_' s ≡ false → unseparate s ≡ s
unfolding contains_byte unseparate
unseparate_none [] h = refl
unseparate_none (c ∷ cs) h = ground (arith, unseparate_none cs)

pub split_sign-unseparate :
    (value : Bytes)
    → may_be_number value ≡ true
    → split_sign (unseparate value) ≡ ((split_sign value).0, unseparate (split_sign value).1)
unfolding may_be_number split_sign unseparate
split_sign-unseparate [] h = cc
split_sign-unseparate (c ∷ cs) h = ground arith

pub may_be_number-unseparate :
    (value : Bytes) → may_be_number value ≡ true → may_be_number (unseparate value) ≡ true
unfolding may_be_number unseparate
may_be_number-unseparate [] h = cc
may_be_number-unseparate (c ∷ cs) h = ground arith
