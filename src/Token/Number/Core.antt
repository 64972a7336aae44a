-- ===== src/Token/Number/Core.antt =====
-- token/token.go: `shapeOfNumber` for YAML 1.2's core schema.
use go_yaml.Token.Number.Digits.{
  NumberType, NumberType.decimal, NumberShape, in_base, count_digits, past_digits, is_empty,
  split_sign,
}
use go_yaml.Base.{
  ℕ, Bool, true, false, not, ◌&&◌, ◌||◌, Option, none, some, [], ◌∷◌, ◌==◌, if◌then◌else◌, length,
  Bytes,
}

-- the optional sign of an exponent
unfoldable pub skip_sign : Bytes → Bytes
skip_sign [] = []
skip_sign (c ∷ cs) = if c == b'+' || c == b'-' then cs else c ∷ cs

-- behind the "e": a sign or none, digits, and the end of the text
unfoldable pub exponent_ends : Bytes → Bool
unfolding skip_sign count_digits past_digits is_empty
exponent_ends cs = not (count_digits (skip_sign cs) == 0) && is_empty (past_digits (skip_sign cs))

-- `i < len(body) && (body[i] == 'e' || …)`, up to `i != len(body)`; the flag is `float`
unfoldable pub after_fraction : Bool → Bytes → Option NumberType
unfolding exponent_ends
after_fraction float [] = some (if float then NumberType.float else decimal)
after_fraction float (c ∷ cs) =
    if (c == b'e' || c == b'E') && exponent_ends cs then some NumberType.float else none

-- behind the whole part
unfoldable pub after_whole : ℕ → Bytes → Option NumberType
unfolding after_fraction count_digits past_digits
after_whole whole [] = if whole == 0 then none else some decimal
after_whole whole (c ∷ cs) =
    if c == b'.'
    then if whole == 0 && count_digits cs == 0 then none else after_fraction true (past_digits cs)
    else if whole == 0
    then none
    else after_fraction false (c ∷ cs)

unfoldable pub decimal_form : Bytes → Option NumberType
unfolding after_whole count_digits past_digits
decimal_form body = after_whole (count_digits body) (past_digits body)

unfoldable pub shaped : Bool → Bytes → Option NumberType → Option NumberShape
shaped negative body none = none
shaped negative body (some typ) =
    some (record { typ = typ; base = 10; digits = body; negative = negative })

-- digits behind a base prefix
unfoldable pub based : NumberType → ℕ → Bool → Bytes → Option NumberShape
unfolding in_base
based typ base negative digits =
    if in_base digits base
    then some (record { typ = typ; base = base; digits = digits; negative = negative })
    else none

-- the body behind the sign; the first flag is `len(value) == len(body)`
unfoldable pub shape12_body : Bool → Bool → Bytes → Option NumberShape
unfolding shaped decimal_form based
shape12_body unsigned negative [] = none
shape12_body unsigned negative (z ∷ p ∷ d ∷ ds) =
    if unsigned && z == b'0' && p == b'o'
    then based NumberType.octet 8 false (d ∷ ds)
    else if unsigned && z == b'0' && p == b'x'
    then based NumberType.hex 16 false (d ∷ ds)
    else shaped negative (z ∷ p ∷ d ∷ ds) (decimal_form (z ∷ p ∷ d ∷ ds))
shape12_body unsigned negative body = shaped negative body (decimal_form body)

unfoldable pub shape12 : Bytes → Option NumberShape
unfolding split_sign shape12_body
shape12 value =
    let (negative, body) = split_sign value in
    shape12_body (length value == length body) negative body
