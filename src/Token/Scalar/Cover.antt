-- ===== src/Token/Scalar/Cover.antt =====
-- Which texts that a schema reads as numbers the encoder's `isNumber` takes for one.
use go_yaml.Base.{
  ℕ, Bool, true, false, ◌&&◌, ◌||◌, Option, none, some, [], ◌∷◌, ◌==◌, if◌then◌else◌, drop, get_or,
  Bytes, codes, contains_byte, has_prefix, is_some, ◌≡◌, refl, sym, ◌∙◌, arith, ◌⊎◌, inl, inr,
}
use go_yaml.Token.Keyword.{Schema, schema12, schema11}
use go_yaml.Token.Number.{
  NumberType, NumberShape, shape11_body, may_be_number, in_base, unseparate, split_sign,
  all_sexagesimal, decimal_form, decimal_form11, prefix11, plain11, opens_octal, based11, shaped11,
  sexagesimal_form, count_digits11,
}
use go_yaml.Token.Number.Separators.{decimal_form-unseparate, decimal_form-octal}
use go_yaml.Token.Number.Groups.{all-sexagesimal_form}
use go_yaml.Token.Scalar.Quoting.{
  is_number-decimal, is_number-sexagesimal, is_number-binary, is_number-hex,
}
use go_yaml.Token.Scalar.{shape_of_number, number_type, is_number}

abbrev pub is_hex : NumberType → Bool
is_hex NumberType.hex = true
is_hex _ = false

abbrev pub is_signed : Bytes → Bool
is_signed [] = false
is_signed (c ∷ cs) = c == b'+' || c == b'-'

split_sign-unsigned : (value : Bytes) → is_signed value ≡ false → (split_sign value).1 ≡ value
unfolding split_sign
split_sign-unsigned [] h = refl
split_sign-unsigned (c ∷ cs) h = ground arith

sexagesimal_head :
    (body : Bytes) {t : NumberType}
    → sexagesimal_form body ≡ some t
    → (get_or body 0 0 == b'-') ≡ false
unfolding sexagesimal_form count_digits11
sexagesimal_head [] h = refl
sexagesimal_head (c ∷ cs) h = ground arith

shaped11_inv :
    (base : ℕ) (negative : Bool) (body : Bytes) (o : Option NumberType) {s : NumberShape}
    → shaped11 base negative body o ≡ some s
    → (t : NumberType) × (o ≡ some t)
unfolding shaped11
shaped11_inv base negative body none h = cc
shaped11_inv base negative body (some t) h = (t, refl)

based11_inv :
    (typ : NumberType) (base : ℕ) (negative : Bool) (body : Bytes) {s : NumberShape}
    → based11 typ base negative body ≡ some s
    → (in_base (unseparate body) base ≡ true) × (s.typ ≡ typ)
unfolding based11
based11_inv typ base negative body h = ground arith

-- What the text behind a sign is, where it has no base prefix.
abbrev PlainCover : Bytes → Type 0
PlainCover body =
    (is_some (decimal_form (unseparate body)) ≡ true)
    ⊎ (((get_or body 0 0 == b'-') ≡ false)
        × (contains_byte b':' body ≡ true)
        × (all_sexagesimal body ≡ true))

decimal_cover :
    (body : Bytes) {t : NumberType}
    → decimal_form body ≡ some t
    → is_some (decimal_form body) ≡ true
decimal_cover body h = rw h

plain11_lem :
    (negative : Bool) (body : Bytes)
    → plain11 negative body ≡ (
        if opens_octal body
        then based11 NumberType.octet 8 negative body
        else if contains_byte b':' body
        then shaped11 60 negative body (sexagesimal_form body)
        else shaped11 10 negative body (decimal_form11 body))
unfolding plain11
plain11_lem negative body = refl

plain_cases :
    (negative : Bool) (body : Bytes) (octal colon : Bool) {s : NumberShape}
    → contains_byte b':' body ≡ colon
    → (if octal
        then based11 NumberType.octet 8 negative body
        else if colon
        then shaped11 60 negative body (sexagesimal_form body)
        else shaped11 10 negative body (decimal_form11 body))
      ≡ some s
    → PlainCover body
plain_cases negative body true colon c h = inl (
    decimal_cover (unseparate body)
      (decimal_form-octal (unseparate body) (based11_inv _ _ _ _ h).0))
plain_cases negative body false true c h =
    let (t, e) = shaped11_inv _ _ _ _ h in
    inr (sexagesimal_head body e, c, all-sexagesimal_form body e)
plain_cases negative body false false c h =
    let (t, e) = shaped11_inv _ _ _ _ h in
    inl (decimal_cover (unseparate body) (decimal_form-unseparate body e))

plain11-cover :
    (negative : Bool) (body : Bytes) {s : NumberShape}
    → plain11 negative body ≡ some s
    → PlainCover body
plain11-cover negative body h =
    plain_cases negative body (opens_octal body) (contains_byte b':' body) refl
      (rw plain11_lem at h)

prefix11-cover :
    (body : Bytes) {base : ℕ} {typ : NumberType}
    → prefix11 body ≡ some (base, typ)
    → ((has_prefix body (codes "0b") ≡ true) × (base ≡ 2))
      ⊎ ((has_prefix body (codes "0x") ≡ true) × (base ≡ 16) × (typ ≡ NumberType.hex))
unfolding prefix11 has_prefix
prefix11-cover (z ∷ p ∷ d ∷ ds) h = ground arith
prefix11-cover _ h = cc

-- what a body's base prefix, or its lack, makes of it
abbrev by_prefix : Bool → Bytes → Option (ℕ × NumberType) → Option NumberShape
by_prefix negative body none = plain11 negative body
by_prefix negative body (some (base, typ)) = based11 typ base negative (drop 2 body)

shape11_body_lem :
    (negative : Bool) (c : ℕ) (cs : Bytes)
    → shape11_body negative (c ∷ cs) ≡ by_prefix negative (c ∷ cs) (prefix11 (c ∷ cs))
unfolding shape11_body
shape11_body_lem negative c cs = ground arith

shape11_body-nil : (negative : Bool) → shape11_body negative [] ≡ none
unfolding shape11_body
shape11_body-nil negative = refl

module _ (value : Bytes) (m : may_be_number value ≡ true) where
  plain-is_number : PlainCover (split_sign value).1 → is_number value ≡ true
  plain-is_number (inl d) = is_number-decimal value m d
  plain-is_number (inr (h, c, a)) = is_number-sexagesimal value m h c a

  based-is_number :
      (negative : Bool) (base : ℕ) (typ : NumberType) {s : NumberShape}
      → prefix11 (split_sign value).1 ≡ some (base, typ)
      → based11 typ base negative (drop 2 (split_sign value).1) ≡ some s
      → (is_hex s.typ && is_signed value) ≡ false
      → is_number value ≡ true
  based-is_number negative base typ {s} p h u =
      let (b, t) = based11_inv typ base negative (drop 2 (split_sign value).1) h in
      elim (prefix11-cover (split_sign value).1 p) [
        | inl (two, is_two) ↦ is_number-binary value m two (rw is_two at b)
        | inr (sixteen, is_sixteen, hex) ↦
            let unsigned : is_signed value ≡ false = ground arith in
            let e = split_sign-unsigned value unsigned in
            is_number-hex value m e (rw e at sixteen) (rw (is_sixteen, e) at b)
      ]

  cases-is_number :
      (negative : Bool) (o : Option (ℕ × NumberType)) {s : NumberShape}
      → prefix11 (split_sign value).1 ≡ o
      → by_prefix negative (split_sign value).1 o ≡ some s
      → (is_hex s.typ && is_signed value) ≡ false
      → is_number value ≡ true
  cases-is_number negative none p h u =
      plain-is_number (plain11-cover negative (split_sign value).1 h)
  cases-is_number negative (some (base, typ)) p h u = based-is_number negative base typ p h u

  body-is_number :
      (negative : Bool) (body : Bytes) {s : NumberShape}
      → (split_sign value).1 ≡ body
      → shape11_body negative body ≡ some s
      → (is_hex s.typ && is_signed value) ≡ false
      → is_number value ≡ true
  body-is_number negative [] e h u = cc (shape11_body-nil negative)
  body-is_number negative (c ∷ cs) {s} e h u =
      cases-is_number negative (prefix11 (split_sign value).1) {s = s} refl
        (rw e (sym (shape11_body_lem negative c cs) ∙ h)) u

number_type12 :
    (value : Bytes) {s : NumberShape}
    → shape_of_number value schema12 ≡ some s
    → number_type value schema12 ≡ some s.typ
unfolding number_type
number_type12 value h = rw (h, number_type)

is_number-twelve :
    (value : Bytes) {t : NumberType} → number_type value schema12 ≡ some t → is_number value ≡ true
unfolding is_number
is_number-twelve value h = ground arith

twelve :
    (value : Bytes) {s : NumberShape}
    → shape_of_number value schema12 ≡ some s
    → is_number value ≡ true
twelve value h = is_number-twelve value (number_type12 value h)

eleven :
    (value : Bytes) {s : NumberShape}
    → shape_of_number value schema11 ≡ some s
    → (may_be_number value ≡ true)
      × (shape11_body (split_sign value).0 (split_sign value).1 ≡ some s)
unfolding shape_of_number
eleven value h = ground arith

-- A text that either schema reads as a number is one to the encoder, unless it is a hexadecimal
-- number with a sign.
pub is_number_covers :
    (value : Bytes) (schema : Schema) {s : NumberShape}
    → shape_of_number value schema ≡ some s
    → (is_hex s.typ && is_signed value) ≡ false
    → is_number value ≡ true
is_number_covers value schema12 h u = twelve value h
is_number_covers value schema11 h u =
    let (m, e) = eleven value h in
    body-is_number value m (split_sign value).0 (split_sign value).1 refl e u
