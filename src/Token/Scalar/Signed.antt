-- ===== src/Token/Scalar/Signed.antt =====
-- `isNumber` at the signed hexadecimal numbers of YAML 1.1.
use go_yaml.Base.{
  ℕ, Bool, true, false, not, ◌&&◌, ◌||◌, none, some, [], ◌∷◌, ◌==◌, if◌then◌else◌, Bytes,
  contains_byte, ◌≡◌, refl, ap, ◌∙◌, arith,
}
use go_yaml.Token.Keyword.{schema11}
use go_yaml.Token.Number.{
  NumberType, shape12, in_base, all_in_base, digit_value, unseparate, may_be_number,
}
use go_yaml.Token.Number.Separators.{prefix_is_not_decimal}
use go_yaml.Token.Scalar.{
  shape_of_number, number_type, is_number12, is_number, is_binary_literal, is_sexagesimal,
}

unseparate-hex : (ds : Bytes) → all_in_base ds 16 ≡ true → unseparate ds ≡ ds
unfolding all_in_base digit_value unseparate
unseparate-hex [] h = refl
unseparate-hex (d ∷ ds) h = ground (arith, unseparate-hex ds)

is_number_lem :
    (value : Bytes)
    → is_number value ≡ (
        if is_number12 value
        then true
        else if not (may_be_number value)
        then false
        else if contains_byte b'_' value && is_number12 (unseparate value)
        then true
        else is_binary_literal value || is_sexagesimal value)
unfolding is_number
is_number_lem value = refl

no_branch :
    (a b : Bool)
    → (if false then true else if a then false else if b && false then true else false || false)
      ≡ false
no_branch a b = ground arith

module _ (sign : ℕ) (d : ℕ) (ds : Bytes) where
  abbrev signed_hex : Bytes
  signed_hex = sign ∷ b'0' ∷ b'x' ∷ d ∷ ds

  hex11 :
      (sign == b'+' || sign == b'-') ≡ true
      → all_in_base (d ∷ ds) 16 ≡ true
      → number_type signed_hex schema11 ≡ some NumberType.hex
  unfolding number_type shape_of_number in_base
  hex11 h b = ground (arith, unseparate-hex (d ∷ ds))

  not_shape12 : (sign == b'+' || sign == b'-') ≡ true → shape12 signed_hex ≡ none
  unfolding shape12
  not_shape12 h = ground (arith, prefix_is_not_decimal b'x' (d ∷ ds))

  not_number12 : (sign == b'+' || sign == b'-') ≡ true → is_number12 signed_hex ≡ false
  unfolding is_number12
  not_number12 h = ground (arith, not_shape12 h)

  not_binary : (sign == b'+' || sign == b'-') ≡ true → is_binary_literal signed_hex ≡ false
  unfolding is_binary_literal
  not_binary h = ground arith

  not_sexagesimal : (sign == b'+' || sign == b'-') ≡ true → is_sexagesimal signed_hex ≡ false
  unfolding is_sexagesimal
  not_sexagesimal h = ground arith

  unseparate-signed :
      (sign == b'+' || sign == b'-') ≡ true
      → all_in_base (d ∷ ds) 16 ≡ true
      → unseparate signed_hex ≡ signed_hex
  unfolding unseparate
  unseparate-signed h b = ground (arith, unseparate-hex (d ∷ ds))

  not_number :
      (sign == b'+' || sign == b'-') ≡ true
      → all_in_base (d ∷ ds) 16 ≡ true
      → is_number signed_hex ≡ false
  not_number h b = rw is_number_lem (
      rw
        (
          not_number12 h,
          ap (λ (t : Bytes). is_number12 t) (unseparate-signed h b) ∙ not_number12 h,
          not_binary h,
          not_sexagesimal h,
        )
        (no_branch (not (may_be_number signed_hex)) (contains_byte b'_' signed_hex)))

-- Every signed hexadecimal number of YAML 1.1, written without separators, is a number under that
-- schema and none to the encoder's test.
pub is_number_misses :
    (sign : ℕ) (ds : Bytes)
    → (sign == b'+' || sign == b'-') ≡ true
    → in_base ds 16 ≡ true
    → (number_type (sign ∷ b'0' ∷ b'x' ∷ ds) schema11 ≡ some NumberType.hex)
      × (is_number (sign ∷ b'0' ∷ b'x' ∷ ds) ≡ false)
unfolding in_base
is_number_misses sign [] h b = cc
is_number_misses sign (d ∷ ds) h b = (hex11 sign d ds h b, not_number sign d ds h b)
