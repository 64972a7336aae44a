-- ===== src/Token/Scalar/Quoting.antt =====
-- `isNumber`, by which the encoder quotes a text, against the numbers that the two schemas read.
use go_yaml.Base.{
  ℕ, Bool, true, false, ◌||◌, [], ◌∷◌, ◌==◌, drop, length, get_or, Bytes, codes, contains_byte,
  has_prefix, is_some, ◌≡◌, refl, ap, ◌∙◌, arith, inl, inr, Bool-cases, ==-self, Option-cases,
}
use go_yaml.Token.Number.{
  shape12, shape12_body, may_be_number, in_base, unseparate, split_sign, all_sexagesimal,
  decimal_form,
}
use go_yaml.Token.Number.Separators.{
  shape12_body-decimal, unseparate_none, split_sign-unseparate, may_be_number-unseparate,
}
use go_yaml.Token.Scalar.{is_number12, is_number, is_binary_literal, is_sexagesimal, unsigned_text}

is_number12-shape12 :
    (value : Bytes)
    → may_be_number value ≡ true
    → is_some (shape12 value) ≡ true
    → is_number12 value ≡ true
unfolding is_number12
is_number12-shape12 value m h = elim (Option-cases (shape12 value)) [
  | inl e ↦ cc (rw e at h)
  | inr (s, e) ↦ ground arith
]

is_number-unseparate :
    (value : Bytes)
    → may_be_number value ≡ true
    → is_number12 (unseparate value) ≡ true
    → is_number value ≡ true
unfolding is_number
is_number-unseparate value m h = elim (Bool-cases (contains_byte b'_' value)) [
  | inl separated ↦ ground arith
  | inr plain ↦ rw (rw (unseparate_none value plain) at h) refl
]

is_some-shape12 :
    (value : Bytes)
    → is_some (decimal_form (split_sign value).1) ≡ true
    → is_some (shape12 value) ≡ true
unfolding shape12
is_some-shape12 value h =
    shape12_body-decimal (length value == length (split_sign value).1) (split_sign value).0
      (split_sign value).1 h

pub is_number-decimal :
    (value : Bytes)
    → may_be_number value ≡ true
    → is_some (decimal_form (unseparate (split_sign value).1)) ≡ true
    → is_number value ≡ true
is_number-decimal value m h = is_number-unseparate value m (
    is_number12-shape12 (unseparate value) (may_be_number-unseparate value m)
      (is_some-shape12 (unseparate value) (rw (split_sign-unseparate value m) h)))

unsigned_text-split_sign :
    (value : Bytes)
    → (get_or (split_sign value).1 0 0 == b'-') ≡ false
    → unsigned_text value ≡ (split_sign value).1
unfolding unsigned_text split_sign
unsigned_text-split_sign [] h = refl
unsigned_text-split_sign (c ∷ []) h = ground arith
unsigned_text-split_sign (c ∷ d ∷ ds) h = ground arith

or_true : (b : Bool) → (b || true) ≡ true
or_true true = refl
or_true false = refl

is_number-late :
    (value : Bytes)
    → may_be_number value ≡ true
    → (is_binary_literal value || is_sexagesimal value) ≡ true
    → is_number value ≡ true
unfolding is_number
is_number-late value m h = ground arith

prefix_not_dash : (s : Bytes) → has_prefix s (codes "0b") ≡ true → (get_or s 0 0 == b'-') ≡ false
unfolding has_prefix
prefix_not_dash [] h = refl
prefix_not_dash (c ∷ cs) h = ground arith

sexagesimal_text :
    (value body : Bytes)
    → unsigned_text value ≡ body
    → contains_byte b':' body ≡ true
    → all_sexagesimal body ≡ true
    → (is_binary_literal value || is_sexagesimal value) ≡ true
unfolding is_sexagesimal
sexagesimal_text value body e c a = rw (e, c, a) (or_true _)

binary_text :
    (value body : Bytes)
    → unsigned_text value ≡ body
    → has_prefix body (codes "0b") ≡ true
    → in_base (unseparate (drop 2 body)) 2 ≡ true
    → (is_binary_literal value || is_sexagesimal value) ≡ true
unfolding is_binary_literal
binary_text value body e c a = rw (e, c, a)

-- the body of a number in base 60
pub is_number-sexagesimal :
    (value : Bytes)
    → may_be_number value ≡ true
    → (get_or (split_sign value).1 0 0 == b'-') ≡ false
    → contains_byte b':' (split_sign value).1 ≡ true
    → all_sexagesimal (split_sign value).1 ≡ true
    → is_number value ≡ true
is_number-sexagesimal value m h c a =
    is_number-late value m
      (sexagesimal_text value (split_sign value).1 (unsigned_text-split_sign value h) c a)

pub is_number-binary :
    (value : Bytes)
    → may_be_number value ≡ true
    → has_prefix (split_sign value).1 (codes "0b") ≡ true
    → in_base (unseparate (drop 2 (split_sign value).1)) 2 ≡ true
    → is_number value ≡ true
is_number-binary value m h c = is_number-late value m (
    binary_text value (split_sign value).1
      (unsigned_text-split_sign value (prefix_not_dash (split_sign value).1 h)) h c)

shape12_unsigned :
    (value : Bytes)
    → (split_sign value).1 ≡ value
    → is_some (shape12_body true (split_sign value).0 value) ≡ true
    → is_some (shape12 value) ≡ true
unfolding shape12
shape12_unsigned value e h = rw (e, ==-self) h

hex_body :
    (negative : Bool) (z p : ℕ) (ds : Bytes)
    → (z == b'0') ≡ true
    → (p == b'x') ≡ true
    → in_base ds 16 ≡ true
    → is_some (shape12_body true negative (z ∷ p ∷ ds)) ≡ true
unfolding shape12_body
hex_body negative z p [] hz hp h = cc
hex_body negative z p (d ∷ ds) hz hp h = ground arith

hex_unseparate :
    (negative : Bool) (value : Bytes)
    → has_prefix value (codes "0x") ≡ true
    → in_base (unseparate (drop 2 value)) 16 ≡ true
    → is_some (shape12_body true negative (unseparate value)) ≡ true
unfolding has_prefix unseparate
hex_unseparate negative [] h b = cc
hex_unseparate negative (z ∷ []) h b = ground arith
hex_unseparate negative (z ∷ p ∷ ds) h b = ground (arith, hex_body negative z p (unseparate ds))

pub is_number-hex :
    (value : Bytes)
    → may_be_number value ≡ true
    → (split_sign value).1 ≡ value
    → has_prefix value (codes "0x") ≡ true
    → in_base (unseparate (drop 2 value)) 16 ≡ true
    → is_number value ≡ true
is_number-hex value m h c b =
    let split : (split_sign (unseparate value)).1 ≡ unseparate value =
      ap (λ (t : Bool × Bytes). t.1) (split_sign-unseparate value m) ∙ ap unseparate h in
    is_number-unseparate value m (
      is_number12-shape12 (unseparate value) (may_be_number-unseparate value m) (
        shape12_unsigned (unseparate value) split
          (hex_unseparate (split_sign (unseparate value)).0 value c b)))
