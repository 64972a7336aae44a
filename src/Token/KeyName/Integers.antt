-- ===== src/Token/KeyName/Integers.antt =====
-- token/keyname.go: which integer keys are one.
use go_yaml.Token.Kind.{TokenType}
use go_yaml.Token.Number.{
  is_float, signed, split_sign, shape_of_typed_number, parse_whole_number, whole_of,
  parse_big_integer,
}
use go_yaml.Token.Number.Exact.{
  is_plain, shape_of_typed_number-plain, parse_digits-value, big_digits-value, shape_value, counted,
  within_word,
}
use go_yaml.Token.KeyName.{named_by, name_of_whole, name_of_big, integer_key_name}
use go_yaml.Base.{
  ℕ, zero, suc, Bool, true, false, Option, none, some, [], ◌∷◌, if◌then◌else◌, Bytes, decimal,
  decimal-all, decimal-injective, decimal_ℤ, all_digits, ℤ, negate, pos, negsuc, ◌≡◌, ◌↔◌, refl,
  sym, ap, ◌∙◌, arith, Option-cases, inl, inr,
}

decimal_sign : (m : ℕ) (s : Bytes) → ¬ (decimal m ≡ b'-' ∷ s)
unfolding all_digits
decimal_sign m s e = absurd (ground (arith, ap all_digits (sym e) ∙ decimal-all m))

tail_of : Bytes → Bytes
tail_of [] = []
tail_of (c ∷ cs) = cs

decimal_ℤ-injective : (m n : ℤ) → decimal_ℤ m ≡ decimal_ℤ n → m ≡ n
unfolding decimal_ℤ tail_of
decimal_ℤ-injective (pos m) (pos n) e = ap pos (decimal-injective m n e)
decimal_ℤ-injective (pos m) (negsuc n) e = absurd (decimal_sign m (decimal (suc n)) e)
decimal_ℤ-injective (negsuc m) (pos n) e = absurd (decimal_sign n (decimal (suc m)) (sym e))
decimal_ℤ-injective (negsuc m) (negsuc n) e =
    ap negsuc (omega (arith, decimal-injective (suc m) (suc n) (ap tail_of e)))

named_value :
    (text : Bytes) (negative : Bool) (u : ℕ)
    → let n : ℤ = if negative then negate (pos u) else pos u in
      named_by text (whole_of negative (within_word (some u))) (some n) ≡ decimal_ℤ n
unfolding named_by whole_of decimal_ℤ name_of_whole name_of_big
named_value text true zero = ground arith
named_value text true (suc u) = ground arith
named_value text false u = ground arith

named_exact :
    (text : Bytes) (float negative : Bool) (v : Option ℕ)
    → let big = if float then none else signed negative (counted v) in
      named_by text (if float then none else whole_of negative (within_word v)) big
      ≡ name_of_big text big
unfolding named_by name_of_big whole_of
named_exact text true negative v = refl
named_exact text false negative none = refl
named_exact text false negative (some u) = named_value text negative u

name_exact :
    (text : Bytes) (typ : TokenType)
    → is_plain (split_sign text).1 ≡ true
    → named_by text (parse_whole_number text typ) (parse_big_integer text typ)
      ≡ name_of_big text (parse_big_integer text typ)
unfolding named_by parse_whole_number parse_big_integer
name_exact text typ h = elim (Option-cases (shape_of_typed_number text typ)) [
  | inl e ↦ rw (parse_whole_number, parse_big_integer, e) refl
  | inr (shape, e) ↦
      let plain = shape_of_typed_number-plain text typ h e in
      rw
        (
          parse_whole_number,
          parse_big_integer,
          e,
          parse_digits-value shape plain,
          big_digits-value shape plain,
        )
        (named_exact text (is_float shape.typ) shape.negative (shape_value shape))
]

integer_key_name-decimal :
    (text : Bytes) (typ : TokenType) {n : ℤ}
    → is_plain (split_sign text).1 ≡ true
    → parse_big_integer text typ ≡ some n
    → integer_key_name text typ ≡ decimal_ℤ n
unfolding integer_key_name name_of_big
integer_key_name-decimal text typ {n} h e = name_exact text typ h ∙ ap (name_of_big text) e

-- Two integer keys, neither with a point or a sign behind its own, have the same name just if they are
-- the same number, in whatever base each is written and however large it is.
pub integer_key_name_iff :
    (s t : Bytes) (a b : TokenType) {m n : ℤ}
    → is_plain (split_sign s).1 ≡ true
    → is_plain (split_sign t).1 ≡ true
    → parse_big_integer s a ≡ some m
    → parse_big_integer t b ≡ some n
    → (integer_key_name s a ≡ integer_key_name t b) ↔ (m ≡ n)
integer_key_name_iff s t a b {m} {n} hs ht es et =
    rw (integer_key_name-decimal s a hs es, integer_key_name-decimal t b ht et)
      (decimal_ℤ-injective m n, ap decimal_ℤ)
