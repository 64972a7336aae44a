-- ===== src/Path/Digits.antt =====
-- The decimal digits of an index: `%d` and `strconv.ParseUint` in internal/yamlpath/path.go.
use go_yaml.Base.{
  decimal, decimal_head, decimal-all, decimal-value, all_digits, digits_value, ℕ, ◌<◌, ◌^◌, true,
  [], ◌∷◌, ◌++◌, length, Bytes, ◌≡◌, refl, ap, sym, ◌∙◌, arith, some,
}
use go_yaml.Token.Number.{count_digits, past_digits}
use go_yaml.Path.Parse.{parse_uint}

pub count_digits-append :
    (ds rest : Bytes) → all_digits ds ≡ true → count_digits (ds ++ b']' ∷ rest) ≡ length ds
unfolding count_digits all_digits
count_digits-append [] rest h = refl
count_digits-append (d ∷ ds) rest h = ground (arith, count_digits-append ds rest)

pub past_digits-append :
    (ds rest : Bytes) → all_digits ds ≡ true → past_digits (ds ++ b']' ∷ rest) ≡ b']' ∷ rest
unfolding past_digits all_digits
past_digits-append [] rest h = refl
past_digits-append (d ∷ ds) rest h = ground (arith, past_digits-append ds rest)

pub parse_uint-decimal : (n : ℕ) → n < 2 ^ 64 → parse_uint (decimal n) ≡ some n
unfolding parse_uint
parse_uint-decimal n h =
    let (c, cs, e) = decimal_head n in
    let value : digits_value 0 (c ∷ cs) ≡ n = ap (digits_value 0) (sym e) ∙ decimal-value n in
    let all : all_digits (c ∷ cs) ≡ true = ap all_digits (sym e) ∙ decimal-all n in
    rw (e, all, value) (ground arith)
