-- ===== src/Token/Number/Legacy.antt =====
-- token/token.go: `shapeOfNumber11` and `shapeOfSexagesimal`, the numbers of YAML 1.1.
use go_yaml.Token.Number.Digits.{
  NumberType, NumberType.decimal, NumberShape, in_base, count_digits, past_digits, count_digits11,
  past_digits11, unseparate, is_empty, split_sign,
}
use go_yaml.Base.{
  ℕ, zero, suc, ◌+◌, Bool, false, not, ◌&&◌, ◌||◌, Option, none, some, [], ◌∷◌, ltb, ◌==◌,
  if◌then◌else◌, length, get_or, drop, Bytes, contains_byte,
}

-- the base that "0b" or "0x" gives, where a character stands behind it
unfoldable pub prefix11 : Bytes → Option (ℕ × NumberType)
prefix11 (z ∷ p ∷ d ∷ ds) =
    if z == b'0' && p == b'b'
    then some (2, NumberType.binary)
    else if z == b'0' && p == b'x'
    then some (16, NumberType.hex)
    else none
prefix11 _ = none

-- `len(body) > 1 && body[0] == '0' && !strings.ContainsAny(body, ".eE")`
unfoldable pub opens_octal : Bytes → Bool
unfolding contains_byte
opens_octal (z ∷ d ∷ ds) =
    let body = z ∷ d ∷ ds in
    z == b'0' && not (contains_byte b'.' body || contains_byte b'e' body || contains_byte b'E' body)
opens_octal _ = false

unfoldable pub unseparated : NumberType → ℕ → Bool → Bytes → NumberShape
unfolding unseparate
unseparated typ base negative body = record {
  typ = typ;
  base = base;
  digits = unseparate body;
  negative = negative;
}

-- digits in a base once their separators are gone
unfoldable pub based11 : NumberType → ℕ → Bool → Bytes → Option NumberShape
unfolding unseparated in_base
based11 typ base negative body =
    if in_base (unseparate body) base then some (unseparated typ base negative body) else none

abbrev pub sexagesimal_base : ℕ
sexagesimal_base = 60

-- One group behind its ":": one or two digits, none past 59.
unfoldable pub group_fits : Bytes → Bool
unfolding count_digits
group_fits cs =
    let n = count_digits cs in not (ltb n 1 || ltb 2 n) && not (ltb b'5' (get_or cs 0 0) && n == 2)

-- The loop over the groups, on fuel: how many there were, and what stands behind them.
unfoldable pub groups : ℕ → Bytes → ℕ → Option (ℕ × Bytes)
unfolding group_fits past_digits
groups zero s n = none
groups (suc fuel) [] n = some (n, [])
groups (suc fuel) (c ∷ cs) n =
    let rest = groups fuel (past_digits cs) (n + 1) in
    if c == b':' then (if group_fits cs then rest else none) else some (n, c ∷ cs)

-- Each round takes a ":", so one more than the text's length is enough.
unfoldable pub all_groups : Bytes → Option (ℕ × Bytes)
unfolding groups
all_groups s = groups (suc (length s)) s 0

-- the fraction that may close the text
unfoldable pub sexagesimal_type : Bytes → Option NumberType
unfolding past_digits11 is_empty
sexagesimal_type [] = some decimal
sexagesimal_type (c ∷ cs) =
    if c == b'.' && is_empty (past_digits11 cs) then some NumberType.float else none

unfoldable pub sexagesimal_form : Bytes → Option NumberType
unfolding sexagesimal_type all_groups count_digits11 past_digits11
sexagesimal_form body =
    if count_digits11 body == 0 || get_or body 0 0 == b'_'
    then none
    else elim (all_groups (past_digits11 body)) [
      | none ↦ none
      | some (n, rest) ↦ if n == 0 then none else sexagesimal_type rest
    ]

-- behind the "e", which YAML 1.1 wants a sign on
unfoldable pub exponent11_ends : Bytes → Bool
unfolding count_digits past_digits is_empty
exponent11_ends [] = false
exponent11_ends (s ∷ ds) =
    (s == b'+' || s == b'-') && not (count_digits ds == 0) && is_empty (past_digits ds)

unfoldable pub after_fraction11 : Bytes → Option NumberType
unfolding exponent11_ends
after_fraction11 [] = some NumberType.float
after_fraction11 (c ∷ cs) =
    if (c == b'e' || c == b'E') && exponent11_ends cs then some NumberType.float else none

unfoldable pub after_whole11 : ℕ → Bytes → Option NumberType
unfolding after_fraction11 count_digits11 past_digits11
after_whole11 whole [] = if whole == 0 then none else some decimal
after_whole11 whole (c ∷ cs) =
    if not (c == b'.')
    then none
    else if whole == 0 && count_digits11 cs == 0
    then none
    else after_fraction11 (past_digits11 cs)

unfoldable pub decimal_form11 : Bytes → Option NumberType
unfolding after_whole11 count_digits11 past_digits11
decimal_form11 body = after_whole11 (count_digits11 body) (past_digits11 body)

unfoldable pub shaped11 : ℕ → Bool → Bytes → Option NumberType → Option NumberShape
unfolding unseparated
shaped11 base negative body none = none
shaped11 base negative body (some typ) = some (unseparated typ base negative body)

-- what no base prefix opens
unfoldable pub plain11 : Bool → Bytes → Option NumberShape
unfolding opens_octal based11 shaped11 sexagesimal_form decimal_form11 contains_byte
plain11 negative body =
    if opens_octal body
    then based11 NumberType.octet 8 negative body
    else if contains_byte b':' body
    then shaped11 sexagesimal_base negative body (sexagesimal_form body)
    else shaped11 10 negative body (decimal_form11 body)

unfoldable pub shape11_body : Bool → Bytes → Option NumberShape
unfolding prefix11 based11 plain11
shape11_body negative [] = none
shape11_body negative (c ∷ cs) = elim (prefix11 (c ∷ cs)) [
  | some (base, typ) ↦ based11 typ base negative (drop 2 (c ∷ cs))
  | none ↦ plain11 negative (c ∷ cs)
]

unfoldable pub shape11 : Bytes → Option NumberShape
unfolding split_sign shape11_body
shape11 value = let (negative, body) = split_sign value in shape11_body negative body
