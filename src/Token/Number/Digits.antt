-- ===== src/Token/Number/Digits.antt =====
-- token/token.go: `inBase`, `digitValue`, `countDigits`, `countDigits11`, `unseparate`. A cursor into
-- the text is the rest of the text: where the code counts to the index behind a run of digits,
-- `count_…` is the run's length and `past_…` the text from that index on.
use go_yaml.Base.{
  ℕ, suc, ◌+◌, ◌-◌, Bool, true, false, ◌&&◌, ◌||◌, [], ◌∷◌, ltb, within, ◌==◌, if◌then◌else◌, Bytes,
  is_digit,
}

-- `NumberType`
pub data NumberType : Type 0 where
  decimal binary octet hex float : NumberType

pub record NumberShape : Type 0 where
  pub typ : NumberType
  pub base : ℕ
  pub digits : Bytes
  pub negative : Bool

unfoldable pub digit_value : ℕ → ℕ
digit_value c =
    if is_digit c
    then c - b'0'
    else if within b'a' b'f' c
    then c - b'a' + 10
    else if within b'A' b'F' c
    then c - b'A' + 10
    else 16

-- the loop of `inBase`
unfoldable pub all_in_base : Bytes → ℕ → Bool
unfolding digit_value
all_in_base [] base = true
all_in_base (c ∷ cs) base = ltb (digit_value c) base && all_in_base cs base

unfoldable pub in_base : Bytes → ℕ → Bool
unfolding all_in_base
in_base [] base = false
in_base (c ∷ cs) base = all_in_base (c ∷ cs) base

unfoldable pub count_digits : Bytes → ℕ
count_digits [] = 0
count_digits (c ∷ cs) = if is_digit c then suc (count_digits cs) else 0

unfoldable pub past_digits : Bytes → Bytes
past_digits [] = []
past_digits (c ∷ cs) = if is_digit c then past_digits cs else c ∷ cs

-- the count leaves the separators out
unfoldable pub count_digits11 : Bytes → ℕ
count_digits11 [] = 0
count_digits11 (c ∷ cs) =
    let more = count_digits11 cs in if is_digit c then suc more else if c == b'_' then more else 0

unfoldable pub past_digits11 : Bytes → Bytes
past_digits11 [] = []
past_digits11 (c ∷ cs) =
    let more = past_digits11 cs in if is_digit c then more else if c == b'_' then more else c ∷ cs

-- `strings.ReplaceAll(s, "_", "")`, which is `s` where it holds no "_"
unfoldable pub unseparate : Bytes → Bytes
unseparate [] = []
unseparate (c ∷ cs) = if c == b'_' then unseparate cs else c ∷ unseparate cs

unfoldable pub is_empty : Bytes → Bool
is_empty [] = true
is_empty (c ∷ cs) = false

-- the switch on `body[0]`: whether the number is negative, and what stands behind its sign
unfoldable pub split_sign : Bytes → Bool × Bytes
split_sign [] = (false, [])
split_sign (c ∷ cs) =
    if c == b'-' then (true, cs) else if c == b'+' then (false, cs) else (false, c ∷ cs)

unfoldable pub may_be_number : Bytes → Bool
may_be_number [] = false
may_be_number (c ∷ cs) = c == b'+' || c == b'-' || c == b'.' || is_digit c

-- the loop of `isSexagesimal`
unfoldable pub all_sexagesimal : Bytes → Bool
all_sexagesimal [] = true
all_sexagesimal (c ∷ cs) = (is_digit c || c == b':' || c == b'_' || c == b'.') && all_sexagesimal cs
