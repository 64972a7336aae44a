-- ===== src/Base/Decimal.antt =====
-- `strconv.FormatUint` and `strconv.ParseUint` in base 10: the digits of a number, and what they are worth.
use Prim.Native.Nat.{ℕ, zero, suc, ◌+◌, ◌-◌, ◌*◌, ◌/◌, ◌%◌, ◌<◌}
use mathlib.Core.Path.{◌≡◌, refl, ap, sym, ◌∙◌}
use mathlib.Core.Logic.{inl, inr}
use mathlib.Core.Bool.{Bool, true, ◌&&◌}
use mathlib.Core.List.{[], ◌∷◌, ◌++◌}
use native.Mathlib.Omega.{arith}
use go_yaml.Base.Tests.{ltb, if◌then◌else◌, Bool-cases}
use go_yaml.Base.Text.{Bytes, is_digit}

-- "%d" of an unsigned number, on fuel: each digit leaves a tenth of it.
unfoldable pub decimal_digits : ℕ → ℕ → Bytes
decimal_digits zero n = []
decimal_digits (suc fuel) n =
    let tens = decimal_digits fuel (n / 10) in
    (if ltb n 10 then [] else tens) ++ (b'0' + n % 10) ∷ []

unfoldable pub decimal : ℕ → Bytes
unfolding decimal_digits
decimal n = decimal_digits (suc n) n

unfoldable pub all_digits : Bytes → Bool
all_digits [] = true
all_digits (c ∷ cs) = is_digit c && all_digits cs

unfoldable pub digits_value : ℕ → Bytes → ℕ
digits_value v [] = v
digits_value v (c ∷ cs) = digits_value (v * 10 + (c - b'0')) cs

all_digits-append :
    (ds : Bytes) (d : ℕ)
    → all_digits ds ≡ true
    → is_digit d ≡ true
    → all_digits (ds ++ d ∷ []) ≡ true
unfolding all_digits
all_digits-append [] d h e = ground arith
all_digits-append (c ∷ cs) d h e = ground (arith, all_digits-append cs d)

digits_value-append :
    (v : ℕ) (ds : Bytes) (d : ℕ)
    → digits_value v (ds ++ d ∷ []) ≡ digits_value v ds * 10 + (d - b'0')
unfolding digits_value
digits_value-append v [] d = refl
digits_value-append v (c ∷ cs) d = digits_value-append (v * 10 + (c - b'0')) cs d

decimal_digits-all : (fuel n : ℕ) → all_digits (decimal_digits fuel n) ≡ true
unfolding decimal_digits all_digits
decimal_digits-all zero n = refl
decimal_digits-all (suc fuel) n = elim (Bool-cases (ltb n 10)) [
  | inl small ↦ rw small (ground arith)
  | inr large ↦ rw large (
      all_digits-append (decimal_digits fuel (n / 10)) (b'0' + n % 10)
        (decimal_digits-all fuel (n / 10)) (ground arith))
]

decimal_digits-value : (fuel n : ℕ) → n < fuel → digits_value 0 (decimal_digits fuel n) ≡ n
unfolding decimal_digits digits_value
decimal_digits-value zero n h = elim h [ ]
decimal_digits-value (suc fuel) n h = elim (Bool-cases (ltb n 10)) [
  | inl small ↦ rw small (ground arith)
  | inr large ↦ rw large (
      digits_value-append 0 (decimal_digits fuel (n / 10)) (b'0' + n % 10)
      ∙ rw (decimal_digits-value fuel (n / 10) (ground arith)) (omega arith))
]

append_head : (ds : Bytes) (d : ℕ) → (c : ℕ) × (cs : Bytes) × (ds ++ d ∷ [] ≡ c ∷ cs)
append_head [] d = (d, [], refl)
append_head (c ∷ cs) d = (c, cs ++ d ∷ [], refl)

pub decimal_head : (n : ℕ) → (c : ℕ) × (cs : Bytes) × (decimal n ≡ c ∷ cs)
unfolding decimal decimal_digits
decimal_head n = append_head (if ltb n 10 then [] else decimal_digits n (n / 10)) (b'0' + n % 10)

pub decimal-all : (n : ℕ) → all_digits (decimal n) ≡ true
unfolding decimal
decimal-all n = decimal_digits-all (suc n) n

pub decimal-value : (n : ℕ) → digits_value 0 (decimal n) ≡ n
unfolding decimal
decimal-value n = decimal_digits-value (suc n) n (omega arith)

pub decimal-injective : (m n : ℕ) → decimal m ≡ decimal n → m ≡ n
decimal-injective m n e = sym (decimal-value m) ∙ ap (digits_value 0) e ∙ decimal-value n
