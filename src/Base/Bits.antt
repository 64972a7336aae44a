-- ===== src/Base/Bits.antt =====
-- Laws of `bit_or` and `bit_and` at variables: the native operations compute at numerals only.
use Prim.Native.Nat.{
  ℕ, zero, suc, ◌+◌, ◌-◌, ◌*◌, ◌/◌, ◌%◌, ◌^◌, ◌≤◌, ◌<◌, min, max, bit_and, bit_or, digits,
  bit_and-bitwise, bit_or-bitwise,
}
use mathlib.Core.Path.{◌≡◌, refl, ap, sym, ◌∙◌}
use native.Mathlib.Nat.{pow-suc, one-le-pow}
use native.Mathlib.Omega.{arith}

pub double_pow : (a k : ℕ) → a * 2 ^ suc k ≡ 2 * (a * 2 ^ k)
double_pow a k = omega (arith, ap (λ (t : ℕ). a * t) (pow-suc 2 k))

pub suc_add : (n m : ℕ) → suc n + m ≡ suc (n + m)
suc_add n m = omega arith

used_up : (rest : ℕ → ℕ) (op : ℕ → ℕ → ℕ) (n b : ℕ) → digits rest op n 0 b ≡ rest b
used_up rest op zero b = refl
used_up rest op (suc n) b = refl

-- Both operations read one binary digit a round: `rest` is what the other word leaves once the first
-- is used up, `op` joins two digits. Rounds past the first word's length change nothing.
rounds_enough :
    (rest : ℕ → ℕ) (op : ℕ → ℕ → ℕ) (n extra a b : ℕ)
    → a ≤ n
    → digits rest op (n + extra) a b ≡ digits rest op n a b
rounds_enough rest op zero extra zero b h = used_up rest op (0 + extra) b
rounds_enough rest op zero extra (suc a) b h = absurd (omega arith)
rounds_enough rest op (suc n) extra zero b h = rw (suc_add n extra) refl
rounds_enough rest op (suc n) extra (suc a) b h =
    let shorter = rounds_enough rest op n extra (suc a / 2) (b / 2) (omega arith) in
    rw (suc_add n extra) (ap (λ (t : ℕ). t * 2 + op (suc a % 2) (b % 2)) shorter)

pub zero-bit_or : (b : ℕ) → bit_or 0 b ≡ b
zero-bit_or b = bit_or-bitwise 0 b

pub zero-bit_and : (b : ℕ) → bit_and 0 b ≡ 0
zero-bit_and b = bit_and-bitwise 0 b

half_suc : (a : ℕ) → suc a / 2 + (a - suc a / 2) ≡ a
half_suc a = omega arith

-- The round for a word that is not used up, of any such operation.
pub round :
    (rest : ℕ → ℕ) (op : ℕ → ℕ → ℕ) (a b : ℕ)
    → digits rest op (suc a) (suc a) b
      ≡ digits rest op (suc a / 2) (suc a / 2) (b / 2) * 2 + op (suc a % 2) (b % 2)
round rest op a b =
    ap (λ (t : ℕ). t * 2 + op (suc a % 2) (b % 2))
      (sym (ap (λ (n : ℕ). digits rest op n (suc a / 2) (b / 2)) (half_suc a))
        ∙ rounds_enough rest op (suc a / 2) (a - suc a / 2) (suc a / 2) (b / 2) (omega arith))

step_or : (a b : ℕ) → bit_or (suc a) b ≡ bit_or (suc a / 2) (b / 2) * 2 + max (suc a % 2) (b % 2)
step_or a b =
    bit_or-bitwise (suc a) b
    ∙ round (λ c. c) max a b
    ∙ ap (λ (t : ℕ). t * 2 + max (suc a % 2) (b % 2)) (sym (bit_or-bitwise (suc a / 2) (b / 2)))

pub bit_or_step : (a b : ℕ) → bit_or a b ≡ max (a % 2) (b % 2) + bit_or (a / 2) (b / 2) * 2
bit_or_step zero b = ground (arith, zero-bit_or b, zero-bit_or (b / 2))
bit_or_step (suc a) b = omega (arith, step_or a b)

pub bit_and_step : (a b : ℕ) → bit_and a b ≡ bit_and (a / 2) (b / 2) * 2 + min (a % 2) (b % 2)
bit_and_step zero b = ground (arith, zero-bit_and b, zero-bit_and (b / 2))
bit_and_step (suc a) b =
    bit_and-bitwise (suc a) b
    ∙ round (λ c. 0) min a b
    ∙ ap (λ (t : ℕ). t * 2 + min (suc a % 2) (b % 2)) (sym (bit_and-bitwise (suc a / 2) (b / 2)))

bit_and-zero_below : (n a : ℕ) → a < n → bit_and a 0 ≡ 0
bit_and-zero_below zero a h = absurd (omega arith)
bit_and-zero_below (suc n) zero h = refl
bit_and-zero_below (suc n) (suc a) h =
    ground (arith, bit_and_step (suc a) 0, bit_and-zero_below n (suc a / 2))

pub bit_and-zero : (a : ℕ) → bit_and a 0 ≡ 0
bit_and-zero a = bit_and-zero_below (suc a) a (omega arith)

bit_or-zero_below : (n a : ℕ) → a < n → bit_or a 0 ≡ a
bit_or-zero_below zero a h = absurd (omega arith)
bit_or-zero_below (suc n) zero h = refl
bit_or-zero_below (suc n) (suc a) h =
    ground (arith, bit_or_step (suc a) 0, bit_or-zero_below n (suc a / 2))

pub bit_or-zero : (a : ℕ) → bit_or a 0 ≡ a
bit_or-zero a = bit_or-zero_below (suc a) a (omega arith)

-- One binary digit at a time, as a quotient and a remainder.
or_halves :
    (a b : ℕ) → (bit_or a b / 2 ≡ bit_or (a / 2) (b / 2)) × (bit_or a b % 2 ≡ max (a % 2) (b % 2))
or_halves a b = omega (arith, bit_or_step a b)

or_div_four : (a b : ℕ) → bit_or a b / 4 ≡ bit_or (a / 4) (b / 4)
or_div_four a b = ground (arith, (or_halves a b).0, (or_halves (a / 2) (b / 2)).0)

or_div_sixteen : (a b : ℕ) → bit_or a b / 16 ≡ bit_or (a / 16) (b / 16)
or_div_sixteen a b = ground (arith, or_div_four a b, or_div_four (a / 4) (b / 4))

-- `(a | b) >> 8` is `a >> 8 | b >> 8`.
pub bit_or-div_256 : (a b : ℕ) → bit_or a b / 256 ≡ bit_or (a / 256) (b / 256)
bit_or-div_256 a b = ground (arith, or_div_sixteen a b, or_div_sixteen (a / 16) (b / 16))

-- Where the two words share no digit, `bit_or` adds.
pub bit_or-disjoint : (k a b : ℕ) → b < 2 ^ k → bit_or (a * 2 ^ k) b ≡ a * 2 ^ k + b
bit_or-disjoint zero a b h = ground (arith, bit_or-zero (a * 2 ^ 0))
bit_or-disjoint (suc k) a b h = ground (
  arith,
  bit_or_step (a * 2 ^ suc k) b,
  double_pow a k,
  pow-suc 2 k,
  bit_or-disjoint k a (b / 2) (omega (arith, pow-suc 2 k)),
)

pub bit_and-mask_sum : (k a b : ℕ) → b < 2 ^ k → bit_and (a * 2 ^ k + b) (2 ^ k - 1) ≡ b
bit_and-mask_sum zero a b h = ground (arith, bit_and-zero (a * 2 ^ 0 + b))
bit_and-mask_sum (suc k) a b h = ground (
  arith,
  bit_and_step (a * 2 ^ suc k + b) (2 ^ suc k - 1),
  double_pow a k,
  pow-suc 2 k,
  one-le-pow k 2 (omega arith),
  bit_and-mask_sum k a (b / 2) (omega (arith, pow-suc 2 k)),
)

-- A mask of k ones keeps the low k digits.
pub bit_and-mask : (k a : ℕ) → bit_and a (2 ^ k - 1) ≡ a % 2 ^ k
bit_and-mask k a = ground (arith, one-le-pow k 2, bit_and-mask_sum k (a / 2 ^ k) (a % 2 ^ k))

bit_or_comm_fuel : (n a b : ℕ) → a + b ≤ n → bit_or a b ≡ bit_or b a
bit_or_comm_fuel zero a b h = ground (arith, bit_or-zero 0)
bit_or_comm_fuel (suc n) zero b h = ground (arith, zero-bit_or b, bit_or-zero b)
bit_or_comm_fuel (suc n) (suc a) b h = ground (
  arith,
  bit_or_step (suc a) b,
  bit_or_step b (suc a),
  bit_or_comm_fuel n (suc a / 2) (b / 2) (omega arith),
)

pub bit_or_comm : (a b : ℕ) → bit_or a b ≡ bit_or b a
bit_or_comm a b = bit_or_comm_fuel (a + b) a b (omega arith)

-- A mask whose low k digits are zero looks at the digits from the k-th on.
pub bit_and-shifted :
    (k a b m : ℕ) → b < 2 ^ k → bit_and (a * 2 ^ k + b) (m * 2 ^ k) ≡ bit_and a m * 2 ^ k
bit_and-shifted zero a b m h =
    let ea : a * 2 ^ 0 + b ≡ a = omega arith in
    let em : m * 2 ^ 0 ≡ m = omega arith in rw (ea, em) (omega arith)
bit_and-shifted (suc k) a b m h = ground (
  arith,
  bit_and_step (a * 2 ^ suc k + b) (m * 2 ^ suc k),
  double_pow a k,
  double_pow m k,
  double_pow (bit_and a m) k,
  pow-suc 2 k,
  bit_and-shifted k a (b / 2) m (omega (arith, pow-suc 2 k)),
)

or_low_one : (a b : ℕ) → b % 2 ≡ 0 → bit_or a b % 2 ≡ a % 2
or_low_one a b h = ground (arith, (or_halves a b).1)

or_low_two : (a b : ℕ) → b % 4 ≡ 0 → bit_or a b % 4 ≡ a % 4
or_low_two a b h = ground (arith, or_low_one a b, or_low_one (a / 2) (b / 2), (or_halves a b).0)

or_low_four : (a b : ℕ) → b % 16 ≡ 0 → bit_or a b % 16 ≡ a % 16
or_low_four a b h = ground (arith, or_low_two a b, or_low_two (a / 4) (b / 4), or_div_four a b)

-- What stands above the low byte leaves the low byte alone.
pub bit_or-low_byte : (a b : ℕ) → b % 256 ≡ 0 → bit_or a b % 256 ≡ a % 256
bit_or-low_byte a b h =
    ground (arith, or_low_four a b, or_low_four (a / 16) (b / 16), or_div_sixteen a b)

-- Two words split at the same digit are read part by part.
pub bit_and-split :
    (k a b m n : ℕ)
    → b < 2 ^ k
    → n < 2 ^ k
    → bit_and (a * 2 ^ k + b) (m * 2 ^ k + n) ≡ bit_and a m * 2 ^ k + bit_and b n
bit_and-split zero a b m n h g =
    let ea : a * 2 ^ 0 + b ≡ a = omega arith in
    let em : m * 2 ^ 0 + n ≡ m = omega arith in
    let eb : b ≡ 0 = omega arith in rw (ea, em, eb) (omega (arith, zero-bit_and n))
bit_and-split (suc k) a b m n h g = ground (
  arith,
  bit_and_step (a * 2 ^ suc k + b) (m * 2 ^ suc k + n),
  bit_and_step b n,
  double_pow a k,
  double_pow m k,
  double_pow (bit_and a m) k,
  pow-suc 2 k,
  bit_and-split k a (b / 2) m (n / 2) (omega (arith, pow-suc 2 k)) (omega (arith, pow-suc 2 k)),
)

pub bit_or-split :
    (k a b m n : ℕ)
    → b < 2 ^ k
    → n < 2 ^ k
    → bit_or (a * 2 ^ k + b) (m * 2 ^ k + n) ≡ bit_or a m * 2 ^ k + bit_or b n
bit_or-split zero a b m n h g =
    let ea : a * 2 ^ 0 + b ≡ a = omega arith in
    let em : m * 2 ^ 0 + n ≡ m = omega arith in
    let eb : b ≡ 0 = omega arith in rw (ea, em, eb) (omega (arith, zero-bit_or n))
bit_or-split (suc k) a b m n h g = ground (
  arith,
  bit_or_step (a * 2 ^ suc k + b) (m * 2 ^ suc k + n),
  bit_or_step b n,
  double_pow a k,
  double_pow m k,
  double_pow (bit_or a m) k,
  pow-suc 2 k,
  bit_or-split k a (b / 2) m (n / 2) (omega (arith, pow-suc 2 k)) (omega (arith, pow-suc 2 k)),
)
