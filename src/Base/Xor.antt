-- ===== src/Base/Xor.antt =====
-- Laws of `bit_xor` at variables, and the widths of what the three operations on digits return.
use go_yaml.Base.Bits.{double_pow, round, bit_or_step, bit_and_step, zero-bit_and}
use Prim.Native.Nat.{
  ℕ, zero, suc, ◌+◌, ◌*◌, ◌/◌, ◌%◌, ◌^◌, ◌<◌, differ, bit_and, bit_or, bit_xor, bit_xor-bitwise,
}
use mathlib.Core.Path.{◌≡◌, refl, ap, sym, ◌∙◌}
use native.Mathlib.Nat.{pow-suc}
use native.Mathlib.Omega.{arith}

zero-bit_xor : (b : ℕ) → bit_xor 0 b ≡ b
zero-bit_xor b = bit_xor-bitwise 0 b

step_xor :
    (a b : ℕ) → bit_xor (suc a) b ≡ bit_xor (suc a / 2) (b / 2) * 2 + differ (suc a % 2) (b % 2)
step_xor a b =
    bit_xor-bitwise (suc a) b
    ∙ round (λ c. c) differ a b
    ∙ ap (λ (t : ℕ). t * 2 + differ (suc a % 2) (b % 2)) (sym (bit_xor-bitwise (suc a / 2) (b / 2)))

pub bit_xor_step : (a b : ℕ) → bit_xor a b ≡ bit_xor (a / 2) (b / 2) * 2 + differ (a % 2) (b % 2)
bit_xor_step zero b = ground (arith, zero-bit_xor b, zero-bit_xor (b / 2))
bit_xor_step (suc a) b = step_xor a b

pub bit_xor-split :
    (k a b m n : ℕ)
    → b < 2 ^ k
    → n < 2 ^ k
    → bit_xor (a * 2 ^ k + b) (m * 2 ^ k + n) ≡ bit_xor a m * 2 ^ k + bit_xor b n
bit_xor-split zero a b m n h g =
    let ea : a * 2 ^ 0 + b ≡ a = omega arith in
    let em : m * 2 ^ 0 + n ≡ m = omega arith in
    let eb : b ≡ 0 = omega arith in
    let en : n ≡ 0 = omega arith in rw (ea, em, eb, en) (omega arith)
bit_xor-split (suc k) a b m n h g =
    let low : (a * 2 ^ suc k + b) % 2 ≡ b % 2 = omega (arith, double_pow a k) in
    let low_2 : (m * 2 ^ suc k + n) % 2 ≡ n % 2 = omega (arith, double_pow m k) in
    let half : (a * 2 ^ suc k + b) / 2 ≡ a * 2 ^ k + b / 2 = omega (arith, double_pow a k) in
    let half_2 : (m * 2 ^ suc k + n) / 2 ≡ m * 2 ^ k + n / 2 = omega (arith, double_pow m k) in
    bit_xor_step (a * 2 ^ suc k + b) (m * 2 ^ suc k + n)
    ∙ rw (low, low_2, half, half_2)
        (omega (
          arith,
          bit_xor_step b n,
          double_pow (bit_xor a m) k,
          pow-suc 2 k,
          bit_xor-split k a (b / 2) m (n / 2) (omega (arith, pow-suc 2 k))
              (omega (arith, pow-suc 2 k)),
        ))

differ-bound : (a b : ℕ) → a < 2 → b < 2 → differ a b < 2
differ-bound zero b h g = g
differ-bound (suc a) zero h g = h
differ-bound (suc a) (suc b) h g = differ-bound a b (omega arith) (omega arith)

-- Operands of k digits give a result of k digits.
pub bit_and-bound : (k a b : ℕ) → a < 2 ^ k → b < 2 ^ k → bit_and a b < 2 ^ k
bit_and-bound zero a b h g = let e : a ≡ 0 = omega arith in rw e (omega (arith, zero-bit_and b))
bit_and-bound (suc k) a b h g = ground (
  arith,
  bit_and_step a b,
  pow-suc 2 k,
  bit_and-bound k (a / 2) (b / 2) (omega (arith, pow-suc 2 k)) (omega (arith, pow-suc 2 k)),
)

pub bit_or-bound : (k a b : ℕ) → a < 2 ^ k → b < 2 ^ k → bit_or a b < 2 ^ k
bit_or-bound zero a b h g =
    let e : a ≡ 0 = omega arith in let f : b ≡ 0 = omega arith in rw (e, f) (omega arith)
bit_or-bound (suc k) a b h g = ground (
  arith,
  bit_or_step a b,
  pow-suc 2 k,
  bit_or-bound k (a / 2) (b / 2) (omega (arith, pow-suc 2 k)) (omega (arith, pow-suc 2 k)),
)

pub bit_xor-bound : (k a b : ℕ) → a < 2 ^ k → b < 2 ^ k → bit_xor a b < 2 ^ k
bit_xor-bound zero a b h g =
    let e : a ≡ 0 = omega arith in let f : b ≡ 0 = omega arith in rw (e, f) (omega arith)
bit_xor-bound (suc k) a b h g = ground (
  arith,
  bit_xor_step a b,
  differ-bound (a % 2) (b % 2) (omega arith) (omega arith),
  pow-suc 2 k,
  bit_xor-bound k (a / 2) (b / 2) (omega (arith, pow-suc 2 k)) (omega (arith, pow-suc 2 k)),
)

differ_self : (a : ℕ) → differ a a ≡ 0
differ_self zero = refl
differ_self (suc a) = differ_self a

differ-zero : (a b : ℕ) → differ a b ≡ 0 → a ≡ b
differ-zero zero b e = sym e
differ-zero (suc a) zero e = e
differ-zero (suc a) (suc b) e = ap suc (differ-zero a b e)

pub bit_xor_self : (k a : ℕ) → a < 2 ^ k → bit_xor a a ≡ 0
bit_xor_self zero a h = let e : a ≡ 0 = omega arith in rw e refl
bit_xor_self (suc k) a h = ground (
  arith,
  bit_xor_step a a,
  differ_self (a % 2),
  bit_xor_self k (a / 2) (omega (arith, pow-suc 2 k)),
)

-- Words that differ in no digit are the same.
pub bit_xor-zero : (k a b : ℕ) → a < 2 ^ k → b < 2 ^ k → bit_xor a b ≡ 0 → a ≡ b
bit_xor-zero zero a b h g e = omega arith
bit_xor-zero (suc k) a b h g e =
    let step = bit_xor_step a b in
    let low = differ-zero (a % 2) (b % 2) (omega arith) in
    let rest =
      bit_xor-zero k (a / 2) (b / 2) (omega (arith, pow-suc 2 k)) (omega (arith, pow-suc 2 k))
        (omega arith) in
    omega arith
