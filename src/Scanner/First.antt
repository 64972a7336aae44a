-- ===== src/Scanner/First.antt =====
-- The lowest lane that a mask of internal/scanner/swar/swar.go flags, as its callers read it.
use go_yaml.Scanner.Swar.{pack, trailing_zeros, first_byte}
use go_yaml.Scanner.Masks.{flag}
use go_yaml.Base.Bits.{bit_or-split, double_pow, suc_add}
use go_yaml.Base.{
  ℕ, zero, suc, ◌+◌, ◌-◌, ◌*◌, ◌/◌, ◌%◌, ◌^◌, ◌≤◌, ◌<◌, Bool, true, false, ◌||◌, Option, none, some,
  [], ◌∷◌, map, ◌==◌, if◌then◌else◌, length, Bytes, ◌≡◌, refl, ap, sym, ◌∙◌, arith, Bool-cases, inl,
  inr,
}
use Prim.Native.Nat.{bit_or}

unfoldable pub next : Option ℕ → Option ℕ
next none = none
next (some i) = some (suc i)

-- where a list has its first byte of a kind
unfoldable pub first_index : (ℕ → Bool) → Bytes → Option ℕ
unfolding next
first_index test [] = none
first_index test (b ∷ bs) = if test b then some 0 else next (first_index test bs)

-- A mask tested against zero, and then asked for its first byte.
unfoldable pub found : ℕ → Option ℕ
unfolding first_byte
found m = if m == 0 then none else some (first_byte m)

-- The lowest lane of the mask is that of the first byte that passes the test; what stands above is free.
pub data IsFirst (test : ℕ → Bool) : Bytes → ℕ → Type 0 where
  ends : IsFirst test [] 0
  hits : {b : ℕ} {bs : Bytes} (m : ℕ) → test b ≡ true → IsFirst test (b ∷ bs) (m * 256 + 128)
  misses :
      {b : ℕ} {bs : Bytes} {m : ℕ}
      → test b ≡ false
      → IsFirst test bs m
      → IsFirst test (b ∷ bs) (m * 256 + 0)

pub flags-IsFirst :
    (test : ℕ → Bool) (bs : Bytes) → IsFirst test bs (pack (map (λ b. flag (test b)) bs))
unfolding pack flag
flags-IsFirst test [] = ends
flags-IsFirst test (b ∷ bs) = elim (Bool-cases (test b)) [
  | inl y ↦ rw y (hits _ y)
  | inr n ↦ rw n (misses n (flags-IsFirst test bs))
]

either_true : (a b : Bool) → b ≡ true → (a || b) ≡ true
either_true true b h = refl
either_true false b h = h

-- Two masks joined flag first what either flags first.
pub or-IsFirst :
    {test other : ℕ → Bool} {bs : Bytes} {m n : ℕ}
    → IsFirst test bs m
    → IsFirst other bs n
    → IsFirst (λ b. test b || other b) bs (bit_or m n)
or-IsFirst ends ends = ends
or-IsFirst (hits m y) (hits n z) =
    rw (bit_or-split 8 m 128 n 128 (omega arith) (omega arith)) (hits (bit_or m n) (rw y refl))
or-IsFirst (hits m y) (misses {m = n} z q) =
    rw (bit_or-split 8 m 128 n 0 (omega arith) (omega arith)) (hits (bit_or m n) (rw y refl))
or-IsFirst {test = test} (misses {b = b} {m = m} y p) (hits n z) =
    rw (bit_or-split 8 m 0 n 128 (omega arith) (omega arith))
      (hits (bit_or m n) (either_true (test b) _ z))
or-IsFirst (misses {m = m} y p) (misses {m = n} z q) =
    rw (bit_or-split 8 m 0 n 0 (omega arith) (omega arith))
      (misses (rw (y, z) refl) (or-IsFirst p q))

zeros_even : (n w : ℕ) → trailing_zeros (suc n) (w * 2) ≡ suc (trailing_zeros n w)
unfolding trailing_zeros
zeros_even n w =
    let half : w * 2 / 2 ≡ w = omega arith in
    let even : (w * 2 % 2 == 1) ≡ false = ground arith in rw (even, half) refl

zeros_odd : (n w : ℕ) → trailing_zeros (suc n) (w * 2 + 1) ≡ 0
unfolding trailing_zeros
zeros_odd n w = let odd : ((w * 2 + 1) % 2 == 1) ≡ true = ground arith in rw odd refl

zeros_shift : (k n w : ℕ) → trailing_zeros (k + n) (w * 2 ^ k) ≡ k + trailing_zeros n w
zeros_shift zero n w =
    let e : w * 2 ^ 0 ≡ w = omega arith in
    let f : 0 + n ≡ n = omega arith in rw (e, f) (omega arith)
zeros_shift (suc k) n w =
    let e : w * 2 ^ suc k ≡ w * 2 ^ k * 2 = omega (arith, double_pow w k) in
    rw (e, suc_add k n)
      (zeros_even (k + n) (w * 2 ^ k) ∙ ap suc (zeros_shift k n w) ∙ sym (suc_add k _))

zeros_lane : (n m : ℕ) → trailing_zeros (8 + n) (m * 256 + 0) ≡ 8 + trailing_zeros n m
zeros_lane n m = let e : m * 256 + 0 ≡ m * 2 ^ 8 = omega arith in rw e (zeros_shift 8 n m)

zeros_flag : (n m : ℕ) → trailing_zeros (8 + n) (m * 256 + 128) ≡ 7
zeros_flag n m =
    let e : m * 256 + 128 ≡ (m * 2 + 1) * 2 ^ 7 = omega arith in
    let f : 8 + n ≡ 7 + suc n = omega arith in
    rw (e, f) (zeros_shift 7 (suc n) (m * 2 + 1) ∙ ap (λ t. 7 + t) (zeros_odd n m))

-- what the mask must be for the index: zero for none
Points : ℕ → ℕ → Option ℕ → Type 0
Points n m none = m ≡ 0
Points n m (some i) = (0 < m) × (trailing_zeros n m ≡ 8 * i + 7)

next-Points : (n m : ℕ) (r : Option ℕ) → Points n m r → Points (8 + n) (m * 256 + 0) (next r)
unfolding Points next
next-Points n m none e = omega (arith, e)
next-Points n m (some i) (positive, e) = (omega arith, omega (arith, zeros_lane n m))

IsFirst-Points :
    {test : ℕ → Bool} {bs : Bytes} {m : ℕ} (n : ℕ)
    → 8 * length bs ≤ n
    → IsFirst test bs m
    → Points n m (first_index test bs)
unfolding Points first_index next
IsFirst-Points n h ends = refl
IsFirst-Points n h (hits m y) =
    let e : n ≡ 8 + (n - 8) = omega arith in rw (y, e) (omega arith, zeros_flag (n - 8) m)
IsFirst-Points n h (misses {bs = bs} {m = m} y p) =
    let e : n ≡ 8 + (n - 8) = omega arith in
    let rest = next-Points (n - 8) m _ (IsFirst-Points (n - 8) (omega arith) p) in rw (y, e) rest

not_zero : (m : ℕ) → 0 < m → (m == 0) ≡ false
not_zero m h = ground (arith, h)

found-Points : (m : ℕ) (r : Option ℕ) → Points 64 m r → found m ≡ r
unfolding Points found
found-Points m none e = rw e refl
found-Points m (some i) (positive, e) =
    let some_lane : (m == 0) ≡ false = not_zero m positive in
    let byte : (8 * i + 7) / 2 ^ 3 ≡ i = omega arith in rw (some_lane, e, byte) refl

-- The mask answers where the first byte of the kind is.
pub found-IsFirst :
    {test : ℕ → Bool} {bs : Bytes} {m : ℕ}
    → length bs ≤ 8
    → IsFirst test bs m
    → found m ≡ first_index test bs
found-IsFirst {test} {bs} {m} short p =
    found-Points m (first_index test bs) (IsFirst-Points 64 (omega arith) p)
