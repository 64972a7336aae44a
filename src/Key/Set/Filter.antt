-- ===== src/Key/Set/Filter.antt =====
-- parser/key/set.go: `keyFilter`. The low byte of a key's filter is its kind, and the rest depends on
-- the text alone; so beside an equal text, equal filters are equal kinds.
use Prim.Native.Nat.{bit_or}
use go_yaml.Base.Bits.{bit_or-div_256, bit_or-low_byte}
use go_yaml.Base.{
  ℕ, ◌*◌, ◌/◌, ◌%◌, ◌^◌, ◌<◌, ◌≡◌, refl, arith, [], ◌∷◌, Bytes, length, ◌==◌, eq_of_iff,
}
use go_yaml.Key.Set.{edge_bytes, last, key_filter}

edge_low : (text : Bytes) → edge_bytes text % 256 ≡ 0
unfolding edge_bytes
edge_low [] = refl
edge_low (c ∷ cs) =
    ground (arith, bit_or-low_byte (c * 2 ^ 16 % 2 ^ 32) (last c cs * 2 ^ 24 % 2 ^ 32))

-- the length, as the filter holds it
abbrev length_byte : Bytes → ℕ
length_byte text = length text % 2 ^ 32 * 2 ^ 8 % 2 ^ 32

pub key_filter-kind : (text : Bytes) (kind : ℕ) → kind < 256 → key_filter text kind % 256 ≡ kind
unfolding key_filter
key_filter-kind text kind h = ground (
  arith,
  bit_or-low_byte (bit_or kind (length_byte text)) (edge_bytes text),
  bit_or-low_byte kind (length_byte text),
  edge_low text,
)

pub key_filter-name :
    (text : Bytes) (kind : ℕ) → kind < 256 → key_filter text kind / 256 ≡ key_filter text 0 / 256
unfolding key_filter
key_filter-name text kind h =
    let none_left : kind / 256 ≡ 0 = omega arith in
    let ek = bit_or-div_256 (bit_or kind (length_byte text)) (edge_bytes text) in
    let e0 = bit_or-div_256 (bit_or 0 (length_byte text)) (edge_bytes text) in
    rw (
      ek,
      e0,
      bit_or-div_256 kind (length_byte text),
      bit_or-div_256 0 (length_byte text),
      none_left,
    )

pub key_filter-eq :
    (text : Bytes) (j k : ℕ)
    → j < 256
    → k < 256
    → (key_filter text j == key_filter text k) ≡ (j == k)
key_filter-eq text j k p q =
    eq_of_iff (key_filter text j == key_filter text k) (j == k)
      (λ h. ground (arith, key_filter-kind text j, key_filter-kind text k)) (λ h. ground arith)
