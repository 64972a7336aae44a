-- ===== src/Scanner/Stops.antt =====
-- The masks of internal/scanner/swar/swar.go that borrow from lane to lane: what ends a run inside a
-- quoted scalar.
use go_yaml.Scanner.Swar.{
  pack, minus, and_not, lo, high, equal_stop, control_stop, double_quote_stop_mask,
  single_quote_stop_mask,
}
use go_yaml.Scanner.Lanes.{
  are_bytes, bytes-IsLanes, constant-IsLanes, xor-IsLanes, complement-IsLanes, map-are_bytes,
  word_bound,
}
use go_yaml.Scanner.Masks.{check_below, check_below_lem, equal_of}
use go_yaml.Scanner.First.{
  first_index, found, IsFirst, ends, hits, misses, or-IsFirst, found-IsFirst,
}
use go_yaml.Base.Bits.{bit_and-split, bit_and-zero}
use go_yaml.Base.Xor.{bit_and-bound}
use go_yaml.Base.{
  ℕ, suc, ◌+◌, ◌-◌, ◌*◌, ◌/◌, ◌%◌, ◌^◌, ◌≤◌, ◌<◌, Bool, true, false, not, ◌||◌, [], ◌∷◌, map, ltb,
  ◌==◌, length-map, if◌then◌else◌, length, Bytes, ◌≡◌, refl, ap, sym, ◌∙◌, arith, Bool-cases, inl,
  inr,
}
use native.Mathlib.Nat.{pow-suc}
use Prim.Native.Nat.{bit_and, bit_xor}

-- One lane of a term with difference d, for the byte x it was taken from.
lane_stop : ℕ → ℕ → ℕ
lane_stop d x = bit_and (bit_and d (255 - x)) 128

-- A term on as many lanes as there are bytes, with the difference given.
term : ℕ → Bytes → ℕ
unfolding pack
term d xs = bit_and (bit_and d (pack (map (λ x. 255 - x) xs))) (pack (map (λ x. 128) xs))

-- the lane is flagged exactly where the byte is under c
unfoldable pub lane_right : ℕ → ℕ → Bool
unfolding lane_stop
lane_right c x = if ltb x c then lane_stop (x + 256 - c) x == 128 else lane_stop (x - c) x == 0

abbrev pub ApartRight : ℕ → Type 0
ApartRight c = (x : ℕ) → x < 256 → lane_right c x ≡ true

if_true : (a b c : Bool) → a ≡ true → (if a then b else c) ≡ true → b ≡ true
if_true a b c y h = sym (rw y refl) ∙ h

if_false : (a b c : Bool) → a ≡ false → (if a then b else c) ≡ true → c ≡ true
if_false a b c n h = sym (rw n refl) ∙ h

lane_clear : (c x : ℕ) → lane_right c x ≡ true → ltb x c ≡ false → lane_stop (x - c) x ≡ 0
unfolding lane_right
lane_clear c x h n = equal_of _ 0 (if_false (ltb x c) _ _ n h)

lane_set : (c x : ℕ) → lane_right c x ≡ true → ltb x c ≡ true → lane_stop (x + 256 - c) x ≡ 128
unfolding lane_right
lane_set c x h y = equal_of _ 128 (if_true (ltb x c) _ _ y h)

term_cons :
    (d low x : ℕ) (xs : Bytes)
    → low < 256
    → x < 256
    → term (d * 256 + low) (x ∷ xs) ≡ term d xs * 256 + lane_stop low x
unfolding term pack lane_stop
term_cons d low x xs h g =
    let rest = pack (map (λ x. 255 - x) xs) in
    ap (λ t. bit_and t (pack (map (λ x. 128) (x ∷ xs))))
      (bit_and-split 8 d low rest (255 - x) (omega arith) (omega arith))
    ∙ bit_and-split 8 (bit_and d rest) (bit_and low (255 - x)) (pack (map (λ x. 128) xs)) 128
        (bit_and-bound 8 low (255 - x) (omega arith) (omega arith)) (omega arith)

term_split :
    (d x : ℕ) (xs : Bytes) {low : ℕ} {lane : ℕ}
    → d % 256 ≡ low
    → x < 256
    → lane_stop low x ≡ lane
    → term d (x ∷ xs) ≡ term (d / 256) xs * 256 + lane
term_split d x xs e h f =
    let whole : d ≡ d / 256 * 256 + d % 256 = omega arith in
    ap (λ t. term t (x ∷ xs)) whole
    ∙ term_cons (d / 256) (d % 256) x xs (omega arith) h
    ∙ rw (e, f) refl

-- The difference of the words, up to a borrow at the top: the lowest lane flagged is that of the first
-- byte under c.
term-IsFirst :
    (c : ℕ) (xs : Bytes) (d e : ℕ)
    → c ≤ 255
    → ApartRight c
    → are_bytes xs ≡ true
    → d + pack (map (λ x. c) xs) ≡ pack xs + e * 256 ^ length xs
    → IsFirst (λ x. ltb x c) xs (term d xs)
unfolding are_bytes pack term
term-IsFirst c [] d e low right h sum = rw (bit_and-zero (bit_and d 0)) ends
term-IsFirst c (x ∷ xs) d e low right h sum =
    let small : x < 256 = ground (arith, h) in
    let top : e * 256 ^ suc (length xs) ≡ e * 256 ^ length xs * 256 =
      omega (arith, ap (λ t. e * t) (pow-suc 256 (length xs))) in
    elim (Bool-cases (ltb x c)) [
      | inl y ↦
          let below : x < c = ground (arith, y) in
          let digit : d % 256 ≡ x + 256 - c = omega arith in
          rw (term_split d x xs digit small (lane_set c x (right x small) y))
            (hits (term (d / 256) xs) y)
      | inr n ↦
          let above : c ≤ x = ground (arith, n) in
          let digit : d % 256 ≡ x - c = omega arith in
          rw (term_split d x xs digit small (lane_clear c x (right x small) n))
            (misses n (term-IsFirst c xs (d / 256) e low right (ground (arith, h)) (omega arith)))
    ]

minus_borrow :
    (a b : ℕ)
    → a < 18446744073709551616
    → b < 18446744073709551616
    → (e : ℕ) × (minus a b + b ≡ a + e * 18446744073709551616)
minus_borrow a b h g = elim (Bool-cases (ltb a b)) [
  | inl y ↦ (1, let below : a < b = ground (arith, y) in omega arith)
  | inr n ↦ (0, let above : b ≤ a = ground (arith, n) in omega arith)
]

whole_sum :
    (d w e : ℕ) {l p n : ℕ}
    → l ≡ p
    → n ≡ 8
    → d + l ≡ w + e * 18446744073709551616
    → d + p ≡ w + e * 256 ^ n
whole_sum d w e same eight sum = rw (sym same, eight) sum

-- A term of a stop mask on a word.
pub word_stop :
    (c : ℕ) (xs : Bytes)
    → c ≤ 255
    → ApartRight c
    → are_bytes xs ≡ true
    → length xs ≡ 8
    → IsFirst (λ x. ltb x c) xs (bit_and (and_not (minus (pack xs) (lo * c)) (pack xs)) high)
unfolding term
word_stop c xs low right bytes eight =
    let word = bytes-IsLanes xs bytes eight in
    let needle = constant-IsLanes xs bytes eight c (omega arith) in
    let negated = complement-IsLanes xs bytes eight word in
    let tops = constant-IsLanes xs bytes eight 128 (omega arith) in
    let a : pack xs < 18446744073709551616 =
      rw (word.spread) (word_bound xs bytes eight (λ b. b) word.fits) in
    let b : lo * c < 18446744073709551616 =
      rw (needle.spread) (word_bound xs bytes eight (λ b. c) needle.fits) in
    let (e, sum) = minus_borrow (pack xs) (lo * c) a b in
    let whole : minus (pack xs) (lo * c) + pack (map (λ x. c) xs) ≡ pack xs + e * 256 ^ length xs =
      whole_sum (minus (pack xs) (lo * c)) (pack xs) e needle.spread eight sum in
    let first = term-IsFirst c xs (minus (pack xs) (lo * c)) e low right bytes whole in
    rw (negated.spread, tops.spread) first

alike : Bool → Bool → Bool
alike true b = b
alike false b = not b

alike_lem : (a b : Bool) → alike a b ≡ true → a ≡ b
unfolding alike
alike_lem true b h = sym h
alike_lem false true h = absurd (ground (arith, h))
alike_lem false false h = refl

-- two tests that agree on every byte
agree_tests :
    (test other : ℕ → Bool)
    → check_below (λ b. alike (test b) (other b)) 256 ≡ true
    → (b : ℕ) → b < 256
    → test b ≡ other b
agree_tests test other h b small =
    alike_lem (test b) (other b) (check_below_lem (λ b. alike (test b) (other b)) 256 h b small)

map-IsFirst :
    {test : ℕ → Bool} (f : ℕ → ℕ) (bs : Bytes) {m : ℕ}
    → IsFirst test (map f bs) m
    → IsFirst (λ b. test (f b)) bs m
map-IsFirst f [] ends = ends
map-IsFirst f (b ∷ bs) (hits m y) = hits m y
map-IsFirst f (b ∷ bs) (misses n p) = misses n (map-IsFirst f bs p)

first_index-same :
    (test other : ℕ → Bool)
    → ((b : ℕ) → b < 256 → test b ≡ other b)
    → (bs : Bytes) → are_bytes bs ≡ true
    → first_index test bs ≡ first_index other bs
unfolding first_index are_bytes
first_index-same test other same [] h = refl
first_index-same test other same (b ∷ bs) h =
    let small : b < 256 = ground (arith, h) in
    rw (same b small, first_index-same test other same bs (ground (arith, h))) refl

controls_right : ApartRight 32
unfolding lane_right
controls_right = check_below_lem (lane_right 32) 256 refl

zeros_right : ApartRight 1
unfolding lane_right
zeros_right = check_below_lem (lane_right 1) 256 refl

module _ (bs : Bytes) (bytes : are_bytes bs ≡ true) (eight : length bs ≡ 8) where
  control_stop-IsFirst : IsFirst (λ b. ltb b 32) bs (control_stop (pack bs))
  unfolding control_stop
  control_stop-IsFirst = word_stop 32 bs (omega arith) controls_right bytes eight

  equal_stop-IsFirst :
      (c : ℕ) → c < 256 → IsFirst (λ b. ltb (bit_xor b c) 1) bs (equal_stop (pack bs) c)
  unfolding equal_stop
  equal_stop-IsFirst c h =
      let q =
        xor-IsLanes bs bytes eight (bytes-IsLanes bs bytes eight)
          (constant-IsLanes bs bytes eight c h) in
      let f : ℕ → ℕ = λ b. bit_xor b c in
      rw q.spread (
        map-IsFirst f bs (
          word_stop 1 (map f bs) (omega arith) zeros_right (map-are_bytes f bs q.fits bytes)
            (length-map bs f ∙ eight)))

-- the bytes that end a run inside a double-quoted scalar, and inside a single-quoted one
abbrev pub ends_double_quoted : ℕ → Bool
ends_double_quoted b = b == b'"' || b == b'\\' || ltb b 32

abbrev pub ends_single_quoted : ℕ → Bool
ends_single_quoted b = b == b'\'' || ltb b 32

same_double :
    (b : ℕ)
    → b < 256
    → ((ltb b 32 || ltb (bit_xor b b'"') 1) || ltb (bit_xor b b'\\') 1) ≡ ends_double_quoted b
unfolding alike
same_double =
    agree_tests (λ b. (ltb b 32 || ltb (bit_xor b b'"') 1) || ltb (bit_xor b b'\\') 1)
      ends_double_quoted refl

same_single : (b : ℕ) → b < 256 → (ltb b 32 || ltb (bit_xor b b'\'') 1) ≡ ends_single_quoted b
unfolding alike
same_single = agree_tests (λ b. ltb b 32 || ltb (bit_xor b b'\'') 1) ends_single_quoted refl

-- In a word of eight bytes, the stop masks are zero where no byte ends the run, and their first byte is
-- otherwise the first that does, though a borrow may flag lanes above it.
pub stop_masks-first_index :
    (bs : Bytes)
    → are_bytes bs ≡ true
    → length bs ≡ 8
    → (found (double_quote_stop_mask (pack bs)) ≡ first_index ends_double_quoted bs)
      × (found (single_quote_stop_mask (pack bs)) ≡ first_index ends_single_quoted bs)
unfolding double_quote_stop_mask single_quote_stop_mask
stop_masks-first_index bs bytes eight =
    let short : length bs ≤ 8 = omega (arith, eight) in
    let control = control_stop-IsFirst bs bytes eight in
    let quote = equal_stop-IsFirst bs bytes eight b'"' (omega arith) in
    let escape = equal_stop-IsFirst bs bytes eight b'\\' (omega arith) in
    let single = equal_stop-IsFirst bs bytes eight b'\'' (omega arith) in
    (
      found-IsFirst short (or-IsFirst (or-IsFirst control quote) escape)
          ∙ first_index-same _ ends_double_quoted same_double bs bytes,
      found-IsFirst short (or-IsFirst control single)
          ∙ first_index-same _ ends_single_quoted same_single bs bytes,
    )
