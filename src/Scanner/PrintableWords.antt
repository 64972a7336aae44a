-- ===== src/Scanner/PrintableWords.antt =====
-- The loop over words of internal/scanner/printable.go, against the character loop.
use go_yaml.Scanner.Swar.{pack, high_bits, first_byte}
use go_yaml.Scanner.Printable.{
  skip_non_ascii, refused_mask, read_non_ascii, first_unprintable_words,
}
use go_yaml.Scanner.PrintableTail.{
  tail_from, tail_from-run, is_refused, goes_on, ReadsTo, skip_high-ReadsTo, drop-are_bytes,
  length-drop, after-ReadsTo,
}
use go_yaml.Scanner.Lanes.{are_bytes, map-are_bytes}
use go_yaml.Scanner.Masks.{flag, refused_mask-flags}
use go_yaml.Scanner.First.{next, first_index, found, flags-IsFirst, found-IsFirst}
use go_yaml.Scanner.Exact.{is_high, pack-take, high_bits-flags}
use mathlib.Core.Path.{subst}
use go_yaml.Base.{
  ℕ, zero, suc, ◌+◌, ◌-◌, ◌*◌, ◌^◌, ◌≤◌, ◌<◌, Bool, true, false, Option, none, some, [], ◌∷◌, ◌++◌,
  map, leb, ◌==◌, length, take, drop, Bytes, ◌≡◌, refl, ap, sym, ◌∙◌, arith, Bool-cases,
  Option-cases, inl, inr,
}
use Prim.Native.Nat.{bit_and}

-- Where a list has its first byte of a kind: the byte, and what stands before and behind it.
pub record FirstAt (test : ℕ → Bool) (bs rest : Bytes) (k : ℕ) : Type 0 where
  pub byte : ℕ
  pub behind : Bytes
  pub place : drop k (bs ++ rest) ≡ byte ∷ behind
  pub passes : test byte ≡ true
  pub clean : first_index test (take k bs) ≡ none
  pub joined : bs ++ rest ≡ take k bs ++ drop k (bs ++ rest)
  pub size : length (take k bs) ≡ k
  pub inside : k < length bs

next_some : (j : Option ℕ) (k : ℕ) → next j ≡ some k → (i : ℕ) × (j ≡ some i) × (k ≡ suc i)
unfolding next
next_some none k e = absurd (ground (arith, e))
next_some (some i) k e = (i, refl, ground (arith, e))

here-FirstAt :
    (test : ℕ → Bool) (b : ℕ) (bs rest : Bytes) → test b ≡ true → FirstAt test (b ∷ bs) rest 0
unfolding first_index
here-FirstAt test b bs rest y = record {
  byte = b;
  behind = bs ++ rest;
  place = refl;
  passes = y;
  clean = refl;
  joined = refl;
  size = refl;
  inside = omega arith;
}

there-FirstAt :
    (test : ℕ → Bool) (b : ℕ) (bs rest : Bytes) {i : ℕ}
    → test b ≡ false
    → FirstAt test bs rest i
    → FirstAt test (b ∷ bs) rest (suc i)
unfolding first_index next
there-FirstAt test b bs rest n at = record {
  byte = at.byte;
  behind = at.behind;
  place = at.place;
  passes = at.passes;
  clean = rw (n, at.clean) refl;
  joined = ap (λ t. b ∷ t) at.joined;
  size = ap suc at.size;
  inside = omega (arith, at.inside);
}

pub first_index-FirstAt :
    (test : ℕ → Bool) (bs rest : Bytes) (k : ℕ)
    → first_index test bs ≡ some k
    → FirstAt test bs rest k
unfolding first_index
first_index-FirstAt test [] rest k e = absurd (ground (arith, e))
first_index-FirstAt test (b ∷ bs) rest k e = elim (Bool-cases (test b)) [
  | inl y ↦
      let same : some 0 ≡ some k = sym (rw y refl) ∙ e in
      subst (FirstAt test (b ∷ bs) rest) (ground (arith, same)) (here-FirstAt test b bs rest y)
  | inr n ↦
      let (i, at, same) = next_some _ k (sym (rw n refl) ∙ e) in
      subst (FirstAt test (b ∷ bs) rest) (sym same)
        (there-FirstAt test b bs rest n (first_index-FirstAt test bs rest i at))
]

none-some : (j : ℕ) → none ≡ some j → ⊥
none-some j e = ground (arith, e)

some_injective : {i j : ℕ} → some i ≡ some j → i ≡ j
some_injective e = ground (arith, e)

-- what a mask that answers an index is, and one that answers none
found_none : (m : ℕ) → found m ≡ none → (m == 0) ≡ true
unfolding found
found_none m e = elim (Bool-cases (m == 0)) [
  | inl y ↦ y
  | inr n ↦ absurd (none-some (first_byte m) (sym e ∙ rw n refl))
]

pub found_some : (m j : ℕ) → found m ≡ some j → ((m == 0) ≡ false) × (first_byte m ≡ j)
unfolding found
found_some m j e = elim (Bool-cases (m == 0)) [
  | inl y ↦ absurd (none-some j (sym (rw y refl) ∙ e))
  | inr n ↦ (n, some_injective (sym (rw n refl) ∙ e))
]

take-drop : (k : ℕ) (r : Bytes) → r ≡ take k r ++ drop k r
take-drop zero r = refl
take-drop (suc k) [] = refl
take-drop (suc k) (c ∷ r) = ap (λ t. c ∷ t) (take-drop k r)

pub take-are_bytes : (k : ℕ) (r : Bytes) → are_bytes r ≡ true → are_bytes (take k r) ≡ true
unfolding are_bytes
take-are_bytes zero r h = refl
take-are_bytes (suc k) [] h = h
take-are_bytes (suc k) (c ∷ r) h = ground (arith, h, take-are_bytes k r)

pub length-take : (k : ℕ) (r : Bytes) → k ≤ length r → length (take k r) ≡ k
length-take zero r h = refl
length-take (suc k) [] h = absurd (omega arith)
length-take (suc k) (c ∷ r) h = ap suc (length-take k r (omega arith))

take-map : (f : ℕ → ℕ) (k : ℕ) (r : Bytes) → take k (map f r) ≡ map f (take k r)
take-map f zero r = refl
take-map f (suc k) [] = refl
take-map f (suc k) (c ∷ r) = ap (λ t. f c ∷ t) (take-map f k r)

flag_fits : (test : ℕ → Bool) (b : ℕ) → b < 256 → flag (test b) < 256
unfolding flag
flag_fits test b h = elim (Bool-cases (test b)) [
  | inl y ↦ rw y (omega arith)
  | inr n ↦ rw n (omega arith)
]

-- The two masks of a word, and the one of its low lanes, say where the bytes are.
module _ (bs : Bytes) (bytes : are_bytes bs ≡ true) (eight : length bs ≡ 8) where
  pub high_found : found (bit_and (pack bs) high_bits) ≡ first_index is_high bs
  high_found =
      ap found (high_bits-flags bs bytes eight)
      ∙ found-IsFirst (omega (arith, eight)) (flags-IsFirst is_high bs)

  refused_found : found (refused_mask (pack bs)) ≡ first_index is_refused bs
  refused_found =
      ap found (refused_mask-flags bs bytes eight)
      ∙ found-IsFirst (omega (arith, eight)) (flags-IsFirst is_refused bs)

  low_found :
      (k : ℕ)
      → length (take k bs) ≤ 8
      → found (bit_and (refused_mask (pack bs)) (2 ^ (8 * k) - 1))
        ≡ first_index is_refused (take k bs)
  low_found k h =
      let f : ℕ → ℕ = λ b. flag (is_refused b) in
      ap (λ t. found (bit_and t (2 ^ (8 * k) - 1))) (refused_mask-flags bs bytes eight)
      ∙ ap found (pack-take k (map f bs) (map-are_bytes f bs (flag_fits is_refused) bytes))
      ∙ ap (λ t. found (pack t)) (take-map f k bs)
      ∙ found-IsFirst h (flags-IsFirst is_refused (take k bs))

-- A word of ASCII.
pub ascii_word :
    (n i : ℕ) (r : Bytes)
    → are_bytes r ≡ true
    → 8 ≤ length r
    → first_index is_high (take 8 r) ≡ none
    → first_unprintable_words n (i + 8) (drop 8 r) ≡ tail_from (i + 8) (drop 8 r)
    → first_unprintable_words (suc n) i r ≡ tail_from i r
unfolding first_unprintable_words goes_on
ascii_word n i r bytes long ascii rest =
    let word = take 8 r in
    let size : length word ≡ 8 = length-take 8 r long in
    let small = take-are_bytes 8 r bytes in
    let enough : leb 8 (length r) ≡ true = ground (arith, long) in
    let low = found_none _ (high_found word small size ∙ ascii) in
    let run : tail_from i r ≡ goes_on i 8 (drop 8 r) (first_index is_refused word) =
      ap (tail_from i) (take-drop 8 r)
      ∙ tail_from-run word (drop 8 r) i ascii
      ∙ ap (λ t. goes_on i t (drop 8 r) (first_index is_refused word)) size in
    elim (Option-cases (first_index is_refused word)) [
      | inl e ↦
          let clear = found_none _ (refused_found word small size ∙ e) in
          rw (enough, low, clear) (rest ∙ sym (run ∙ rw e refl))
      | inr (j, e) ↦
          let (set, at) = found_some _ j (refused_found word small size ∙ e) in
          rw (enough, low, set, at) (sym (run ∙ rw e refl))
    ]

skip_at :
    (i k : ℕ) (r : Bytes) {c : ℕ} {s : Bytes}
    → drop k r ≡ c ∷ s
    → are_bytes r ≡ true
    → is_high c ≡ true
    → length (drop k r) ≤ length r
    → ReadsTo (length s) (i + k) (drop k r) (skip_non_ascii (suc (length r)) (i + k) (drop k r))
skip_at i k r {c} {s} place bytes high h =
    let small : are_bytes (c ∷ s) ≡ true = rw place at (drop-are_bytes k r bytes) in
    let room : length s < length r = omega (arith, ap length place) in
    rw place (skip_high-ReadsTo (length r) (i + k) c s room small high)

-- A word with a byte over 0x7f: the ASCII in front of it, and the characters from there.
pub read_non_ascii-ReadsTo :
    (i k : ℕ) (r : Bytes)
    → are_bytes r ≡ true
    → 8 ≤ length r
    → first_index is_high (take 8 r) ≡ some k
    → (at : FirstAt is_high (take 8 r) (drop 8 r) k)
    → ReadsTo (length at.behind) i r (read_non_ascii r (pack (take 8 r)) i)
unfolding read_non_ascii goes_on ReadsTo
read_non_ascii-ReadsTo i k r bytes long e at =
    let word = take 8 r in
    let size : length word ≡ 8 = length-take 8 r long in
    let small = take-are_bytes 8 r bytes in
    let whole : word ++ drop 8 r ≡ r = sym (take-drop 8 r) in
    let place : drop k r ≡ at.byte ∷ at.behind = ap (drop k) (sym whole) ∙ at.place in
    let lane = (found_some _ k (high_found word small size ∙ e)).1 in
    let joined : r ≡ take k word ++ drop k r =
      sym whole ∙ at.joined ∙ ap (λ t. take k word ++ drop k t) whole in
    let fewer : length (drop k r) ≤ length r = omega (arith, length-drop k r) in
    let run : tail_from i r ≡ goes_on i k (drop k r) (first_index is_refused (take k word)) =
      ap (tail_from i) joined
      ∙ tail_from-run (take k word) (drop k r) i at.clean
      ∙ ap (λ t. goes_on i t (drop k r) (first_index is_refused (take k word))) at.size in
    let low = low_found word small size k (omega (arith, at.size, at.inside)) in
    rw lane (elim (Option-cases (first_index is_refused (take k word))) [
      | inl f ↦
          let clear = found_none _ (low ∙ f) in
          rw clear (
            after-ReadsTo _ _ i (i + k) r (drop k r) _ (run ∙ rw f refl) (omega arith)
              (skip_at i k r place bytes at.passes fewer))
      | inr (j, f) ↦
          let (set, first) = found_some _ j (low ∙ f) in rw (set, first) (run ∙ rw f refl)
    ])

pub behind_shorter :
    (test : ℕ → Bool) (k : ℕ) (r : Bytes) (at : FirstAt test (take 8 r) (drop 8 r) k)
    → length at.behind < length r
behind_shorter test k r at =
    omega
      (arith, ap length at.place, length-drop k (take 8 r ++ drop 8 r), ap length (take-drop 8 r))
