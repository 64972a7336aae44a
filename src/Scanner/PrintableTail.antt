-- ===== src/Scanner/PrintableTail.antt =====
-- The character loop of internal/scanner/printable.go: its fuel, and runs of ASCII before the rest.
use go_yaml.Scanner.Printable.{
  decode_two, decode_three, decode_four, decode_rune, printable_ascii, refuses, Reading, bad_at,
  next_at, unfinished, Answer, answers, skip_non_ascii, first_unprintable_tail,
}
use go_yaml.Scanner.Lanes.{are_bytes}
use go_yaml.Scanner.Masks.{is_control, is_allowed}
use go_yaml.Scanner.First.{next, first_index}
use go_yaml.Scanner.Exact.{is_high}
use go_yaml.Base.{
  ℕ, zero, suc, ◌+◌, ◌-◌, ◌≤◌, ◌<◌, Bool, true, false, not, ◌&&◌, Option, none, some, [], ◌∷◌, ◌++◌,
  ltb, if◌then◌else◌, length, drop, Bytes, ◌≡◌, refl, ap, sym, ◌∙◌, arith, Bool-cases, inl, inr,
}

decode_two-width : (a : ℕ) (r : Bytes) → 1 ≤ (decode_two a r).width
unfolding decode_two
decode_two-width a [] = omega arith
decode_two-width a (b ∷ r) = ground arith

decode_three-width : (a : ℕ) (r : Bytes) → 1 ≤ (decode_three a r).width
unfolding decode_three
decode_three-width a [] = omega arith
decode_three-width a (b ∷ []) = omega arith
decode_three-width a (b ∷ c ∷ r) = ground arith

decode_four-width : (a : ℕ) (r : Bytes) → 1 ≤ (decode_four a r).width
unfolding decode_four
decode_four-width a [] = omega arith
decode_four-width a (b ∷ []) = omega arith
decode_four-width a (b ∷ c ∷ []) = omega arith
decode_four-width a (b ∷ c ∷ d ∷ r) = ground arith

decode_rune-width : (a : ℕ) (r : Bytes) → 1 ≤ (decode_rune (a ∷ r)).width
unfolding decode_rune
decode_rune-width a r =
    ground (arith, decode_two-width a r, decode_three-width a r, decode_four-width a r)

pub length-drop : (k : ℕ) (r : Bytes) → length (drop k r) ≡ length r - k
length-drop zero r = omega arith
length-drop (suc k) [] = omega arith
length-drop (suc k) (c ∷ r) = omega (arith, length-drop k r)

-- More fuel than the text is long is enough: the answer is the same with more.
tail_fuel :
    (n m i : ℕ) (r : Bytes)
    → length r < n
    → length r < m
    → first_unprintable_tail n i r ≡ first_unprintable_tail m i r
unfolding first_unprintable_tail
tail_fuel zero m i r h g = absurd (omega arith)
tail_fuel (suc n) zero i r h g = absurd (omega arith)
tail_fuel (suc n) (suc m) i [] h g = refl
tail_fuel (suc n) (suc m) i (c ∷ r) h g =
    let d = decode_rune (c ∷ r) in
    let shorter = length-drop d.width (c ∷ r) in
    let wide = decode_rune-width c r in
    rw
      (
        tail_fuel n m (suc i) r (omega arith) (omega arith),
        tail_fuel n m (i + d.width) (drop d.width (c ∷ r)) (omega arith) (omega arith),
      )
      refl

-- The character loop on the text from i on, with the fuel it needs.
unfoldable pub tail_from : ℕ → Bytes → Answer
tail_from i r = first_unprintable_tail (suc (length r)) i r

pub tail_from-ascii :
    (i c : ℕ) (r : Bytes)
    → ltb c 128 ≡ true
    → tail_from i (c ∷ r) ≡ (if not (printable_ascii c) then answers i else tail_from (suc i) r)
unfolding tail_from first_unprintable_tail
tail_from-ascii i c r h = rw h refl

pub tail_from-high :
    (i c : ℕ) (r : Bytes)
    → ltb c 128 ≡ false
    → tail_from i (c ∷ r) ≡ (
        if refuses (decode_rune (c ∷ r))
        then answers i
        else tail_from (i + (decode_rune (c ∷ r)).width) (drop (decode_rune (c ∷ r)).width (c ∷ r)))
unfolding tail_from first_unprintable_tail
tail_from-high i c r h =
    let d = decode_rune (c ∷ r) in
    let shorter = length-drop d.width (c ∷ r) in
    let wide = decode_rune-width c r in
    let same =
      tail_fuel (suc (length r)) (suc (length (drop d.width (c ∷ r)))) (i + d.width)
        (drop d.width (c ∷ r)) (omega arith) (omega arith) in
    rw (h, same) refl

abbrev pub is_refused : ℕ → Bool
is_refused b = is_control b && not (is_allowed b)

ascii_same : (c : ℕ) → ltb c 128 ≡ true → not (printable_ascii c) ≡ is_refused c
unfolding printable_ascii
ascii_same c h = ground (arith, h)

-- what the loop answers, from what a run of so many bytes before the rest has to say
unfoldable pub goes_on : ℕ → ℕ → Bytes → Option ℕ → Answer
goes_on i k rest none = tail_from (i + k) rest
goes_on i k rest (some j) = answers (i + j)

goes_on-next :
    (i k : ℕ) (rest : Bytes) (j : Option ℕ)
    → goes_on (suc i) k rest j ≡ goes_on i (suc k) rest (next j)
unfolding goes_on next
goes_on-next i k rest none = ap (λ t. tail_from t rest) (omega arith)
goes_on-next i k rest (some j) = ap answers (omega arith)

add_zero : (i : ℕ) → i ≡ i + 0
add_zero i = omega arith

some-none : (j : ℕ) → some j ≡ none → ⊥
some-none j e = ground (arith, e)

pub next_none : (j : Option ℕ) → next j ≡ none → j ≡ none
unfolding next
next_none none e = refl
next_none (some j) e = absurd (ground (arith, e))

-- Of a run of ASCII before the rest, the loop reports the first byte refused, or goes on behind it.
pub tail_from-run :
    (bs rest : Bytes) (i : ℕ)
    → first_index is_high bs ≡ none
    → tail_from i (bs ++ rest) ≡ goes_on i (length bs) rest (first_index is_refused bs)
unfolding first_index goes_on
tail_from-run [] rest i h = ap (λ t. tail_from t rest) (omega arith)
tail_from-run (b ∷ bs) rest i h = elim (Bool-cases (is_high b)) [
  | inl y ↦ absurd (some-none 0 (sym (rw y refl) ∙ h))
  | inr n ↦
      let low : ltb b 128 ≡ true = ground (arith, n) in
      let others = next_none _ (sym (rw n refl) ∙ h) in
      tail_from-ascii i b (bs ++ rest) low
      ∙ rw (ascii_same b low) (elim (Bool-cases (is_refused b)) [
        | inl y ↦ rw y (ap answers (add_zero i))
        | inr m ↦ rw m (tail_from-run bs rest (suc i) others ∙ goes_on-next i (length bs) rest _)
      ])
]

pub drop-are_bytes : (k : ℕ) (r : Bytes) → are_bytes r ≡ true → are_bytes (drop k r) ≡ true
unfolding are_bytes
drop-are_bytes zero r h = h
drop-are_bytes (suc k) [] h = h
drop-are_bytes (suc k) (c ∷ r) h = drop-are_bytes k r (ground (arith, h))

-- A reading of the text from i on that the character loop agrees with; what is left is no longer than so
-- many bytes.
unfoldable pub ReadsTo : ℕ → ℕ → Bytes → Reading → Type 0
ReadsTo bound i r (bad_at j) = tail_from i r ≡ answers j
ReadsTo bound i r unfinished = ⊥
ReadsTo bound i r (next_at j rest) =
    (tail_from i r ≡ tail_from j rest) × (are_bytes rest ≡ true) × (length rest ≤ bound)

pub after-ReadsTo :
    (bound more i j : ℕ) (r s : Bytes) (reading : Reading)
    → tail_from i r ≡ tail_from j s
    → bound ≤ more
    → ReadsTo bound j s reading
    → ReadsTo more i r reading
unfolding ReadsTo
after-ReadsTo bound more i j r s (bad_at k) e h p = e ∙ p
after-ReadsTo bound more i j r s (next_at k rest) e h (p, bytes, g) = (e ∙ p, bytes, omega arith)
after-ReadsTo bound more i j r s unfinished e h p = p

-- One character over 0x7f is stepped over, if what the loop reads behind it agrees.
high-ReadsTo :
    (n i c : ℕ) (r : Bytes)
    → is_high c ≡ true
    → ReadsTo
        (length (drop (decode_rune (c ∷ r)).width (c ∷ r)))
        (i + (decode_rune (c ∷ r)).width)
        (drop (decode_rune (c ∷ r)).width (c ∷ r))
        (skip_non_ascii n
          (i + (decode_rune (c ∷ r)).width)
          (drop (decode_rune (c ∷ r)).width (c ∷ r)))
    → ReadsTo (length r) i (c ∷ r) (skip_non_ascii (suc n) i (c ∷ r))
unfolding ReadsTo skip_non_ascii
high-ReadsTo n i c r y rest =
    let d = decode_rune (c ∷ r) in
    let shorter = length-drop d.width (c ∷ r) in
    let wide = decode_rune-width c r in
    let high : ltb c 128 ≡ false = ground (arith, y) in
    let step = tail_from-high i c r high in
    elim (Bool-cases (refuses d)) [
      | inl z ↦ rw (y, z) (step ∙ rw z refl)
      | inr m ↦
          rw (y, m)
            (after-ReadsTo _ (length r) i _ (c ∷ r) _ _ (step ∙ rw m refl) (omega arith) rest)
    ]

-- The characters over 0x7f that are stepped over are the ones the character loop accepts.
skip_non_ascii-ReadsTo :
    (n i : ℕ) (r : Bytes)
    → length r < n
    → are_bytes r ≡ true
    → ReadsTo (length r) i r (skip_non_ascii n i r)
unfolding ReadsTo skip_non_ascii
skip_non_ascii-ReadsTo zero i r h bytes = absurd (omega arith)
skip_non_ascii-ReadsTo (suc n) i [] h bytes = (refl, bytes, omega arith)
skip_non_ascii-ReadsTo (suc n) i (c ∷ r) h bytes =
    let w = (decode_rune (c ∷ r)).width in
    let shorter = length-drop w (c ∷ r) in
    let wide = decode_rune-width c r in
    let rest =
      skip_non_ascii-ReadsTo n (i + w) (drop w (c ∷ r)) (omega arith)
        (drop-are_bytes w (c ∷ r) bytes) in
    elim (Bool-cases (is_high c)) [
      | inl y ↦
          after-ReadsTo (length r) (suc (length r)) i i (c ∷ r) (c ∷ r) _ refl (omega arith)
            (high-ReadsTo n i c r y rest)
      | inr m ↦ rw m (refl, bytes, omega arith)
    ]

-- A first character over 0x7f is stepped over, so the text left is shorter.
pub skip_high-ReadsTo :
    (n i c : ℕ) (r : Bytes)
    → length r < n
    → are_bytes (c ∷ r) ≡ true
    → is_high c ≡ true
    → ReadsTo (length r) i (c ∷ r) (skip_non_ascii (suc n) i (c ∷ r))
skip_high-ReadsTo n i c r h bytes y =
    let w = (decode_rune (c ∷ r)).width in
    let shorter = length-drop w (c ∷ r) in
    let wide = decode_rune-width c r in
    high-ReadsTo n i c r y (
      skip_non_ascii-ReadsTo n (i + w) (drop w (c ∷ r)) (omega arith)
        (drop-are_bytes w (c ∷ r) bytes))

tail_from-nil : (i : ℕ) → tail_from i [] ≡ some none
unfolding tail_from first_unprintable_tail
tail_from-nil i = refl

answer_if :
    {whole rest : Answer} (stops : Bool) (i : ℕ)
    → whole ≡ (if stops then answers i else rest)
    → (a : Option ℕ) × (rest ≡ some a)
    → (a : Option ℕ) × (whole ≡ some a)
answer_if true i e more = (some i, e)
answer_if false i e (a, more) = (a, e ∙ more)

-- The character loop ends.
pub tail_from-answer :
    (n i : ℕ) (r : Bytes) → length r < n → (a : Option ℕ) × (tail_from i r ≡ some a)
tail_from-answer zero i r h = absurd (omega arith)
tail_from-answer (suc n) i [] h = (none, tail_from-nil i)
tail_from-answer (suc n) i (c ∷ r) h = elim (Bool-cases (ltb c 128)) [
  | inl y ↦
      answer_if (not (printable_ascii c)) i (tail_from-ascii i c r y)
        (tail_from-answer n (suc i) r (omega arith))
  | inr m ↦
      let w = (decode_rune (c ∷ r)).width in
      let shorter = length-drop w (c ∷ r) in
      let wide = decode_rune-width c r in
      answer_if (refuses (decode_rune (c ∷ r))) i (tail_from-high i c r m)
        (tail_from-answer n (i + w) (drop w (c ∷ r)) (omega arith))
]
