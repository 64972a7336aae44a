-- ===== src/Scanner/PrintableLoop.antt =====
-- internal/scanner/printable.go: what `firstUnprintable` answers, eight bytes at a time.
use go_yaml.Scanner.Swar.{pack, high_bits}
use go_yaml.Scanner.Printable.{
  Reading, bad_at, next_at, unfinished, Answer, answers, read_non_ascii, first_unprintable_tail,
  first_unprintable_words, first_unprintable,
}
use go_yaml.Scanner.PrintableTail.{
  tail_from, tail_from-answer, ReadsTo, drop-are_bytes, length-drop,
}
use go_yaml.Scanner.PrintableWords.{
  first_index-FirstAt, found_some, high_found, length-take, take-are_bytes, ascii_word,
  read_non_ascii-ReadsTo, behind_shorter,
}
use go_yaml.Scanner.Lanes.{are_bytes}
use go_yaml.Scanner.First.{first_index}
use go_yaml.Scanner.Exact.{is_high}
use go_yaml.Base.{
  ℕ, zero, suc, ◌+◌, ◌≤◌, ◌<◌, true, false, Option, none, some, leb, ◌==◌, length, take, drop,
  Bytes, ◌≡◌, refl, sym, ◌∙◌, arith, Bool-cases, Option-cases, inl, inr,
}
use Prim.Native.Nat.{bit_and}

-- what the loop over words does with a reading
after_reading : ℕ → Reading → Answer
after_reading n (bad_at j) = answers j
after_reading n unfinished = none
after_reading n (next_at j rest) = first_unprintable_words n j rest

after_reading_lem :
    (n bound i : ℕ) (r : Bytes) (reading : Reading)
    → ReadsTo bound i r reading
    → ((j : ℕ) (rest : Bytes)
        → are_bytes rest ≡ true
        → length rest ≤ bound
        → first_unprintable_words n j rest ≡ tail_from j rest)
    → after_reading n reading ≡ tail_from i r
unfolding after_reading ReadsTo
after_reading_lem n bound i r (bad_at j) p h = sym p
after_reading_lem n bound i r unfinished p h = absurd p
after_reading_lem n bound i r (next_at j rest) (p, bytes, short) h = h j rest bytes short ∙ sym p

-- the rounds of the loop, by whether a whole word is left and whether it is ASCII
short_round :
    (n i : ℕ) (r : Bytes)
    → leb 8 (length r) ≡ false
    → first_unprintable_words (suc n) i r ≡ tail_from i r
unfolding first_unprintable_words tail_from
short_round n i r h = rw h refl

high_round :
    (n i : ℕ) (r : Bytes)
    → leb 8 (length r) ≡ true
    → (bit_and (pack (take 8 r)) high_bits == 0) ≡ false
    → first_unprintable_words (suc n) i r ≡ after_reading n (read_non_ascii r (pack (take 8 r)) i)
unfolding first_unprintable_words after_reading
high_round n i r h g = rw (h, g) refl

words_agree :
    (n i : ℕ) (r : Bytes)
    → length r < n
    → are_bytes r ≡ true
    → first_unprintable_words n i r ≡ tail_from i r
words_agree zero i r h bytes = absurd (omega arith)
words_agree (suc n) i r h bytes = elim (Bool-cases (leb 8 (length r))) [
  | inr short ↦ short_round n i r short
  | inl enough ↦
      let long : 8 ≤ length r = ground (arith, enough) in
      let word = take 8 r in
      elim (Option-cases (first_index is_high word)) [
        | inl ascii ↦
            let shorter = length-drop 8 r in
            ascii_word n i r bytes long ascii
              (words_agree n (i + 8) (drop 8 r) (omega arith) (drop-are_bytes 8 r bytes))
        | inr (k, e) ↦
            let at = first_index-FirstAt is_high word (drop 8 r) k e in
            let shorter = behind_shorter is_high k r at in
            let lane =
              found_some _ k
                (high_found word (take-are_bytes 8 r bytes) (length-take 8 r long) ∙ e) in
            high_round n i r enough lane.0
            ∙ after_reading_lem n (length at.behind) i r _
                (read_non_ascii-ReadsTo i k r bytes long e at)
                (λ j rest small short. words_agree n j rest (omega (arith, shorter)) small)
      ]
]

-- For every text of bytes, the loop that reads eight bytes at a time and the one that reads one character
-- at a time both end, given as many rounds as the text has bytes and one more, with the same answer: the
-- same offset, or none.
pub first_unprintable-tail :
    (text : Bytes)
    → are_bytes text ≡ true
    → (a : Option ℕ) × (first_unprintable text ≡ some a)
      × (first_unprintable_tail (suc (length text)) 0 text ≡ some a)
unfolding first_unprintable tail_from
first_unprintable-tail text bytes =
    let (a, e) = tail_from-answer (suc (length text)) 0 text (omega arith) in
    (a, words_agree (suc (length text)) 0 text (omega arith) bytes ∙ e, e)
