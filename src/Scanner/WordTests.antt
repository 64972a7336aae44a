-- ===== src/Scanner/WordTests.antt =====
-- Words and sources of internal/scanner/swar/swar.go and internal/scanner/printable.go.
use go_yaml.Base.{
  ℕ, Option, suc, ◌%◌, not, none, some, [], ◌∷◌, ◌++◌, map, within, ◌==◌, take, length, Bytes,
  codes, ◌≡◌, refl, arith,
}
use go_yaml.Scanner.Swar.{
  pack, first_byte, mask_equal, control_mask, allowed_control_mask, space_mask, letter_mask,
  digit_mask, lanes_below, double_quote_stop_mask, single_quote_stop_mask,
}
use go_yaml.Scanner.Lanes.{are_bytes}
use go_yaml.Scanner.Masks.{flag, is_control, is_allowed, is_letter}
use go_yaml.Scanner.First.{first_index, found}
use go_yaml.Scanner.Stops.{ends_double_quoted, ends_single_quoted, stop_masks-first_index}
use go_yaml.Scanner.Exact.{exact_masks-flags}
use go_yaml.Scanner.Printable.{
  answers, decode_rune, printable_ascii, printable, refuses, skip_non_ascii, read_non_ascii,
  first_unprintable_tail, first_unprintable_words, first_unprintable,
}
use go_yaml.Scanner.PrintableLoop.{first_unprintable-tail}

abbrev word : Bytes
word = codes "aZ 5\t~\"0"

first_bytes :
    (first_byte (space_mask (pack (codes "   key: "))) ≡ 3)
    × (first_byte (double_quote_stop_mask (pack (codes "so \"it i"))) ≡ 3)
    × (first_byte (digit_mask (pack (codes "in 2026 "))) ≡ 3)
unfolding first_byte space_mask double_quote_stop_mask digit_mask pack
first_bytes = (refl, refl, refl)

-- "naïve: " and a DEL
abbrev source : Bytes
source = codes "na" ++ 195 ∷ 175 ∷ codes "ve: value " ++ 226 ∷ 130 ∷ 172 ∷ 127 ∷ []

sources : (first_unprintable source ≡ answers 17) × (first_unprintable (codes "a: b\n") ≡ some none)
unfolding first_unprintable first_unprintable_words pack read_non_ascii control_mask
    allowed_control_mask first_byte skip_non_ascii refuses decode_rune printable
    first_unprintable_tail printable_ascii
sources = (refl, refl)

stop_masks-first_index_example :
    (found (double_quote_stop_mask (pack word)) ≡ first_index ends_double_quoted word)
    × (found (single_quote_stop_mask (pack word)) ≡ first_index ends_single_quoted word)
unfolding are_bytes
stop_masks-first_index_example = stop_masks-first_index word refl refl

exact_masks-flags_example :
    (mask_equal (pack word) b'5' ≡ pack (map (λ b. flag (b == b'5')) word))
    × (control_mask (pack word) ≡ pack (map (λ b. flag (is_control b)) word))
    × (allowed_control_mask (pack word) ≡ pack (map (λ b. flag (is_allowed b)) word))
    × (space_mask (pack word) ≡ pack (map (λ b. flag (not (b == b' '))) word))
    × (letter_mask (pack word) ≡ pack (map (λ b. flag (is_letter (b % 128))) word))
    × (digit_mask (pack word) ≡ pack (map (λ b. flag (within b'0' b'9' (b % 128))) word))
    × (lanes_below (pack word) 3 ≡ pack (take 3 word))
unfolding are_bytes
exact_masks-flags_example = exact_masks-flags word b'5' 3 refl refl (omega arith) (omega arith)

first_unprintable-tail_example :
    (a : Option ℕ) × (first_unprintable source ≡ some a)
    × (first_unprintable_tail (suc (length source)) 0 source ≡ some a)
unfolding are_bytes
first_unprintable-tail_example = first_unprintable-tail source refl
