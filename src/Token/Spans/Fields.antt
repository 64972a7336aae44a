-- ===== src/Token/Spans/Fields.antt =====
-- The word `spans` of token/token.go as the five fields it packs.
use go_yaml.Base.Bits.{bit_and-mask, bit_or_comm, bit_or-disjoint}
use go_yaml.Base.{
  ℕ, ◌+◌, ◌*◌, ◌/◌, ◌%◌, ◌^◌, ◌<◌, Bool, true, false, not, ◌==◌, if◌then◌else◌, ◌≡◌, refl, sym, ap,
  ◌∙◌, arith,
}
use go_yaml.Token.Spans.{
  end_line, comment_breaks, trailing_breaks, blank_line_above, from_source, set_end_line,
  set_comment_breaks, set_trailing_breaks, set_blank_line_above, mark_from_source, detached,
  extent_spans, is_past, comment_mask, trailing_mask, joined, set_end_line-value,
  set_comment_breaks-value, set_trailing_breaks-value, set_blank_line_above-value,
  mark_from_source-value, detached-value,
}

pub record Fields : Type 0 where
  pub line : ℕ
  pub comments : ℕ
  pub trailing : ℕ
  pub blank : Bool
  pub source : Bool

-- what the five readers give
abbrev pub fields : ℕ → Fields
fields x = record {
  line = end_line x;
  comments = comment_breaks x;
  trailing = trailing_breaks x;
  blank = blank_line_above x;
  source = from_source x;
}

-- a count as a field of its mask keeps it: cut at the mask, and a negative one to its low bits
abbrev pub clamped : ℕ → ℕ → ℕ
clamped n mask = (if is_past n mask then mask else n) % (mask + 1)

abbrev pub parts : ℕ → Fields
parts x = record {
  line = x % 2 ^ 32;
  comments = x / 2 ^ 32 % 2 ^ 16;
  trailing = x / 2 ^ 48 % 2 ^ 14;
  blank = not (x / 2 ^ 62 % 2 == 0);
  source = not (x / 2 ^ 63 % 2 == 0);
}

pub fields-parts : (x : ℕ) → fields x ≡ parts x
unfolding end_line comment_breaks trailing_breaks blank_line_above from_source
fields-parts x =
    rw
      (
        bit_and-mask 32 x,
        bit_and-mask 16 (x / 2 ^ 32),
        bit_and-mask 14 (x / 2 ^ 48),
        bit_and-mask 1 (x / 2 ^ 62),
        bit_and-mask 1 (x / 2 ^ 63),
      )
      refl

pub extent_spans-value :
    (line trailing : ℕ) → extent_spans line trailing ≡ trailing % 2 ^ 14 * 2 ^ 48 + line % 2 ^ 32
unfolding extent_spans
extent_spans-value line trailing =
    rw (bit_and-mask 32 line, bit_and-mask 14 trailing)
      (bit_or_comm (line % 2 ^ 32) (trailing % 2 ^ 14 * 2 ^ 48)
        ∙ bit_or-disjoint 48 (trailing % 2 ^ 14) (line % 2 ^ 32) (omega arith))

-- from the numbers to the record
parts_eq :
    (x : ℕ) (l c t b s : ℕ)
    → x % 2 ^ 32 ≡ l
    → x / 2 ^ 32 % 2 ^ 16 ≡ c
    → x / 2 ^ 48 % 2 ^ 14 ≡ t
    → x / 2 ^ 62 % 2 ≡ b
    → x / 2 ^ 63 % 2 ≡ s
    → fields x
      ≡ record { line = l; comments = c; trailing = t; blank = not (b == 0); source = not (s == 0) }
parts_eq x l c t b s el ec et eb es = fields-parts x ∙ rw (el, ec, et, eb, es) refl

module _ (x : ℕ) (small : x < 2 ^ 64) where
  line_written : (n : ℕ) → n < 2 ^ 32 → fields (set_end_line x n) ≡ record (fields x) { line = n }
  line_written n h =
      ap fields (set_end_line-value x small n h)
      ∙ parts_eq (x / 2 ^ 32 * 2 ^ 32 + n) n (x / 2 ^ 32 % 2 ^ 16) (x / 2 ^ 48 % 2 ^ 14)
          (x / 2 ^ 62 % 2) (x / 2 ^ 63 % 2) (omega arith) (omega arith) (omega arith) (omega arith)
          (omega arith)
      ∙ ap (λ (t : Fields). record t { line = n }) (sym (fields-parts x))

  pub comments_written :
      (n : ℕ)
      → fields (set_comment_breaks x n) ≡ record (fields x) { comments = clamped n comment_mask }
  comments_written n =
      let cut : clamped n comment_mask < 2 ^ 16 = omega arith in
      ap fields (set_comment_breaks-value x small n)
      ∙ parts_eq (joined 32 16 (x / 2 ^ 48) (clamped n comment_mask) (x % 2 ^ 32)) (x % 2 ^ 32)
          (clamped n comment_mask) (x / 2 ^ 48 % 2 ^ 14) (x / 2 ^ 62 % 2) (x / 2 ^ 63 % 2)
          (omega arith) (omega arith) (omega arith) (omega arith) (omega arith)
      ∙ ap (λ (t : Fields). record t { comments = clamped n comment_mask }) (sym (fields-parts x))

  trailing_written :
      (n : ℕ)
      → fields (set_trailing_breaks x n) ≡ record (fields x) { trailing = clamped n trailing_mask }
  trailing_written n =
      let cut : clamped n trailing_mask < 2 ^ 14 = omega arith in
      ap fields (set_trailing_breaks-value x small n)
      ∙ parts_eq (joined 48 14 (x / 2 ^ 62) (clamped n trailing_mask) (x % 2 ^ 48)) (x % 2 ^ 32)
          (x / 2 ^ 32 % 2 ^ 16) (clamped n trailing_mask) (x / 2 ^ 62 % 2) (x / 2 ^ 63 % 2)
          (omega arith) (omega arith) (omega arith) (omega arith) (omega arith)
      ∙ ap (λ (t : Fields). record t { trailing = clamped n trailing_mask }) (sym (fields-parts x))

  blank_true : fields (set_blank_line_above x true) ≡ record (fields x) { blank = true }
  blank_true =
      ap fields (set_blank_line_above-value x small true)
      ∙ parts_eq (joined 62 1 (x / 2 ^ 63) 1 (x % 2 ^ 62)) (x % 2 ^ 32) (x / 2 ^ 32 % 2 ^ 16)
          (x / 2 ^ 48 % 2 ^ 14) 1 (x / 2 ^ 63 % 2) (omega arith) (omega arith) (omega arith)
          (omega arith) (omega arith)
      ∙ ap (λ (t : Fields). record t { blank = true }) (sym (fields-parts x))

  blank_false : fields (set_blank_line_above x false) ≡ record (fields x) { blank = false }
  blank_false =
      ap fields (set_blank_line_above-value x small false)
      ∙ parts_eq (joined 62 1 (x / 2 ^ 63) 0 (x % 2 ^ 62)) (x % 2 ^ 32) (x / 2 ^ 32 % 2 ^ 16)
          (x / 2 ^ 48 % 2 ^ 14) 0 (x / 2 ^ 63 % 2) (omega arith) (omega arith) (omega arith)
          (omega arith) (omega arith)
      ∙ ap (λ (t : Fields). record t { blank = false }) (sym (fields-parts x))

  source_marked : fields (mark_from_source x) ≡ record (fields x) { source = true }
  source_marked =
      ap fields (mark_from_source-value x small)
      ∙ parts_eq (joined 63 1 0 1 (x % 2 ^ 63)) (x % 2 ^ 32) (x / 2 ^ 32 % 2 ^ 16)
          (x / 2 ^ 48 % 2 ^ 14) (x / 2 ^ 62 % 2) 1 (omega arith) (omega arith) (omega arith)
          (omega arith) (omega arith)
      ∙ ap (λ (t : Fields). record t { source = true }) (sym (fields-parts x))

  source_cleared : fields (detached x) ≡ record (fields x) { source = false }
  source_cleared =
      ap fields (detached-value x small)
      ∙ parts_eq (joined 63 1 0 0 (x % 2 ^ 63)) (x % 2 ^ 32) (x / 2 ^ 32 % 2 ^ 16)
          (x / 2 ^ 48 % 2 ^ 14) (x / 2 ^ 62 % 2) 0 (omega arith) (omega arith) (omega arith)
          (omega arith) (omega arith)
      ∙ ap (λ (t : Fields). record t { source = false }) (sym (fields-parts x))

  pub blank_written :
      (b : Bool) → fields (set_blank_line_above x b) ≡ record (fields x) { blank = b }
  blank_written true = blank_true
  blank_written false = blank_false

  -- On a word of 64 bits each of the five fields is written without a change to the others: the line
  -- to any int32, the two counts cut at the largest number their bits hold, both flags either way.
  pub spans_fields :
      (n : ℕ) (b : Bool)
      → n < 2 ^ 32
      → (fields (set_end_line x n) ≡ record (fields x) { line = n })
        × (fields (set_comment_breaks x n)
            ≡ record (fields x) { comments = clamped n comment_mask })
        × (fields (set_trailing_breaks x n)
            ≡ record (fields x) { trailing = clamped n trailing_mask })
        × (fields (set_blank_line_above x b) ≡ record (fields x) { blank = b })
        × (fields (mark_from_source x) ≡ record (fields x) { source = true })
        × (fields (detached x) ≡ record (fields x) { source = false })
  spans_fields n b h = (
    line_written n h,
    comments_written n,
    trailing_written n,
    blank_written b,
    source_marked,
    source_cleared,
  )

-- The word of a token that was just cut holds the line its text ends on and the breaks behind it, and
-- no comments, no blank line and no source.
pub extent_spans-fields :
    (line trailing : ℕ)
    → fields (extent_spans line trailing) ≡ record {
      line = line % 2 ^ 32;
      comments = 0;
      trailing = trailing % 2 ^ 14;
      blank = false;
      source = false;
    }
extent_spans-fields line trailing =
    ap fields (extent_spans-value line trailing)
    ∙ parts_eq (trailing % 2 ^ 14 * 2 ^ 48 + line % 2 ^ 32) (line % 2 ^ 32) 0 (trailing % 2 ^ 14) 0
        0 (omega arith) (omega arith) (omega arith) (omega arith) (omega arith)
