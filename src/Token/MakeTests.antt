-- ===== src/Token/MakeTests.antt =====
-- Tokens measured and packed, at concrete texts: token/token.go.
use go_yaml.Base.{ℕ, ◌+◌, ◌*◌, ◌%◌, ◌^◌, ◌≡◌, refl, arith, [], ◌∷◌, Bytes, codes, true, false}
use go_yaml.Token.Kind.{mapping_key, string}
use go_yaml.Token.Make.{make_string, make_mapping_key, placed, measured}
use go_yaml.Token.Make.Placed.{placed-measured, fields-measured}
use go_yaml.Token.Origin.{
  measure_origin, leading_run, is_blank, inner_breaks, trailing_run, trailing_from, break_at,
}
use go_yaml.Token.Origin.Breaks.{measure_origin-breaks}
use go_yaml.Token.Origin.Sums.{breaks_before}
use go_yaml.Token.Position.{Position, at, offset}
use go_yaml.Token.Spans.{
  set_end_line, set_comment_breaks, set_trailing_breaks, set_blank_line_above, mark_from_source,
  detached, comment_mask, trailing_mask, end_line, trailing_breaks,
}
use go_yaml.Token.Spans.Fields.{fields, clamped, spans_fields}

-- " a\r\nb\n\n"
abbrev origin : Bytes
origin = 32 ∷ 97 ∷ 13 ∷ 10 ∷ 98 ∷ 10 ∷ 10 ∷ []

abbrev place : Position
place = at 3 2 1 0

reaches :
    (end_line (make_string (codes "a b") origin place).spans ≡ 4)
    × (trailing_breaks (make_string (codes "a b") origin place).spans ≡ 2)
    × ((make_string (codes "a b") origin place).end ≡ 7)
    × ((make_mapping_key place).end ≡ 2)
unfolding make_string make_mapping_key end_line trailing_breaks at inner_breaks trailing_run
    trailing_from is_blank leading_run break_at offset
reaches = (refl, refl, refl, refl)

-- from a document, a blank line above, two breaks behind, ending on line 5
abbrev word : ℕ
word = 2 ^ 63 + 2 ^ 62 + 2 * 2 ^ 48 + 5

spans_fields_example :
    (fields (set_end_line word 70000) ≡ record (fields word) { line = 70000 })
    × (fields (set_comment_breaks word 70000)
        ≡ record (fields word) { comments = clamped 70000 comment_mask })
    × (fields (set_trailing_breaks word 70000)
        ≡ record (fields word) { trailing = clamped 70000 trailing_mask })
    × (fields (set_blank_line_above word false) ≡ record (fields word) { blank = false })
    × (fields (mark_from_source word) ≡ record (fields word) { source = true })
    × (fields (detached word) ≡ record (fields word) { source = false })
spans_fields_example = spans_fields word (omega arith) 70000 false (omega arith)

measure_origin-breaks_example :
    (spanned : ℕ) × ((measure_origin origin place).end_line ≡ (place.line + spanned) % 2 ^ 32)
    × ((breaks_before origin (leading_run origin)
            + spanned
            + (measure_origin origin place).trailing)
          % 2 ^ 32
        ≡ 3)
unfolding leading_run is_blank
measure_origin-breaks_example = measure_origin-breaks origin place (omega arith)

placed-measured_example :
    placed mapping_key (codes "?") place ≡ measured mapping_key (codes "?") (codes "?") place
unfolding is_blank at
placed-measured_example = placed-measured b'?' place refl mapping_key (omega arith)

fields-measured_example : fields (measured string (codes "a b") origin place).spans ≡ record {
  line = (measure_origin origin place).end_line;
  comments = 0;
  trailing = (measure_origin origin place).trailing % 2 ^ 14;
  blank = false;
  source = false;
}
fields-measured_example = fields-measured string (codes "a b") origin place
