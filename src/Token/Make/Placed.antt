-- ===== src/Token/Make/Placed.antt =====
-- The tokens of token/token.go that are built without measuring a text.
use go_yaml.Base.{ℕ, ◌+◌, ◌-◌, ◌%◌, ◌^◌, ◌<◌, false, [], ◌∷◌, Bytes, ◌≡◌, refl, ap, sym, ◌∙◌, arith}
use go_yaml.Token.Kind.{TokenType}
use go_yaml.Token.Make.{Token, placed, measured, assemble, sign_extended}
use go_yaml.Token.Origin.{
  measure_origin, extent_of, is_blank, leading_run, trailing_run, trailing_from, inner_breaks,
}
use go_yaml.Token.Position.{Position}
use go_yaml.Token.Spans.{extent_spans}
use go_yaml.Token.Spans.Fields.{fields, extent_spans-value, extent_spans-fields}

abbrev built : TokenType → Bytes → ℕ → Position → ℕ → Token
built typ value end pos spans = record {
  typ = typ;
  value = value;
  end = end;
  position = pos;
  spans = spans;
}

placed_eq :
    (typ : TokenType) (value : Bytes) (pos : Position)
    → placed typ value pos ≡ built typ value (extent_of value pos) pos (sign_extended pos.line)
unfolding placed
placed_eq typ value pos = refl

assemble_eq :
    (typ : TokenType) (value : Bytes) (pos : Position) (end line trailing : ℕ)
    → assemble typ value pos (record { end = end; end_line = line; trailing = trailing })
      ≡ built typ value end pos (extent_spans line trailing)
unfolding assemble
assemble_eq typ value pos end line trailing = refl

measured_eq :
    (typ : TokenType) (value org : Bytes) (pos : Position)
    → measured typ value org pos ≡ assemble typ value pos (measure_origin org pos)
unfolding measured
measured_eq typ value org pos = refl

module _ (c : ℕ) (pos : Position) (text : is_blank c ≡ false) where
  no_leading : leading_run (c ∷ []) ≡ 0
  unfolding leading_run
  no_leading = rw text refl

  no_trailing : trailing_run (c ∷ []) ≡ (1, 0)
  unfolding trailing_run trailing_from
  no_trailing = rw text refl

  no_breaks : inner_breaks (c ∷ []) 1 0 ≡ 0
  unfolding inner_breaks is_blank
  no_breaks = ground arith

  one_byte_extent :
      measure_origin (c ∷ []) pos
      ≡ record { end = extent_of (c ∷ []) pos; end_line = (pos.line + 0) % 2 ^ 32; trailing = 0 }
  unfolding measure_origin extent_of
  one_byte_extent = rw (no_leading, no_trailing, no_breaks) refl

  one_byte_spans :
      pos.line < 2 ^ 31 → extent_spans ((pos.line + 0) % 2 ^ 32) 0 ≡ sign_extended pos.line
  unfolding sign_extended
  one_byte_spans h = extent_spans-value ((pos.line + 0) % 2 ^ 32) 0 ∙ ground arith

  -- A token that is one byte, and no blank, is the same token built from its place as measured from
  -- its text, on any line that is not negative.
  pub placed-measured :
      (typ : TokenType)
      → pos.line < 2 ^ 31
      → placed typ (c ∷ []) pos ≡ measured typ (c ∷ []) (c ∷ []) pos
  placed-measured typ h =
      placed_eq typ (c ∷ []) pos
      ∙ ap (built typ (c ∷ []) (extent_of (c ∷ []) pos) pos) (sym (one_byte_spans h))
      ∙ sym (assemble_eq typ (c ∷ []) pos (extent_of (c ∷ []) pos) ((pos.line + 0) % 2 ^ 32) 0)
      ∙ ap (assemble typ (c ∷ []) pos) (sym one_byte_extent)
      ∙ sym (measured_eq typ (c ∷ []) (c ∷ []) pos)

-- A token measured from a text reads back the line its text ends on and the rest that the number of the
-- breaks behind it leaves by 16384, so that 16384 of them read as none, with no comments, no blank line
-- and no source marked.
pub fields-measured :
    (typ : TokenType) (value org : Bytes) (pos : Position)
    → fields (measured typ value org pos).spans ≡ record {
      line = (measure_origin org pos).end_line;
      comments = 0;
      trailing = (measure_origin org pos).trailing % 2 ^ 14;
      blank = false;
      source = false;
    }
unfolding measured assemble measure_origin
fields-measured typ value org pos =
    let ext = measure_origin org pos in
    extent_spans-fields ext.end_line ext.trailing
    ∙ rw
        (wrapped
          (pos.line + inner_breaks org ((trailing_run org).0 - leading_run org) (leading_run org)))
        refl
  where
    wrapped : (n : ℕ) → n % 2 ^ 32 % 2 ^ 32 ≡ n % 2 ^ 32
    wrapped n = omega arith
