-- ===== src/Token/Make.antt =====
-- token/token.go: `Token` and the functions that build one, `Assemble`, `Make` and the ones named for a
-- type. The pointer forms (`New`, `SequenceEntry` and the others) hold the same token.
pub mod Placed
use go_yaml.Base.{ℕ, ◌+◌, ◌-◌, ◌^◌, ltb, if◌then◌else◌, List, [], ◌∷◌, Bytes, codes}
use go_yaml.Token.Kind.{
  TokenType, alias, anchor, collect_entry, comment, directive, document_end, document_header,
  double_quote, folded, invalid, literal, mapping_end, mapping_key, mapping_start, mapping_value,
  merge_key, sequence_end, sequence_entry, sequence_start, single_quote, space, string, tag,
}
use go_yaml.Token.Keyword.{schema12}
use go_yaml.Token.Origin.{Extent, measure_origin, extent_of}
use go_yaml.Token.Position.{Position}
use go_yaml.Token.Scalar.{scalar_type}
use go_yaml.Token.Spans.{extent_spans}

pub record Token : Type 0 where
  pub typ : TokenType
  pub value : Bytes
  pub end : ℕ
  pub position : Position
  pub spans : ℕ

unfoldable pub assemble : TokenType → Bytes → Position → Extent → Token
unfolding extent_spans
assemble typ value pos ext = record {
  typ = typ;
  value = value;
  end = ext.end;
  position = pos;
  spans = extent_spans ext.end_line ext.trailing;
}

-- `ext := MeasureOrigin(org, pos)` and the token of that extent
unfoldable pub measured : TokenType → Bytes → Bytes → Position → Token
unfolding assemble measure_origin
measured typ value org pos = assemble typ value pos (measure_origin org pos)

unfoldable pub make : Bytes → Bytes → Position → Token
unfolding measured scalar_type
make value org pos = measured (scalar_type value schema12) value org pos

-- `uint64(line)` of an int32
unfoldable pub sign_extended : ℕ → ℕ
sign_extended line = if ltb line (2 ^ 31) then line else line + (2 ^ 64 - 2 ^ 32)

-- a token that is its own text: `extentOf(value, pos)` and `uint64(pos.Line)`
unfoldable pub placed : TokenType → Bytes → Position → Token
unfolding extent_of sign_extended
placed typ value pos = record {
  typ = typ;
  value = value;
  end = extent_of value pos;
  position = pos;
  spans = sign_extended pos.line;
}

unfoldable pub make_string : Bytes → Bytes → Position → Token
unfolding measured
make_string value org pos = measured string value org pos

unfoldable pub make_sequence_entry : Bytes → Position → Token
unfolding measured
make_sequence_entry org pos = measured sequence_entry (b'-' ∷ []) org pos

unfoldable pub make_mapping_key : Position → Token
unfolding placed
make_mapping_key pos = placed mapping_key (b'?' ∷ []) pos

unfoldable pub make_mapping_value : Position → Token
unfolding placed
make_mapping_value pos = placed mapping_value (b':' ∷ []) pos

unfoldable pub make_collect_entry : Bytes → Position → Token
unfolding measured
make_collect_entry org pos = measured collect_entry (b',' ∷ []) org pos

unfoldable pub make_sequence_start : Bytes → Position → Token
unfolding measured
make_sequence_start org pos = measured sequence_start (b'[' ∷ []) org pos

unfoldable pub make_sequence_end : Bytes → Position → Token
unfolding measured
make_sequence_end org pos = measured sequence_end (b']' ∷ []) org pos

unfoldable pub make_mapping_start : Bytes → Position → Token
unfolding measured
make_mapping_start org pos = measured mapping_start (b'{' ∷ []) org pos

unfoldable pub make_mapping_end : Bytes → Position → Token
unfolding measured
make_mapping_end org pos = measured mapping_end (b'}' ∷ []) org pos

unfoldable pub make_comment : Bytes → Bytes → Position → Token
unfolding measured
make_comment value org pos = measured comment value org pos

unfoldable pub make_anchor : Bytes → Position → Token
unfolding measured
make_anchor org pos = measured anchor (b'&' ∷ []) org pos

unfoldable pub make_alias : Bytes → Position → Token
unfolding measured
make_alias org pos = measured alias (b'*' ∷ []) org pos

unfoldable pub make_tag : Bytes → Bytes → Position → Token
unfolding measured
make_tag value org pos = measured tag value org pos

unfoldable pub make_literal : Bytes → Bytes → Position → Token
unfolding measured
make_literal value org pos = measured literal value org pos

unfoldable pub make_folded : Bytes → Bytes → Position → Token
unfolding measured
make_folded value org pos = measured folded value org pos

unfoldable pub make_single_quote : Bytes → Bytes → Position → Token
unfolding measured
make_single_quote value org pos = measured single_quote value org pos

unfoldable pub make_double_quote : Bytes → Bytes → Position → Token
unfolding measured
make_double_quote value org pos = measured double_quote value org pos

unfoldable pub make_directive : Bytes → Position → Token
unfolding measured
make_directive org pos = measured directive (b'%' ∷ []) org pos

unfoldable pub make_merge_key : Bytes → Position → Token
unfolding measured
make_merge_key org pos = measured merge_key (codes "<<") org pos

unfoldable pub make_document_header : Bytes → Position → Token
unfolding measured
make_document_header org pos = measured document_header (codes "---") org pos

unfoldable pub make_document_end : Bytes → Position → Token
unfolding measured
make_document_end org pos = measured document_end (codes "...") org pos

unfoldable pub make_space : Position → Token
unfolding placed
make_space pos = placed space (b' ' ∷ []) pos

unfoldable pub make_invalid : Bytes → Position → Token
unfolding measured
make_invalid org pos = measured invalid org org pos
