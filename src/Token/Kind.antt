-- ===== src/Token/Kind.antt =====
-- token/token.go: the types of tokens, and what follows from a type alone.
use go_yaml.Base.{Bool, true, false, not, if◌then◌else◌}

pub data TokenType : Type 0 where
  unknown document_header document_end sequence_entry mapping_key mapping_value : TokenType
  merge_key collect_entry sequence_start sequence_end mapping_start mapping_end : TokenType
  comment anchor alias tag literal folded single_quote double_quote directive space : TokenType
  null implicit_null infinity nan integer binary_integer octet_integer hex_integer : TokenType
  float string bool invalid : TokenType

pub data Indicator : Type 0 where
  not_indicator block_structure flow_collection comment_indicator node_property : Indicator
  block_scalar quoted_scalar directive_indicator invalid_use_of_reserved : Indicator

pub data CharacterType : Type 0 where
  indicator_type white_space miscellaneous escaped invalid_type : CharacterType

unfoldable pub indicator : TokenType → Indicator
indicator TokenType.sequence_entry = block_structure
indicator TokenType.mapping_key = block_structure
indicator TokenType.mapping_value = block_structure
indicator TokenType.collect_entry = flow_collection
indicator TokenType.sequence_start = flow_collection
indicator TokenType.sequence_end = flow_collection
indicator TokenType.mapping_start = flow_collection
indicator TokenType.mapping_end = flow_collection
indicator TokenType.comment = comment_indicator
indicator TokenType.anchor = node_property
indicator TokenType.alias = node_property
indicator TokenType.tag = node_property
indicator TokenType.literal = block_scalar
indicator TokenType.folded = block_scalar
indicator TokenType.single_quote = quoted_scalar
indicator TokenType.double_quote = quoted_scalar
indicator TokenType.directive = directive_indicator
indicator _ = not_indicator

is_not_indicator : Indicator → Bool
is_not_indicator not_indicator = true
is_not_indicator _ = false

unfoldable pub is_integer : TokenType → Bool
is_integer integer = true
is_integer binary_integer = true
is_integer octet_integer = true
is_integer hex_integer = true
is_integer _ = false

unfoldable pub character_type : TokenType → CharacterType
unfolding indicator is_not_indicator
character_type TokenType.space = white_space
character_type TokenType.invalid = invalid_type
character_type t = if not (is_not_indicator (indicator t)) then indicator_type else miscellaneous
