-- ===== src/Parser/Version.antt =====
-- parser/version.go and the YAML directive of parser/directives.go: which schema a document is read under,
-- and the tokens that were cut before it was known.
use go_yaml.Base.{
  ℕ, suc, Bool, true, false, not, ◌||◌, Option, none, some, List, [], ◌∷◌, ◌++◌, if◌then◌else◌,
  take, drop, Bytes, codes, equal, one_of,
}
use go_yaml.Token.Kind.{
  TokenType, literal, folded, null, infinity, nan, integer, binary_integer, octet_integer,
  hex_integer, float, string, bool,
}
use go_yaml.Token.Keyword.{Schema, schema12, schema11}
use go_yaml.Token.Scalar.{scalar_type}

-- a `YAMLVersion` is its text
unfoldable pub yaml_versions : List Bytes
yaml_versions = codes "1.0" ∷ codes "1.1" ∷ codes "1.2" ∷ codes "1.3" ∷ []

unfoldable pub version_schema : Bytes → Schema
version_schema v = if equal v (codes "1.0") || equal v (codes "1.1") then schema11 else schema12

unfoldable pub resolved_by_any_schema : TokenType → Bool
resolved_by_any_schema string = true
resolved_by_any_schema bool = true
resolved_by_any_schema integer = true
resolved_by_any_schema binary_integer = true
resolved_by_any_schema octet_integer = true
resolved_by_any_schema hex_integer = true
resolved_by_any_schema float = true
resolved_by_any_schema infinity = true
resolved_by_any_schema nan = true
resolved_by_any_schema null = true
resolved_by_any_schema _ = false

unfoldable pub is_block_header : TokenType → Bool
is_block_header literal = true
is_block_header folded = true
is_block_header _ = false

-- the parts of a raw token that are read or written here
pub record Raw : Type 0 where
  pub typ : TokenType
  pub value : Bytes

-- The turn of the loop for a raw token: what it becomes, and whether the next one is content.
unfoldable pub retype_token : Schema → Bool → Raw → Raw × Bool
retype_token schema content raw =
    if content
    then (raw, false)
    else if is_block_header raw.typ
    then (raw, true)
    else if not (resolved_by_any_schema raw.typ)
    then (raw, false)
    else (record { typ = scalar_type raw.value schema; value = raw.value }, false)

-- The loop, over the tokens from its first on; `none` is a token that is nil.
unfoldable pub retype : Schema → Bool → List (Option Raw) → List (Option Raw)
retype schema content [] = []
retype schema content (none ∷ ts) = none ∷ retype schema content ts
retype schema content (some raw ∷ ts) =
    let (after, next) = retype_token schema content raw in some after ∷ retype schema next ts

-- The tokens by their sequence, from the one after `from` on, which is `start`.
unfoldable pub retype_ahead : Schema → ℕ → List (Option Raw) → List (Option Raw)
retype_ahead schema start tokens = take start tokens ++ retype schema false (drop start tokens)

-- What of the parser has to do with versions: the version declared, empty where none is, the one of the
-- options, the schema of the scanner, the tokens, and the sequences that the reader stands at.
pub record Parser : Type 0 where
  pub yaml_version : Bytes
  pub option_version : Bytes
  pub scan_schema : Schema
  pub tokens : List (Option Raw)
  pub reader_seq : ℕ
  pub not_taken : Option ℕ

unfoldable pub schema_in_force : Parser → Schema
schema_in_force p =
    if not (equal p.yaml_version [])
    then version_schema p.yaml_version
    else version_schema p.option_version

-- `from` and one: the sequence of the reader, or of the first token the descent has not taken
unfoldable pub first_ahead : Option ℕ → ℕ → ℕ
first_ahead none seq = seq
first_ahead (some s) seq = s

unfoldable pub end_version_scope : Parser → Parser
end_version_scope p =
    let schema = version_schema p.option_version in
    if equal p.yaml_version [] then p else record {
      yaml_version = [];
      option_version = p.option_version;
      scan_schema = schema;
      tokens = retype_ahead schema (first_ahead p.not_taken p.reader_seq) p.tokens;
      reader_seq = p.reader_seq;
      not_taken = p.not_taken;
    }

pub data VersionError : Type 0 where
  unknown_version specified_twice : VersionError

-- The directive with the version's text and the sequence of its token.
unfoldable pub declare_version : Bytes → ℕ → Parser → Parser × Option VersionError
declare_version value seq p =
    if not (one_of yaml_versions value)
    then (p, some unknown_version)
    else if not (equal p.yaml_version [])
    then (p, some specified_twice)
    else (
      record {
        yaml_version = value;
        option_version = p.option_version;
        scan_schema = version_schema value;
        tokens = retype_ahead (version_schema value) (suc seq) p.tokens;
        reader_seq = p.reader_seq;
        not_taken = p.not_taken;
      },
      none,
    )
