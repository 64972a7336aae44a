-- ===== src/Token/Keyword.antt =====
-- token/token.go: the schemas, the reserved keywords of each, and the test on a value's length that
-- stands in front of the keyword table.
pub mod Gate
use Prim.Native.Nat.{bit_or}
use Prim.Native.String.{String}
use go_yaml.Base.{
  ℕ, ◌/◌, ◌%◌, ◌^◌, Bool, true, false, not, Option, none, some, List, [], ◌∷◌, ◌++◌, map, leb, ltb,
  ◌==◌, if◌then◌else◌, length, Bytes, codes, equal,
}
use go_yaml.Token.Kind.{TokenType, null, bool, infinity, nan}

pub data Schema : Type 0 where
  schema12 schema11 : Schema

-- A Go map from texts to types, as the list of its entries.
abbrev pub Keywords : Type 0
Keywords = List (Bytes × TokenType)

unfoldable pub lookup : Bytes → Keywords → Option TokenType
unfolding equal
lookup s [] = none
lookup s ((k, t) ∷ ks) = if equal k s then some t else lookup s ks

abbrev entries : TokenType → List String → Keywords
entries t [] = []
entries t (k ∷ ks) = (codes k, t) ∷ entries t ks

abbrev reserved_null_keywords : List String
reserved_null_keywords = "null" ∷ "Null" ∷ "NULL" ∷ "~" ∷ []

abbrev reserved_bool_keywords : List String
reserved_bool_keywords = "true" ∷ "True" ∷ "TRUE" ∷ "false" ∷ "False" ∷ "FALSE" ∷ []

abbrev reserved_legacy_bool_keywords : List String
reserved_legacy_bool_keywords =
    "y" ∷ "Y" ∷ "yes" ∷ "Yes" ∷ "YES" ∷ "n" ∷ "N" ∷ "no" ∷ "No" ∷ "NO" ∷ "on" ∷ "On" ∷ "ON" ∷ "off"
    ∷ "Off" ∷ "OFF" ∷ []

abbrev reserved_inf_keywords : List String
reserved_inf_keywords =
    ".inf" ∷ ".Inf" ∷ ".INF" ∷ "-.inf" ∷ "-.Inf" ∷ "-.INF" ∷ "+.inf" ∷ "+.Inf" ∷ "+.INF" ∷ []

abbrev reserved_nan_keywords : List String
reserved_nan_keywords = ".nan" ∷ ".NaN" ∷ ".NAN" ∷ []

-- The tables that `init` fills. No two of the lists share a text, so the order is immaterial.
unfoldable pub reserved_keyword_types : Keywords
reserved_keyword_types =
    entries null reserved_null_keywords
    ++ entries bool reserved_bool_keywords
    ++ entries infinity reserved_inf_keywords
    ++ entries nan reserved_nan_keywords

unfoldable pub reserved11_keyword_types : Keywords
unfolding reserved_keyword_types
reserved11_keyword_types = reserved_keyword_types ++ entries bool reserved_legacy_bool_keywords

unfoldable pub reserved_enc_keyword_types : Keywords
reserved_enc_keyword_types =
    entries null reserved_null_keywords
    ++ entries bool reserved_bool_keywords
    ++ entries bool reserved_legacy_bool_keywords
    ++ entries infinity reserved_inf_keywords
    ++ entries nan reserved_nan_keywords

unfoldable pub keyword_types : Schema → Keywords
unfolding reserved_keyword_types reserved11_keyword_types
keyword_types schema11 = reserved11_keyword_types
keyword_types schema12 = reserved_keyword_types

-- `for keyword := range table { if len(keyword) < 64 { lengths |= 1 << len(keyword) } }`
unfoldable pub keyword_lengths : Keywords → ℕ
keyword_lengths [] = 0
keyword_lengths ((k, t) ∷ ks) =
    let rest = keyword_lengths ks in if ltb (length k) 64 then bit_or rest (2 ^ length k) else rest

-- `mask & (1<<n) != 0`
abbrev has_bit : ℕ → ℕ → Bool
has_bit mask n = not (mask / 2 ^ n % 2 == 0)

unfoldable pub is_reserved_length : ℕ → Schema → Bool
unfolding keyword_lengths keyword_types
is_reserved_length n schema =
    if leb 64 n then false else has_bit (keyword_lengths (keyword_types schema)) n

-- the keyword test of `ScalarType`, with the length gate in front
unfoldable pub keyword_type : Bytes → Schema → Option TokenType
unfolding is_reserved_length lookup keyword_types
keyword_type value schema =
    if is_reserved_length (length value) schema then lookup value (keyword_types schema) else none

-- A `Bool` map: what each spelling of a boolean means, under either schema.
entries_bool : Bool → List String → List (Bytes × Bool)
entries_bool b [] = []
entries_bool b (k ∷ ks) = (codes k, b) ∷ entries_bool b ks

bool_values : List (Bytes × Bool)
unfolding entries_bool
bool_values =
    entries_bool true ("true" ∷ "True" ∷ "TRUE" ∷ [])
    ++ entries_bool false ("false" ∷ "False" ∷ "FALSE" ∷ [])
    ++ entries_bool true ("y" ∷ "Y" ∷ "yes" ∷ "Yes" ∷ "YES" ∷ "on" ∷ "On" ∷ "ON" ∷ [])
    ++ entries_bool false ("n" ∷ "N" ∷ "no" ∷ "No" ∷ "NO" ∷ "off" ∷ "Off" ∷ "OFF" ∷ [])

lookup_bool : Bytes → List (Bytes × Bool) → Option Bool
unfolding equal
lookup_bool s [] = none
lookup_bool s ((k, b) ∷ ks) = if equal k s then some b else lookup_bool s ks

unfoldable pub parse_bool : Bytes → Option Bool
unfolding bool_values lookup_bool
parse_bool text = lookup_bool text bool_values
