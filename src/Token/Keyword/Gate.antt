-- ===== src/Token/Keyword/Gate.antt =====
-- The length gate in front of the keyword tables, and the meaning of the booleans.
use go_yaml.Base.{
  Bool, true, false, ◌&&◌, Option, none, some, [], ◌∷◌, ◌≡◌, refl, sym, ◌∙◌, arith, if◌then◌else◌,
  length, Bytes, equal_iff, is_some,
}
use go_yaml.Token.Kind.{TokenType, bool}
use go_yaml.Token.Keyword.{
  Schema, schema11, schema12, Keywords, lookup, keyword_types, is_reserved_length, keyword_type,
  parse_bool,
}

-- every entry of a table passes a test
unfoldable pub every : (Bytes → TokenType → Bool) → Keywords → Bool
every p [] = true
every p ((k, t) ∷ ks) = p k t && every p ks

pub every_sound :
    (p : Bytes → TokenType → Bool) (ks : Keywords) (s : Bytes) {t : TokenType}
    → every p ks ≡ true
    → lookup s ks ≡ some t
    → p s t ≡ true
unfolding every lookup
every_sound p [] s h e = cc
every_sound p ((k, u) ∷ ks) s {t} h e = ground (arith, equal_iff k s, every_sound p ks s {t = t})

gate_passes :
    (schema : Schema)
    → every (λ k _. is_reserved_length (length k) schema) (keyword_types schema) ≡ true
unfolding every is_reserved_length keyword_types
gate_passes schema12 = refl
gate_passes schema11 = refl

gated :
    (b : Bool) (o : Option TokenType)
    → ((t : TokenType) → o ≡ some t → b ≡ true)
    → (if b then o else none) ≡ o
gated true o h = refl
gated false none h = refl
gated false (some t) h = cc (h t refl)

-- The length gate never hides a keyword: with it and without it, a value has the same keyword type
-- under either schema.
pub keyword_type-lookup :
    (value : Bytes) (schema : Schema)
    → keyword_type value schema ≡ lookup value (keyword_types schema)
unfolding keyword_type
keyword_type-lookup value schema =
    gated _ _
      (λ t. every_sound (λ k _. is_reserved_length (length k) schema) _ value (gate_passes schema))

is_bool : TokenType → Bool
is_bool bool = true
is_bool _ = false

some_of : {A : Type 0} (o : Option A) → is_some o ≡ true → (a : A) × (o ≡ some a)
some_of (some a) h = (a, refl)
some_of none h = cc

bool_means : Bytes → TokenType → Bool
unfolding is_bool parse_bool
bool_means k t = if is_bool t then is_some (parse_bool k) else true

bools_mean : (schema : Schema) → every bool_means (keyword_types schema) ≡ true
unfolding every bool_means keyword_types
bools_mean schema12 = refl
bools_mean schema11 = refl

-- A plain scalar that either schema types as a boolean has a meaning.
pub parse_bool-total :
    (value : Bytes) (schema : Schema)
    → keyword_type value schema ≡ some bool
    → (b : Bool) × (parse_bool value ≡ some b)
parse_bool-total value schema h =
    let found = sym (keyword_type-lookup value schema) ∙ h in
    let means = every_sound bool_means (keyword_types schema) value (bools_mean schema) found in
    unfold bool_means in some_of (parse_bool value) means
