-- ===== src/Parser/Retype.antt =====
-- Tokens of parser/version.go cut under one schema and typed again under another.
use go_yaml.Parser.Version.{
  resolved_by_any_schema, is_block_header, Raw, retype_token, retype, retype_ahead,
}
use go_yaml.Base.{
  ℕ, Bool, true, false, not, ◌&&◌, Option, none, some, List, [], ◌∷◌, ◌++◌, if◌then◌else◌, length,
  drop-length-append, take, Bytes, ◌≡◌, refl, ap, sym, ◌∙◌, arith, Bool-cases, Option-cases, inl,
  inr,
}
use go_yaml.Token.Kind.{TokenType, literal, folded, comment, string}
use go_yaml.Token.Keyword.{Schema, schema12, schema11, keyword_types, keyword_type}
use go_yaml.Token.Keyword.Gate.{every, every_sound, keyword_type-lookup}
use go_yaml.Token.Scalar.{scalar_number, number_type, type_of_number, scalar_type}
use go_yaml.Token.Number.{NumberType, may_be_number}

-- What stands on the tape: a plain scalar, a token whose type no text decides, a block scalar's header
-- with its content, and the comment between them where comments are kept and one closes the header's
-- line, or a token that is nil.
pub data Cut : Type 0 where
  plain : Bytes → Cut
  other : Raw → Cut
  block : TokenType → Bytes → Option Bytes → Bytes → Cut
  gone : Cut

abbrev pub raw : TokenType → Bytes → Option Raw
raw typ value = some (record { typ = typ; value = value })

abbrev pub commented : Option Bytes → List (Option Raw) → List (Option Raw)
commented none ts = ts
commented (some text) ts = raw comment text ∷ ts

unfoldable pub cut : Schema → List Cut → List (Option Raw)
cut s [] = []
cut s (plain text ∷ cs) = raw (scalar_type text s) text ∷ cut s cs
cut s (other token ∷ cs) = some token ∷ cut s cs
cut s (block header mark note content ∷ cs) =
    raw header mark ∷ commented note (raw string content ∷ cut s cs)
cut s (gone ∷ cs) = none ∷ cut s cs

-- The types are those of the kind, and the content of a block scalar stands directly behind its header.
unfoldable pub fits : List Cut → Bool
fits [] = true
fits (plain text ∷ cs) = fits cs
fits (other token ∷ cs) =
    not (is_block_header token.typ) && not (resolved_by_any_schema token.typ) && fits cs
fits (block header mark none content ∷ cs) = is_block_header header && fits cs
fits (block header mark (some note) content ∷ cs) = false
fits (gone ∷ cs) = fits cs

type_of_number-resolved : (t : NumberType) → resolved_by_any_schema (type_of_number t) ≡ true
unfolding type_of_number resolved_by_any_schema
type_of_number-resolved NumberType.float = refl
type_of_number-resolved NumberType.binary = refl
type_of_number-resolved NumberType.octet = refl
type_of_number-resolved NumberType.hex = refl
type_of_number-resolved NumberType.decimal = refl

keywords_resolved : (s : Schema) → every (λ k t. resolved_by_any_schema t) (keyword_types s) ≡ true
unfolding every keyword_types resolved_by_any_schema
keywords_resolved schema12 = refl
keywords_resolved schema11 = refl

keyword_type-resolved :
    (v : Bytes) (s : Schema) {t : TokenType}
    → keyword_type v s ≡ some t
    → resolved_by_any_schema t ≡ true
keyword_type-resolved v s e =
    every_sound (λ k t. resolved_by_any_schema t) (keyword_types s) v (keywords_resolved s)
      (sym (keyword_type-lookup v s) ∙ e)

numbered : Option NumberType → TokenType
numbered none = string
numbered (some t) = type_of_number t

numbered_resolved : (n : Option NumberType) → resolved_by_any_schema (numbered n) ≡ true
unfolding numbered resolved_by_any_schema
numbered_resolved none = refl
numbered_resolved (some t) = type_of_number-resolved t

scalar_number_eq :
    (v : Bytes) (s : Schema)
    → scalar_number v s ≡ (if not (may_be_number v) then string else numbered (number_type v s))
unfolding scalar_number numbered
scalar_number_eq v s = elim (Option-cases (number_type v s)) [
  | inl e ↦ rw (e, number_type) refl
  | inr (t, e) ↦ rw (e, number_type) refl
]

scalar_number-resolved :
    (v : Bytes) (s : Schema) → resolved_by_any_schema (scalar_number v s) ≡ true
unfolding resolved_by_any_schema
scalar_number-resolved v s = rw (scalar_number_eq v s) (elim (Bool-cases (may_be_number v)) [
  | inl y ↦ rw y (numbered_resolved (number_type v s))
  | inr n ↦ rw n refl
])

typed : Option TokenType → TokenType → TokenType
typed none t = t
typed (some u) t = u

elim_typed : (o : Option TokenType) (t : TokenType) → (elim o [ some u ↦ u | none ↦ t ]) ≡ typed o t
unfolding typed
elim_typed none t = refl
elim_typed (some u) t = refl

scalar_type_eq :
    (v : Bytes) (s : Schema) → scalar_type v s ≡ typed (keyword_type v s) (scalar_number v s)
unfolding scalar_type
scalar_type_eq v s = elim_typed (keyword_type v s) (scalar_number v s)

-- What the text of a scalar decides is a type that retyping decides.
pub resolved-scalar_type :
    (v : Bytes) (s : Schema) → resolved_by_any_schema (scalar_type v s) ≡ true
unfolding typed
resolved-scalar_type v s = rw (scalar_type_eq v s) (elim (Option-cases (keyword_type v s)) [
  | inl e ↦ rw e (scalar_number-resolved v s)
  | inr (t, e) ↦ rw e (keyword_type-resolved v s e)
])

header_not_resolved : (t : TokenType) → resolved_by_any_schema t ≡ true → is_block_header t ≡ false
unfolding resolved_by_any_schema is_block_header
header_not_resolved literal h = sym h
header_not_resolved folded h = sym h
header_not_resolved _ h = refl

-- Typed again under another schema, such tokens are what they are when cut under it.
pub retype-cut :
    (s t : Schema) (cs : List Cut) → fits cs ≡ true → retype t false (cut s cs) ≡ cut t cs
unfolding retype cut fits retype_token
retype-cut s t [] h = refl
retype-cut s t (plain text ∷ cs) h =
    let resolved = resolved-scalar_type text s in
    rw (header_not_resolved (scalar_type text s) resolved, resolved, retype-cut s t cs h) refl
retype-cut s t (other token ∷ cs) h =
    let header : is_block_header token.typ ≡ false = ground (arith, h) in
    let fixed : resolved_by_any_schema token.typ ≡ false = ground (arith, h) in
    rw (header, fixed, retype-cut s t cs (ground (arith, h))) refl
retype-cut s t (block header mark (some note) content ∷ cs) h = cc
retype-cut s t (block header mark none content ∷ cs) h =
    let opens : is_block_header header ≡ true = ground (arith, h) in
    rw (opens, retype-cut s t cs (ground (arith, h))) refl
retype-cut s t (gone ∷ cs) h = ap (λ ts. none ∷ ts) (retype-cut s t cs h)

take-append : {A : Type 0} (xs ys : List A) → take (length xs) (xs ++ ys) ≡ xs
take-append [] ys = refl
take-append (x ∷ xs) ys = ap (λ t. x ∷ t) (take-append xs ys)

pub retype_ahead-cut :
    (s t : Schema) (start : ℕ) (taken : List (Option Raw)) (cs : List Cut)
    → fits cs ≡ true
    → start ≡ length taken
    → retype_ahead t start (taken ++ cut s cs) ≡ taken ++ cut t cs
unfolding retype_ahead
retype_ahead-cut s t start taken cs h e =
    rw (e, take-append taken (cut s cs), drop-length-append taken (cut s cs), retype-cut s t cs h)
      refl

string_resolved : resolved_by_any_schema string ≡ true
unfolding resolved_by_any_schema
string_resolved = refl

-- A block scalar whose header's line is closed by a comment that is kept has its content typed by its
-- text: the loop takes the comment for the content.
pub retype-commented :
    (s t : Schema) (header : TokenType) (mark note content : Bytes) (cs : List Cut)
    → is_block_header header ≡ true
    → fits cs ≡ true
    → retype t false (cut s (block header mark (some note) content ∷ cs))
      ≡ raw header mark ∷ raw comment note ∷ raw (scalar_type content t) content ∷ cut t cs
unfolding retype cut retype_token
retype-commented s t header mark note content cs h f =
    rw (h, header_not_resolved string string_resolved, string_resolved, retype-cut s t cs f) refl
