-- ===== src/Path/Printable.antt =====
-- Which paths print as text that reads back: what the keys of internal/yamlpath/path.go may hold.
use go_yaml.Base.{
  ◌<◌, ◌^◌, Bool, true, false, ◌||◌, List, [], ◌∷◌, ◌++◌, ◌==◌, length, Bytes, contains_byte, some,
  ◌≡◌, ◌⊎◌, refl, arith,
}
use go_yaml.Path.Step.{
  Step, selector, index, index_all, recursive, contains_reserved, normalize_name, is_enclosed,
  escape_quotes,
}
use go_yaml.Path.Parse.{found, is_misplaced, scan_key, unquote}

-- no byte that ends a key or that a key may not hold
abbrev pub IsKeyText : Bytes → Type 0
IsKeyText [] = Unit {0}
IsKeyText (c ∷ cs) = ((is_misplaced c || c == b'.' || c == b'[') ≡ false) × IsKeyText cs

-- neither a quote nor a backslash
abbrev pub IsUnescaped : Bytes → Type 0
IsUnescaped [] = Unit {0}
IsUnescaped (c ∷ cs) = ((c == b'\'' || c == b'\\') ≡ false) × IsUnescaped cs

-- A selector is printed as it is, or in quotes, which a "." or a "*" calls for.
abbrev pub IsPlainKey : Bytes → Type 0
IsPlainKey [] = ⊥
IsPlainKey (c ∷ cs) = ((c == b'\'') ≡ false) × IsKeyText (c ∷ cs)

abbrev pub IsQuotedKey : Bytes → Type 0
IsQuotedKey text = (contains_reserved text ≡ true) × IsUnescaped text

abbrev pub IsPrintable : Step → Type 0
IsPrintable (selector text) = IsPlainKey text ⊎ IsQuotedKey text
IsPrintable (index i) = i < 2 ^ 64
IsPrintable index_all = Unit {0}
IsPrintable (recursive []) = ⊥
IsPrintable (recursive (c ∷ cs)) = IsKeyText (c ∷ cs)

abbrev pub ArePrintable : List Step → Type 0
ArePrintable [] = Unit {0}
ArePrintable (s ∷ ss) = IsPrintable s × ArePrintable ss

-- the end of the text, or the start of a step
abbrev pub opens_step : Bytes → Bool
opens_step [] = true
opens_step (c ∷ cs) = c == b'.' || c == b'['

pub scan_key-append :
    (key rest : Bytes)
    → IsKeyText key
    → opens_step rest ≡ true
    → scan_key (key ++ rest) ≡ found (length key)
unfolding scan_key
scan_key-append [] [] k o = refl
scan_key-append [] (c ∷ cs) k o = ground arith
scan_key-append (c ∷ cs) rest (k, ks) o = rw (scan_key-append cs rest ks o) (ground arith)

pub no_dot : (key : Bytes) → IsKeyText key → contains_byte b'.' key ≡ false
unfolding contains_byte
no_dot [] k = refl
no_dot (c ∷ cs) (k, ks) = ground (arith, no_dot cs ks)

pub no_star : (key : Bytes) → IsKeyText key → contains_byte b'*' key ≡ false
unfolding contains_byte is_misplaced
no_star [] k = refl
no_star (c ∷ cs) (k, ks) = ground (arith, no_star cs ks)

pub normalize_name-plain : (text : Bytes) → IsPlainKey text → normalize_name text ≡ text
unfolding normalize_name
normalize_name-plain [] k = elim k [ ]
normalize_name-plain (c ∷ cs) (q, ks) = ground (arith, no_dot (c ∷ cs) ks, no_star (c ∷ cs) ks)

escape_quotes-plain : (text : Bytes) → IsUnescaped text → escape_quotes text ≡ text
unfolding escape_quotes
escape_quotes-plain [] u = refl
escape_quotes-plain (c ∷ cs) (u, us) = rw (escape_quotes-plain cs us) (ground arith)

not_enclosed : (text : Bytes) → IsUnescaped text → is_enclosed text ≡ false
unfolding is_enclosed
not_enclosed [] u = refl
not_enclosed (c ∷ cs) (u, us) = ground arith

pub normalize_name-quoted :
    (text : Bytes) → IsQuotedKey text → normalize_name text ≡ b'\'' ∷ text ++ b'\'' ∷ []
unfolding normalize_name
normalize_name-quoted text (r, u) = rw (not_enclosed text u, r, escape_quotes-plain text u) refl

pub unquote-append :
    (key rest : Bytes)
    → IsUnescaped key
    → unquote (key ++ b'\'' ∷ rest) ≡ some (record { key = key; behind = rest; cut = 0 })
unfolding unquote
unquote-append [] [] u = refl
unquote-append [] (d ∷ ds) u = refl
unquote-append (c ∷ []) rest (u, us) = ground (arith, unquote-append [] rest tt)
unquote-append (c ∷ d ∷ ds) rest (u, us) = rw (unquote-append (d ∷ ds) rest us) (ground arith)

pub quoted_not_empty : {A : Type 0} → IsQuotedKey [] → A
unfolding contains_reserved contains_byte
quoted_not_empty (r, u) = cc
