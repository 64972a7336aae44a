-- ===== src/Path/Escapes.antt =====
-- Quotes inside a key: where `PathString`, `Child` and `selectorNode.name` of
-- internal/yamlpath/path.go agree on it and where they do not.
use go_yaml.Base.{
  ℕ, ◌<◌, ◌≤◌, true, false, [], ◌∷◌, ◌++◌, length, Bytes, contains_byte, ◌≡◌, ◌≢◌, refl, sym, ap,
  ◌∙◌, arith, if◌then◌else◌, Bool-cases, inl, inr, length-append, take-length-append,
}
use go_yaml.Path.Step.{
  normalize_name, selector_name, escape_quotes, is_enclosed, contains_reserved, last_or,
}

last_or-append : (xs : Bytes) (c d : ℕ) → last_or (xs ++ c ∷ []) d ≡ c
unfolding last_or
last_or-append [] c d = refl
last_or-append (x ∷ xs) c d = last_or-append xs c x

-- a text in quotes loses them
selector_name-quotes : (text : Bytes) → selector_name (b'\'' ∷ text ++ b'\'' ∷ []) ≡ text
unfolding selector_name is_enclosed last_or
selector_name-quotes text =
    rw (last_or-append text b'\'' b'\'', length-append text (b'\'' ∷ []))
      (ground (arith, take-length-append text (b'\'' ∷ [])))

normalize_name-enclosed : (text : Bytes) → is_enclosed text ≡ true → normalize_name text ≡ text
unfolding normalize_name
normalize_name-enclosed text e = rw e refl

normalize_name-escaped :
    (text : Bytes)
    → is_enclosed text ≡ false
    → contains_reserved text ≡ true
    → normalize_name text ≡ b'\'' ∷ escape_quotes text ++ b'\'' ∷ []
unfolding normalize_name
normalize_name-escaped text e r = rw (e, r) refl

normalize_name-kept :
    (text : Bytes)
    → is_enclosed text ≡ false
    → contains_reserved text ≡ false
    → normalize_name text ≡ text
unfolding normalize_name
normalize_name-kept text e r = rw (e, r) refl

selector_name-kept : (text : Bytes) → is_enclosed text ≡ false → selector_name text ≡ text
unfolding selector_name
selector_name-kept text e = rw e (ground arith)

-- The name that a step made by `Child` looks for: the name that was given, unless it is in quotes
-- already, but with a backslash in front of each quote where the name holds a "." or a "*".
pub selector_name-normalize_name :
    (text : Bytes)
    → is_enclosed text ≡ false
    → selector_name (normalize_name text)
      ≡ (if contains_reserved text then escape_quotes text else text)
selector_name-normalize_name text e = elim (Bool-cases (contains_reserved text)) [
  | inl r ↦ rw (normalize_name-escaped text e r, r) (selector_name-quotes (escape_quotes text))
  | inr r ↦ rw (normalize_name-kept text e r, r) (selector_name-kept text e)
]

length-escape_quotes : (text : Bytes) → length text ≤ length (escape_quotes text)
unfolding escape_quotes
length-escape_quotes [] = omega arith
length-escape_quotes (c ∷ cs) = ground (arith, length-escape_quotes cs)

escape_quotes-longer :
    (text : Bytes) → contains_byte b'\'' text ≡ true → length text < length (escape_quotes text)
unfolding escape_quotes contains_byte
escape_quotes-longer [] h = cc
escape_quotes-longer (c ∷ cs) h = ground (arith, escape_quotes-longer cs, length-escape_quotes cs)

-- A step made by `Child` from a name that holds a quote and a "." or a "*", and is not in quotes as a
-- whole, looks for another name.
pub child-misses :
    (text : Bytes)
    → is_enclosed text ≡ false
    → contains_reserved text ≡ true
    → contains_byte b'\'' text ≡ true
    → selector_name (normalize_name text) ≢ text
child-misses text e r q same =
    let escaped : escape_quotes text ≡ text =
      sym (selector_name-normalize_name text e ∙ rw r refl) ∙ same in
    absurd (omega (arith, escape_quotes-longer text q, ap (λ (t : Bytes). length t) escaped))
