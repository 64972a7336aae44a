-- ===== src/Path/Brackets.antt =====
-- Keys that hold brackets, which internal/yamlpath/path.go prints without quotes.
use go_yaml.Base.{
  all_digits, decimal, decimal-all, ℕ, ◌<◌, ◌^◌, true, false, ◌||◌, some, [], ◌∷◌, ◌++◌, ◌==◌,
  Bytes, contains_byte, is_digit, ◌≡◌, refl, ap, sym, ◌∙◌, arith, append-nil, inl,
}
use go_yaml.Path.Parse.{path_string, found}
use go_yaml.Path.Printable.{IsPlainKey, no_dot, no_star}
use go_yaml.Path.RoundTrip.{path_string-path_text}
use go_yaml.Path.Step.{
  selector, index, contains_reserved, is_enclosed, normalize_name, path_text, steps_text, step_text,
}

contains_byte-append :
    (c : ℕ) (xs ys : Bytes)
    → contains_byte c (xs ++ ys) ≡ (contains_byte c xs || contains_byte c ys)
unfolding contains_byte
contains_byte-append c [] ys = refl
contains_byte-append c (x ∷ xs) ys = ground (arith, contains_byte-append c xs ys)

no_byte-digits :
    (c : ℕ) (ds : Bytes) → is_digit c ≡ false → all_digits ds ≡ true → contains_byte c ds ≡ false
unfolding contains_byte all_digits
no_byte-digits c [] n h = refl
no_byte-digits c (d ∷ ds) n h = ground (arith, no_byte-digits c ds n)

-- an index in brackets
abbrev pub bracketed : ℕ → Bytes
bracketed i = b'[' ∷ decimal i ++ b']' ∷ []

no_byte-bracketed :
    (c i : ℕ)
    → is_digit c ≡ false
    → (c == b'[') ≡ false
    → (c == b']') ≡ false
    → contains_byte c (bracketed i) ≡ false
unfolding contains_byte
no_byte-bracketed c i n o e =
    rw
      (
        contains_byte-append c (decimal i) (b']' ∷ []),
        no_byte-digits c (decimal i) n (decimal-all i),
      )
      (ground arith)

not_reserved :
    (key : Bytes) (i : ℕ) → IsPlainKey key → contains_reserved (key ++ bracketed i) ≡ false
unfolding contains_reserved
not_reserved [] i k = elim k [ ]
not_reserved (c ∷ cs) i (q, ks) =
    rw
      (
        contains_byte-append b'.' (c ∷ cs) (bracketed i),
        contains_byte-append b'*' (c ∷ cs) (bracketed i),
        no_dot (c ∷ cs) ks,
        no_star (c ∷ cs) ks,
        no_byte-bracketed b'.' i refl refl refl,
        no_byte-bracketed b'*' i refl refl refl,
      )
      refl

not_quoted : (key rest : Bytes) → IsPlainKey key → is_enclosed (key ++ rest) ≡ false
unfolding is_enclosed
not_quoted [] rest k = elim k [ ]
not_quoted (c ∷ cs) rest (q, ks) = rw q refl

normalize_name-bracketed :
    (key : Bytes) (i : ℕ)
    → IsPlainKey key
    → normalize_name (key ++ bracketed i) ≡ key ++ bracketed i
unfolding normalize_name
normalize_name-bracketed key i k = rw (not_quoted key (bracketed i) k, not_reserved key i k) refl

plain_text : (key : Bytes) → IsPlainKey key → normalize_name key ≡ key
unfolding normalize_name contains_reserved is_enclosed
plain_text [] k = elim k [ ]
plain_text (c ∷ cs) (q, ks) = rw (q, no_dot (c ∷ cs) ks, no_star (c ∷ cs) ks) refl

one_step : (text : Bytes) → path_text (selector text ∷ []) ≡ b'$' ∷ b'.' ∷ normalize_name text
unfolding path_text steps_text step_text
one_step text = ap (λ (t : Bytes). b'$' ∷ b'.' ∷ t) (append-nil (normalize_name text))

two_steps :
    (text : Bytes) (i : ℕ)
    → path_text (selector text ∷ index i ∷ []) ≡ b'$' ∷ b'.' ∷ (normalize_name text ++ bracketed i)
unfolding path_text steps_text step_text
two_steps text i =
    ap (λ (t : Bytes). b'$' ∷ b'.' ∷ (normalize_name text ++ t)) (append-nil (bracketed i))

-- A key that ends on an index in brackets, and is a plain key in front of it, prints as a path that
-- reads back as two steps, the shorter key and the index, for an index below 2 ^ 64.
pub path_string-brackets :
    (key : Bytes) (i : ℕ)
    → IsPlainKey key
    → i < 2 ^ 64
    → path_string (path_text (selector (key ++ bracketed i) ∷ []))
      ≡ some (found (some (selector key ∷ index i ∷ [])))
path_string-brackets key i k h =
    ap path_string (
      one_step (key ++ bracketed i)
      ∙ ap (λ (t : Bytes). b'$' ∷ b'.' ∷ t)
          (normalize_name-bracketed key i k
            ∙ ap (λ (t : Bytes). t ++ bracketed i) (sym (plain_text key k)))
      ∙ sym (two_steps key i))
    ∙ path_string-path_text (selector key ∷ index i ∷ []) (inl k, (h, tt))
