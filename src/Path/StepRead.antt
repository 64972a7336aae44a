-- ===== src/Path/StepRead.antt =====
-- Each step of a path, read from the text it prints as: internal/yamlpath/path.go.
use go_yaml.Base.{
  decimal_head, decimal-all, all_digits, decimal, ℕ, suc, ◌+◌, ◌<◌, ◌^◌, true, some, List, [], ◌∷◌,
  ◌++◌, length, Bytes, codes, equal, is_digit, ◌≡◌, inl, inr, refl, ap, sym, ◌∙◌, arith,
  length-append, append_assoc, take-length-append,
}
use go_yaml.Token.Number.{count_digits, past_digits}
use go_yaml.Path.Step.{
  Step, selector, index, index_all, recursive, Builder, normalize_name, step_text,
}
use go_yaml.Path.Parse.{
  Result, found, refused, Part, keyed, empty_key, no_selector, parse_recursive, parse_quoted,
  quoted_part, parse_key, parse_dot, parse_index, close_index, part_at, is_misplaced, PathError,
  parse_uint,
}
use go_yaml.Path.Printable.{
  IsKeyText, IsPlainKey, IsQuotedKey, IsPrintable, opens_step, scan_key-append,
  normalize_name-plain, normalize_name-quoted, unquote-append, quoted_not_empty,
}
use go_yaml.Path.Digits.{count_digits-append, past_digits-append, parse_uint-decimal}

abbrev pub read_part : Builder → Bytes → Result Part
read_part b [] = refused PathError.invalid_path
read_part b (c ∷ cs) = part_at b c cs

-- A step is read back whole, in front of the end or of another step.
abbrev pub IsRead : List Step → Step → Bytes → Type 0
IsRead done s text =
    (rest : Bytes)
    → opens_step rest ≡ true
    → read_part (some done) (text ++ rest)
      ≡ found (record { steps = done ++ s ∷ []; used = length text; cut = some 0 })

keyed-append :
    (step : Bytes → Step) (missing : PathError) (done : List Step) (skip c : ℕ) (cs rest : Bytes)
    → keyed step missing done skip (c ∷ cs ++ rest) (found (suc (length cs)))
      ≡ found (record {
        steps = done ++ step (c ∷ cs) ∷ [];
        used = skip + suc (length cs);
        cut = some 0;
      })
unfolding keyed
keyed-append step missing done skip c cs rest = rw (take-length-append (c ∷ cs) rest) refl

plain-IsRead :
    (done : List Step) (text : Bytes) → IsPlainKey text → IsRead done (selector text) (b'.' ∷ text)
unfolding part_at parse_dot parse_key is_misplaced
plain-IsRead done [] k rest o = elim k [ ]
plain-IsRead done (c ∷ cs) (q, ks) rest o =
    rw (q, scan_key-append (c ∷ cs) rest ks o, keyed-append selector empty_key done 1 c cs rest)
      (ground arith)

quoted_part-opens :
    (done : List Step) (c : ℕ) (cs rest : Bytes)
    → opens_step rest ≡ true
    → quoted_part done (record { key = c ∷ cs; behind = rest; cut = 0 })
      ≡ found
          (record { steps = done ++ selector (c ∷ cs) ∷ []; used = 4 + length cs; cut = some 0 })
unfolding quoted_part is_misplaced
quoted_part-opens done c cs [] o = rw (add_four (length cs)) refl
  where
    add_four : (n : ℕ) → 3 + suc n ≡ 4 + n
    add_four n = omega arith
quoted_part-opens done c cs (d ∷ ds) o = ground arith

quoted-IsRead :
    (done : List Step) (text : Bytes)
    → IsQuotedKey text
    → IsRead done (selector text) (b'.' ∷ b'\'' ∷ text ++ b'\'' ∷ [])
unfolding part_at parse_dot parse_quoted
quoted-IsRead done [] k rest o = quoted_not_empty k
quoted-IsRead done (c ∷ cs) (r, u) rest o =
    rw
      (
        append_assoc (c ∷ cs) (b'\'' ∷ []) rest,
        unquote-append (c ∷ cs) rest u,
        quoted_part-opens done c cs rest o,
        length-append cs (b'\'' ∷ []),
      )
      (ground arith)

recursive-IsRead :
    (done : List Step) (c : ℕ) (cs : Bytes)
    → IsKeyText (c ∷ cs)
    → IsRead done (recursive (c ∷ cs)) (b'.' ∷ b'.' ∷ c ∷ cs)
unfolding part_at parse_dot parse_recursive
recursive-IsRead done c cs ks rest o =
    rw (scan_key-append (c ∷ cs) rest ks o, keyed-append recursive no_selector done 2 c cs rest)
      (ground arith)

index_all-IsRead : (done : List Step) → IsRead done index_all (codes "[*]")
unfolding part_at parse_index close_index count_digits past_digits equal
index_all-IsRead done rest o = refl

index_digits :
    (done : List Step) (i d : ℕ) (ds rest : Bytes)
    → decimal i ≡ d ∷ ds
    → all_digits (d ∷ ds) ≡ true
    → parse_uint (d ∷ ds) ≡ some i
    → parse_index (some done) (d ∷ ds ++ b']' ∷ rest)
      ≡ found (record { steps = done ++ index i ∷ []; used = length ds + 3; cut = some 0 })
unfolding parse_index close_index all_digits equal
index_digits done i d ds rest e all v =
    let (own, rests) : (is_digit d ≡ true) × (all_digits ds ≡ true) = ground arith in
    rw
      (
        count_digits-append ds rest rests,
        past_digits-append ds rest rests,
        take-length-append ds (b']' ∷ rest),
        v,
      )
      (ground arith)

index-IsRead :
    (done : List Step) (i : ℕ) → i < 2 ^ 64 → IsRead done (index i) (b'[' ∷ decimal i ++ b']' ∷ [])
unfolding part_at
index-IsRead done i h rest o =
    let (d, ds, e) = decimal_head i in
    rw
      (
        e,
        append_assoc ds (b']' ∷ []) rest,
        index_digits done i d ds rest e (ap all_digits (sym e) ∙ decimal-all i)
            (ap parse_uint (sym e) ∙ parse_uint-decimal i h),
        length-append ds (b']' ∷ []),
      )
      (ground arith)

step_text-selector : (text : Bytes) → step_text (selector text) ≡ b'.' ∷ normalize_name text
unfolding step_text
step_text-selector text = refl

step_text-index : (i : ℕ) → step_text (index i) ≡ b'[' ∷ decimal i ++ b']' ∷ []
unfolding step_text
step_text-index i = refl

step_text-recursive : (text : Bytes) → step_text (recursive text) ≡ b'.' ∷ b'.' ∷ text
unfolding step_text
step_text-recursive text = refl

step_text-all : step_text index_all ≡ codes "[*]"
unfolding step_text
step_text-all = refl

pub step_text-IsRead : (done : List Step) (s : Step) → IsPrintable s → IsRead done s (step_text s)
step_text-IsRead done (selector text) (inl plain) =
    rw (step_text-selector text, normalize_name-plain text plain) (plain-IsRead done text plain)
step_text-IsRead done (selector text) (inr quoted) =
    rw (step_text-selector text, normalize_name-quoted text quoted) (quoted-IsRead done text quoted)
step_text-IsRead done (index i) h = rw (step_text-index i) (index-IsRead done i h)
step_text-IsRead done index_all h = rw step_text-all (index_all-IsRead done)
step_text-IsRead done (recursive []) h = elim h [ ]
step_text-IsRead done (recursive (c ∷ cs)) h =
    rw (step_text-recursive (c ∷ cs)) (recursive-IsRead done c cs h)
