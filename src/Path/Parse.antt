-- ===== src/Path/Parse.antt =====
-- internal/yamlpath/path.go: `PathString`. A function called at a cursor is given the rest of the text
-- from there. It answers with what it read, by how many bytes the cursor moves, and how many bytes the
-- text it hands back is shorter: `PathString` declares a new `buf` for that text and goes on in the
-- old one, with the new length and cursor.
use go_yaml.Base.{
  all_digits, digits_value, ℕ, zero, suc, ◌+◌, ◌-◌, ◌^◌, Bool, true, false, not, ◌&&◌, ◌||◌, Option,
  none, some, List, [], ◌∷◌, ◌++◌, ltb, ◌==◌, if◌then◌else◌, length, take, drop, Bytes, codes,
  equal, is_digit,
}
use go_yaml.Token.Number.{count_digits, past_digits}
use go_yaml.Path.Step.{Step, selector, index, index_all, recursive, Builder}

-- the refusals, without their texts
pub data PathError : Type 0 where
  invalid_path root_first no_selector empty_key no_end_delimiter : PathError
  unexpected_end invalid_character bad_number : PathError
  misplaced : ℕ → PathError

pub data Result (A : Type 0) : Type 0 where
  refused : PathError → Result A
  found : A → Result A

-- `length` is `none` where the code leaves it alone, and what `len(buf)` falls short by elsewhere
pub record Part : Type 0 where
  pub steps : List Step
  pub used : ℕ
  pub cut : Option ℕ

unfoldable pub is_misplaced : ℕ → Bool
is_misplaced c = c == b'$' || c == b'*' || c == b']'

abbrev pub one_more : Result ℕ → Result ℕ
one_more (refused e) = refused e
one_more (found n) = found (suc n)

-- the loop of `parsePathDot` and of `parsePathRecursive`: how long the key is
unfoldable pub scan_key : Bytes → Result ℕ
unfolding is_misplaced
scan_key [] = found 0
scan_key (c ∷ cs) =
    let rest = scan_key cs in
    if is_misplaced c
    then refused (misplaced c)
    else if c == b'.' || c == b'['
    then found 0
    else one_more rest

-- `start == cursor` and the chaining
unfoldable pub keyed : (Bytes → Step) → PathError → List Step → ℕ → Bytes → Result ℕ → Result Part
keyed step missing done skip cs (refused e) = refused e
keyed step missing done skip cs (found zero) = refused missing
keyed step missing done skip cs (found (suc n)) =
    found
      (record { steps = done ++ step (take (suc n) cs) ∷ []; used = skip + suc n; cut = some 0 })

-- behind the two dots
unfoldable pub parse_recursive : List Step → Bytes → Result Part
unfolding keyed scan_key
parse_recursive done cs = keyed recursive no_selector done 2 cs (scan_key cs)

pub record Quoted : Type 0 where
  pub key : Bytes
  pub behind : Bytes
  pub cut : ℕ

abbrev pub quote_more : ℕ → ℕ → Option Quoted → Option Quoted
quote_more c n none = none
quote_more c n (some q) = some (record q { key = c ∷ q.key; cut = n + q.cut })

-- The loop of `parseQuotedKey`: a backslash is cut out and the byte behind it is passed over.
unfoldable pub unquote : Bytes → Option Quoted
unquote [] = none
unquote (c ∷ []) = if c == b'\'' then some (record { key = []; behind = []; cut = 0 }) else none
unquote (c ∷ d ∷ ds) =
    let plain = unquote (d ∷ ds) in
    let escaped = unquote ds in
    if c == b'\\'
    then quote_more d 1 escaped
    else if c == b'\''
    then some (record { key = []; behind = d ∷ ds; cut = 0 })
    else quote_more c 0 plain

-- what may stand behind the closing quote
unfoldable pub quoted_part : List Step → Quoted → Result Part
unfolding is_misplaced
quoted_part done q =
    let part : Part = record {
      steps = done ++ selector q.key ∷ [];
      used = 3 + length q.key;
      cut = some q.cut;
    } in
    elim q.key [
      | [] ↦ refused empty_key
      | k ∷ ks ↦ elim q.behind [
        | [] ↦ found part
        | c ∷ cs ↦ if is_misplaced c then refused (misplaced c) else found part
      ]
    ]

-- behind the opening quote
unfoldable pub parse_quoted : List Step → Bytes → Result Part
unfolding unquote quoted_part
parse_quoted done cs = elim (unquote cs) [
  | none ↦ refused no_end_delimiter
  | some q ↦ quoted_part done q
]

-- behind the dot
unfoldable pub parse_key : List Step → Bytes → Result Part
unfolding keyed scan_key
parse_key done cs = keyed selector empty_key done 1 cs (scan_key cs)

unfoldable pub parse_dot : Builder → Bytes → Result Part
unfolding parse_recursive parse_quoted parse_key
parse_dot none cs = refused root_first
parse_dot (some done) [] = parse_key done []
parse_dot (some done) (c ∷ cs) =
    if c == b'.'
    then parse_recursive done cs
    else if c == b'\''
    then parse_quoted done cs
    else parse_key done (c ∷ cs)

-- `strconv.ParseUint(text, 10, 0)` on a platform of 64 bits
unfoldable pub parse_uint : Bytes → Option ℕ
unfolding all_digits digits_value
parse_uint [] = none
parse_uint (c ∷ cs) =
    if all_digits (c ∷ cs) && ltb (digits_value 0 (c ∷ cs)) (2 ^ 64)
    then some (digits_value 0 (c ∷ cs))
    else none

abbrev pub index_part : List Step → ℕ → Option ℕ → Result Part
index_part done used none = refused bad_number
index_part done used (some n) =
    found (record { steps = done ++ index n ∷ []; used = used; cut = some 0 })

-- behind the digits, which start with `c`
unfoldable pub close_index : List Step → ℕ → Bytes → Bytes → Result Part
unfolding parse_uint equal
close_index done used text [] = refused unexpected_end
close_index done used text (e ∷ es) =
    if not (e == b']')
    then refused invalid_character
    else if equal text (codes "*")
    then found (record { steps = done ++ index_all ∷ []; used = used; cut = some 0 })
    else index_part done used (parse_uint text)

-- behind the bracket
unfoldable pub parse_index : Builder → Bytes → Result Part
unfolding close_index count_digits past_digits
parse_index none cs = refused root_first
parse_index (some done) [] = refused unexpected_end
parse_index (some done) (c ∷ cs) =
    if is_digit c || c == b'*'
    then close_index done (count_digits cs + 3) (c ∷ take (count_digits cs) cs) (past_digits cs)
    else refused invalid_character

-- the switch of `PathString`
unfoldable pub part_at : Builder → ℕ → Bytes → Result Part
unfolding parse_dot parse_index
part_at b c cs =
    if c == b'$'
    then found (record { steps = []; used = 1; cut = none })
    else if c == b'.'
    then parse_dot b cs
    else if c == b'['
    then parse_index b cs
    else refused invalid_path

abbrev pub next_length : ℕ → ℕ → Option ℕ → ℕ
next_length whole len none = len
next_length whole len (some k) = whole - k

-- The loop of `PathString`, on fuel: `none` where that runs out, or where the code would index past
-- the text.
unfoldable pub parse_from : ℕ → Bytes → ℕ → ℕ → Builder → Option (Result Builder)
unfolding part_at
parse_from zero buf len cursor b = none
parse_from (suc fuel) buf len cursor b = elim (ltb cursor len) [
  | false ↦ some (found b)
  | true ↦ elim (drop cursor buf) [
    | [] ↦ none
    | c ∷ cs ↦ elim (part_at b c cs) [
      | refused e ↦ some (refused e)
      | found p ↦
          parse_from fuel buf (next_length (length buf) len p.cut) (cursor + p.used) (some p.steps)
    ]
  ]
]

-- The cursor moves with every round, so one more than the length is enough.
unfoldable pub path_string : Bytes → Option (Result Builder)
unfolding parse_from
path_string s = parse_from (suc (length s)) s (length s) 0 none
