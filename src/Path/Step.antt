-- ===== src/Path/Step.antt =====
-- internal/yamlpath/path.go: the steps of a path, the builder that chains them and the text they print
-- as. The chain of nodes from the root is the list of its steps; the builder before its `Root` is `none`.
use go_yaml.Base.{
  ℕ, decimal, ◌-◌, Bool, ◌&&◌, ◌||◌, Option, List, [], ◌∷◌, ◌++◌, ltb, ◌==◌, if◌then◌else◌, length,
  take, drop, get_or, Bytes, codes, contains_byte,
}

pub data Step : Type 0 where
  selector : Bytes → Step
  index : ℕ → Step
  index_all : Step
  recursive : Bytes → Step

abbrev pub Builder : Type 0
Builder = Option (List Step)

unfoldable pub contains_reserved : Bytes → Bool
unfolding contains_byte
contains_reserved path = contains_byte b'.' path || contains_byte b'*' path

unfoldable pub last_or : Bytes → ℕ → ℕ
last_or [] d = d
last_or (c ∷ cs) d = last_or cs c

-- `HasPrefix(name, "'") && HasSuffix(name, "'")`
unfoldable pub is_enclosed : Bytes → Bool
unfolding last_or
is_enclosed name = get_or name 0 0 == b'\'' && last_or name 0 == b'\''

-- `strings.ReplaceAll(name, "'", "\\'")`
unfoldable pub escape_quotes : Bytes → Bytes
escape_quotes [] = []
escape_quotes (c ∷ cs) =
    let rest = escape_quotes cs in if c == b'\'' then b'\\' ∷ b'\'' ∷ rest else c ∷ rest

unfoldable pub normalize_name : Bytes → Bytes
unfolding is_enclosed contains_reserved escape_quotes
normalize_name name =
    if is_enclosed name
    then name
    else if contains_reserved name
    then b'\'' ∷ escape_quotes name ++ b'\'' ∷ []
    else name

-- `Child`: the builder's own method normalizes, the parser's `child` does not.
unfoldable pub child : Bytes → Step
unfolding normalize_name
child name = selector (normalize_name name)

-- `selectorNode.name`
unfoldable pub selector_name : Bytes → Bytes
unfolding is_enclosed
selector_name text =
    if ltb 1 (length text) && is_enclosed text then take (length text - 2) (drop 1 text) else text

unfoldable pub step_text : Step → Bytes
unfolding normalize_name decimal
step_text (selector text) = b'.' ∷ normalize_name text
step_text (index i) = b'[' ∷ decimal i ++ b']' ∷ []
step_text index_all = codes "[*]"
step_text (recursive text) = b'.' ∷ b'.' ∷ text

unfoldable pub steps_text : List Step → Bytes
unfolding step_text
steps_text [] = []
steps_text (s ∷ ss) = step_text s ++ steps_text ss

-- `Path.String`
unfoldable pub path_text : List Step → Bytes
unfolding steps_text
path_text ss = b'$' ∷ steps_text ss
