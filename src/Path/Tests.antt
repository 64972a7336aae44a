-- ===== src/Path/Tests.antt =====
-- Paths read and printed: internal/yamlpath/path.go.
use go_yaml.Base.{
  decimal, ◌≡◌, ◌≢◌, refl, some, none, List, [], ◌∷◌, ◌++◌, codes, contains_byte, inl, inr, arith,
}
use go_yaml.Path.Step.{
  Step, selector, index, index_all, recursive, Builder, step_text, steps_text, last_or, path_text,
  selector_name, normalize_name, contains_reserved, escape_quotes, is_enclosed,
}
use go_yaml.Path.Parse.{Result, path_string, found, refused, invalid_path, misplaced, is_misplaced}
use go_yaml.Path.Printable.{ArePrintable}
use go_yaml.Path.Brackets.{path_string-brackets}
use go_yaml.Path.RoundTrip.{path_string-path_text}
use go_yaml.Path.Total.{path_string-total}
use go_yaml.Path.Quoted.{path_string-escaped, escaped_key}
use go_yaml.Path.Escapes.{selector_name-normalize_name, child-misses}

reads :
    (path_string (codes "$.a[12]..b[*].'c.d'[0]")
      ≡ some (
          found (
            some (
              selector (codes "a")
              ∷ index 12
              ∷ recursive (codes "b")
              ∷ index_all
              ∷ selector (codes "c.d")
              ∷ index 0
              ∷ []))))
    × (path_string (codes "") ≡ some (found none))
    × (path_string (codes "$.a$") ≡ some (refused (misplaced b'$')))
    × (path_string (codes "$.a[0]$.b") ≡ some (found (some (selector (codes "b") ∷ []))))
    × (path_string (codes "$.'a\\'s'") ≡ some (found (some (selector (codes "a's") ∷ []))))
    × (path_string (codes "$.foo.'bar.baz\\'s value'.hoge") ≡ some (refused invalid_path))
unfolding path_string
reads = (refl, refl, refl, refl, refl, refl)

-- "$.a[12]..b[*].'c.d'"
abbrev steps : List Step
steps =
    selector (codes "a")
    ∷ index 12
    ∷ recursive (codes "b")
    ∷ index_all
    ∷ selector (codes "c.d")
    ∷ []

steps-ArePrintable : ArePrintable steps
unfolding contains_reserved is_misplaced contains_byte
steps-ArePrintable = (
  inl (refl, (refl, tt)),
  (omega arith, ((refl, tt), (tt, (inr (refl, (refl, (refl, (refl, tt)))), tt)))),
)

path_string-path_text_example : path_string (path_text steps) ≡ some (found (some steps))
path_string-path_text_example = path_string-path_text steps steps-ArePrintable

path_string-total_example : (r : Result Builder) × (path_string (codes "$.a]") ≡ some r)
path_string-total_example = path_string-total (codes "$.a]")

-- the path of the comment on `PathString`
path_string-escaped_example :
    path_string (
      b'$' ∷ steps_text (selector (codes "foo") ∷ [])
      ++ escaped_key (codes "bar.baz") b'\'' (codes "s value") (codes ".hoge"))
    ≡ some (refused invalid_path)
unfolding is_misplaced contains_reserved contains_byte
path_string-escaped_example =
    path_string-escaped (selector (codes "foo") ∷ []) (codes "bar.baz") (codes "s value")
      (codes "hoge") b'\'' b'.' (inl (refl, (refl, (refl, (refl, tt)))), tt)
      (refl, (refl, (refl, (refl, (refl, (refl, (refl, tt)))))))
      (refl, (refl, (refl, (refl, (refl, (refl, (refl, tt))))))) refl

doc_comment :
    b'$' ∷ steps_text (selector (codes "foo") ∷ [])
      ++ escaped_key (codes "bar.baz") b'\'' (codes "s value") (codes ".hoge")
    ≡ codes "$.foo.'bar.baz\\'s value'.hoge"
unfolding steps_text step_text normalize_name contains_reserved contains_byte is_enclosed last_or
doc_comment = refl

selector_name-normalize_name_example : selector_name (normalize_name (codes "a.b")) ≡ codes "a.b"
unfolding contains_reserved escape_quotes is_enclosed
selector_name-normalize_name_example = selector_name-normalize_name (codes "a.b") refl

child-misses_example : selector_name (normalize_name (codes "a.b's")) ≢ codes "a.b's"
unfolding contains_reserved contains_byte is_enclosed
child-misses_example = child-misses (codes "a.b's") refl refl refl

path_string-brackets_example :
    path_string (path_text (selector (codes "a[12]") ∷ []))
    ≡ some (found (some (selector (codes "a") ∷ index 12 ∷ [])))
unfolding is_misplaced decimal
path_string-brackets_example = path_string-brackets (codes "a") 12 (refl, (refl, tt)) (omega arith)
