-- ===== src/Path/RoundTrip.antt =====
-- `PathString` on what `Path.String` prints: internal/yamlpath/path.go.
use go_yaml.Base.{
  ℕ, zero, suc, ◌+◌, ◌<◌, true, none, some, List, [], ◌∷◌, ◌++◌, length, drop, Bytes, ◌≡◌, refl, ap,
  sym, ◌∙◌, arith, length-append, append_assoc, append-nil, drop-length-append, ◌≤◌,
}
use go_yaml.Path.Step.{
  Step, selector, index, index_all, recursive, Builder, step_text, steps_text, path_text,
}
use go_yaml.Path.Parse.{found, Part, part_at, parse_from, path_string}
use go_yaml.Path.Printable.{ArePrintable, opens_step}
use go_yaml.Path.StepRead.{read_part, step_text-IsRead}

-- the round of the loop that reads a part
pub parse_from-found :
    (fuel : ℕ) (buf text : Bytes) (cursor : ℕ) (b : Builder) (p : Part)
    → drop cursor buf ≡ text
    → read_part b text ≡ found p
    → cursor < length buf
    → p.cut ≡ some 0
    → parse_from (suc fuel) buf (length buf) cursor b
      ≡ parse_from fuel buf (length buf) (cursor + p.used) (some p.steps)
unfolding parse_from
parse_from-found fuel buf [] cursor b p d r h u = cc
parse_from-found fuel buf (c ∷ cs) cursor b p d r h u = ground arith

parse_from-end :
    (fuel : ℕ) (buf : Bytes) (cursor : ℕ) (b : Builder)
    → length buf ≤ cursor
    → parse_from (suc fuel) buf (length buf) cursor b ≡ some (found b)
unfolding parse_from
parse_from-end fuel buf cursor b h = ground arith

pub opens-steps_text : (ss : List Step) → opens_step (steps_text ss) ≡ true
unfolding steps_text step_text
opens-steps_text [] = refl
opens-steps_text (selector text ∷ ss) = refl
opens-steps_text (index i ∷ ss) = refl
opens-steps_text (index_all ∷ ss) = refl
opens-steps_text (recursive text ∷ ss) = refl

pub length-step_text : (s : Step) → 0 < length (step_text s)
unfolding step_text
length-step_text (selector text) = omega arith
length-step_text (index i) = omega arith
length-step_text index_all = omega arith
length-step_text (recursive text) = omega arith

pub steps_text-cons :
    (s : Step) (ss : List Step) → steps_text (s ∷ ss) ≡ step_text s ++ steps_text ss
unfolding steps_text
steps_text-cons s ss = refl

pub steps_text-nil : steps_text [] ≡ []
unfolding steps_text
steps_text-nil = refl

-- the loop over the text of printable steps, behind what was read before
parse_from-steps :
    (fuel : ℕ) (ss done : List Step) (before : Bytes)
    → ArePrintable ss
    → length (steps_text ss) < fuel
    → let buf = before ++ steps_text ss in
      parse_from fuel buf (length buf) (length before) (some done)
      ≡ some (found (some (done ++ ss)))
parse_from-steps zero ss done before ps h = elim h [ ]
parse_from-steps (suc fuel) [] done before ps h =
    parse_from-end fuel (before ++ steps_text []) (length before) (some done) (
      omega
        (arith, length-append before (steps_text []), ap (λ (t : Bytes). length t) steps_text-nil))
    ∙ ap (λ (t : List Step). some (found (some t))) (sym (append-nil done))
parse_from-steps (suc fuel) (s ∷ ss) done before (p, ps) h =
    let own = step_text s in
    let rest = steps_text ss in
    let counts = length-append own rest in
    let next : parse_from fuel ((before ++ own) ++ rest) (length ((before ++ own) ++ rest))
          (length (before ++ own)) (some (done ++ s ∷ []))
        ≡ some (found (some ((done ++ s ∷ []) ++ ss))) =
      parse_from-steps fuel ss (done ++ s ∷ []) (before ++ own) ps (
        omega (
          arith,
          counts,
          length-step_text s,
          ap (λ (t : Bytes). length t) (steps_text-cons s ss),
        )) in
    rw (steps_text-cons s ss) (
      parse_from-found fuel (before ++ (own ++ rest)) (own ++ rest) (length before) (some done)
        (record { steps = done ++ s ∷ []; used = length own; cut = some 0 })
        (drop-length-append before (own ++ rest))
        (step_text-IsRead done s p rest (opens-steps_text ss))
        (omega (arith, counts, length-step_text s, length-append before (own ++ rest))) refl
      ∙ rw (← append_assoc before own rest, ← length-append before own)
          (next ∙ ap (λ (t : List Step). some (found (some t))) (append_assoc done (s ∷ []) ss)))

pub path_text-cons : (ss : List Step) → path_text ss ≡ b'$' ∷ steps_text ss
unfolding path_text
path_text-cons ss = refl

pub root_read :
    (fuel : ℕ) (text : Bytes)
    → parse_from (suc fuel) (b'$' ∷ text) (length (b'$' ∷ text)) 0 none
      ≡ parse_from fuel (b'$' ∷ text) (length (b'$' ∷ text)) 1 (some [])
unfolding parse_from part_at
root_read fuel text = ground arith

-- A path of printable steps is read back from the text it prints as: its keys hold no "$", "*", "]",
-- "." and "[" and do not start with a quote, or hold a "." or a "*" and neither a quote nor a
-- backslash; its indexes are below 2 ^ 64.
pub path_string-path_text :
    (ss : List Step) → ArePrintable ss → path_string (path_text ss) ≡ some (found (some ss))
unfolding path_string
path_string-path_text ss ps = rw (path_text-cons ss) (
    root_read (length (b'$' ∷ steps_text ss)) (steps_text ss)
    ∙ parse_from-steps (length (b'$' ∷ steps_text ss)) ss [] (b'$' ∷ []) ps (omega arith))
