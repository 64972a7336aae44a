-- ===== src/Path/Total.antt =====
-- How the loop of `PathString` in internal/yamlpath/path.go moves, and where it ends.
use mathlib.Core.Path.{subst}
use go_yaml.Base.{
  ℕ, zero, suc, ◌+◌, ◌<◌, ◌≤◌, true, false, Option, none, some, List, [], ◌∷◌, ltb, length, drop,
  Bytes, ◌≡◌, refl, ap, ◌∙◌, arith, inl, inr, Bool-cases, ◌⊎◌,
}
use go_yaml.Path.Step.{Step, Builder, selector, recursive}
use go_yaml.Path.Parse.{
  Result, found, refused, Part, PathError, keyed, parse_recursive, parse_quoted, quoted_part,
  parse_key, parse_dot, parse_index, close_index, index_part, part_at, parse_from, next_length,
  path_string, scan_key, unquote, Quoted, parse_uint,
}

abbrev Moves : Result Part → Type 0
Moves (refused e) = Unit {0}
Moves (found p) = 0 < p.used

keyed-Moves :
    (step : Bytes → Step) (missing : PathError) (done : List Step) (skip : ℕ) (cs : Bytes)
    (r : Result ℕ)
    → Moves (keyed step missing done skip cs r)
unfolding keyed
keyed-Moves step missing done skip cs (refused e) = tt
keyed-Moves step missing done skip cs (found zero) = tt
keyed-Moves step missing done skip cs (found (suc n)) = omega arith

quoted_part-Moves :
    (done : List Step) (key behind : Bytes) (cut : ℕ)
    → Moves (quoted_part done (record { key = key; behind = behind; cut = cut }))
unfolding quoted_part
quoted_part-Moves done [] behind cut = tt
quoted_part-Moves done (k ∷ ks) [] cut = omega arith
quoted_part-Moves done (k ∷ ks) (c ∷ cs) cut = ground arith

index_part-Moves :
    (done : List Step) (used : ℕ) (n : Option ℕ) → 0 < used → Moves (index_part done used n)
index_part-Moves done used none h = tt
index_part-Moves done used (some n) h = h

close_index-Moves :
    (done : List Step) (used : ℕ) (text behind : Bytes)
    → 0 < used
    → Moves (close_index done used text behind)
unfolding close_index
close_index-Moves done used text [] h = tt
close_index-Moves done used text (e ∷ es) h =
    ground (arith, index_part-Moves done used (parse_uint text) h)

parse_index-Moves : (b : Builder) (cs : Bytes) → Moves (parse_index b cs)
unfolding parse_index
parse_index-Moves none cs = tt
parse_index-Moves (some done) [] = tt
parse_index-Moves (some done) (c ∷ cs) = ground (arith, close_index-Moves done)

parse_quoted-Moves : (done : List Step) (cs : Bytes) → Moves (parse_quoted done cs)
unfolding parse_quoted
parse_quoted-Moves done cs =
    elim (unquote cs)
      as (λ (o : Option Quoted).
        Moves
          (elim o [ none ↦ refused PathError.no_end_delimiter | some q ↦ quoted_part done q ])) [
            | none ↦ tt
            | some q ↦ quoted_part-Moves done q.key q.behind q.cut
          ]

parse_dot-Moves : (b : Builder) (cs : Bytes) → Moves (parse_dot b cs)
unfolding parse_dot parse_key parse_recursive
parse_dot-Moves none cs = tt
parse_dot-Moves (some done) [] = keyed-Moves selector PathError.empty_key done 1 [] (scan_key [])
parse_dot-Moves (some done) (c ∷ cs) = ground (
  arith,
  keyed-Moves selector PathError.empty_key done 1 (c ∷ cs) (scan_key (c ∷ cs)),
  keyed-Moves recursive PathError.no_selector done 2 cs (scan_key cs),
  parse_quoted-Moves done cs,
)

part_at-Moves : (b : Builder) (c : ℕ) (cs : Bytes) → Moves (part_at b c cs)
unfolding part_at
part_at-Moves b c cs = ground (arith, parse_dot-Moves b cs, parse_index-Moves b cs)

drop_some :
    (buf : Bytes) (cursor : ℕ)
    → cursor < length buf
    → (c : ℕ) × (cs : Bytes) × (drop cursor buf ≡ c ∷ cs)
drop_some [] cursor h = absurd (omega arith)
drop_some (c ∷ cs) zero h = (c, cs, refl)
drop_some (c ∷ cs) (suc n) h = drop_some cs n (omega arith)

abbrev Ends : Option (Result Builder) → Type 0
Ends o = (r : Result Builder) × (o ≡ some r)

next_length-below :
    (whole len : ℕ) (cut : Option ℕ) → len ≤ whole → next_length whole len cut ≤ whole
next_length-below whole len none h = h
next_length-below whole len (some k) h = omega arith

result_cases :
    {A : Type 0} (r : Result A) → ((e : PathError) × (r ≡ refused e)) ⊎ ((a : A) × (r ≡ found a))
result_cases (refused e) = inl (e, refl)
result_cases (found a) = inr (a, refl)

-- what the loop does with the part at the cursor
abbrev go_on : ℕ → Bytes → ℕ → ℕ → Result Part → Option (Result Builder)
go_on fuel buf len cursor (refused e) = some (refused e)
go_on fuel buf len cursor (found p) =
    parse_from fuel buf (next_length (length buf) len p.cut) (cursor + p.used) (some p.steps)

parse_from-end :
    (fuel : ℕ) (buf : Bytes) (len cursor : ℕ) (b : Builder)
    → ltb cursor len ≡ false
    → parse_from (suc fuel) buf len cursor b ≡ some (found b)
unfolding parse_from
parse_from-end fuel buf len cursor b h = ground arith

parse_from-go_on :
    (fuel : ℕ) (buf : Bytes) (len cursor : ℕ) (b : Builder) (c : ℕ) (cs : Bytes)
    → ltb cursor len ≡ true
    → drop cursor buf ≡ c ∷ cs
    → parse_from (suc fuel) buf len cursor b ≡ go_on fuel buf len cursor (part_at b c cs)
unfolding parse_from
parse_from-go_on fuel buf len cursor b c cs h d = elim (result_cases (part_at b c cs)) [
  | inl (e, r) ↦ ground arith
  | inr (p, r) ↦ ground arith
]

parse_from-Ends :
    (fuel : ℕ) (buf : Bytes) (len cursor : ℕ) (b : Builder)
    → len ≤ length buf
    → length buf < fuel + cursor
    → 0 < fuel
    → Ends (parse_from fuel buf len cursor b)
parse_from-Ends zero buf len cursor b l m h = elim h [ ]
parse_from-Ends (suc fuel) buf len cursor b l m h = elim (Bool-cases (ltb cursor len)) [
  | inr past ↦ (found b, parse_from-end fuel buf len cursor b past)
  | inl before ↦
      let (c, cs, d) = drop_some buf cursor (ground arith) in
      let step = parse_from-go_on fuel buf len cursor b c cs before d in
      elim (result_cases (part_at b c cs)) [
        | inl (e, r) ↦ (refused e, step ∙ ap (go_on fuel buf len cursor) r)
        | inr (p, r) ↦
            let moved : 0 < p.used = subst Moves r (part_at-Moves b c cs) in
            let (res, e) =
              parse_from-Ends fuel buf (next_length (length buf) len p.cut) (cursor + p.used)
                (some p.steps) (next_length-below (length buf) len p.cut l) (omega arith)
                (ground arith) in
            (res, step ∙ ap (go_on fuel buf len cursor) r ∙ e)
      ]
]

-- `PathString` answers every text, with a path or with a refusal, and never reads past the text.
pub path_string-total : (s : Bytes) → (r : Result Builder) × (path_string s ≡ some r)
unfolding path_string
path_string-total s =
    parse_from-Ends (suc (length s)) s (length s) 0 none (omega arith) (omega arith) (omega arith)
