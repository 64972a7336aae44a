-- ===== src/Path/Quoted.antt =====
-- A backslash inside a quoted key of a path, behind the steps in front of it: `PathString` of
-- internal/yamlpath/path.go.
use go_yaml.Base.{
  ℕ, suc, ◌+◌, ◌-◌, ◌<◌, ◌≤◌, true, false, some, List, [], ◌∷◌, ◌++◌, length, drop, Bytes, ◌≡◌,
  refl, sym, ap, ◌∙◌, arith, length-append, append_assoc, append-nil, drop-length-append,
}
use go_yaml.Base.Bits.{suc_add}
use go_yaml.Path.Step.{Step, selector, index, index_all, recursive, Builder, step_text, steps_text}
use go_yaml.Path.Parse.{
  found, refused, Part, invalid_path, unquote, quoted_part, parse_quoted, parse_dot, part_at,
  parse_from, path_string, is_misplaced,
}
use go_yaml.Path.Printable.{ArePrintable, opens_step, IsUnescaped, unquote-append}
use go_yaml.Path.StepRead.{step_text-IsRead}
use go_yaml.Path.RoundTrip.{
  parse_from-found, length-step_text, steps_text-cons, steps_text-nil, root_read,
}

unquote-escape :
    (a b rest : Bytes) (q : ℕ)
    → IsUnescaped a
    → IsUnescaped b
    → unquote (a ++ b'\\' ∷ q ∷ (b ++ b'\'' ∷ rest))
      ≡ some (record { key = a ++ q ∷ b; behind = rest; cut = 1 })
unfolding unquote
unquote-escape [] b rest q ua ub = rw (unquote-append b rest ub) refl
unquote-escape (c ∷ []) b rest q (u, us) ub = rw (unquote-append b rest ub) (ground arith)
unquote-escape (c ∷ d ∷ ds) b rest q (u, us) ub =
    rw (unquote-escape (d ∷ ds) b rest q us ub) (ground arith)

part_at_quote :
    (done : List Step) (text : Bytes)
    → part_at (some done) b'.' (b'\'' ∷ text) ≡ parse_quoted done text
unfolding part_at parse_dot
part_at_quote done text = refl

parse_quoted-read :
    (done : List Step) (text : Bytes) (k : ℕ) (ks : Bytes) (d : ℕ) (ds : Bytes) (cut : ℕ)
    → unquote text ≡ some (record { key = k ∷ ks; behind = d ∷ ds; cut = cut })
    → is_misplaced d ≡ false
    → parse_quoted done text
      ≡ found (record {
        steps = done ++ selector (k ∷ ks) ∷ [];
        used = 3 + length (k ∷ ks);
        cut = some cut;
      })
unfolding parse_quoted quoted_part
parse_quoted-read done text k ks d ds cut e m = rw (parse_quoted, e, m) refl

-- a quoted key with a backslash in it, and something behind it
quoted_key_read :
    (done : List Step) (a b ds : Bytes) (q d : ℕ)
    → IsUnescaped a
    → IsUnescaped b
    → is_misplaced d ≡ false
    → part_at (some done) b'.' (b'\'' ∷ (a ++ b'\\' ∷ q ∷ (b ++ b'\'' ∷ d ∷ ds)))
      ≡ found (record {
        steps = done ++ selector (a ++ q ∷ b) ∷ [];
        used = 3 + length (a ++ q ∷ b);
        cut = some 1;
      })
quoted_key_read done [] b ds q d ua ub m =
    part_at_quote done _
    ∙ parse_quoted-read done _ q b d ds 1 (unquote-escape [] b (d ∷ ds) q ua ub) m
quoted_key_read done (c ∷ cs) b ds q d ua ub m =
    part_at_quote done _
    ∙ parse_quoted-read done _ c (cs ++ q ∷ b) d ds 1 (unquote-escape (c ∷ cs) b (d ∷ ds) q ua ub) m

-- the text in front of the closing quote, and the whole
abbrev opening : Bytes → ℕ → Bytes → Bytes
opening a q b = b'.' ∷ b'\'' ∷ (a ++ b'\\' ∷ q ∷ b)

abbrev pub escaped_key : Bytes → ℕ → Bytes → Bytes → Bytes
escaped_key a q b rest = b'.' ∷ b'\'' ∷ (a ++ b'\\' ∷ q ∷ (b ++ b'\'' ∷ rest))

escaped_key-opening :
    (a b rest : Bytes) (q : ℕ) → escaped_key a q b rest ≡ opening a q b ++ b'\'' ∷ rest
escaped_key-opening a b rest q =
    ap (λ (t : Bytes). b'.' ∷ b'\'' ∷ t) (sym (append_assoc a (b'\\' ∷ q ∷ b) (b'\'' ∷ rest)))

length-opening : (a b : Bytes) (q : ℕ) → length (opening a q b) ≡ 3 + length (a ++ q ∷ b)
length-opening a b q = omega (arith, length-append a (b'\\' ∷ q ∷ b), length-append a (q ∷ b))

at_the_quote :
    (fuel len : ℕ) (buf rest : Bytes) (cursor : ℕ) (b : Builder)
    → cursor < len
    → drop cursor buf ≡ b'\'' ∷ rest
    → parse_from (suc fuel) buf len cursor b ≡ some (refused invalid_path)
unfolding parse_from part_at
at_the_quote fuel len buf rest cursor b h d = ground arith

-- the round that reads a key and shortens the text by one byte
cut_round :
    (fuel : ℕ) (buf cs : Bytes) (cursor : ℕ) (done : List Step) (p : Part)
    → drop cursor buf ≡ b'.' ∷ cs
    → part_at (some done) b'.' cs ≡ found p
    → cursor < length buf
    → p.cut ≡ some 1
    → parse_from (suc fuel) buf (length buf) cursor (some done)
      ≡ parse_from fuel buf (length buf - 1) (cursor + p.used) (some p.steps)
unfolding parse_from
cut_round fuel buf cs cursor done p d r h u = ground arith

opens_behind :
    (ss : List Step) (rest : Bytes)
    → opens_step rest ≡ true
    → opens_step (steps_text ss ++ rest) ≡ true
unfolding steps_text step_text
opens_behind [] rest h = h
opens_behind (selector text ∷ ss) rest h = refl
opens_behind (index i ∷ ss) rest h = refl
opens_behind (index_all ∷ ss) rest h = refl
opens_behind (recursive text ∷ ss) rest h = refl

-- The loop reads the printable steps in front of something that opens a step.
parse_from-prefix :
    (fuel : ℕ) (ss done : List Step) (before rest : Bytes)
    → ArePrintable ss
    → opens_step rest ≡ true
    → let buf = before ++ (steps_text ss ++ rest) in
      parse_from (length ss + fuel) buf (length buf) (length before) (some done)
      ≡ parse_from fuel buf (length buf) (length (before ++ steps_text ss)) (some (done ++ ss))
parse_from-prefix fuel [] done before rest ps o =
    let e : 0 + fuel ≡ fuel = omega arith in
    rw (steps_text-nil, append-nil before, append-nil done, e) refl
parse_from-prefix fuel (s ∷ ss) done before rest (p, ps) o =
    let own = step_text s in
    let more = steps_text ss in
    let behind = more ++ rest in
    let next = parse_from-prefix fuel ss (done ++ s ∷ []) (before ++ own) rest ps o in
    let buf = (before ++ own) ++ behind in
    let regrouped =
      ap
        (λ (t : List Step).
          parse_from fuel buf (length buf) (length ((before ++ own) ++ more)) (some t))
        (append_assoc done (s ∷ []) ss) in
    rw (steps_text-cons s ss, append_assoc own more rest, suc_add (length ss) fuel)
      (parse_from-found (length ss + fuel) (before ++ (own ++ behind)) (own ++ behind)
          (length before) (some done)
          (record { steps = done ++ s ∷ []; used = length own; cut = some 0 })
          (drop-length-append before (own ++ behind))
          (step_text-IsRead done s p behind (opens_behind ss rest o))
          (omega (
            arith,
            length-append own behind,
            length-step_text s,
            length-append before (own ++ behind),
          ))
          refl
        ∙ rw
            (
              ← append_assoc before own behind,
              ← append_assoc before own more,
              ← length-append before own,
            )
            (next ∙ regrouped))

-- The key and the closing quote, behind whatever was read.
quoted_refused :
    (fuel : ℕ) (before : Bytes) (done : List Step) (a b ds : Bytes) (q d : ℕ)
    → IsUnescaped a
    → IsUnescaped b
    → is_misplaced d ≡ false
    → let buf = before ++ escaped_key a q b (d ∷ ds) in
      parse_from (suc (suc fuel)) buf (length buf) (length before) (some done)
      ≡ some (refused invalid_path)
quoted_refused fuel before done a b ds q d ua ub m =
    let key = a ++ q ∷ b in
    let text = escaped_key a q b (d ∷ ds) in
    let buf = before ++ text in
    let sizes = length-append before text in
    let own : length text ≡ 5 + length key + length ds = omega (
      arith,
      length-append a (b'\\' ∷ q ∷ (b ++ b'\'' ∷ d ∷ ds)),
      length-append b (b'\'' ∷ d ∷ ds),
      length-append a (q ∷ b),
    ) in
    let apart : buf ≡ (before ++ opening a q b) ++ b'\'' ∷ d ∷ ds =
      ap (before ++◌) (escaped_key-opening a b (d ∷ ds) q)
      ∙ sym (append_assoc before (opening a q b) (b'\'' ∷ d ∷ ds)) in
    let place : length before + (3 + length key) ≡ length (before ++ opening a q b) =
      omega (arith, length-append before (opening a q b), length-opening a b q) in
    cut_round (suc fuel) buf (drop 1 text) (length before) done
      (record { steps = done ++ selector key ∷ []; used = 3 + length key; cut = some 1 })
      (drop-length-append before text) (quoted_key_read done a b ds q d ua ub m) (omega arith) refl
    ∙ at_the_quote fuel (length buf - 1) buf (d ∷ ds) (length before + (3 + length key))
        (some (done ++ selector key ∷ [])) (omega arith)
        (ap (drop (length before + (3 + length key))) apart
          ∙ ap (λ (n : ℕ). drop n ((before ++ opening a q b) ++ b'\'' ∷ d ∷ ds)) place
          ∙ drop-length-append (before ++ opening a q b) (b'\'' ∷ d ∷ ds))

length-steps_text : (ss : List Step) → length ss ≤ length (steps_text ss)
length-steps_text [] = omega arith
length-steps_text (s ∷ ss) = omega (
  arith,
  ap (λ (t : Bytes). length t) (steps_text-cons s ss),
  length-append (step_text s) (steps_text ss),
  length-step_text s,
  length-steps_text ss,
)

escaped_key_opens : (a b rest : Bytes) (q : ℕ) → opens_step (escaped_key a q b rest) ≡ true
escaped_key_opens a b rest q = refl

abbrev root : Bytes
root = b'$' ∷ []

-- A path with one backslash in a quoted key, behind any printable steps and in front of anything that may
-- stand behind a key, is refused: the loop goes on in the text that still holds the backslash, at the
-- closing quote.
pub path_string-escaped :
    (ss : List Step) (a b ds : Bytes) (q d : ℕ)
    → ArePrintable ss
    → IsUnescaped a
    → IsUnescaped b
    → is_misplaced d ≡ false
    → path_string (b'$' ∷ steps_text ss ++ escaped_key a q b (d ∷ ds)) ≡ some (refused invalid_path)
unfolding path_string
path_string-escaped ss a b ds q d ps ua ub m =
    let key = escaped_key a q b (d ∷ ds) in
    let text = steps_text ss ++ key in
    let spare = length text - length ss - 2 in
    let fuel : suc (length text) ≡ length ss + suc (suc (suc spare)) = omega (
      arith,
      length-append (steps_text ss) key,
      length-steps_text ss,
      length-append a (b'\\' ∷ q ∷ (b ++ b'\'' ∷ d ∷ ds)),
    ) in
    let buf = b'$' ∷ text in
    root_read (suc (length text)) text
    ∙ ap (λ (n : ℕ). parse_from n buf (length buf) 1 (some [])) fuel
    ∙ parse_from-prefix (suc (suc (suc spare))) ss [] root key ps (escaped_key_opens a b (d ∷ ds) q)
    ∙ quoted_refused (suc spare) (root ++ steps_text ss) ss a b ds q d ua ub m
