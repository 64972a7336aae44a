-- ===== src/Token/Lookback/Marks.antt =====
-- The marks of token/lines.go as the tokens in front of each say them, over the whole history.
use go_yaml.Base.{
  ℕ, ◌+◌, ◌-◌, ◌%◌, ◌^◌, ◌<◌, Bool, true, false, not, ◌&&◌, List, [], ◌∷◌, ltb, if◌then◌else◌, ◌≡◌,
  refl, sym, ap, ◌∙◌, arith,
}
use go_yaml.Token.Lookback.{
  Lookback, minus, plus, is_positive, is_comment, is_entry, origin_breaks, comment_breaks_above,
  stands_inside_entry, Gap, below_scalar, below_null, plain, gap_of, gap_left, blank_below,
  blank_line_above_of, marked,
}
use go_yaml.Token.Lookback.History.{
  History, is_begun, last_token, ends_on_header, comment_run, kept,
}
use go_yaml.Token.Make.{Token}
use go_yaml.Token.Origin.{trailing_breaks_in}
use go_yaml.Token.Spans.{
  end_line, breaks_after_leading, trailing_breaks, comment_mask, set_blank_line_above,
  set_comment_breaks, set_blank_line_above-value,
}
use go_yaml.Token.Spans.Fields.{
  Fields, fields, fields-parts, clamped, comments_written, blank_written,
}
use mathlib.Core.Path.{subst}

-- The line breaks in a token's text, the blanks around it included: from the end of the token in front, or
-- without one from the line it starts on.
abbrev pub text_breaks : History → Token → ℕ
text_breaks [] t = plus (minus (fields t.spans).line t.position.line) (fields t.spans).trailing
text_breaks (b ∷ bs) t =
    plus (minus (minus (fields t.spans).line (fields b.spans).line) (fields b.spans).trailing)
      (fields t.spans).trailing

-- the breaks of the comments behind the last token that is none
abbrev pub comment_sum : History → ℕ
comment_sum [] = 0
comment_sum (t ∷ ts) = if is_comment t.typ then plus (comment_sum ts) (text_breaks ts t) else 0

abbrev pub comments_above : History → Token → ℕ
comments_above h t = if is_comment t.typ then 0 else comment_sum h

-- the lines a token takes up, and as a block scalar's content those its text ends on
abbrev pub text_lines : Token → Bool → ℕ
text_lines p is_content =
    if is_content
    then plus (minus (fields p.spans).line p.position.line) (trailing_breaks_in p.value - 1)
    else minus (fields p.spans).line p.position.line

-- The lines left between a token p and a later one, `diff` lines down and `used` of them taken: behind a
-- scalar its own lines are taken as well, and a null has its own breaks instead.
abbrev pub lines_left : Gap → Token → Bool → ℕ → ℕ → ℕ → ℕ
lines_left below_scalar p is_content own diff used =
    minus diff (plus used (text_lines p is_content))
lines_left below_null p is_content own diff used = own
lines_left plain p is_content own diff used = minus diff used

abbrev pub is_apart : Token → Bool → ℕ → Token → ℕ → Bool
is_apart p is_content own t used =
    let diff = minus (minus t.position.line p.position.line) 1 in
    is_positive diff && is_positive (lines_left (gap_of p.typ) p is_content own diff used)

-- Inside a sequence entry the token in front of its dash is asked, and the lines from the dash are taken.
abbrev pub apart_from_entry : Token → History → Token → Bool
apart_from_entry p [] t =
    is_apart p false (text_breaks [] p) t (minus t.position.line p.position.line)
apart_from_entry p (q ∷ qs) t =
    is_apart q (ends_on_header qs) 0 t (minus t.position.line p.position.line)

abbrev pub blank_above : History → Token → Bool
blank_above [] t = false
blank_above (p ∷ ps) t =
    if is_entry p.typ && stands_inside_entry p t
    then apart_from_entry p ps t
    else is_apart p (ends_on_header ps) (text_breaks ps p) t 0

leading_eq :
    (line x : ℕ)
    → breaks_after_leading line x ≡ (end_line x + 2 ^ 32 - line + trailing_breaks x) % 2 ^ 32
unfolding breaks_after_leading
leading_eq line x = refl

text_breaks_eq :
    (h : History) (t : Token) → origin_breaks (is_begun h) (last_token h) t ≡ text_breaks h t
unfolding origin_breaks
text_breaks_eq [] t = omega (arith, leading_eq t.position.line t.spans)
text_breaks_eq (b ∷ bs) t = refl

comment_sum_eq : (h : History) → comment_run h ≡ comment_sum h
comment_sum_eq [] = refl
comment_sum_eq (t ∷ ts) = rw (comment_sum_eq ts, text_breaks_eq ts t) refl

pub comment_breaks_above-kept :
    (h : History) (t : Token) → comment_breaks_above (kept h) t ≡ comments_above h t
unfolding comment_breaks_above
comment_breaks_above-kept h t = rw (comment_sum_eq h) refl

gap_left_eq :
    (g : Gap) (l : Lookback) (p : Token) (header : Bool) (own diff used : ℕ)
    → origin_breaks l.has_prev2 l.prev2 p ≡ own
    → gap_left g l p header diff used ≡ is_positive (lines_left g p header own diff used)
unfolding gap_left
gap_left_eq below_scalar l p true own diff used e = refl
gap_left_eq below_scalar l p false own diff used e = refl
gap_left_eq below_null l p header own diff used e = ap is_positive e
gap_left_eq plain l p header own diff used e = refl

guarded : (a b : Bool) → (if not a then false else b) ≡ (a && b)
guarded true b = refl
guarded false b = refl

blank_below_eq :
    (l : Lookback) (t p : Token) (header : Bool) (used : ℕ)
    → blank_below l t p header used ≡ (
        let diff = minus (minus t.position.line p.position.line) 1 in
        if not (is_positive diff) then false else gap_left (gap_of p.typ) l p header diff used)
unfolding blank_below
blank_below_eq l t p header used = refl

is_apart_eq :
    (l : Lookback) (t p : Token) (header : Bool) (own used : ℕ)
    → origin_breaks l.has_prev2 l.prev2 p ≡ own
    → blank_below l t p header used ≡ is_apart p header own t used
is_apart_eq l t p header own used e =
    let diff = minus (minus t.position.line p.position.line) 1 in
    blank_below_eq l t p header used
    ∙ guarded (is_positive diff) _
    ∙ ap (λ b. is_positive diff && b) (gap_left_eq (gap_of p.typ) l p header own diff used e)

trailing_bound : (x : ℕ) → trailing_breaks x < 2 ^ 14
trailing_bound x = omega (arith, ap (λ (f : Fields). f.trailing) (fields-parts x))

own_breaks : (q : Token) → origin_breaks true q q ≡ 0
unfolding origin_breaks
own_breaks q = omega (arith, trailing_bound q.spans)

if_same : (c : Bool) {a b d e : Bool} → a ≡ d → b ≡ e → (if c then a else b) ≡ (if c then d else e)
if_same true p q = p
if_same false p q = q

pub blank_line_above_of-kept :
    (p : Token) (ps : History) (t : Token)
    → blank_line_above_of (kept (p ∷ ps)) t ≡ blank_above (p ∷ ps) t
unfolding blank_line_above_of
blank_line_above_of-kept p [] t =
    let l = kept (p ∷ []) in
    if_same (is_entry p.typ && stands_inside_entry p t)
      (is_apart_eq l t p false _ (minus t.position.line p.position.line) (text_breaks_eq [] p))
      (is_apart_eq l t p false _ 0 (text_breaks_eq [] p))
blank_line_above_of-kept p (q ∷ qs) t =
    let l = kept (p ∷ q ∷ qs) in
    if_same (is_entry p.typ && stands_inside_entry p t)
      (is_apart_eq l t q (ends_on_header qs) 0 (minus t.position.line p.position.line)
        (own_breaks q))
      (is_apart_eq l t p (ends_on_header (q ∷ qs)) _ 0 (text_breaks_eq (q ∷ qs) p))

-- the fields that a token has behind those in front of it, by the fields it had
abbrev pub marked_fields : History → Token → Fields
marked_fields [] t = fields t.spans
marked_fields (p ∷ ps) t = record (fields t.spans) {
  comments = clamped (comments_above (p ∷ ps) t) comment_mask;
  blank = blank_above (p ∷ ps) t;
}

-- a token and the same one marked
pub record IsMarked (h : History) (t u : Token) : Type 0 where
  pub has_fields : fields u.spans ≡ marked_fields h t
  pub same_type : u.typ ≡ t.typ
  pub same_value : u.value ≡ t.value
  pub same_end : u.end ≡ t.end
  pub same_place : u.position ≡ t.position

-- Each token of a stream against the one at its place in the other, behind those in front of that.
pub data AreMarked : History → List Token → List Token → Type 0 where
  ends : {h : History} → AreMarked h [] []
  goes :
      {h : History} {t u : Token} {ts us : List Token}
      → IsMarked h t u
      → AreMarked (u ∷ h) ts us
      → AreMarked h (t ∷ ts) (u ∷ us)

blank_bound : (x : ℕ) (b : Bool) → x < 2 ^ 64 → set_blank_line_above x b < 2 ^ 64
blank_bound x true h = omega (arith, set_blank_line_above-value x h true)
blank_bound x false h = omega (arith, set_blank_line_above-value x h false)

marked_spans :
    (x n : ℕ) (b : Bool)
    → x < 2 ^ 64
    → fields (set_comment_breaks (set_blank_line_above x b) n)
      ≡ record (fields x) { comments = clamped n comment_mask; blank = b }
marked_spans x n b h =
    comments_written (set_blank_line_above x b) (blank_bound x b h) n
    ∙ ap (λ (f : Fields). record f { comments = clamped n comment_mask }) (blank_written x h b)

unfolded_mark :
    (p : Token) (ps : History) (t : Token)
    → marked (kept (p ∷ ps)) t ≡ record t {
      spans =
          set_comment_breaks
            (set_blank_line_above t.spans (blank_line_above_of (kept (p ∷ ps)) t))
            (comment_breaks_above (kept (p ∷ ps)) t);
    }
unfolding marked
unfolded_mark p ps t = refl

first_mark : (t : Token) → marked (kept []) t ≡ t
unfolding marked
first_mark t = refl

of_equal : {h : History} {t u v : Token} → u ≡ v → IsMarked h t v → IsMarked h t u
of_equal {h} {t} e m = subst (IsMarked h t) (sym e) m

pub marked-IsMarked :
    (h : History) (t : Token) → t.spans < 2 ^ 64 → IsMarked h t (marked (kept h) t)
marked-IsMarked [] t small = of_equal (first_mark t) (record {
  has_fields = refl;
  same_type = refl;
  same_value = refl;
  same_end = refl;
  same_place = refl;
})
marked-IsMarked (p ∷ ps) t small = of_equal (unfolded_mark p ps t) (record {
  has_fields =
      marked_spans t.spans _ _ small
      ∙ rw (blank_line_above_of-kept p ps t, comment_breaks_above-kept (p ∷ ps) t) refl;
  same_type = refl;
  same_value = refl;
  same_end = refl;
  same_place = refl;
})

-- the words of the tokens have 64 bits
abbrev pub are_words : List Token → Bool
are_words [] = true
are_words (t ∷ ts) = ltb t.spans (2 ^ 64) && are_words ts
