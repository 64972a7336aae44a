-- ===== src/Token/Lookback/History.antt =====
-- What `Lookback` of token/lines.go keeps, by the whole history: the last two tokens, whether
-- each prefix ends on a block header, and the breaks of the comments read last.
use go_yaml.Base.{
  ℕ, ◌+◌, ◌^◌, ◌<◌, Bool, true, false, List, [], ◌∷◌, ltb, if◌then◌else◌, ◌≡◌, refl, ap, ◌∙◌, arith,
}
use go_yaml.Token.Lookback.{
  Lookback, no_token, read, is_comment, is_header, origin_breaks, plus, marked, derive, is_entry,
  gap_of, plain, blank_line_above_of, blank_below, gap_left,
}
use go_yaml.Token.Make.{Token}

-- the tokens read so far, the last one first
abbrev pub History : Type 0
History = List Token

abbrev pub last_token : History → Token
last_token [] = no_token
last_token (t ∷ ts) = t

abbrev pub is_begun : History → Bool
is_begun [] = false
is_begun (t ∷ ts) = true

abbrev pub before_last : History → History
before_last [] = []
before_last (t ∷ ts) = ts

-- whether the last token that is no comment opens a block scalar
abbrev pub ends_on_header : History → Bool
ends_on_header [] = false
ends_on_header (t ∷ ts) = if is_comment t.typ then ends_on_header ts else is_header t.typ

-- the breaks of the comments behind the last token that is none
abbrev pub comment_run : History → ℕ
comment_run [] = 0
comment_run (t ∷ ts) =
    if is_comment t.typ
    then plus (comment_run ts) (origin_breaks (is_begun ts) (last_token ts) t)
    else 0

abbrev pub kept : History → Lookback
kept ts = record {
  prev = last_token ts;
  prev2 = last_token (before_last ts);
  has_prev = is_begun ts;
  has_prev2 = is_begun (before_last ts);
  header0 = ends_on_header ts;
  header1 = ends_on_header (before_last ts);
  header2 = ends_on_header (before_last (before_last ts));
  comments = comment_run ts;
}

read-kept : (ts : History) (t : Token) → read (kept ts) t ≡ kept (t ∷ ts)
unfolding read
read-kept ts t = refl

-- the tokens of a stream as `Derive` leaves them, one after the other
abbrev pub derive_all : Lookback → List Token → List Token
derive_all l [] = []
derive_all l (t ∷ ts) = let (next, u) = derive l t in u ∷ derive_all next ts

abbrev pub marked_all : History → List Token → List Token
marked_all h [] = []
marked_all h (t ∷ ts) = let u = marked (kept h) t in u ∷ marked_all (u ∷ h) ts

derive_step :
    (l : Lookback) (t : Token) (ts : List Token)
    → derive_all l (t ∷ ts) ≡ marked l t ∷ derive_all (read l (marked l t)) ts
unfolding derive
derive_step l t ts = refl

pub derive_all-kept : (h : History) (ts : List Token) → derive_all (kept h) ts ≡ marked_all h ts
derive_all-kept h [] = refl
derive_all-kept h (t ∷ ts) =
    derive_step (kept h) t ts
    ∙ ap (λ (l : Lookback). marked (kept h) t ∷ derive_all l ts) (read-kept h (marked (kept h) t))
    ∙ ap (◌∷◌ (marked (kept h) t)) (derive_all-kept (marked (kept h) t ∷ h) ts)

-- Below a token that is no sequence entry, no scalar and no null, a blank line stands above the next
-- token just if that is more than one line down, on lines below 2 ^ 31.
pub blank_line_above_of-plain :
    (l : Lookback) (t : Token)
    → is_entry l.prev.typ ≡ false
    → gap_of l.prev.typ ≡ plain
    → t.position.line < 2 ^ 31
    → l.prev.position.line < 2 ^ 31
    → blank_line_above_of l t ≡ ltb (l.prev.position.line + 1) t.position.line
unfolding blank_line_above_of blank_below gap_left
blank_line_above_of-plain l t e g a b = rw (e, g) (ground arith)
