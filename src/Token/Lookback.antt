-- ===== src/Token/Lookback.antt =====
-- token/lines.go: `Lookback`, which says of each token whether a blank line stands above it and how many
-- breaks the comments above it take up. An int32 is held as its bit pattern.
pub mod History
pub mod Marks
use go_yaml.Base.{
  ℕ, suc, ◌+◌, ◌-◌, ◌%◌, ◌^◌, Bool, true, false, not, ◌&&◌, ◌||◌, List, [], ◌∷◌, ltb, ◌==◌,
  if◌then◌else◌,
}
use go_yaml.Token.Kind.{
  TokenType, comment, literal, folded, sequence_entry, string, single_quote, double_quote, null,
  implicit_null, unknown,
}
use go_yaml.Token.Make.{Token}
use go_yaml.Token.Origin.{trailing_breaks_in}
use go_yaml.Token.Position.{no_position}
use go_yaml.Token.Spans.{
  end_line, trailing_breaks, breaks_after_leading, set_blank_line_above, set_comment_breaks,
}

-- `a - b` and `a + b` of int32
abbrev pub minus : ℕ → ℕ → ℕ
minus a b = (a + 2 ^ 32 - b) % 2 ^ 32

abbrev pub plus : ℕ → ℕ → ℕ
plus a b = (a + b) % 2 ^ 32

-- `a > 0` and `a > b` of int32
abbrev pub is_positive : ℕ → Bool
is_positive a = not (a == 0) && ltb a (2 ^ 31)

abbrev pub is_above : ℕ → ℕ → Bool
is_above a b = ltb ((b + 2 ^ 31) % 2 ^ 32) ((a + 2 ^ 31) % 2 ^ 32)

-- `Token{}`
abbrev pub no_token : Token
no_token = record { typ = unknown; value = []; end = 0; position = no_position; spans = 0 }

pub record Lookback : Type 0 where
  pub prev : Token
  pub prev2 : Token
  pub has_prev : Bool
  pub has_prev2 : Bool
  pub header0 : Bool
  pub header1 : Bool
  pub header2 : Bool
  pub comments : ℕ

-- `Lookback{}`, and `Reset`
abbrev pub no_lookback : Lookback
no_lookback = record {
  prev = no_token;
  prev2 = no_token;
  has_prev = false;
  has_prev2 = false;
  header0 = false;
  header1 = false;
  header2 = false;
  comments = 0;
}

unfoldable pub is_comment : TokenType → Bool
is_comment TokenType.comment = true
is_comment _ = false

unfoldable pub is_header : TokenType → Bool
is_header TokenType.literal = true
is_header TokenType.folded = true
is_header _ = false

unfoldable pub is_entry : TokenType → Bool
is_entry TokenType.sequence_entry = true
is_entry _ = false

-- the breaks in the whole text of a token, the one before it being there or not
unfoldable pub origin_breaks : Bool → Token → Token → ℕ
unfolding end_line trailing_breaks breaks_after_leading
origin_breaks has_before before t =
    if not has_before
    then breaks_after_leading t.position.line t.spans
    else plus
        (minus (minus (end_line t.spans) (end_line before.spans)) (trailing_breaks before.spans))
        (trailing_breaks t.spans)

unfoldable pub read : Lookback → Token → Lookback
unfolding is_comment is_header origin_breaks
read l t = record {
  prev = t;
  prev2 = l.prev;
  has_prev = true;
  has_prev2 = l.has_prev;
  header0 = if is_comment t.typ then l.header0 else is_header t.typ;
  header1 = l.header0;
  header2 = l.header1;
  comments = if is_comment t.typ then plus l.comments (origin_breaks l.has_prev l.prev t) else 0;
}

unfoldable pub comment_breaks_above : Lookback → Token → ℕ
unfolding is_comment
comment_breaks_above l t = if is_comment t.typ then 0 else l.comments

unfoldable pub stands_inside_entry : Token → Token → Bool
stands_inside_entry dash t =
    t.position.line == dash.position.line || is_above t.position.column dash.position.column

-- `linesSpannedBy`, as the int32 it is cut to
unfoldable pub lines_spanned_by : Token → Bool → ℕ
unfolding end_line trailing_breaks_in
lines_spanned_by t is_content =
    let lines = minus (end_line t.spans) t.position.line in
    if not is_content then lines else plus lines (trailing_breaks_in t.value - 1)

-- the three arms of the switch on the type of the token before
pub data Gap : Type 0 where
  below_scalar below_null plain : Gap

unfoldable pub gap_of : TokenType → Gap
gap_of TokenType.string = below_scalar
gap_of TokenType.single_quote = below_scalar
gap_of TokenType.double_quote = below_scalar
gap_of TokenType.null = below_null
gap_of TokenType.implicit_null = below_null
gap_of _ = plain

-- the switch, behind the test of the distance
unfoldable pub gap_left : Gap → Lookback → Token → Bool → ℕ → ℕ → Bool
unfolding lines_spanned_by origin_breaks
gap_left below_scalar l prev header diff adjustment =
    is_positive (minus diff (plus adjustment (lines_spanned_by prev header)))
gap_left below_null l prev header diff adjustment =
    is_positive (origin_breaks l.has_prev2 l.prev2 prev)
gap_left plain l prev header diff adjustment = is_positive (minus diff adjustment)

unfoldable pub blank_below : Lookback → Token → Token → Bool → ℕ → Bool
unfolding gap_left gap_of
blank_below l t prev header adjustment =
    let diff = minus (minus t.position.line prev.position.line) 1 in
    if not (is_positive diff)
    then false
    else gap_left (gap_of prev.typ) l prev header diff adjustment

unfoldable pub blank_line_above_of : Lookback → Token → Bool
unfolding blank_below stands_inside_entry is_entry
blank_line_above_of l t =
    if is_entry l.prev.typ && stands_inside_entry l.prev t
    then (let adjustment = minus t.position.line l.prev.position.line in
        if l.has_prev2
        then blank_below l t l.prev2 l.header2 adjustment
        else blank_below l t l.prev l.header1 adjustment)
    else blank_below l t l.prev l.header1 0

-- the two marks that `Derive` sets
unfoldable pub marked : Lookback → Token → Token
unfolding blank_line_above_of comment_breaks_above set_blank_line_above set_comment_breaks
marked l t =
    if l.has_prev
    then record t {
      spans =
          set_comment_breaks (set_blank_line_above t.spans (blank_line_above_of l t))
            (comment_breaks_above l t);
    }
    else t

-- `Derive`
unfoldable pub derive : Lookback → Token → Lookback × Token
unfolding marked read
derive l t = (read l (marked l t), marked l t)
