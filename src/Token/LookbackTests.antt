-- ===== src/Token/LookbackTests.antt =====
-- A short stream read through `Lookback`: token/lines.go.
use go_yaml.Base.{◌≡◌, refl, arith, List, map, [], ◌∷◌, codes, true}
use go_yaml.Token.Lookback.{
  no_lookback, is_entry, gap_of, blank_line_above_of, read, derive, Lookback,
}
use go_yaml.Token.Lookback.History.{derive_all, blank_line_above_of-plain}
use go_yaml.Token.Origin.{
  inner_breaks, trailing_run, trailing_from, is_blank, leading_run, break_at,
}
use go_yaml.Token.Spans.{comment_breaks}
use go_yaml.Token.Make.{Token, make_string, make_comment, make_mapping_value}
use go_yaml.Token.Position.{at}

-- "a:", two lines down "# c", below it "b"
abbrev stream : List Token
stream =
    make_string (codes "a") (97 ∷ []) (at 1 1 0 0)
    ∷ make_mapping_value (at 1 2 1 0)
    ∷ make_comment (codes " c") (10 ∷ 10 ∷ 35 ∷ 32 ∷ 99 ∷ 10 ∷ []) (at 3 1 4 0)
    ∷ make_string (codes "b") (98 ∷ []) (at 4 1 8 0)
    ∷ []

-- the three breaks around the comment, above the last token
comments_marked :
    map (λ t. comment_breaks t.spans) (derive_all no_lookback stream) ≡ 0 ∷ 0 ∷ 0 ∷ 3 ∷ []
unfolding derive make_string make_comment make_mapping_value at inner_breaks trailing_run
    trailing_from is_blank leading_run break_at comment_breaks
comments_marked = refl

abbrev behind_colon : Lookback
behind_colon = read no_lookback (make_mapping_value (at 1 2 1 0))

blank_line_above_of-plain_example :
    blank_line_above_of behind_colon (make_string (codes "b") (98 ∷ []) (at 4 1 8 0)) ≡ true
unfolding is_entry gap_of read make_mapping_value make_string at
blank_line_above_of-plain_example =
    blank_line_above_of-plain behind_colon (make_string (codes "b") (98 ∷ []) (at 4 1 8 0)) refl
      refl (omega arith) (omega arith)
