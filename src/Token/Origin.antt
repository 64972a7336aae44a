-- ===== src/Token/Origin.antt =====
-- token/token.go: how far a token reaches, measured from the text it was written as (`MeasureOrigin`,
-- `trailingRun`, `extentOf`). An index into the text is a number; an int32 wraps at 2 ^ 32.
pub mod Sums
pub mod Breaks
use go_yaml.Base.{
  ℕ, zero, suc, ◌+◌, ◌-◌, ◌%◌, ◌^◌, Bool, true, false, not, ◌&&◌, ◌||◌, List, [], ◌∷◌, leb, ltb,
  ◌==◌, if◌then◌else◌, length, get_or, Bytes, Option, some, none,
}
use go_yaml.Token.Position.{Position, offset}

unfoldable pub is_blank : ℕ → Bool
is_blank c = c == b' ' || c == b'\t' || c == b'\r' || c == b'\n'

-- what the byte at an index adds to the breaks of the blank run around it
unfoldable pub break_at : Bytes → ℕ → ℕ
break_at org n =
    let c = get_or org n 0 in
    if c == b'\n'
    then 1
    else if c == b'\r'
    then (if n + 1 == length org || not (get_or org (n + 1) 0 == b'\n') then 1 else 0)
    else 0

-- The loop of `trailingRun`, from the index behind the byte it looks at: where the run begins, and
-- its breaks, which an int32 counts.
unfoldable pub trailing_from : Bytes → ℕ → ℕ × ℕ
trailing_from org zero = (zero, 0)
trailing_from org (suc n) =
    let before = trailing_from org n in
    if is_blank (get_or org n 0)
    then (before.0, (before.1 + break_at org n) % 2 ^ 32)
    else (suc n, 0)

unfoldable pub trailing_run : Bytes → ℕ × ℕ
trailing_run org = trailing_from org (length org)

unfoldable pub trailing_breaks_in : Bytes → ℕ
trailing_breaks_in org = (trailing_run org).1

-- `for i < len(org) && isBlank(org[i])`
unfoldable pub leading_run : Bytes → ℕ
leading_run [] = 0
leading_run (c ∷ cs) = let rest = leading_run cs in if is_blank c then suc rest else 0

-- The loop over the text itself, from `k` on, with that many bytes to go: a "\r" and the "\n" behind
-- it are one break, and one step.
unfoldable pub inner_breaks : Bytes → ℕ → ℕ → ℕ
inner_breaks org zero k = 0
inner_breaks org (suc zero) k = let c = get_or org k 0 in if c == b'\n' || c == b'\r' then 1 else 0
inner_breaks org (suc (suc m)) k =
    let c = get_or org k 0 in
    let next = inner_breaks org (suc m) (k + 1) in
    let over = inner_breaks org m (k + 2) in
    if c == b'\n'
    then 1 + next
    else if c == b'\r'
    then (if get_or org (k + 1) 0 == b'\n' then 1 + over else 1 + next)
    else next

pub record Extent : Type 0 where
  pub end : ℕ
  pub end_line : ℕ
  pub trailing : ℕ

unfoldable pub measure_origin : Bytes → Position → Extent
measure_origin org pos =
    let i = leading_run org in
    let run = trailing_run org in
    record {
      end = (offset pos + (length org - i)) % 2 ^ 32;
      end_line = (pos.line + inner_breaks org (run.0 - i) i) % 2 ^ 32;
      trailing = run.1;
    }

unfoldable pub extent_of : Bytes → Position → ℕ
extent_of org pos = (offset pos + (length org - leading_run org)) % 2 ^ 32
