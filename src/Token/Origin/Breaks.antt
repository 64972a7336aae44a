-- ===== src/Token/Origin/Breaks.antt =====
-- The line breaks that `MeasureOrigin` of token/token.go counts, against those of the text.
use go_yaml.Base.{
  ℕ, zero, suc, ◌+◌, ◌-◌, ◌≤◌, ◌<◌, ◌%◌, ◌^◌, true, false, [], ◌∷◌, length, get_or, Bytes, ◌≡◌,
  refl, ap, ◌∙◌, arith, Bool-cases, inl, inr,
}
use go_yaml.Token.Position.{Position}
use go_yaml.Token.Origin.{
  is_blank, trailing_from, trailing_run, leading_run, inner_breaks, measure_origin,
}
use go_yaml.Token.Origin.Sums.{
  breaks, breaks_before, IsTextEnd, trailing_from-breaks, trailing_from-past, trailing_from-full,
  inner_none, same_index, inner_breaks-breaks, breaks_before-all,
}

leading_run-below : (org : Bytes) → leading_run org ≤ length org
unfolding leading_run
leading_run-below [] = omega arith
leading_run-below (c ∷ cs) = ground (arith, leading_run-below cs)

leading_run-text :
    (org : Bytes) → leading_run org < length org → is_blank (get_or org (leading_run org) 0) ≡ false
unfolding leading_run
leading_run-text [] h = absurd (omega arith)
leading_run-text (c ∷ cs) h = elim (Bool-cases (is_blank c)) [
  | inl blank ↦ rw blank (leading_run-text cs (ground arith))
  | inr full ↦ rw full full
]

trailing_from-below : (org : Bytes) (n : ℕ) → (trailing_from org n).0 ≤ n
unfolding trailing_from
trailing_from-below org zero = omega arith
trailing_from-below org (suc n) = ground (arith, trailing_from-below org n)

-- the byte in front of the trailing run is the end of the text behind the leading one
text_end :
    (org : Bytes) (i t : ℕ)
    → (trailing_from org (length org)).0 ≡ t
    → i < t
    → IsTextEnd org i (t - i)
text_end org i t e h m q = trailing_from-full org (length org) (i + m) (e ∙ omega arith)

text_breaks :
    (org : Bytes) (i t : ℕ)
    → (trailing_from org (length org)).0 ≡ t
    → i < t
    → (breaks_before org i + inner_breaks org (t - i) i + (trailing_from org (length org)).1)
        % 2 ^ 32
      ≡ breaks org % 2 ^ 32
text_breaks org i t e h =
    let spanned =
      inner_breaks-breaks org (t - i) i (text_end org i t e h)
        (omega (arith, trailing_from-below org (length org))) in
    omega (
      arith,
      spanned,
      same_index org (i + (t - i)) t (omega arith),
      same_index org (trailing_from org (length org)).0 t e,
      trailing_from-breaks org (length org),
      breaks_before-all org,
    )

-- Measuring the text of a token that is not blank as a whole counts each of its line breaks once: in
-- front of the token, from the line it starts on to the line it ends on, or behind it. The count of
-- those behind it wraps as an int32, and so does the sum.
pub measure_origin-breaks :
    (org : Bytes) (pos : Position)
    → leading_run org < length org
    → (spanned : ℕ) × ((measure_origin org pos).end_line ≡ (pos.line + spanned) % 2 ^ 32)
      × ((breaks_before org (leading_run org) + spanned + (measure_origin org pos).trailing)
            % 2 ^ 32
          ≡ breaks org % 2 ^ 32)
unfolding measure_origin trailing_run
measure_origin-breaks org pos h =
    let i = leading_run org in
    let t = (trailing_from org (length org)).0 in
    (
      inner_breaks org (t - i) i,
      refl,
      text_breaks org i t refl (trailing_from-past org (length org) i (leading_run-text org h) h),
    )

trailing_from-blank :
    (org : Bytes) (n : ℕ)
    → ((m : ℕ) → m < n → is_blank (get_or org m 0) ≡ true)
    → (trailing_from org n).0 ≡ 0
unfolding trailing_from
trailing_from-blank org zero b = refl
trailing_from-blank org (suc n) b =
    rw (b n (omega arith)) (trailing_from-blank org n (λ m h. b m (omega arith)))

leading_run-blank : (org : Bytes) (m : ℕ) → m < leading_run org → is_blank (get_or org m 0) ≡ true
unfolding leading_run
leading_run-blank [] m h = absurd (omega arith)
leading_run-blank (c ∷ cs) zero h = ground arith
leading_run-blank (c ∷ cs) (suc m) h = ground (arith, leading_run-blank cs m)

inner_none_left : (org : Bytes) (n k : ℕ) → n ≡ 0 → inner_breaks org n k ≡ 0
inner_none_left org n k e = ap (λ (t : ℕ). inner_breaks org t k) e ∙ inner_none org k

-- A text that is blank as a whole ends on the line it starts on, and all its breaks are behind it,
-- counted as an int32.
pub measure_origin-blank :
    (org : Bytes) (pos : Position)
    → leading_run org ≡ length org
    → ((measure_origin org pos).end_line ≡ pos.line % 2 ^ 32)
      × ((measure_origin org pos).trailing % 2 ^ 32 ≡ breaks org % 2 ^ 32)
unfolding measure_origin trailing_run
measure_origin-blank org pos h =
    let none_left : (trailing_from org (length org)).0 ≡ 0 =
      trailing_from-blank org (length org) (λ m g. leading_run-blank org m (omega (arith, h))) in
    let n = (trailing_from org (length org)).0 - leading_run org in
    (
      ap (λ (t : ℕ). (pos.line + t) % 2 ^ 32)
            (inner_none_left org n (leading_run org) (omega arith))
          ∙ omega arith,
      omega (
        arith,
        trailing_from-breaks org (length org),
        same_index org (trailing_from org (length org)).0 0 none_left,
        breaks_before-all org,
      ),
    )
