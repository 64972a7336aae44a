-- ===== src/Token/Origin/Sums.antt =====
-- Sums of line breaks over a text, and the loops of `MeasureOrigin` and `trailingRun` in
-- token/token.go against them.
use go_yaml.Base.{
  ℕ, zero, suc, ◌+◌, ◌%◌, ◌^◌, ◌≤◌, ◌<◌, Bool, false, not, ◌&&◌, [], ◌∷◌, ◌==◌, if◌then◌else◌,
  length, get_or, Bytes, ◌≡◌, refl, ap, ◌∙◌, arith, Bool-cases, inl, inr, ◌⊎◌,
}
use go_yaml.Token.Origin.{is_blank, break_at, trailing_from, inner_breaks}

-- the line breaks of a text: "\n", "\r\n" and a "\r" alone
abbrev pub opens_lf : Bytes → Bool
opens_lf [] = false
opens_lf (c ∷ cs) = c == b'\n'

abbrev pub breaks : Bytes → ℕ
breaks [] = 0
breaks (c ∷ cs) =
    (if c == b'\n' then 1 else if c == b'\r' && not (opens_lf cs) then 1 else 0) + breaks cs

-- those of the first n bytes, a "\r" in front of a "\n" counting with that
abbrev pub breaks_before : Bytes → ℕ → ℕ
breaks_before org zero = 0
breaks_before org (suc n) = breaks_before org n + break_at org n

pub trailing_from-breaks :
    (org : Bytes) (n : ℕ)
    → (breaks_before org (trailing_from org n).0 + (trailing_from org n).1) % 2 ^ 32
      ≡ breaks_before org n % 2 ^ 32
unfolding trailing_from
trailing_from-breaks org zero = refl
trailing_from-breaks org (suc n) = elim (Bool-cases (is_blank (get_or org n 0))) [
  | inl blank ↦ rw blank (omega (arith, trailing_from-breaks org n))
  | inr full ↦ rw full (omega arith)
]

pub trailing_from-past :
    (org : Bytes) (n i : ℕ)
    → is_blank (get_or org i 0) ≡ false
    → i < n
    → i < (trailing_from org n).0
unfolding trailing_from
trailing_from-past org zero i b h = absurd (omega arith)
trailing_from-past org (suc n) i b h = elim (Bool-cases (is_blank (get_or org n 0))) [
  | inl blank ↦ elim (Bool-cases (i == n)) [
    | inl same ↦ absurd (ground arith)
    | inr other ↦ rw blank (trailing_from-past org n i b (ground arith))
  ]
  | inr full ↦ rw full h
]

-- the byte in front of the run
pub trailing_from-full :
    (org : Bytes) (n t : ℕ) → (trailing_from org n).0 ≡ suc t → is_blank (get_or org t 0) ≡ false
unfolding trailing_from
trailing_from-full org zero t e = absurd (omega arith)
trailing_from-full org (suc n) t e = elim (Bool-cases (is_blank (get_or org n 0))) [
  | inl blank ↦ trailing_from-full org n t (ground (arith, e))
  | inr full ↦ ground (arith, e)
]

pub break_step :
    (org : Bytes) (k : ℕ) → breaks_before org (k + 1) ≡ breaks_before org k + break_at org k
break_step org k = ap (breaks_before org) next
  where
    next : k + 1 ≡ suc k
    next = omega arith

break_at-text : (org : Bytes) (k : ℕ) → is_blank (get_or org k 0) ≡ false → break_at org k ≡ 0
unfolding break_at is_blank
break_at-text org k b = ground arith

abbrev pub IsTextEnd : Bytes → ℕ → ℕ → Type 0
IsTextEnd org k n = (m : ℕ) → suc m ≡ n → is_blank (get_or org (k + m) 0) ≡ false

inner_one : (org : Bytes) (k : ℕ) → is_blank (get_or org k 0) ≡ false → inner_breaks org 1 k ≡ 0
unfolding inner_breaks is_blank
inner_one org k b = ground arith

-- two bytes or more to go
inner_two :
    (org : Bytes) (m k : ℕ)
    → k + 1 < length org
    → (inner_breaks org (suc (suc m)) k ≡ break_at org k + inner_breaks org (suc m) (k + 1))
      ⊎ ((inner_breaks org (suc (suc m)) k
          ≡ break_at org k + (break_at org (k + 1) + inner_breaks org m (k + 2))))
unfolding inner_breaks break_at
inner_two org m k h = elim (Bool-cases (get_or org k 0 == b'\r' && get_or org (k + 1) 0 == b'\n')) [
  | inl pair ↦ inr (ground arith)
  | inr other ↦ inl (ground arith)
]

pub inner_none : (org : Bytes) (k : ℕ) → inner_breaks org 0 k ≡ 0
unfolding inner_breaks
inner_none org k = refl

pub same_index : (org : Bytes) (a b : ℕ) → a ≡ b → breaks_before org a ≡ breaks_before org b
same_index org a b e = ap (breaks_before org) e

IsTextEnd-later : (org : Bytes) (k n d : ℕ) → IsTextEnd org k (d + n) → IsTextEnd org (k + d) n
IsTextEnd-later org k n d b m e =
    ap (λ (t : ℕ). is_blank (get_or org t 0)) {x = k + d + m} {y = k + (d + m)} (omega arith)
    ∙ b (d + m) (omega arith)

pub inner_breaks-breaks :
    (org : Bytes) (n k : ℕ)
    → IsTextEnd org k n
    → k + n ≤ length org
    → breaks_before org k + inner_breaks org n k ≡ breaks_before org (k + n)
inner_breaks-breaks org zero k b h =
    omega (arith, inner_none org k, same_index org (k + 0) k (omega arith))
inner_breaks-breaks org (suc zero) k b h =
    let text : is_blank (get_or org k 0) ≡ false =
      ap (λ (t : ℕ). is_blank (get_or org t 0)) {x = k} {y = k + 0} (omega arith) ∙ b 0 refl in
    omega (arith, inner_one org k text, break_step org k, break_at-text org k text)
inner_breaks-breaks org (suc (suc m)) k b h =
    let at_end = same_index org (k + 1 + suc m) (k + suc (suc m)) (omega arith) in
    let past_end = same_index org (k + 2 + m) (k + suc (suc m)) (omega arith) in
    let two = same_index org (k + 1 + 1) (k + 2) (omega arith) in
    let one_on : IsTextEnd org k (1 + suc m) = λ j e. b j (e ∙ omega arith) in
    let two_on : IsTextEnd org k (2 + m) = λ j e. b j (e ∙ omega arith) in
    elim (inner_two org m k (omega arith)) [
      | inl e ↦ omega (
        arith,
        e,
        at_end,
        break_step org k,
        inner_breaks-breaks org (suc m) (k + 1) (IsTextEnd-later org k (suc m) 1 one_on)
            (omega arith),
      )
      | inr e ↦ omega (
        arith,
        e,
        past_end,
        two,
        break_step org k,
        break_step org (k + 1),
        inner_breaks-breaks org m (k + 2) (IsTextEnd-later org k m 2 two_on) (omega arith),
      )
    ]

head_break : ℕ → Bytes → ℕ
head_break c cs = if c == b'\n' then 1 else if c == b'\r' && not (opens_lf cs) then 1 else 0

break_at-head : (c : ℕ) (cs : Bytes) → break_at (c ∷ cs) 0 ≡ head_break c cs
unfolding break_at head_break
break_at-head c [] = ground arith
break_at-head c (d ∷ ds) = ground arith

get_or-next : (c : ℕ) (cs : Bytes) (n : ℕ) → get_or (c ∷ cs) (suc n + 1) 0 ≡ get_or cs (n + 1) 0
get_or-next c cs n =
    ap (λ (t : ℕ). get_or (c ∷ cs) t 0) {x = suc n + 1} {y = suc (n + 1)} (omega arith)

break_at-tail : (c : ℕ) (cs : Bytes) (n : ℕ) → break_at (c ∷ cs) (suc n) ≡ break_at cs n
unfolding break_at
break_at-tail c cs n = ground (arith, get_or-next c cs n)

breaks_before-cons :
    (c : ℕ) (cs : Bytes) (n : ℕ)
    → breaks_before (c ∷ cs) (suc n) ≡ head_break c cs + breaks_before cs n
breaks_before-cons c cs zero = omega (arith, break_at-head c cs)
breaks_before-cons c cs (suc n) = omega (arith, breaks_before-cons c cs n, break_at-tail c cs n)

pub breaks_before-all : (org : Bytes) → breaks_before org (length org) ≡ breaks org
unfolding head_break
breaks_before-all [] = refl
breaks_before-all (c ∷ cs) =
    omega (arith, breaks_before-cons c cs (length cs), breaks_before-all cs)
