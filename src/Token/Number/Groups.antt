-- ===== src/Token/Number/Groups.antt =====
-- The bytes in the text of a number in base 60.
use go_yaml.Token.Number.Digits.{NumberType, past_digits, past_digits11, is_empty, all_sexagesimal}
use go_yaml.Token.Number.Legacy.{groups, all_groups, sexagesimal_type, sexagesimal_form}
use go_yaml.Base.{
  ℕ, zero, suc, ◌+◌, true, some, [], ◌∷◌, length, Bytes, ◌≡◌, refl, arith, Option-cases, inl, inr,
}

all-past_digits : (s : Bytes) → all_sexagesimal (past_digits s) ≡ true → all_sexagesimal s ≡ true
unfolding all_sexagesimal past_digits
all-past_digits [] h = refl
all-past_digits (c ∷ cs) h = ground (arith, all-past_digits cs)

all-past_digits11 :
    (s : Bytes) → all_sexagesimal (past_digits11 s) ≡ true → all_sexagesimal s ≡ true
unfolding all_sexagesimal past_digits11
all-past_digits11 [] h = refl
all-past_digits11 (c ∷ cs) h = ground (arith, all-past_digits11 cs)

all-nil : (s : Bytes) → is_empty s ≡ true → all_sexagesimal s ≡ true
unfolding all_sexagesimal is_empty
all-nil [] h = refl
all-nil (c ∷ cs) h = cc

all-sexagesimal_type :
    (s : Bytes) {t : NumberType} → sexagesimal_type s ≡ some t → all_sexagesimal s ≡ true
unfolding all_sexagesimal sexagesimal_type
all-sexagesimal_type [] h = refl
all-sexagesimal_type (c ∷ cs) h = ground (arith, all-past_digits11 cs, all-nil (past_digits11 cs))

all-groups :
    (fuel : ℕ) (s : Bytes) (n : ℕ) {m : ℕ} {rest : Bytes}
    → groups fuel s n ≡ some (m, rest)
    → all_sexagesimal rest ≡ true
    → all_sexagesimal s ≡ true
unfolding groups all_sexagesimal
all-groups zero s n h r = cc
all-groups (suc fuel) [] n h r = refl
all-groups (suc fuel) (c ∷ cs) n {m} {rest} h r =
    ground
      (arith, all-past_digits cs, all-groups fuel (past_digits cs) (n + 1) {m = m} {rest = rest})

pub all-sexagesimal_form :
    (body : Bytes) {t : NumberType} → sexagesimal_form body ≡ some t → all_sexagesimal body ≡ true
unfolding sexagesimal_form
all-sexagesimal_form body {t} h = elim (Option-cases (all_groups (past_digits11 body))) [
  | inl e ↦ ground arith
  | inr ((n, rest), e) ↦ ground (
    arith,
    all-past_digits11 body,
    all-groups (suc (length (past_digits11 body))) (past_digits11 body) 0 {m = n} {rest = rest} e,
    all-sexagesimal_type rest {t = t},
  )
]
