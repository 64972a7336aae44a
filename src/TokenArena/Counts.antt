-- ===== src/TokenArena/Counts.antt =====
-- How often a chunk stands on a list, and the entries of the index: internal/tokenarena/tokenarena.go.
use go_yaml.TokenArena.Chunks.{unlink}
use go_yaml.TokenArena.Tape.{entry, put_entry, cleared}
use go_yaml.Base.{
  ℕ, zero, suc, ◌+◌, ◌-◌, Bool, true, Option, none, some, List, [], ◌∷◌, ◌++◌, ◌==◌, if◌then◌else◌,
  set, ◌≡◌, refl, arith,
}

pub same : {d c : ℕ} → (d == c) ≡ true → d ≡ c
same h = ground arith

abbrev pub one : Bool → ℕ
one b = if b then 1 else 0

unfoldable pub times : ℕ → List ℕ → ℕ
times c [] = 0
times c (d ∷ ds) = one (d == c) + times c ds

pub times-append : (c : ℕ) (l m : List ℕ) → times c (l ++ m) ≡ times c l + times c m
unfolding times
times-append c [] m = omega arith
times-append c (d ∷ ds) m = omega (arith, times-append c ds m)

pub times-push : (c : ℕ) (l : List ℕ) (d : ℕ) → times c (l ++ d ∷ []) ≡ times c l + one (d == c)
unfolding times
times-push c l d = omega (arith, times-append c l (d ∷ []))

pub times-unlink : (c d : ℕ) (l : List ℕ) → times c (unlink d l) ≡ times c l - one (d == c)
unfolding times unlink
times-unlink c d [] = ground arith
times-unlink c d (x ∷ xs) = ground (arith, times-unlink c d xs)

pub entry-put_entry :
    (l : List (Option ℕ)) (i c j : ℕ)
    → entry (put_entry l i c) j ≡ (if j == i then some c else entry l j)
unfolding put_entry
entry-put_entry [] zero c zero = refl
entry-put_entry [] zero c (suc j) = ground arith
entry-put_entry [] (suc i) c zero = ground arith
entry-put_entry [] (suc i) c (suc j) = ground (arith, entry-put_entry [] i c j)
entry-put_entry (e ∷ es) zero c zero = ground arith
entry-put_entry (e ∷ es) zero c (suc j) = ground arith
entry-put_entry (e ∷ es) (suc i) c zero = ground arith
entry-put_entry (e ∷ es) (suc i) c (suc j) = ground (arith, entry-put_entry es i c j)

entry-set :
    (l : List (Option ℕ)) (i j : ℕ) → entry (set l i none) j ≡ (if j == i then none else entry l j)
entry-set [] i j = ground arith
entry-set (e ∷ es) zero zero = ground arith
entry-set (e ∷ es) zero (suc j) = ground arith
entry-set (e ∷ es) (suc i) zero = ground arith
entry-set (e ∷ es) (suc i) (suc j) = ground (arith, entry-set es i j)

-- the entry of a chunk goes, the others stay
pub entry-cleared :
    (l : List (Option ℕ)) (i c j : ℕ)
    → entry l i ≡ some c
    → entry (cleared l i c) j ≡ (if j == i then none else entry l j)
entry-cleared l i c j e = rw (cleared, e) (ground (arith, entry-set l i j))
