-- ===== src/Arena/Live.antt =====
-- The cells that are still read, under `Release` and `Take` of parser/arena/run.go.
use mathlib.Core.Path.{subst}
use go_yaml.Base.{
  ℕ, zero, suc, ◌-◌, ◌<◌, ◌≤◌, Bool, true, false, none, some, List, [], ◌∷◌, ◌++◌, ◌==◌, length,
  drop, get_elem?, ◌≡◌, ◌⊎◌, inl, inr, refl, ap, sym, ◌∙◌, arith, Bool-cases, ltb, length-append,
}
use go_yaml.Arena.{Chunk, Run, Cell, dead_run, swept, release_full, release, taken}

-- the cell stands for the token at s, in one of the chunks
abbrev pub Stands : List Chunk → Cell → ℕ → Type 0
Stands [] cell s = ⊥
Stands (c ∷ cs) cell s = ((c.name ≡ cell.0) × (get_elem? c.seqs cell.1 ≡ some s)) ⊎ Stands cs cell s

-- What a chunk's cursor and its flag say: the cells behind the cursor are dead, and a cell for a token
-- without a sequence is marked.
pub record IsTrue (dead : ℕ → Bool) (c : Chunk) : Type 0 where
  pub behind : (i s : ℕ) → i < c.checked → get_elem? c.seqs i ≡ some s → dead s ≡ true
  pub marked : (i : ℕ) → get_elem? c.seqs i ≡ some 0 → c.unknown ≡ true
  pub inside : c.checked ≤ length c.seqs

abbrev pub AreTrue : (ℕ → Bool) → List Chunk → Type 0
AreTrue dead [] = Unit {0}
AreTrue dead (c ∷ cs) = IsTrue dead c × AreTrue dead cs

dead_run-below : (dead : ℕ → Bool) (ss : List ℕ) → dead_run dead ss ≤ length ss
unfolding dead_run
dead_run-below dead [] = omega arith
dead_run-below dead (s ∷ ss) = ground (arith, dead_run-below dead ss)

dead_run-dead :
    (dead : ℕ → Bool) (ss : List ℕ) (i s : ℕ)
    → i < dead_run dead ss
    → get_elem? ss i ≡ some s
    → dead s ≡ true
unfolding dead_run
dead_run-dead dead [] i s h e = absurd (omega arith)
dead_run-dead dead (t ∷ ts) zero s h e = ground arith
dead_run-dead dead (t ∷ ts) (suc i) s h e = ground (arith, dead_run-dead dead ts i s)

get_elem?-drop : (ss : List ℕ) (k i : ℕ) → k ≤ i → get_elem? (drop k ss) (i - k) ≡ get_elem? ss i
get_elem?-drop ss zero i h = ap (get_elem? ss) (omega arith)
get_elem?-drop [] (suc k) i h = refl
get_elem?-drop (s ∷ ss) (suc k) zero h = absurd (omega arith)
get_elem?-drop (s ∷ ss) (suc k) (suc i) h =
    ap (get_elem? (drop k ss)) (omega arith) ∙ get_elem?-drop ss k i (omega arith)

length-drop : (ss : List ℕ) (k : ℕ) → length (drop k ss) ≡ length ss - k
length-drop ss zero = omega arith
length-drop [] (suc k) = omega arith
length-drop (s ∷ ss) (suc k) = omega (arith, length-drop ss k)

module _ (dead : ℕ → Bool) where
  swept-behind :
      (c : Chunk)
      → IsTrue dead c
      → (i s : ℕ) → i < (swept dead c).checked
      → get_elem? c.seqs i ≡ some s
      → dead s ≡ true
  unfolding swept
  swept-behind c ok i s h e = elim (Bool-cases (ltb i c.checked)) [
    | inl before ↦ ok.behind i s (ground arith) e
    | inr after ↦
        dead_run-dead dead (drop c.checked c.seqs) (i - c.checked) s (ground arith)
          (get_elem?-drop c.seqs c.checked i (ground arith) ∙ e)
  ]

  swept-IsTrue : (c : Chunk) → IsTrue dead c → IsTrue dead (swept dead c)
  unfolding swept
  swept-IsTrue c ok = record {
    behind = swept-behind c ok;
    marked = ok.marked;
    inside = omega (
      arith,
      ok.inside,
      dead_run-below dead (drop c.checked c.seqs),
      length-drop c.seqs c.checked,
    );
  }

get_elem?-below : (ss : List ℕ) (i s : ℕ) → get_elem? ss i ≡ some s → i < length ss
get_elem?-below [] i s e = cc
get_elem?-below (t ∷ ts) zero s e = omega arith
get_elem?-below (t ∷ ts) (suc i) s e = omega (arith, get_elem?-below ts i s e)

-- a token that may still be read, or whose sequence is not known
abbrev pub IsLive : (ℕ → Bool) → ℕ → Type 0
IsLive dead s = (s ≡ 0) ⊎ (dead s ≡ false)

not_live :
    (dead : ℕ → Bool) (c : Chunk) (i s : ℕ)
    → IsTrue dead c
    → c.unknown ≡ false
    → (swept dead c).checked ≡ length c.seqs
    → get_elem? c.seqs i ≡ some s
    → IsLive dead s
    → ⊥
not_live dead c i s ok u done e (inl zero_seq) =
    let marked : c.unknown ≡ true = ok.marked i (e ∙ ap some zero_seq) in cc
not_live dead c i s ok u done e (inr live) =
    let read : dead s ≡ true =
      swept-behind dead c ok i s (omega (arith, get_elem?-below c.seqs i s e)) e in
    cc

-- the three ways through a round of the loop
module _ (dead : ℕ → Bool) (c : Chunk) (cs free : List Chunk) where
  abbrev taken_back : Chunk
  taken_back = record (swept dead c) { seqs = []; checked = 0 }

  release_full-unknown :
      c.unknown ≡ true
      → release_full dead (c ∷ cs) free
        ≡ (c ∷ (release_full dead cs free).0, (release_full dead cs free).1)
  unfolding release_full
  release_full-unknown u = rw u refl

  release_full-kept :
      c.unknown ≡ false
      → ((swept dead c).checked == length c.seqs) ≡ false
      → release_full dead (c ∷ cs) free
        ≡ (swept dead c ∷ (release_full dead cs free).0, (release_full dead cs free).1)
  unfolding release_full
  release_full-kept u k = rw (u, k) refl

  release_full-back :
      c.unknown ≡ false
      → ((swept dead c).checked == length c.seqs) ≡ true
      → release_full dead (c ∷ cs) free ≡ release_full dead cs (free ++ taken_back ∷ [])
  unfolding release_full
  release_full-back u k = rw (u, k) refl

swept-cell :
    (dead : ℕ → Bool) (c : Chunk) → ((swept dead c).name ≡ c.name) × ((swept dead c).seqs ≡ c.seqs)
unfolding swept
swept-cell dead c = (refl, refl)

abbrev Keeps : (ℕ → Bool) → List Chunk → List Chunk → Type 0
Keeps dead cs ds =
    AreTrue dead ds × ((cell : Cell) (s : ℕ) → IsLive dead s → Stands cs cell s → Stands ds cell s)

release_full-Keeps :
    (dead : ℕ → Bool) (cs free : List Chunk)
    → AreTrue dead cs
    → Keeps dead cs (release_full dead cs free).0
unfolding release_full
release_full-Keeps dead [] free ok = (tt, λ cell s live st. elim st [ ])
release_full-Keeps dead (c ∷ cs) free (ok, oks) = elim (Bool-cases c.unknown) [
  | inl u ↦
      let (true_, kept) = release_full-Keeps dead cs free oks in
      subst (λ (r : List Chunk × List Chunk). Keeps dead (c ∷ cs) r.0)
        (sym (release_full-unknown dead c cs free u))
        (
          (ok, true_),
          λ cell s live st. elim st [ inl h ↦ inl h | inr h ↦ inr (kept cell s live h) ],
        )
  | inr u ↦ elim (Bool-cases ((swept dead c).checked == length c.seqs)) [
    | inr k ↦
        let (true_, kept) = release_full-Keeps dead cs free oks in
        subst (λ (r : List Chunk × List Chunk). Keeps dead (c ∷ cs) r.0)
          (sym (release_full-kept dead c cs free u k))
          (
            (swept-IsTrue dead c ok, true_),
            λ cell s live st. elim st [
              | inl (n, e) ↦ inl (
                (swept-cell dead c).0 ∙ n,
                ap (λ (t : List ℕ). get_elem? t cell.1) (swept-cell dead c).1 ∙ e,
              )
              | inr h ↦ inr (kept cell s live h)
            ],
          )
    | inl k ↦
        let (true_, kept) =
          release_full-Keeps dead cs (free ++ taken_back dead c cs free ∷ []) oks in
        subst (λ (r : List Chunk × List Chunk). Keeps dead (c ∷ cs) r.0)
          (sym (release_full-back dead c cs free u k))
          (
            true_,
            λ cell s live st. elim st [
              | inl (n, e) ↦ absurd (not_live dead c cell.1 s ok u (ground arith) e live)
              | inr h ↦ kept cell s live h
            ],
          )
  ]
]

release_eq :
    (a : Run) (dead : ℕ → Bool) → (release a dead).full ≡ (release_full dead a.full a.free).0
unfolding release
release_eq a dead = refl

-- `Release` takes back no chunk with a cell that is still read, or for a token whose sequence is not
-- known: every such cell of a retired chunk stands in one after it. What the cursors and the flags of
-- the retired chunks say stays true, for the tokens that are dead now.
pub release-Keeps :
    (a : Run) (dead : ℕ → Bool)
    → AreTrue dead a.full
    → AreTrue dead (release a dead).full
      × ((cell : Cell) (s : ℕ)
          → IsLive dead s
          → Stands a.full cell s
          → Stands (release a dead).full cell s)
release-Keeps a dead ok =
    subst (λ (r : List Chunk). Keeps dead a.full r) (sym (release_eq a dead))
      (release_full-Keeps dead a.full a.free ok)

-- Tokens only die: what is said for the tokens that are dead stays true when more of them are.
pub AreTrue-later :
    (dead later : ℕ → Bool) (cs : List Chunk)
    → ((s : ℕ) → dead s ≡ true → later s ≡ true)
    → AreTrue dead cs
    → AreTrue later cs
AreTrue-later dead later [] h ok = tt
AreTrue-later dead later (c ∷ cs) h (ok, oks) = (
  record { behind = λ i s b e. h s (ok.behind i s b e); marked = ok.marked; inside = ok.inside },
  AreTrue-later dead later cs h oks,
)

get_elem?-append :
    (ss : List ℕ) (s i : ℕ)
    → ((i < length ss) × (get_elem? (ss ++ s ∷ []) i ≡ get_elem? ss i))
      ⊎ ((i ≡ length ss) × (get_elem? (ss ++ s ∷ []) i ≡ some s))
      ⊎ (get_elem? (ss ++ s ∷ []) i ≡ none)
get_elem?-append [] s zero = inr (inl (refl, refl))
get_elem?-append [] s (suc i) = inr (inr refl)
get_elem?-append (t ∷ ts) s zero = inl (omega arith, refl)
get_elem?-append (t ∷ ts) s (suc i) = elim (get_elem?-append ts s i) [
  | inl (h, e) ↦ inl (omega arith, e)
  | inr (inl (h, e)) ↦ inr (inl (ap suc h, e))
  | inr (inr e) ↦ inr (inr e)
]

-- A cell taken from a chunk leaves true what the chunk's cursor and its flag say.
pub taken-IsTrue :
    (dead : ℕ → Bool) (c : Chunk) (seq : ℕ) → IsTrue dead c → IsTrue dead (taken c seq)
unfolding taken
taken-IsTrue dead c seq ok = record {
  behind = λ i s h e. elim (get_elem?-append c.seqs seq i) [
    | inl (b, same) ↦ ok.behind i s h (sym same ∙ e)
    | inr (inl (b, new)) ↦ absurd (omega (arith, ok.inside))
    | inr (inr out) ↦ let clash : some s ≡ none = sym e ∙ out in cc
  ];
  marked = λ i e. elim (get_elem?-append c.seqs seq i) [
    | inl (b, same) ↦ ground (arith, ok.marked i (sym same ∙ e))
    | inr (inl (b, new)) ↦ let zero_seq : some seq ≡ some 0 = sym new ∙ e in ground arith
    | inr (inr out) ↦ let clash : some 0 ≡ none = sym e ∙ out in cc
  ];
  inside = omega (arith, ok.inside, length-append c.seqs (seq ∷ []));
}
