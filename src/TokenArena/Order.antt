-- ===== src/TokenArena/Order.antt =====
-- The order of the live list of internal/tokenarena/tokenarena.go, which lets the sweep stop at the first
-- chunk it may not take.
use mathlib.Core.Path.{subst}
use go_yaml.TokenArena.{
  Chunk, TokenArena, update, observe, fresh_chunk, filled_again, grow_from, grow, room, written,
  add, push_back, unlink, retire, free_chunk, is_head, sweep_from, sweep,
}
use go_yaml.TokenArena.Counts.{same, times}
use go_yaml.TokenArena.Sound.{IsSound}
use go_yaml.Base.{
  ℕ, suc, ◌+◌, ◌≤◌, ◌<◌, Bool, true, false, ◌||◌, Option, none, some, List, [], ◌∷◌, ltb, ◌==◌, set,
  if◌then◌else◌, length, ◌≡◌, refl, sym, ap, ◌∙◌, arith, inl, inr, Option-cases, Bool-cases,
  ==-self,
}

unlink_first : (c : ℕ) (cs : List ℕ) → unlink c (c ∷ cs) ≡ cs
unfolding unlink
unlink_first c cs = ground arith

module _ {ℓ} {A : Type ℓ} where
  abbrev pub past : Chunk A → ℕ
  past c = c.base + c.pos

  -- The live list runs up to the head, and no chunk of it reaches into the next one.
  unfoldable pub IsOrdered : (ℕ → Chunk A) → Option ℕ → List ℕ → Type 0
  IsOrdered chunks head [] = head ≡ none
  IsOrdered chunks head (c ∷ []) = head ≡ some c
  IsOrdered chunks head (c ∷ d ∷ ds) =
      (is_head head c ≡ false)
      × (past (chunks c) ≤ (chunks d).base)
      × IsOrdered chunks head (d ∷ ds)

  pub alike-IsOrdered :
      (chunks chunks' : ℕ → Chunk A) (head : Option ℕ) (l : List ℕ)
      → ((d : ℕ) → ((chunks' d).base ≡ (chunks d).base) × ((chunks' d).pos ≡ (chunks d).pos))
      → IsOrdered chunks head l
      → IsOrdered chunks' head l
  unfolding IsOrdered
  alike-IsOrdered chunks chunks' head [] like o = o
  alike-IsOrdered chunks chunks' head (c ∷ []) like o = o
  alike-IsOrdered chunks chunks' head (c ∷ d ∷ ds) like (n, b, o) =
      (n, omega (arith, b, like c, like d), alike-IsOrdered chunks chunks' head (d ∷ ds) like o)

  push-IsOrdered :
      (chunks : ℕ → Chunk A) (head : Option ℕ) (l : List ℕ) (c : ℕ) (v : Chunk A)
      → times c l ≡ 0
      → ((h : ℕ) → head ≡ some h → past (chunks h) ≤ v.base)
      → IsOrdered chunks head l
      → IsOrdered (update chunks c v) (some c) (push_back l c)
  unfolding IsOrdered times
  push-IsOrdered chunks head [] c v t h o = refl
  push-IsOrdered chunks head (d ∷ []) c v t h o = (ground arith, ground (arith, h d o), refl)
  push-IsOrdered chunks head (d ∷ e ∷ es) c v t h (n, b, o) =
      (ground arith, ground (arith, b), push-IsOrdered chunks head (e ∷ es) c v (ground arith) h o)

  write-IsOrdered :
      (chunks : ℕ → Chunk A) (h : ℕ) (l : List ℕ) (v : Chunk A)
      → v.base ≡ (chunks h).base
      → IsOrdered chunks (some h) l
      → IsOrdered (update chunks h v) (some h) l
  unfolding IsOrdered
  write-IsOrdered chunks h [] v e o = o
  write-IsOrdered chunks h (c ∷ []) v e o = o
  write-IsOrdered chunks h (c ∷ d ∷ ds) v e (n, b, o) =
      let same_base : (update chunks h v d).base ≡ (chunks d).base = elim (Bool-cases (d == h)) [
        | inl y ↦ rw (same y, ==-self h) e
        | inr m ↦ rw m refl
      ] in
      (n, ground (arith, n, b, same_base), write-IsOrdered chunks h (d ∷ ds) v e o)

  -- Behind a chunk that is the head or reaches beyond the tail, all are.
  beyond :
      (chunks : ℕ → Chunk A) (head : Option ℕ) (tail c : ℕ) (cs : List ℕ) (d : ℕ)
      → IsOrdered chunks head (c ∷ cs)
      → (is_head head c || ltb tail (past (chunks c))) ≡ true
      → 0 < times d (c ∷ cs)
      → (is_head head d || ltb tail (past (chunks d))) ≡ true
  unfolding IsOrdered times
  beyond chunks head tail c [] d o s t =
      let e : (c == d) ≡ true = ground (arith, t) in rw⁻¹ (same e) s
  beyond chunks head tail c (e ∷ es) d (n, b, o) s t = elim (Bool-cases (c == d)) [
    | inl y ↦ rw⁻¹ (same y) s
    | inr m ↦ beyond chunks head tail e es d o (ground (arith, n, b, s)) (ground (arith, t, m))
  ]

  -- the live list of an arena
  abbrev pub InOrder : TokenArena A → Type 0
  InOrder a = IsOrdered a.chunks a.head a.live

  retire-alike :
      (a : TokenArena A) (c d : ℕ)
      → (((retire a c).chunks d).base ≡ (a.chunks d).base)
        × (((retire a c).chunks d).pos ≡ (a.chunks d).pos)
  unfolding retire free_chunk
  retire-alike a c d = elim (Bool-cases (ltb 0 (a.chunks c).saves)) [
    | inl y ↦
        rw (retire, y)
          (elim (Bool-cases (d == c)) [
            | inl z ↦ rw (same z, ==-self c) (refl, refl)
            | inr n ↦ rw n (refl, refl)
          ])
    | inr n ↦ rw (retire, n) (refl, refl)
  ]

  retire_lists :
      (a : TokenArena A) (c : ℕ)
      → ((retire a c).live ≡ unlink c a.live)
        × ((retire a c).head ≡ a.head)
        × ((retire a c).frozen ≡ a.frozen)
  unfolding retire free_chunk
  retire_lists a c = elim (Bool-cases (ltb 0 (a.chunks c).saves)) [
    | inl y ↦ rw (retire, y) (refl, refl, refl)
    | inr n ↦ rw (retire, n) (refl, refl, refl)
  ]

  rest-IsOrdered :
      (chunks : ℕ → Chunk A) (head : Option ℕ) (c : ℕ) (cs : List ℕ)
      → is_head head c ≡ false
      → IsOrdered chunks head (c ∷ cs)
      → IsOrdered chunks head cs
  unfolding IsOrdered
  rest-IsOrdered chunks head c [] n o = absurd (ground (arith, n, o))
  rest-IsOrdered chunks head c (d ∷ ds) n (m, b, o) = o

  -- What a sweep leaves: the order, and no chunk but the head that the tail has passed.
  pub record IsSweptFor (chunks : ℕ → Chunk A) (head : Option ℕ) (live : List ℕ) (tail : ℕ)
      : Type 0 where
    pub ordered : IsOrdered chunks head live
    pub left : (d : ℕ) → 0 < times d live → (is_head head d || ltb tail (past (chunks d))) ≡ true

  abbrev pub IsSwept : TokenArena A → Type 0
  IsSwept b = IsSweptFor b.chunks b.head b.live b.tail

  if-IsSwept :
      (t : Bool) (x y : TokenArena A)
      → (t ≡ true → IsSwept x)
      → (t ≡ false → IsSwept y)
      → IsSwept (if t then x else y)
  if-IsSwept true x y f g = f refl
  if-IsSwept false x y f g = g refl

  sweep_from-IsSwept :
      (cs : List ℕ) (a : TokenArena A) → a.live ≡ cs → InOrder a → IsSwept (sweep_from cs a)
  unfolding sweep_from times IsOrdered
  sweep_from-IsSwept [] a e o = record {
    ordered = o;
    left = λ d t. absurd (ground (arith, ap (times d) e, t));
  }
  sweep_from-IsSwept (c ∷ cs) a e o =
      let (lives, heads, _) = retire_lists a c in
      let rest : (retire a c).live ≡ cs = lives ∙ ap (unlink c) e ∙ unlink_first c cs in
      let here : IsOrdered a.chunks a.head (c ∷ cs) = subst (IsOrdered a.chunks a.head) e o in
      if-IsSwept (is_head a.head c || ltb a.tail (past (a.chunks c))) a (sweep_from cs (retire a c))
        (λ y. record {
          ordered = o;
          left =
              λ d t. beyond a.chunks a.head a.tail c cs d here y (omega (arith, ap (times d) e, t));
        })
        (λ n. sweep_from-IsSwept cs (retire a c) rest (
          rw (rest, heads)
            (alike-IsOrdered a.chunks (retire a c).chunks a.head cs (retire-alike a c)
              (rest-IsOrdered a.chunks a.head c cs (ground (arith, n)) here))))

  pub if-InOrder :
      (t : Bool) (x y : TokenArena A)
      → (t ≡ true → InOrder x)
      → (t ≡ false → InOrder y)
      → InOrder (if t then x else y)
  if-InOrder true x y f g = f refl
  if-InOrder false x y f g = g refl

  pub sweep-InOrder : (a : TokenArena A) → InOrder a → InOrder (sweep a)
  unfolding sweep
  sweep-InOrder a o =
      if-InOrder (ltb 0 a.frozen) a (observe (sweep_from a.live a)) (λ y. o)
        (λ n. (sweep_from-IsSwept a.live a refl o).ordered)

  -- with no pin
  pub sweep-IsSwept : (a : TokenArena A) → a.frozen ≡ 0 → InOrder a → IsSwept (sweep a)
  unfolding sweep
  sweep-IsSwept a z o =
      if-IsSwept (ltb 0 a.frozen) a (observe (sweep_from a.live a))
        (λ y. absurd (ground (arith, y, z))) (λ n. sweep_from-IsSwept a.live a refl o)

  grow_from-InOrder :
      (blank : A) (a : TokenArena A) {added : List A} (free : List ℕ)
      → a.free ≡ free
      → IsSound a added
      → InOrder a
      → InOrder (grow_from blank a free)
  unfolding grow_from times
  grow_from-InOrder blank a [] e ok o =
      push-IsOrdered a.chunks a.head a.live a.made (fresh_chunk a.chunk_size blank a.next)
        (ground (arith, ok.places a.made)) (λ h f. ground (arith, ok.head_is h f)) o
  grow_from-InOrder blank a (c ∷ free) e ok o =
      push-IsOrdered a.chunks a.head a.live c (filled_again blank a.next (a.chunks c))
        (ground (arith, ok.places c, ap (times c) e)) (λ h f. ground (arith, ok.head_is h f)) o

  room-InOrder :
      (blank : A) (a : TokenArena A) {added : List A}
      → IsSound a added
      → InOrder a
      → InOrder (room blank a)
  unfolding room grow
  room-InOrder blank a ok o = elim (Option-cases a.head) [
    | inl e ↦ rw (room, e) (grow_from-InOrder blank a a.free refl ok o)
    | inr (h, e) ↦
        rw (room, e)
          (if-InOrder ((a.chunks h).pos == length (a.chunks h).buf) (grow blank a) a
            (λ y. grow_from-InOrder blank a a.free refl ok o) (λ n. o))
  ]

  written-InOrder :
      (b : TokenArena A) (v : A) (h : Option ℕ) → b.head ≡ h → InOrder b → InOrder (written b v h)
  written-InOrder b v none e o = o
  written-InOrder b v (some h) e o =
      subst (λ x. IsOrdered (written b v (some h)).chunks x b.live) (sym e)
        (write-IsOrdered b.chunks h b.live
          (record (b.chunks h) {
            buf = set (b.chunks h).buf (b.chunks h).pos v;
            pos = suc (b.chunks h).pos;
          })
          refl (subst (λ x. IsOrdered b.chunks x b.live) e o))

  pub add-InOrder :
      (blank : A) (a : TokenArena A) (v : A) {added : List A}
      → IsSound a added
      → InOrder a
      → InOrder (add blank a v)
  unfolding add
  add-InOrder blank a v ok o =
      written-InOrder (room blank a) v (room blank a).head refl (room-InOrder blank a ok o)
