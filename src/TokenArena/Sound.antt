-- ===== src/TokenArena/Sound.antt =====
-- What holds between the calls of the arena of internal/tokenarena/tokenarena.go, against the list of
-- the tokens added.
use go_yaml.TokenArena.{Chunk, TokenArena, entry, at, chunk_of, new, max}
use go_yaml.TokenArena.Counts.{times, one}
use go_yaml.Base.{
  ℕ, ◌+◌, ◌-◌, ◌*◌, ◌/◌, ◌≤◌, ◌<◌, true, false, Option, none, some, List, [], ltb, get_elem?,
  length, ◌≡◌, refl, sym, ap, ◌∙◌, arith, inl, inr, Option-cases,
}
use native.Mathlib.Nat.{div-eq_of_lt-le}

module _ {ℓ} {A : Type ℓ} where
  -- A chunk in hand: it is found in the index by its base, and holds a part of the tokens.
  pub record IsFilled (size : ℕ) (by_index : List (Option ℕ)) (next : ℕ) (added : List A) (c : ℕ)
      (k : Chunk A) : Type ℓ where
    pub within : k.pos ≤ size
    pub ahead : k.base + k.pos ≤ next
    pub number : ℕ
    pub numbered : k.base ≡ number * size
    pub found : entry by_index number ≡ some c
    pub holds : (i : ℕ) → i < k.pos → get_elem? k.buf i ≡ get_elem? added (k.base + i)

  -- Every chunk in hand starts below `edge`, which is the next number between the calls.
  pub record IsSoundFor (size : ℕ) (chunks : ℕ → Chunk A) (made : ℕ) (live free saved : List ℕ)
      (head : Option ℕ) (next edge tail : ℕ) (by_index : List (Option ℕ)) (added : List A)
      : Type ℓ where
    pub size_pos : 0 < size
    pub next_is : next ≡ length added
    -- each chunk stands once, on one list
    pub places : (c : ℕ) → times c live + times c saved + times c free ≡ one (ltb c made)
    pub flags : (c : ℕ) → times c saved ≡ one (chunks c).on_saved
    pub rooms : (c : ℕ) → c < made → length (chunks c).buf ≡ size
    pub filled :
        (c : ℕ) → c < made → times c free ≡ 0 → IsFilled size by_index next added c (chunks c)
    -- the index holds the chunks in hand and no others
    pub indexed :
        (k c : ℕ)
        → entry by_index k ≡ some c
        → (c < made) × (times c free ≡ 0) × ((chunks c).base ≡ k * size) × (k * size < edge)
    pub head_is :
        (h : ℕ)
        → head ≡ some h
        → (h < made)
          × (times h free ≡ 0)
          × ((chunks h).base + (chunks h).pos ≡ next)
          × ((chunks h).on_saved ≡ false)
    pub start : head ≡ none → next ≡ 0
    pub passed : (c : ℕ) → (chunks c).on_saved ≡ true → (chunks c).base + (chunks c).pos ≤ tail
    -- every token from the tail on is held
    pub covered :
        (s : ℕ)
        → tail ≤ s
        → s < next
        → (c : ℕ) × (c < made)
          × (times c free ≡ 0)
          × ((chunks c).base ≤ s)
          × (s < (chunks c).base + (chunks c).pos)

  abbrev pub IsSound : TokenArena A → List A → Type ℓ
  IsSound a added =
      IsSoundFor a.chunk_size a.chunks a.made a.live a.free a.saved a.head a.next a.next a.tail
        a.by_index added

  pub new-IsSound : (size : ℕ) → IsSound (new size) []
  unfolding new max times
  new-IsSound size = record {
    size_pos = ground arith;
    next_is = refl;
    places = λ c. ground arith;
    flags = λ c. refl;
    rooms = λ c h. ground arith;
    filled = λ c h f. absurd (ground arith);
    indexed = λ k c e. absurd (ground arith);
    head_is = λ h e. absurd (ground arith);
    start = λ e. refl;
    passed = λ c e. absurd (ground arith);
    covered = λ s t u. absurd (ground arith);
  }

  -- a token of a chunk in hand is found by its number
  pub chunk_of-held :
      (a : TokenArena A) {added : List A} (s c : ℕ)
      → IsSound a added
      → c < a.made
      → times c a.free ≡ 0
      → (a.chunks c).base ≤ s
      → s < (a.chunks c).base + (a.chunks c).pos
      → chunk_of a s ≡ some c
  unfolding chunk_of
  chunk_of-held a s c ok made held low high =
      let f = ok.filled c made held in
      let e : s / a.chunk_size ≡ f.number =
        div-eq_of_lt-le a.chunk_size (omega (arith, f.numbered))
          (omega (arith, f.numbered, f.within, high)) in
      rw (chunk_of, e, f.found) (ground arith)

  pub chunk_of-some :
      (a : TokenArena A) {added : List A} (s c : ℕ)
      → IsSound a added
      → chunk_of a s ≡ some c
      → (c < a.made)
        × (times c a.free ≡ 0)
        × ((a.chunks c).base ≤ s)
        × (s < (a.chunks c).base + (a.chunks c).pos)
  unfolding chunk_of
  chunk_of-some a s c ok e = elim (Option-cases (entry a.by_index (s / a.chunk_size))) [
    | inl n ↦ ground (arith, n, e)
    | inr (d, f) ↦ ground (arith, f, e, ok.indexed (s / a.chunk_size) d f)
  ]

  pub at_chunk :
      (a : TokenArena A) {added : List A} (s c : ℕ)
      → IsSound a added
      → chunk_of a s ≡ some c
      → at a s ≡ get_elem? added s
  unfolding at
  at_chunk a {added} s c ok e =
      let (made, held, low, high) = chunk_of-some a s c ok e in
      let f = ok.filled c made held in
      rw (at, e, f.holds (s - (a.chunks c).base) (omega (arith, low, high)))
        (ap (get_elem? added) (omega (arith, low)))

  -- Whatever the arena reads is what was added under that number.
  pub at-added :
      (a : TokenArena A) {added : List A} (s : ℕ) {v : A}
      → IsSound a added
      → at a s ≡ some v
      → get_elem? added s ≡ some v
  unfolding at
  at-added a s ok e = elim (Option-cases (chunk_of a s)) [
    | inl n ↦ ground (arith, n, e)
    | inr (c, f) ↦ sym (at_chunk a s c ok f) ∙ e
  ]

  -- and from the tail on it reads every token
  pub at-covered :
      (a : TokenArena A) {added : List A} (s : ℕ)
      → IsSound a added
      → a.tail ≤ s
      → s < a.next
      → at a s ≡ get_elem? added s
  at-covered a s ok t n =
      let (c, made, held, low, high) = ok.covered s t n in
      at_chunk a s c ok (chunk_of-held a s c ok made held low high)
