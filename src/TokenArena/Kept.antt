-- ===== src/TokenArena/Kept.antt =====
-- Chunks that a save of internal/tokenarena/tokenarena.go keeps.
use go_yaml.TokenArena.{
  Chunk, TokenArena, update, observe, entry, grow_from, grow, room, written, add, push_back, unlink,
  retire, free_chunk, sweep_from, sweep, visit, visited_one, each_entry, save_chunk, is_head,
}
use go_yaml.TokenArena.Counts.{same, times, one, times-push}
use go_yaml.Base.{
  ℕ, zero, suc, ◌+◌, ◌≤◌, ◌<◌, Bool, true, false, ◌&&◌, ◌||◌, Option, none, some, List, [], ◌∷◌,
  ltb, leb, ◌==◌, if◌then◌else◌, length, ◌≡◌, refl, ap, arith, inl, inr, Option-cases, Bool-cases,
}

module _ {ℓ} {A : Type ℓ} where
  -- the token `s` stands in a chunk in hand that a save keeps
  pub record IsSavedIn (chunks : ℕ → Chunk A) (all : ℕ) (free : List ℕ) (s : ℕ) : Type 0 where
    pub chunk : ℕ
    pub made : chunk < all
    pub held : times chunk free ≡ 0
    pub low : (chunks chunk).base ≤ s
    pub high : s < (chunks chunk).base + (chunks chunk).pos
    pub counted : 0 < (chunks chunk).saves

  abbrev pub IsSaved : TokenArena A → ℕ → Type 0
  IsSaved a s = IsSavedIn a.chunks a.made a.free s

  pub if-IsSaved :
      (s : ℕ) (t : Bool) (x y : TokenArena A)
      → IsSaved x s
      → (t ≡ false → IsSaved y s)
      → IsSaved (if t then x else y) s
  if-IsSaved s true x y k l = k
  if-IsSaved s false x y k l = l refl

  grow_from-IsSaved :
      (blank : A) (a : TokenArena A) (s : ℕ) (free : List ℕ)
      → a.free ≡ free
      → IsSaved a s
      → IsSaved (grow_from blank a free) s
  unfolding grow_from times
  grow_from-IsSaved blank a s [] e k =
      let n : (k.chunk == a.made) ≡ false = ground (arith, k.made) in
      record {
        chunk = k.chunk;
        made = omega (arith, k.made);
        held = k.held;
        low = rw n k.low;
        high = rw n k.high;
        counted = rw n k.counted;
      }
  grow_from-IsSaved blank a s (c ∷ free) e k =
      let popped : times k.chunk a.free ≡ one (c == k.chunk) + times k.chunk free =
        ap (times k.chunk) e in
      let n : (k.chunk == c) ≡ false = ground (arith, k.held, popped) in
      record {
        chunk = k.chunk;
        made = k.made;
        held = ground (arith, k.held, popped);
        low = rw n k.low;
        high = rw n k.high;
        counted = rw n k.counted;
      }

  room-IsSaved : (blank : A) (a : TokenArena A) (s : ℕ) → IsSaved a s → IsSaved (room blank a) s
  unfolding room grow
  room-IsSaved blank a s k = elim (Option-cases a.head) [
    | inl e ↦ rw (room, e) (grow_from-IsSaved blank a s a.free refl k)
    | inr (h, e) ↦
        rw (room, e)
          (if-IsSaved s ((a.chunks h).pos == length (a.chunks h).buf) (grow blank a) a
            (grow_from-IsSaved blank a s a.free refl k) (λ n. k))
  ]

  written-IsSaved :
      (b : TokenArena A) (v : A) (s : ℕ) (h : Option ℕ) → IsSaved b s → IsSaved (written b v h) s
  written-IsSaved b v s none k = k
  written-IsSaved b v s (some h) k = record {
    chunk = k.chunk;
    made = k.made;
    held = k.held;
    low = ground (arith, k.low);
    high = ground (arith, k.high);
    counted = ground (arith, k.counted);
  }

  pub add-IsSaved :
      (blank : A) (a : TokenArena A) (v : A) (s : ℕ) → IsSaved a s → IsSaved (add blank a v) s
  unfolding add
  add-IsSaved blank a v s k =
      written-IsSaved (room blank a) v s (room blank a).head (room-IsSaved blank a s k)

  retire-IsSaved : (a : TokenArena A) (c s : ℕ) → IsSaved a s → IsSaved (retire a c) s
  unfolding retire free_chunk
  retire-IsSaved a c s k =
      if-IsSaved s (ltb 0 (a.chunks c).saves)
        (record a {
          live = unlink c a.live;
          saved = push_back a.saved c;
          chunks = update a.chunks c (record (a.chunks c) { on_saved = true });
        })
        (free_chunk (record a { live = unlink c a.live }) c)
        (record {
          chunk = k.chunk;
          made = k.made;
          held = k.held;
          low = ground (arith, k.low);
          high = ground (arith, k.high);
          counted = ground (arith, k.counted);
        })
        (λ n. record {
          chunk = k.chunk;
          made = k.made;
          held = elim (Bool-cases (c == k.chunk)) [
            | inl y ↦ absurd (ground (arith, n, k.counted, ap (λ x. (a.chunks x).saves) (same y)))
            | inr o ↦ omega (arith, times-push k.chunk a.free c, k.held, ap one o)
          ];
          low = k.low;
          high = k.high;
          counted = k.counted;
        })

  sweep_from-IsSaved :
      (cs : List ℕ) (a : TokenArena A) (s : ℕ) → IsSaved a s → IsSaved (sweep_from cs a) s
  unfolding sweep_from
  sweep_from-IsSaved [] a s k = k
  sweep_from-IsSaved (c ∷ cs) a s k =
      if-IsSaved s (is_head a.head c || ltb a.tail ((a.chunks c).base + (a.chunks c).pos)) a
        (sweep_from cs (retire a c)) k
        (λ n. sweep_from-IsSaved cs (retire a c) s (retire-IsSaved a c s k))

  pub sweep-IsSaved : (a : TokenArena A) (s : ℕ) → IsSaved a s → IsSaved (sweep a) s
  unfolding sweep
  sweep-IsSaved a s k =
      let b = sweep_from a.live a in
      if-IsSaved s (ltb 0 a.frozen) a (observe b) k (λ n. sweep_from-IsSaved a.live a s k)

  -- a run saved besides
  save_chunk-IsSaved : (a : TokenArena A) (c s : ℕ) → IsSaved a s → IsSaved (save_chunk c a) s
  save_chunk-IsSaved a c s k = record {
    chunk = k.chunk;
    made = k.made;
    held = k.held;
    low = ground (arith, k.low);
    high = ground (arith, k.high);
    counted = ground (arith, k.counted);
  }

  visit-IsSaved :
      (a : TokenArena A) (from to s : ℕ) (o : Option ℕ)
      → IsSaved a s
      → IsSaved (visit save_chunk from to o a) s
  unfolding visit
  visit-IsSaved a from to s none k = k
  visit-IsSaved a from to s (some c) k =
      if-IsSaved s
        (ltb 0 (a.chunks c).pos
          && ltb from ((a.chunks c).base + (a.chunks c).pos)
          && leb (a.chunks c).base to)
        (save_chunk c a) a (save_chunk-IsSaved a c s k) (λ n. k)

  pub each_entry-IsSaved :
      (from to count i : ℕ) (a : TokenArena A) (s : ℕ)
      → IsSaved a s
      → IsSaved (each_entry save_chunk from to count i a) s
  unfolding each_entry
  each_entry-IsSaved from to zero i a s k = k
  each_entry-IsSaved from to (suc count) i a s k =
      each_entry-IsSaved from to count (suc i)
        (visit save_chunk from to (entry a.by_index i) (visited_one a)) s
        (visit-IsSaved (visited_one a) from to s (entry a.by_index i) k)
