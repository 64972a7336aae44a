-- ===== src/TokenArena/Saving.antt =====
-- `Save` of internal/tokenarena/tokenarena.go marks the chunks of its run.
use go_yaml.TokenArena.{
  Chunk, TokenArena, entry, visit, visited_one, each_entry, each_chunk_in, save_chunk, save, at,
  min, chunk_of,
}
use go_yaml.TokenArena.Counts.{same, times}
use go_yaml.TokenArena.Kept.{IsSaved, each_entry-IsSaved}
use go_yaml.TokenArena.Sound.{IsSound, at_chunk, chunk_of-held, chunk_of-some}
use native.Mathlib.Nat.{div-eq_of_lt-le, le-div_iff_mul-le, div-mul-le_self}
use go_yaml.Base.{
  get_elem?, ℕ, zero, suc, ◌+◌, ◌-◌, ◌/◌, ◌≤◌, ◌<◌, Bool, true, false, ◌&&◌, Option, none, some,
  List, [], ◌∷◌, ltb, leb, ◌==◌, if◌then◌else◌, length, ◌≡◌, arith, inl, inr, Bool-cases,
}

entry_below : (l : List (Option ℕ)) (n c : ℕ) → entry l n ≡ some c → n < length l
entry_below [] n c e = absurd (ground (arith, e))
entry_below (x ∷ xs) zero c e = omega arith
entry_below (x ∷ xs) (suc n) c e = omega (arith, entry_below xs n c e)

quotient_mono : {size m n : ℕ} → 0 < size → m ≤ n → m / size ≤ n / size
quotient_mono {size} {m} {n} p h =
    (le-div_iff_mul-le p).1 (omega (arith, div-mul-le_self m size, h))

module _ {ℓ} {A : Type ℓ} where
  -- the token `s` stands in the chunk of an entry
  record IsAt (chunks : ℕ → Chunk A) (all : ℕ) (free : List ℕ) (by_index : List (Option ℕ))
      (s number : ℕ) : Type 0 where
    chunk : ℕ
    found : entry by_index number ≡ some chunk
    made : chunk < all
    held : times chunk free ≡ 0
    low : (chunks chunk).base ≤ s
    high : s < (chunks chunk).base + (chunks chunk).pos

  save_chunk-IsAt :
      (a : TokenArena A) (c s n : ℕ)
      → IsAt a.chunks a.made a.free a.by_index s n
      → IsAt (save_chunk c a).chunks a.made a.free a.by_index s n
  save_chunk-IsAt a c s n k = record {
    chunk = k.chunk;
    found = k.found;
    made = k.made;
    held = k.held;
    low = ground (arith, k.low);
    high = ground (arith, k.high);
  }

  save_chunk-saves :
      (a : TokenArena A) (s n : ℕ) (k : IsAt a.chunks a.made a.free a.by_index s n)
      → IsSaved (save_chunk k.chunk a) s
  save_chunk-saves a s n k = record {
    chunk = k.chunk;
    made = k.made;
    held = k.held;
    low = ground (arith, k.low);
    high = ground (arith, k.high);
    counted = ground arith;
  }

  visit-saves :
      (a : TokenArena A) (from to s n : ℕ)
      → IsAt a.chunks a.made a.free a.by_index s n
      → from ≤ s
      → s ≤ to
      → IsSaved (visit save_chunk from to (entry a.by_index n) a) s
  unfolding visit
  visit-saves a from to s n k f t =
      let tests : (ltb 0 (a.chunks k.chunk).pos
            && ltb from ((a.chunks k.chunk).base + (a.chunks k.chunk).pos)
            && leb (a.chunks k.chunk).base to)
          ≡ true =
        ground (arith, k.low, k.high) in
      rw (k.found, tests) (save_chunk-saves a s n k)

  visit-IsAt :
      (a : TokenArena A) (from to s n : ℕ) (o : Option ℕ)
      → IsAt a.chunks a.made a.free a.by_index s n
      → let b = visit save_chunk from to o a in IsAt b.chunks b.made b.free b.by_index s n
  unfolding visit
  visit-IsAt a from to s n none k = k
  visit-IsAt a from to s n (some c) k = if-IsAt (
      ltb 0 (a.chunks c).pos
      && ltb from ((a.chunks c).base + (a.chunks c).pos)
      && leb (a.chunks c).base to)
    where
      if-IsAt :
          (t : Bool)
          → let b = if t then save_chunk c a else a in IsAt b.chunks b.made b.free b.by_index s n
      if-IsAt true = save_chunk-IsAt a c s n k
      if-IsAt false = k

  each_entry-saves :
      (from to count i : ℕ) (a : TokenArena A) (s n : ℕ)
      → IsAt a.chunks a.made a.free a.by_index s n
      → from ≤ s
      → s ≤ to
      → i ≤ n
      → n < i + count
      → IsSaved (each_entry save_chunk from to count i a) s
  unfolding each_entry
  each_entry-saves from to zero i a s n k f t p q = absurd (omega (arith, p, q))
  each_entry-saves from to (suc count) i a s n k f t p q =
      let b = visit save_chunk from to (entry a.by_index i) (visited_one a) in
      elim (Bool-cases (i == n)) [
        | inl y ↦
            each_entry-IsSaved from to count (suc i) b s
              (rw (same y) (visit-saves (visited_one a) from to s n k f t))
        | inr o ↦
            each_entry-saves from to count (suc i) b s n
              (visit-IsAt (visited_one a) from to s n (entry a.by_index i) k) f t
              (ground (arith, p, o)) (omega (arith, q))
      ]

  -- A run that is saved while the tail has not passed a token of it keeps the token.
  pub save-IsSaved :
      (a : TokenArena A) {added : List A} (from to s c : ℕ)
      → IsSound a added
      → chunk_of a s ≡ some c
      → from ≤ s
      → s ≤ to
      → IsSaved (save a from to) s
  unfolding save each_chunk_in min
  save-IsSaved a from to s c ok e f t =
      let (made, held, low, high) = chunk_of-some a s c ok e in
      let k = ok.filled c made held in
      let n : s / a.chunk_size ≡ k.number =
        div-eq_of_lt-le a.chunk_size (omega (arith, k.numbered, low))
          (omega (arith, k.numbered, k.within, high)) in
      let first : from / a.chunk_size ≤ k.number =
        omega (arith, quotient_mono {size = a.chunk_size} ok.size_pos f, n) in
      let last : k.number ≤ to / a.chunk_size =
        omega (arith, quotient_mono {size = a.chunk_size} ok.size_pos t, n) in
      each_entry-saves from to
        (min (suc (to / a.chunk_size)) (length a.by_index) - from / a.chunk_size)
        (from / a.chunk_size) a s k.number
        (record { chunk = c; found = k.found; made = made; held = held; low = low; high = high }) f
        t first (ground (arith, first, last, entry_below a.by_index k.number c k.found))

  -- and is read by its number
  pub at-saved :
      (a : TokenArena A) {added : List A} (s : ℕ)
      → IsSound a added
      → IsSaved a s
      → at a s ≡ get_elem? added s
  at-saved a s ok k =
      at_chunk a s k.chunk ok (chunk_of-held a s k.chunk ok k.made k.held k.low k.high)
