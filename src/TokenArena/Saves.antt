-- ===== src/TokenArena/Saves.antt =====
-- internal/tokenarena/tokenarena.go: saving runs of tokens, reading tokens, starting over.
use go_yaml.TokenArena.Chunks.{min, Chunk, TokenArena, no_stats, unlink, update, observe, new}
use go_yaml.TokenArena.Tape.{entry, free_chunk}
use go_yaml.Base.{
  ℕ, zero, suc, ◌+◌, ◌-◌, ◌/◌, false, ◌&&◌, ◌||◌, Option, none, some, List, [], ◌∷◌, ◌++◌, ltb, leb,
  ◌==◌, if◌then◌else◌, length, get_elem?, take,
}

module _ {ℓ} {A : Type ℓ} where
  abbrev pub visited_one : TokenArena A → TokenArena A
  visited_one a = record a { stats = record a.stats { visited = suc a.stats.visited } }

  -- the chunk of an entry, where it holds a token of the run
  unfoldable pub visit :
      (ℕ → TokenArena A → TokenArena A) → ℕ → ℕ → Option ℕ → TokenArena A → TokenArena A
  visit act from to none a = a
  visit act from to (some c) a =
      let k = a.chunks c in
      if ltb 0 k.pos && ltb from (k.base + k.pos) && leb k.base to then act c a else a

  -- `eachChunkIn`: the entries from `i` on, so many of them, each read when the loop comes to it
  unfoldable pub each_entry :
      (ℕ → TokenArena A → TokenArena A) → ℕ → ℕ → ℕ → ℕ → TokenArena A → TokenArena A
  unfolding visit
  each_entry act from to zero i a = a
  each_entry act from to (suc count) i a =
      each_entry act from to count (suc i) (visit act from to (entry a.by_index i) (visited_one a))

  unfoldable pub each_chunk_in :
      TokenArena A → ℕ → ℕ → (ℕ → TokenArena A → TokenArena A) → TokenArena A
  unfolding each_entry min
  each_chunk_in a from to act =
      let first = from / a.chunk_size in
      each_entry act from to (min (suc (to / a.chunk_size)) (length a.by_index) - first) first a

  abbrev pub save_chunk : ℕ → TokenArena A → TokenArena A
  save_chunk c a = record a {
    chunks = update a.chunks c (record (a.chunks c) { saves = suc (a.chunks c).saves });
  }

  -- `Save`, without the count it returns
  unfoldable pub save : TokenArena A → ℕ → ℕ → TokenArena A
  unfolding each_chunk_in
  save a from to =
      let b = each_chunk_in a from to save_chunk in
      observe (record b { stats = record b.stats { saves = suc b.stats.saves } })

  -- a chunk with no save left on it, if it stands on the saved list
  abbrev pub let_go : ℕ → TokenArena A → TokenArena A
  let_go c a =
      if (a.chunks c).on_saved
      then free_chunk
          (record a {
            saved = unlink c a.saved;
            chunks = update a.chunks c (record (a.chunks c) { on_saved = false });
          })
          c
      else a

  unfoldable pub release_chunk : ℕ → TokenArena A → TokenArena A
  unfolding free_chunk unlink
  release_chunk c a =
      if (a.chunks c).saves == 0
      then a
      else let b = record a {
        chunks = update a.chunks c (record (a.chunks c) { saves = (a.chunks c).saves - 1 });
      } in
        if ltb 0 (b.chunks c).saves then b else let_go c b

  -- `Release`, without the count it returns
  unfoldable pub release : TokenArena A → ℕ → ℕ → TokenArena A
  unfolding each_chunk_in release_chunk
  release a from to = each_chunk_in a from to release_chunk

  abbrev pub unsaved : Chunk A → Chunk A
  unsaved c = record c { saves = 0; on_saved = false }

  -- the first loop of `ReleaseAll`, over the saved list
  unfoldable pub free_saved : List ℕ → TokenArena A → TokenArena A
  unfolding free_chunk
  free_saved [] a = a
  free_saved (c ∷ cs) a =
      free_saved cs
        (free_chunk (record a { saved = cs; chunks = update a.chunks c (unsaved (a.chunks c)) }) c)

  -- the second, over the live list
  unfoldable pub clear_saves : List ℕ → (ℕ → Chunk A) → ℕ → Chunk A
  clear_saves [] chunks = chunks
  clear_saves (c ∷ cs) chunks = clear_saves cs (update chunks c (record (chunks c) { saves = 0 }))

  unfoldable pub release_all : TokenArena A → TokenArena A
  unfolding free_saved clear_saves
  release_all a = let b = free_saved a.saved a in record b { chunks = clear_saves b.live b.chunks }

  -- `chunkOf`
  unfoldable pub chunk_of : TokenArena A → ℕ → Option ℕ
  chunk_of a seq = elim (entry a.by_index (seq / a.chunk_size)) [
    | none ↦ none
    | some c ↦
        let k = a.chunks c in if ltb seq k.base || leb (k.base + k.pos) seq then none else some c
  ]

  -- `At`: the token itself, for the pointer to it
  unfoldable pub at : TokenArena A → ℕ → Option A
  unfolding chunk_of
  at a seq = elim (chunk_of a seq) [
    | none ↦ none
    | some c ↦ get_elem? (a.chunks c).buf (seq - (a.chunks c).base)
  ]

  unfoldable pub generation_of : TokenArena A → ℕ → Option ℕ
  unfolding chunk_of
  generation_of a seq = elim (chunk_of a seq) [
    | none ↦ none
    | some c ↦ some (a.chunks c).generation
  ]

  -- `All`
  unfoldable pub all : (ℕ → Chunk A) → List ℕ → List A
  all chunks [] = []
  all chunks (c ∷ cs) = take (chunks c).pos (chunks c).buf ++ all chunks cs

  unfoldable pub reset : TokenArena A → TokenArena A
  unfolding new
  reset a = record (new a.chunk_size) { chunk_size = a.chunk_size }

  -- the loops of `Recycle`
  unfoldable pub give_up : List ℕ → (ℕ → Chunk A) → ℕ → Chunk A
  give_up [] chunks = chunks
  give_up (c ∷ cs) chunks = give_up cs (update chunks c (record (chunks c) { on_saved = false }))

  unfoldable pub recycle : TokenArena A → TokenArena A
  unfolding give_up
  recycle a = record a {
    chunks = give_up a.saved (give_up a.live a.chunks);
    live = [];
    saved = [];
    free = (a.free ++ a.live) ++ a.saved;
    head = none;
    next = 0;
    tail = 0;
    frozen = 0;
    stats = no_stats;
    released = 0;
    by_index = [];
  }
