-- ===== src/TokenArena/Tape.antt =====
-- internal/tokenarena/tokenarena.go: adding tokens, and the tail that frees chunks.
use go_yaml.TokenArena.Chunks.{Chunk, TokenArena, unlink, push_back, update, observe}
use go_yaml.Base.{
  ℕ, zero, suc, ◌+◌, ◌-◌, ◌/◌, Bool, true, false, ◌||◌, Option, none, some, List, [], ◌∷◌, ltb,
  ◌==◌, if◌then◌else◌, length, get_or, set, replicate,
}

-- `byIndex[at]`, and nil out of range
abbrev pub entry : List (Option ℕ) → ℕ → Option ℕ
entry l at = get_or l at none

-- `index`: the slice grows by nils as far as the entry
unfoldable pub put_entry : List (Option ℕ) → ℕ → ℕ → List (Option ℕ)
put_entry [] zero c = some c ∷ []
put_entry [] (suc at) c = none ∷ put_entry [] at c
put_entry (e ∷ es) zero c = some c ∷ es
put_entry (e ∷ es) (suc at) c = e ∷ put_entry es at c

-- what `freeChunk` clears
abbrev pub cleared : List (Option ℕ) → ℕ → ℕ → List (Option ℕ)
cleared l at c = elim (entry l at) [ none ↦ l | some d ↦ if d == c then set l at none else l ]

abbrev pub is_head : Option ℕ → ℕ → Bool
is_head none c = false
is_head (some h) c = h == c

module _ {ℓ} {A : Type ℓ} where
  -- the chunk that `grow` puts at the head: the first of the free list, or a new one
  abbrev pub filled_again : A → ℕ → Chunk A → Chunk A
  filled_again blank next c = record {
    base = next;
    pos = 0;
    saves = 0;
    on_saved = false;
    generation = c.generation + 1;
    buf = replicate (length c.buf) blank;
  }

  abbrev pub fresh_chunk : ℕ → A → ℕ → Chunk A
  fresh_chunk size blank next = record {
    base = next;
    pos = 0;
    saves = 0;
    on_saved = false;
    generation = 0;
    buf = replicate size blank;
  }

  -- behind the choice of the chunk
  abbrev pub headed : TokenArena A → ℕ → Chunk A → TokenArena A
  headed a c v = observe (record a {
    chunks = update a.chunks c v;
    by_index = put_entry a.by_index (a.next / a.chunk_size) c;
    live = push_back a.live c;
    head = some c;
  })

  unfoldable pub grow_from : A → TokenArena A → List ℕ → TokenArena A
  grow_from blank a [] =
      headed
        (record a {
          made = suc a.made;
          stats = record a.stats { allocated = suc a.stats.allocated };
        })
        a.made (fresh_chunk a.chunk_size blank a.next)
  grow_from blank a (c ∷ free) =
      headed (record a { free = free; stats = record a.stats { recycled = suc a.stats.recycled } })
        c (filled_again blank a.next (a.chunks c))

  unfoldable pub grow : A → TokenArena A → TokenArena A
  unfolding grow_from
  grow blank a = grow_from blank a a.free

  -- the arena with a head that has room
  unfoldable pub room : A → TokenArena A → TokenArena A
  unfolding grow
  room blank a = elim a.head [
    | none ↦ grow blank a
    | some h ↦ if (a.chunks h).pos == length (a.chunks h).buf then grow blank a else a
  ]

  abbrev pub written : TokenArena A → A → Option ℕ → TokenArena A
  written a v none = a
  written a v (some h) =
      let c = a.chunks h in
      record a {
        chunks = update a.chunks h (record c { buf = set c.buf c.pos v; pos = suc c.pos });
        next = suc a.next;
        stats = record a.stats { tokens = suc a.stats.tokens };
      }

  -- `Add`; the sequence number of the token is `next` before it
  unfoldable pub add : A → TokenArena A → A → TokenArena A
  unfolding room
  add blank a v = let b = room blank a in written b v b.head

  unfoldable pub free_chunk : TokenArena A → ℕ → TokenArena A
  free_chunk a c = record a {
    by_index = cleared a.by_index ((a.chunks c).base / a.chunk_size) c;
    free = push_back a.free c;
    released = suc a.released;
  }

  -- a chunk that the tail has passed leaves the live list
  unfoldable pub retire : TokenArena A → ℕ → TokenArena A
  unfolding unlink free_chunk
  retire a c =
      let b = record a { live = unlink c a.live } in
      if ltb 0 (a.chunks c).saves
      then record b {
        saved = push_back a.saved c;
        chunks = update a.chunks c (record (a.chunks c) { on_saved = true });
      }
      else free_chunk b c

  -- the loop of `sweep`, on the chunks from the cursor on
  unfoldable pub sweep_from : List ℕ → TokenArena A → TokenArena A
  unfolding retire
  sweep_from [] a = a
  sweep_from (c ∷ cs) a =
      let rest = sweep_from cs (retire a c) in
      if is_head a.head c || ltb a.tail ((a.chunks c).base + (a.chunks c).pos) then a else rest

  unfoldable pub sweep : TokenArena A → TokenArena A
  unfolding sweep_from
  sweep a = if ltb 0 a.frozen then a else observe (sweep_from a.live a)

  unfoldable pub set_tail : TokenArena A → ℕ → TokenArena A
  unfolding sweep
  set_tail a seq = sweep (record a { tail = if ltb a.tail seq then seq else a.tail })

  unfoldable pub pin : TokenArena A → TokenArena A
  pin a = record a { frozen = suc a.frozen; stats = record a.stats { pins = suc a.stats.pins } }

  unfoldable pub unpin : TokenArena A → TokenArena A
  unfolding sweep
  unpin a = if a.frozen == 0 then a else sweep (record a { frozen = a.frozen - 1 })

  abbrev pub is_frozen : TokenArena A → Bool
  is_frozen a = ltb 0 a.frozen
