-- ===== src/TokenArena/Reclaim.antt =====
-- What `SetTail` of internal/tokenarena/tokenarena.go gives back after any calls.
use go_yaml.TokenArena.{
  Chunk, TokenArena, new, update, each_chunk_in, save_chunk, save, let_go, release_chunk, release,
  free_chunk, free_saved, clear_saves, unsaved, release_all, reset, recycle, set_tail, pin, unpin,
  sweep, min, is_head,
}
use go_yaml.TokenArena.Counts.{times, same}
use go_yaml.TokenArena.Order.{
  IsOrdered, InOrder, IsSwept, past, alike-IsOrdered, if-InOrder, add-InOrder, sweep-InOrder,
  sweep-IsSwept,
}
use go_yaml.TokenArena.Sweep.{set_tail-IsSound}
use go_yaml.TokenArena.SaveSound.{each_entry-keeps, update-alike, clear_saves-alike}
use go_yaml.TokenArena.Sound.{IsSound, new-IsSound}
use go_yaml.TokenArena.Trace.{
  Call, adds, sets_tail, pins, unpins, saves_run, releases_run, releases_all, recycles, resets,
  call, run, call-IsSound, run-new-IsSound,
}
use go_yaml.Base.{
  ◌≤◌, ℕ, suc, ◌-◌, ◌/◌, ◌<◌, false, List, [], ◌∷◌, ltb, ◌==◌, if◌then◌else◌, length, ◌≡◌, refl,
  arith, inl, inr, Bool-cases, ==-self,
}

module _ {ℓ} {A : Type ℓ} where
  resaved-InOrder :
      (a : TokenArena A) (c n : ℕ)
      → InOrder a
      → InOrder (record a { chunks = update a.chunks c (record (a.chunks c) { saves = n }) })
  resaved-InOrder a c n o =
      alike-IsOrdered a.chunks (update a.chunks c (record (a.chunks c) { saves = n })) a.head a.live
        (λ d. let (b, p, _, _) = update-alike a.chunks c n d in (b, p)) o

  unflagged :
      (chunks : ℕ → Chunk A) (c d : ℕ) (v : Chunk A)
      → v.base ≡ (chunks c).base
      → v.pos ≡ (chunks c).pos
      → ((update chunks c v d).base ≡ (chunks d).base)
        × ((update chunks c v d).pos ≡ (chunks d).pos)
  unflagged chunks c d v b p = elim (Bool-cases (d == c)) [
    | inl y ↦ rw (same y, ==-self c) (b, p)
    | inr n ↦ rw n (refl, refl)
  ]

  let_go-InOrder : (a : TokenArena A) (c : ℕ) → InOrder a → InOrder (let_go c a)
  unfolding free_chunk
  let_go-InOrder a c o =
      if-InOrder (a.chunks c).on_saved _ a
        (λ y.
          alike-IsOrdered a.chunks (update a.chunks c (record (a.chunks c) { on_saved = false }))
            a.head a.live
            (λ d. unflagged a.chunks c d (record (a.chunks c) { on_saved = false }) refl refl) o)
        (λ n. o)

  release_chunk-InOrder : (a : TokenArena A) (c : ℕ) → InOrder a → InOrder (release_chunk c a)
  unfolding release_chunk
  release_chunk-InOrder a c o =
      let less = record a {
        chunks = update a.chunks c (record (a.chunks c) { saves = (a.chunks c).saves - 1 });
      } in
      let fewer = resaved-InOrder a c ((a.chunks c).saves - 1) o in
      if-InOrder ((a.chunks c).saves == 0) a
        (if ltb 0 (less.chunks c).saves then less else let_go c less) (λ y. o)
        (λ n.
          if-InOrder (ltb 0 (less.chunks c).saves) less (let_go c less) (λ y. fewer)
            (λ m. let_go-InOrder less c fewer))

  free_saved-InOrder : (cs : List ℕ) (a : TokenArena A) → InOrder a → InOrder (free_saved cs a)
  unfolding free_saved free_chunk
  free_saved-InOrder [] a o = o
  free_saved-InOrder (c ∷ cs) a o =
      let chunks = update a.chunks c (unsaved (a.chunks c)) in
      free_saved-InOrder cs (free_chunk (record a { saved = cs; chunks = chunks }) c) (
        alike-IsOrdered a.chunks chunks a.head a.live
          (λ d. unflagged a.chunks c d (unsaved (a.chunks c)) refl refl) o)

  release_all-InOrder : (a : TokenArena A) → InOrder a → InOrder (release_all a)
  unfolding release_all
  release_all-InOrder a o =
      let b = free_saved a.saved a in
      alike-IsOrdered b.chunks (clear_saves b.live b.chunks) b.head b.live
        (λ d. let (e, p, _, _) = clear_saves-alike b.live b.chunks d in (e, p))
        (free_saved-InOrder a.saved a o)

  call-InOrder :
      (blank : A) (a : TokenArena A) {added : List A} (c : Call A)
      → IsSound a added
      → InOrder a
      → InOrder (call blank a c)
  unfolding call pin unpin set_tail save release reset recycle new each_chunk_in IsOrdered
  call-InOrder blank a (adds v) ok o = add-InOrder blank a v ok o
  call-InOrder blank a (sets_tail seq) ok o =
      sweep-InOrder (record a { tail = if ltb a.tail seq then seq else a.tail }) o
  call-InOrder blank a pins ok o = o
  call-InOrder blank a unpins ok o =
      if-InOrder (a.frozen == 0) a (sweep (record a { frozen = a.frozen - 1 })) (λ y. o)
        (λ n. sweep-InOrder (record a { frozen = a.frozen - 1 }) o)
  call-InOrder blank a (saves_run from to) ok o =
      each_entry-keeps InOrder save_chunk from to
        (min (suc (to / a.chunk_size)) (length a.by_index) - from / a.chunk_size)
        (from / a.chunk_size) a (λ b j c s e. resaved-InOrder b c (suc (b.chunks c).saves) s)
        (λ b s. s) o
  call-InOrder blank a (releases_run from to) ok o =
      each_entry-keeps InOrder release_chunk from to
        (min (suc (to / a.chunk_size)) (length a.by_index) - from / a.chunk_size)
        (from / a.chunk_size) a (λ b j c s e. release_chunk-InOrder b c s) (λ b s. s) o
  call-InOrder blank a releases_all ok o = release_all-InOrder a o
  call-InOrder blank a recycles ok o = refl
  call-InOrder blank a resets ok o = refl

  run-InOrder :
      (blank : A) (a : TokenArena A) {added : List A} (cs : List (Call A))
      → IsSound a added
      → InOrder a
      → InOrder (run blank a cs)
  unfolding run
  run-InOrder blank a [] ok o = o
  run-InOrder blank a (c ∷ cs) ok o =
      run-InOrder blank (call blank a c) cs (call-IsSound blank a c ok)
        (call-InOrder blank a c ok o)

  set_tail-IsSwept :
      (blank : A) (size : ℕ) (cs : List (Call A)) (seq : ℕ)
      → (run blank (new size) cs).frozen ≡ 0
      → IsSwept (set_tail (run blank (new size) cs) seq)
  unfolding set_tail new IsOrdered
  set_tail-IsSwept blank size cs seq z =
      let a = run blank (new size) cs in
      sweep-IsSwept (record a { tail = if ltb a.tail seq then seq else a.tail }) z
        (run-InOrder blank (new size) cs (new-IsSound size) refl)

  -- the arena when the tail is set after some calls
  abbrev pub tail_set : A → ℕ → List (Call A) → ℕ → TokenArena A
  tail_set blank size cs seq = set_tail (run blank (new size) cs) seq

  -- After any calls on a new arena that leave no pin, setting the tail gives every chunk that the tail
  -- has passed back to the free list, but the one being written to and those on the saved list.
  pub set_tail-reclaims :
      (blank : A) (size : ℕ) (cs : List (Call A)) (seq c : ℕ)
      → (run blank (new size) cs).frozen ≡ 0
      → c < (tail_set blank size cs seq).made
      → is_head (tail_set blank size cs seq).head c ≡ false
      → past ((tail_set blank size cs seq).chunks c) ≤ (tail_set blank size cs seq).tail
      → ((tail_set blank size cs seq).chunks c).on_saved ≡ false
      → times c (tail_set blank size cs seq).free ≡ 1
  set_tail-reclaims blank size cs seq c z m h p s =
      let ok = set_tail-IsSound (run blank (new size) cs) seq (run-new-IsSound blank size cs) in
      ground (arith, ok.places c, ok.flags c, (set_tail-IsSwept blank size cs seq z).left c)
