-- ===== src/TokenArena/SaveSound.antt =====
-- Saving, releasing and starting over, in the invariant of internal/tokenarena/tokenarena.go.
use go_yaml.TokenArena.{
  Chunk, TokenArena, update, entry, visit, visited_one, each_entry, each_chunk_in, save_chunk, save,
  let_go, release_chunk, release, unsaved, free_saved, clear_saves, release_all, reset, new, min,
  give_up, recycle, free_chunk, unlink,
}
use go_yaml.TokenArena.Counts.{same, times, one, times-unlink, times-append}
use go_yaml.TokenArena.Free.{freed-IsSoundFor, alike-IsSoundFor, entry_of}
use go_yaml.TokenArena.Sound.{IsSound}
use go_yaml.Base.{
  ℕ, zero, suc, ◌+◌, ◌-◌, ◌/◌, ◌<◌, Bool, true, false, ◌&&◌, some, List, [], ◌∷◌, ◌++◌, ltb, leb,
  ◌==◌, if◌then◌else◌, length, ◌≡◌, refl, sym, ap, ◌∙◌, arith, inl, inr, Option-cases, Bool-cases,
  ==-self,
}

module _ {ℓ} {A : Type ℓ} where
  if-IsSound :
      {added : List A} (s : Bool) (x y : TokenArena A)
      → (s ≡ true → IsSound x added)
      → (s ≡ false → IsSound y added)
      → IsSound (if s then x else y) added
  if-IsSound true x y f g = f refl
  if-IsSound false x y f g = g refl

  -- what an act on a chunk of the index keeps, the loop over the index keeps
  pub each_entry-keeps {κ} :
      (P : TokenArena A → Type κ) (act : ℕ → TokenArena A → TokenArena A) (from to count i : ℕ)
      (a : TokenArena A)
      → ((b : TokenArena A) (j c : ℕ) → P b → entry b.by_index j ≡ some c → P (act c b))
      → ((b : TokenArena A) → P b → P (visited_one b))
      → P a
      → P (each_entry act from to count i a)
  unfolding each_entry visit
  each_entry-keeps P act from to zero i a keeps counts ok = ok
  each_entry-keeps P act from to (suc count) i a keeps counts ok =
      each_entry-keeps P act from to count (suc i)
        (visit act from to (entry a.by_index i) (visited_one a)) keeps counts
        (elim (Option-cases (entry a.by_index i)) [
          | inl n ↦ rw n (counts a ok)
          | inr (c, e) ↦ rw e (visit_keeps c e)
        ])
    where
      visit_keeps :
          (c : ℕ) → entry a.by_index i ≡ some c → P (visit act from to (some c) (visited_one a))
      visit_keeps c e =
          elim (Bool-cases (
            ltb 0 (a.chunks c).pos
            && ltb from ((a.chunks c).base + (a.chunks c).pos)
            && leb (a.chunks c).base to)) [
              | inl y ↦ rw y (keeps (visited_one a) i c (counts a ok) e)
              | inr n ↦ rw n (counts a ok)
            ]

  pub update-alike :
      (chunks : ℕ → Chunk A) (c n d : ℕ)
      → let after = update chunks c (record (chunks c) { saves = n }) d in
        (after.base ≡ (chunks d).base)
        × (after.pos ≡ (chunks d).pos)
        × (after.on_saved ≡ (chunks d).on_saved)
        × (after.buf ≡ (chunks d).buf)
  update-alike chunks c n d = elim (Bool-cases (d == c)) [
    | inl y ↦ rw (same y, ==-self c) (refl, refl, refl, refl)
    | inr o ↦ rw o (refl, refl, refl, refl)
  ]

  -- a chunk with another number of saves
  resaved :
      (a : TokenArena A) {added : List A} (c n : ℕ)
      → IsSound a added
      → IsSound (record a { chunks = update a.chunks c (record (a.chunks c) { saves = n }) }) added
  resaved a c n ok =
      alike-IsSoundFor (update a.chunks c (record (a.chunks c) { saves = n })) ok
        (update-alike a.chunks c n)

  pub save-IsSound :
      (a : TokenArena A) {added : List A} (from to : ℕ)
      → IsSound a added
      → IsSound (save a from to) added
  unfolding save each_chunk_in
  save-IsSound a {added} from to ok =
      each_entry-keeps (λ b. IsSound b added) save_chunk from to
        (min (suc (to / a.chunk_size)) (length a.by_index) - from / a.chunk_size)
        (from / a.chunk_size) a (λ b j c s e. resaved b c (suc (b.chunks c).saves) s) (λ b s. s) ok

  let_go-IsSound :
      (a : TokenArena A) {added : List A} (c : ℕ)
      → IsSound a added
      → c < a.made
      → times c a.free ≡ 0
      → IsSound (let_go c a) added
  unfolding free_chunk
  let_go-IsSound a c ok m f =
      if-IsSound (a.chunks c).on_saved freed a
        (λ y.
          freed-IsSoundFor chunks a.live (unlink c a.saved) ((chunks c).base / a.chunk_size) c ok
            (λ d. ground (arith, times-unlink d c a.saved, ok.flags c, y))
            (λ d. ground (arith, times-unlink d c a.saved, ok.flags d, ok.flags c, y))
            (λ d n. rw n refl) (ground arith) (rw (==-self c) (ok.rooms c m))
            (rw (==-self c) (entry_of a c ok m f)) (λ e. absurd (ground (arith, ok.head_is c e, y)))
            (ok.passed c y))
        (λ n. ok)
    where
      chunks : ℕ → Chunk A
      chunks = update a.chunks c (record (a.chunks c) { on_saved = false })

      freed : TokenArena A
      freed = free_chunk (record a { saved = unlink c a.saved; chunks = chunks }) c

  release_chunk-IsSound :
      (a : TokenArena A) {added : List A} (i c : ℕ)
      → IsSound a added
      → entry a.by_index i ≡ some c
      → IsSound (release_chunk c a) added
  unfolding release_chunk
  release_chunk-IsSound a i c ok e =
      let less = record a {
        chunks = update a.chunks c (record (a.chunks c) { saves = (a.chunks c).saves - 1 });
      } in
      let fewer = resaved a c ((a.chunks c).saves - 1) ok in
      if-IsSound ((a.chunks c).saves == 0) a
        (if ltb 0 (less.chunks c).saves then less else let_go c less) (λ y. ok)
        (λ n.
          if-IsSound (ltb 0 (less.chunks c).saves) less (let_go c less) (λ y. fewer)
            (λ o. let_go-IsSound less c fewer (ok.indexed i c e).0 (ok.indexed i c e).1))

  pub release-IsSound :
      (a : TokenArena A) {added : List A} (from to : ℕ)
      → IsSound a added
      → IsSound (release a from to) added
  unfolding release each_chunk_in
  release-IsSound a {added} from to ok =
      each_entry-keeps (λ b. IsSound b added) release_chunk from to
        (min (suc (to / a.chunk_size)) (length a.by_index) - from / a.chunk_size)
        (from / a.chunk_size) a (λ b j c s e. release_chunk-IsSound b j c s e) (λ b s. s) ok

  free_saved-IsSound :
      (cs : List ℕ) (a : TokenArena A) {added : List A}
      → a.saved ≡ cs
      → IsSound a added
      → IsSound (free_saved cs a) added
  unfolding free_saved free_chunk times
  free_saved-IsSound [] a e ok = ok
  free_saved-IsSound (c ∷ cs) a e ok =
      let popped : (d : ℕ) → times d a.saved ≡ one (c == d) + times d cs = λ d. ap (times d) e in
      let on : (a.chunks c).on_saved ≡ true = ground (arith, ok.flags c, popped c) in
      let m : c < a.made = ground (arith, ok.places c, popped c) in
      let f : times c a.free ≡ 0 = ground (arith, ok.places c, popped c) in
      let chunks = update a.chunks c (unsaved (a.chunks c)) in
      free_saved-IsSound cs (free_chunk (record a { saved = cs; chunks = chunks }) c) refl (
        freed-IsSoundFor chunks a.live cs ((chunks c).base / a.chunk_size) c ok
          (λ d. ground (arith, popped d))
          (λ d. ground (arith, popped d, ok.flags d, ok.flags c, ok.places c)) (λ d n. rw n refl)
          (ground arith) (rw (==-self c) (ok.rooms c m)) (rw (==-self c) (entry_of a c ok m f))
          (λ h. absurd (ground (arith, ok.head_is c h, on))) (ok.passed c on))

  pub clear_saves-alike :
      (l : List ℕ) (chunks : ℕ → Chunk A) (d : ℕ)
      → ((clear_saves l chunks d).base ≡ (chunks d).base)
        × ((clear_saves l chunks d).pos ≡ (chunks d).pos)
        × ((clear_saves l chunks d).on_saved ≡ (chunks d).on_saved)
        × ((clear_saves l chunks d).buf ≡ (chunks d).buf)
  unfolding clear_saves
  clear_saves-alike [] chunks d = (refl, refl, refl, refl)
  clear_saves-alike (c ∷ cs) chunks d =
      let (b, p, o, u) =
        clear_saves-alike cs (update chunks c (record (chunks c) { saves = 0 })) d in
      let (b', p', o', u') = update-alike chunks c 0 d in (b ∙ b', p ∙ p', o ∙ o', u ∙ u')

  pub release_all-IsSound :
      (a : TokenArena A) {added : List A} → IsSound a added → IsSound (release_all a) added
  unfolding release_all
  release_all-IsSound a ok =
      let b = free_saved a.saved a in
      alike-IsSoundFor (clear_saves b.live b.chunks) (free_saved-IsSound a.saved a refl ok)
        (clear_saves-alike b.live b.chunks)

  pub reset-IsSound : (a : TokenArena A) {added : List A} → IsSound a added → IsSound (reset a) []
  unfolding reset new times
  reset-IsSound a ok = record {
    size_pos = ok.size_pos;
    next_is = refl;
    places = λ c. ground arith;
    flags = λ c. refl;
    rooms = λ c h. ground arith;
    filled = λ c h f. absurd (ground arith);
    indexed = λ k c e. absurd (ground arith);
    head_is = λ h e. absurd (ground arith);
    start = λ e. refl;
    passed = λ c e. absurd (ground arith);
    covered = λ s t u. absurd (ground arith);
  }

  give_up-alike :
      (l : List ℕ) (chunks : ℕ → Chunk A) (d : ℕ)
      → ((give_up l chunks d).on_saved ≡ (if ltb 0 (times d l) then false else (chunks d).on_saved))
        × ((give_up l chunks d).buf ≡ (chunks d).buf)
  unfolding give_up times
  give_up-alike [] chunks d = (refl, refl)
  give_up-alike (c ∷ cs) chunks d =
      let later = update chunks c (record (chunks c) { on_saved = false }) in
      let (o, u) = give_up-alike cs later d in
      elim (Bool-cases (d == c)) [
        | inl y ↦
            let off : (later d).on_saved ≡ false = ground arith in
            (ground (arith, o, off, same y), u ∙ rw (same y, ==-self c) refl)
        | inr n ↦
            let on : (later d).on_saved ≡ (chunks d).on_saved = ground arith in
            (ground (arith, o, on, n), u ∙ rw n refl)
      ]

  pub recycle-IsSound :
      (a : TokenArena A) {added : List A} → IsSound a added → IsSound (recycle a) []
  unfolding recycle times
  recycle-IsSound a ok =
      let sum : (c : ℕ)
          → times c ((a.free ++ a.live) ++ a.saved)
            ≡ times c a.free + times c a.live + times c a.saved =
        λ c.
          omega (arith, times-append c (a.free ++ a.live) a.saved, times-append c a.free a.live) in
      let chunks = give_up a.saved (give_up a.live a.chunks) in
      let kept : (c : ℕ) → (chunks c).buf ≡ (a.chunks c).buf = λ c.
        (give_up-alike a.saved (give_up a.live a.chunks) c).1
        ∙ (give_up-alike a.live a.chunks c).1 in
      let off : (c : ℕ) → (chunks c).on_saved ≡ false = λ c. ground (
        arith,
        (give_up-alike a.saved (give_up a.live a.chunks) c).0,
        (give_up-alike a.live a.chunks c).0,
        ok.flags c,
      ) in
      record {
        size_pos = ok.size_pos;
        next_is = refl;
        places = λ c. ground (arith, sum c, ok.places c);
        flags = λ c. ap one (sym (off c));
        rooms = λ c h. ap length (kept c) ∙ ok.rooms c h;
        filled = λ c h f. absurd (ground (arith, sum c, ok.places c));
        indexed = λ k c e. absurd (ground arith);
        head_is = λ h e. absurd (ground arith);
        start = λ e. refl;
        passed = λ c e. absurd (ground (arith, off c, e));
        covered = λ s t u. absurd (ground arith);
      }
