-- ===== src/TokenArena/Trace.antt =====
-- Sequences of calls of the arena of internal/tokenarena/tokenarena.go.
use go_yaml.TokenArena.{
  sweep, each_chunk_in, min, chunk_of, TokenArena, new, add, set_tail, pin, unpin, save, release,
  release_all, recycle, reset, at,
}
use go_yaml.TokenArena.Add.{add-IsSound}
use go_yaml.TokenArena.Sweep.{set_tail-IsSound, unpin-IsSound}
use go_yaml.TokenArena.SaveSound.{
  save-IsSound, release-IsSound, release_all-IsSound, recycle-IsSound, reset-IsSound,
}
use go_yaml.TokenArena.Kept.{IsSaved, add-IsSaved, sweep-IsSaved, each_entry-IsSaved, if-IsSaved}
use go_yaml.TokenArena.Saving.{save-IsSaved, at-saved}
use go_yaml.TokenArena.Sound.{IsSound, new-IsSound, at-added, at-covered}
use go_yaml.Base.{
  Bool, true, false, ◌&&◌, suc, ◌-◌, ◌/◌, ◌==◌, if◌then◌else◌, ltb, length, ◌∙◌, arith,
  Option-cases, inl, inr, get_elem?-append, get_elem?-below, get_elem?-past, ltb, none, sym,
  Bool-cases, ◌⊎◌, ℕ, ◌≤◌, ◌<◌, List, [], ◌∷◌, ◌++◌, some, get_elem?, ◌≡◌,
}

pub data Call {ℓ} (A : Type ℓ) : Type ℓ where
  adds : A → Call A
  sets_tail : ℕ → Call A
  pins : Call A
  unpins : Call A
  saves_run : ℕ → ℕ → Call A
  releases_run : ℕ → ℕ → Call A
  releases_all : Call A
  recycles : Call A
  resets : Call A

module _ {ℓ} {A : Type ℓ} (blank : A) where
  unfoldable pub call : TokenArena A → Call A → TokenArena A
  call a (adds v) = add blank a v
  call a (sets_tail seq) = set_tail a seq
  call a pins = pin a
  call a unpins = unpin a
  call a (saves_run from to) = save a from to
  call a (releases_run from to) = release a from to
  call a releases_all = release_all a
  call a recycles = recycle a
  call a resets = reset a

  unfoldable pub run : TokenArena A → List (Call A) → TokenArena A
  unfolding call
  run a [] = a
  run a (c ∷ cs) = run (call a c) cs

module _ {ℓ} {A : Type ℓ} where
  -- the tokens since the last start
  unfoldable pub added_by : List A → Call A → List A
  added_by added (adds v) = added ++ v ∷ []
  added_by added recycles = []
  added_by added resets = []
  added_by added _ = added

  unfoldable pub added_since : List A → List (Call A) → List A
  unfolding added_by
  added_since added [] = added
  added_since added (c ∷ cs) = added_since (added_by added c) cs

  pub call-IsSound :
      (blank : A) (a : TokenArena A) {added : List A} (c : Call A)
      → IsSound a added
      → IsSound (call blank a c) (added_by added c)
  unfolding call added_by pin
  call-IsSound blank a (adds v) ok = add-IsSound blank a v ok
  call-IsSound blank a (sets_tail seq) ok = set_tail-IsSound a seq ok
  call-IsSound blank a pins ok = ok
  call-IsSound blank a unpins ok = unpin-IsSound a ok
  call-IsSound blank a (saves_run from to) ok = save-IsSound a from to ok
  call-IsSound blank a (releases_run from to) ok = release-IsSound a from to ok
  call-IsSound blank a releases_all ok = release_all-IsSound a ok
  call-IsSound blank a recycles ok = recycle-IsSound a ok
  call-IsSound blank a resets ok = reset-IsSound a ok

  pub run-IsSound :
      (blank : A) (a : TokenArena A) {added : List A} (cs : List (Call A))
      → IsSound a added
      → IsSound (run blank a cs) (added_since added cs)
  unfolding run added_since
  run-IsSound blank a [] ok = ok
  run-IsSound blank a (c ∷ cs) ok =
      run-IsSound blank (call blank a c) cs (call-IsSound blank a c ok)

  -- After any calls on a new arena, each chunk made stands on one of the three lists, just once, the
  -- index finds the chunks that are live or saved and no others, and what they hold is what was added
  -- under their numbers since the last start.
  pub run-new-IsSound :
      (blank : A) (size : ℕ) (cs : List (Call A))
      → IsSound (run blank (new size) cs) (added_since [] cs)
  run-new-IsSound blank size cs = run-IsSound blank (new size) cs (new-IsSound size)

  -- After any calls on a new arena, a number reads as the token added under it since the last start, or,
  -- below the tail only, as nothing.
  pub run-at :
      (blank : A) (size : ℕ) (cs : List (Call A)) (s : ℕ)
      → let a = run blank (new size) cs in
        (at a s ≡ get_elem? (added_since [] cs) s) ⊎ ((at a s ≡ none) × (s < a.tail))
  run-at blank size cs s =
      let a = run blank (new size) cs in
      let added = added_since [] cs in
      let ok = run-new-IsSound blank size cs in
      elim (Option-cases (at a s)) [
        | inr (v, e) ↦ inl (e ∙ sym (at-added a s ok e))
        | inl n ↦ elim (Bool-cases (ltb s a.tail)) [
          | inl y ↦ inr (n, ground (arith, y))
          | inr o ↦ elim (Bool-cases (ltb s a.next)) [
            | inl y ↦ inl (at-covered a s ok (ground (arith, o)) (ground (arith, y)))
            | inr p ↦ inl (n ∙ sym (get_elem?-past added s (ground (arith, p, ok.next_is))))
          ]
        ]
      ]

  -- the calls that take no save back
  unfoldable pub keeps : Call A → Bool
  keeps (releases_run from to) = false
  keeps releases_all = false
  keeps recycles = false
  keeps resets = false
  keeps _ = true

  unfoldable pub all_keep : List (Call A) → Bool
  unfolding keeps
  all_keep [] = true
  all_keep (c ∷ cs) = keeps c && all_keep cs

  call-IsSaved :
      (blank : A) (a : TokenArena A) (s : ℕ) (c : Call A)
      → keeps c ≡ true
      → IsSaved a s
      → IsSaved (call blank a c) s
  unfolding call keeps pin set_tail unpin save each_chunk_in
  call-IsSaved blank a s (adds v) h k = add-IsSaved blank a v s k
  call-IsSaved blank a s (sets_tail seq) h k =
      sweep-IsSaved (record a { tail = if ltb a.tail seq then seq else a.tail }) s k
  call-IsSaved blank a s pins h k = k
  call-IsSaved blank a s unpins h k =
      if-IsSaved s (a.frozen == 0) a (sweep (record a { frozen = a.frozen - 1 })) k
        (λ n. sweep-IsSaved (record a { frozen = a.frozen - 1 }) s k)
  call-IsSaved blank a s (saves_run from to) h k =
      each_entry-IsSaved from to
        (min (suc (to / a.chunk_size)) (length a.by_index) - from / a.chunk_size)
        (from / a.chunk_size) a s k
  call-IsSaved blank a s (releases_run from to) h k = absurd (ground (arith, h))
  call-IsSaved blank a s releases_all h k = absurd (ground (arith, h))
  call-IsSaved blank a s recycles h k = absurd (ground (arith, h))
  call-IsSaved blank a s resets h k = absurd (ground (arith, h))

  run-IsSaved :
      (blank : A) (a : TokenArena A) (s : ℕ) (cs : List (Call A))
      → all_keep cs ≡ true
      → IsSaved a s
      → IsSaved (run blank a cs) s
  unfolding run all_keep
  run-IsSaved blank a s [] h k = k
  run-IsSaved blank a s (c ∷ cs) h k =
      run-IsSaved blank (call blank a c) s cs (ground (arith, h))
        (call-IsSaved blank a s c (ground (arith, h)) k)

  added_by-keeps :
      (added : List A) (c : Call A) (s : ℕ) {v : A}
      → keeps c ≡ true
      → get_elem? added s ≡ some v
      → get_elem? (added_by added c) s ≡ some v
  unfolding added_by keeps
  added_by-keeps added (adds w) s h e =
      get_elem?-append added (w ∷ []) s (get_elem?-below added s e) ∙ e
  added_by-keeps added (sets_tail seq) s h e = e
  added_by-keeps added pins s h e = e
  added_by-keeps added unpins s h e = e
  added_by-keeps added (saves_run from to) s h e = e
  added_by-keeps added (releases_run from to) s h e = e
  added_by-keeps added releases_all s h e = e
  added_by-keeps added recycles s h e = absurd (ground (arith, h))
  added_by-keeps added resets s h e = absurd (ground (arith, h))

  added_since-keeps :
      (added : List A) (cs : List (Call A)) (s : ℕ) {v : A}
      → all_keep cs ≡ true
      → get_elem? added s ≡ some v
      → get_elem? (added_since added cs) s ≡ some v
  unfolding added_since all_keep
  added_since-keeps added [] s h e = e
  added_since-keeps added (c ∷ cs) s h e =
      added_since-keeps (added_by added c) cs s (ground (arith, h))
        (added_by-keeps added c s (ground (arith, h)) e)

  at-chunk_of :
      (a : TokenArena A) (s : ℕ) {v : A} → at a s ≡ some v → (c : ℕ) × (chunk_of a s ≡ some c)
  unfolding at
  at-chunk_of a s e = elim (Option-cases (chunk_of a s)) [
    | inl n ↦ absurd (ground (arith, n, e))
    | inr k ↦ k
  ]

  -- A token that is read when a run with it is saved is read after any calls that take back no save and
  -- start nothing over, on an arena after any calls.
  pub run-saved :
      (blank : A) (size : ℕ) (cs ds : List (Call A)) (from to s : ℕ) {v : A}
      → at (run blank (new size) cs) s ≡ some v
      → from ≤ s
      → s ≤ to
      → all_keep ds ≡ true
      → at (run blank (save (run blank (new size) cs) from to) ds) s ≡ some v
  run-saved blank size cs ds from to s e f t h =
      let a = run blank (new size) cs in
      let ok = run-new-IsSound blank size cs in
      let (c, k) = at-chunk_of a s e in
      let later = run-IsSound blank (save a from to) ds (save-IsSound a from to ok) in
      let kept = run-IsSaved blank (save a from to) s ds h (save-IsSaved a from to s c ok k f t) in
      at-saved (run blank (save a from to) ds) s later kept
      ∙ added_since-keeps (added_since [] cs) ds s h (at-added a s ok e)
