-- ===== src/TokenArena/Sweep.antt =====
-- The tail of internal/tokenarena/tokenarena.go and the pins, in the arena's invariant.
use go_yaml.TokenArena.{
  TokenArena, update, free_chunk, retire, unlink, push_back, is_head, sweep_from, sweep, set_tail,
  unpin,
}
use go_yaml.TokenArena.Counts.{same, times, one, times-push, times-unlink}
use go_yaml.TokenArena.Free.{alike-IsFilled, freed-IsSoundFor, entry_of}
use go_yaml.TokenArena.Sound.{IsSound}
use go_yaml.Base.{
  ℕ, ◌+◌, ◌-◌, ◌/◌, ◌≤◌, ◌<◌, true, false, List, [], ◌∷◌, ltb, ◌==◌, if◌then◌else◌, ◌||◌, ◌≡◌, refl,
  arith, inl, inr, Bool-cases, ==-self,
}

module _ {ℓ} {A : Type ℓ} where
  -- A chunk that a save holds goes to the saved list.
  kept-IsSound :
      (a : TokenArena A) {added : List A} (c : ℕ)
      → IsSound a added
      → 0 < times c a.live
      → is_head a.head c ≡ false
      → (a.chunks c).base + (a.chunks c).pos ≤ a.tail
      → IsSound
          (record a {
            live = unlink c a.live;
            saved = push_back a.saved c;
            chunks = update a.chunks c (record (a.chunks c) { on_saved = true });
          })
          added
  kept-IsSound a c ok l h t = record {
    size_pos = ok.size_pos;
    next_is = ok.next_is;
    places = λ d. ground (arith, times-push d a.saved c, times-unlink d c a.live, ok.places d);
    flags = λ d. ground (arith, times-push d a.saved c, ok.flags d, ok.places c);
    rooms = λ d m. ground (arith, ok.rooms d m);
    filled = λ d m f. elim (Bool-cases (d == c)) [
      | inl y ↦
          rw (same y, ==-self c)
            (alike-IsFilled (ok.filled c (ground (arith, m, same y)) (ground (arith, f, same y)))
              refl refl refl)
      | inr n ↦ rw n (ok.filled d m f)
    ];
    indexed = λ k d e. ground (arith, ok.indexed k d e);
    head_is = λ g e. ground (arith, ok.head_is g e, e);
    start = ok.start;
    passed = λ d s. ground (arith, ok.passed d);
    covered = λ s u v.
        let (d, m, f, low, high) = ok.covered s u v in
        (d, m, f, ground (arith, low), ground (arith, high));
  }

  live-retire :
      (a : TokenArena A) (c d : ℕ) → times d (retire a c).live ≡ times d a.live - one (c == d)
  unfolding retire free_chunk
  live-retire a c d = elim (Bool-cases (ltb 0 (a.chunks c).saves)) [
    | inl y ↦ rw (retire, y) (times-unlink d c a.live)
    | inr n ↦ rw (retire, n) (times-unlink d c a.live)
  ]

  retire-IsSound :
      (a : TokenArena A) {added : List A} (c : ℕ)
      → IsSound a added
      → 0 < times c a.live
      → is_head a.head c ≡ false
      → (a.chunks c).base + (a.chunks c).pos ≤ a.tail
      → IsSound (retire a c) added
  unfolding retire free_chunk
  retire-IsSound a c ok l h t =
      let unsaved : (a.chunks c).on_saved ≡ false = ground (arith, ok.flags c, ok.places c) in
      let m : c < a.made = ground (arith, ok.places c) in
      let f : times c a.free ≡ 0 = ground (arith, ok.places c) in
      elim (Bool-cases (ltb 0 (a.chunks c).saves)) [
        | inl y ↦ rw (retire, y) (kept-IsSound a c ok l h t)
        | inr n ↦
            rw (retire, n)
              (freed-IsSoundFor a.chunks (unlink c a.live) a.saved
                ((a.chunks c).base / a.chunk_size) c ok
                (λ d. ground (arith, times-unlink d c a.live)) ok.flags (λ d o. refl) unsaved
                (ok.rooms c m) (entry_of a c ok m f) (λ e. absurd (ground (arith, h, e))) t)
      ]

  pub sweep_from-IsSound :
      (cs : List ℕ) (a : TokenArena A) {added : List A}
      → IsSound a added
      → ((d : ℕ) → times d cs ≤ times d a.live)
      → IsSound (sweep_from cs a) added
  unfolding sweep_from times
  sweep_from-IsSound [] a ok l = ok
  sweep_from-IsSound (c ∷ cs) a {added} ok l =
      elim (Bool-cases (is_head a.head c || ltb a.tail ((a.chunks c).base + (a.chunks c).pos))) [
        | inl y ↦ rw y ok
        | inr n ↦
            let on : 0 < times c a.live = ground (arith, l c) in
            rw n (
              sweep_from-IsSound cs (retire a c)
                (retire-IsSound a c ok on (ground (arith, n)) (ground (arith, n)))
                (λ d. ground (arith, live-retire a c d, l d)))
      ]

  sweep-IsSound : (a : TokenArena A) {added : List A} → IsSound a added → IsSound (sweep a) added
  unfolding sweep
  sweep-IsSound a ok = elim (Bool-cases (ltb 0 a.frozen)) [
    | inl y ↦ rw (sweep, y) ok
    | inr n ↦ rw (sweep, n) (sweep_from-IsSound a.live a ok (λ d. omega arith))
  ]

  later_tail :
      (a : TokenArena A) {added : List A} (seq : ℕ)
      → IsSound a added
      → a.tail ≤ seq
      → IsSound (record a { tail = seq }) added
  later_tail a seq ok h = record {
    size_pos = ok.size_pos;
    next_is = ok.next_is;
    places = ok.places;
    flags = ok.flags;
    rooms = ok.rooms;
    filled = ok.filled;
    indexed = ok.indexed;
    head_is = ok.head_is;
    start = ok.start;
    passed = λ c s. omega (arith, ok.passed c s, h);
    covered = λ s u v. ok.covered s (omega (arith, u, h)) v;
  }

  pub set_tail-IsSound :
      (a : TokenArena A) {added : List A} (seq : ℕ)
      → IsSound a added
      → IsSound (set_tail a seq) added
  unfolding set_tail
  set_tail-IsSound a seq ok =
      let later = if ltb a.tail seq then seq else a.tail in
      sweep-IsSound (record a { tail = later }) (later_tail a later ok (ground arith))

  pub unpin-IsSound :
      (a : TokenArena A) {added : List A} → IsSound a added → IsSound (unpin a) added
  unfolding unpin
  unpin-IsSound a ok = elim (Bool-cases (a.frozen == 0)) [
    | inl y ↦ rw (unpin, y) ok
    | inr n ↦ rw (unpin, n) (sweep-IsSound (record a { frozen = a.frozen - 1 }) ok)
  ]
