-- ===== src/TokenArena/Free.antt =====
-- Chunks leaving the live and the saved list, in the arena's invariant:
-- internal/tokenarena/tokenarena.go.
use go_yaml.TokenArena.{Chunk, TokenArena, entry, cleared, push_back}
use go_yaml.TokenArena.Counts.{same, times, one, times-push, entry-cleared}
use go_yaml.TokenArena.Sound.{IsFilled, IsSoundFor, IsSound}
use go_yaml.Base.{
  ℕ, ◌+◌, ◌*◌, ◌/◌, ◌≤◌, ◌<◌, false, Option, some, List, ◌==◌, length, ◌≡◌, sym, ap, ◌∙◌, arith,
  inl, inr, Bool-cases,
}
use native.Mathlib.Nat.{mul-div_cancel, eq_of_mul-eq-mul_right}

one_place : {size k i : ℕ} → 0 < size → k * size ≡ i * size → k ≡ i
one_place {size} {k} {i} p e = eq_of_mul-eq-mul_right size p k i e

cleared-entry :
    (l : List (Option ℕ)) (i c k d : ℕ)
    → entry l i ≡ some c
    → k ≡ i
    → ¬ (entry (cleared l i c) k ≡ some d)
cleared-entry l i c k d e y f = absurd (ground (arith, entry-cleared l i c k e, f, y))

kept_entry :
    (l : List (Option ℕ)) (i c k d : ℕ)
    → entry l i ≡ some c
    → (k == i) ≡ false
    → entry (cleared l i c) k ≡ some d
    → entry l k ≡ some d
kept_entry l i c k d e n f = ground (arith, entry-cleared l i c k e, f, n)

module _ {ℓ} {A : Type ℓ} where
  -- a chunk in hand keeps its place in the index when another leaves it
  cleared-IsFilled :
      {size : ℕ} {by_index : List (Option ℕ)} {next : ℕ} {added : List A} {d : ℕ} {k : Chunk A}
      (i c : ℕ) (f : IsFilled size by_index next added d k)
      → entry by_index i ≡ some c
      → (d == c) ≡ false
      → IsFilled size (cleared by_index i c) next added d k
  cleared-IsFilled {by_index = by_index} {d = d} i c f e n =
      let other : (f.number == i) ≡ false = elim (Bool-cases (f.number == i)) [
        | inl y ↦ absurd (ground (arith, n, sym f.found ∙ ap (entry by_index) (same y) ∙ e))
        | inr o ↦ o
      ] in
      record {
        within = f.within;
        ahead = f.ahead;
        number = f.number;
        numbered = f.numbered;
        found = rw (entry-cleared by_index i c f.number e, other) f.found;
        holds = f.holds;
      }

  pub alike-IsFilled :
      {size : ℕ} {by_index : List (Option ℕ)} {next : ℕ} {added : List A} {d : ℕ} {k l : Chunk A}
      → IsFilled size by_index next added d k
      → l.base ≡ k.base
      → l.pos ≡ k.pos
      → l.buf ≡ k.buf
      → IsFilled size by_index next added d l
  alike-IsFilled {added = added} {k = k} f b p u = record {
    within = rw p f.within;
    ahead = rw (b, p) f.ahead;
    number = f.number;
    numbered = b ∙ f.numbered;
    found = f.found;
    holds = λ i h. rw (b, u) (f.holds i (omega (arith, h, p)));
  }

  -- the numbers of saves are free to change
  pub alike-IsSoundFor :
      {size : ℕ} {chunks : ℕ → Chunk A} {made : ℕ} {live free saved : List ℕ} {head : Option ℕ}
      {next tail : ℕ} {by_index : List (Option ℕ)} {added : List A} (chunks' : ℕ → Chunk A)
      → IsSoundFor size chunks made live free saved head next next tail by_index added
      → ((d : ℕ)
          → ((chunks' d).base ≡ (chunks d).base)
            × ((chunks' d).pos ≡ (chunks d).pos)
            × ((chunks' d).on_saved ≡ (chunks d).on_saved)
            × ((chunks' d).buf ≡ (chunks d).buf))
      → IsSoundFor size chunks' made live free saved head next next tail by_index added
  alike-IsSoundFor chunks' ok like = record {
    size_pos = ok.size_pos;
    next_is = ok.next_is;
    places = ok.places;
    flags = λ d. rw (like d).2 (ok.flags d);
    rooms = λ d m. rw (like d).3 (ok.rooms d m);
    filled = λ d m f. alike-IsFilled (ok.filled d m f) (like d).0 (like d).1 (like d).3;
    indexed = λ k d e. rw (like d).0 (ok.indexed k d e);
    head_is = λ g e. rw ((like g).0, (like g).1, (like g).2) (ok.head_is g e);
    start = ok.start;
    passed = λ d s. rw ((like d).0, (like d).1) (ok.passed d (sym (like d).2 ∙ s));
    covered = λ s u v.
        let (d, m, f, low, high) = ok.covered s u v in
        (d, m, f, rw (like d).0 low, rw ((like d).0, (like d).1) high);
  }

  -- A chunk that is not the head, and that the tail has passed, goes to the free list.
  pub freed-IsSoundFor :
      {size : ℕ} {chunks : ℕ → Chunk A} {made : ℕ} {live free saved : List ℕ} {head : Option ℕ}
      {next tail : ℕ} {by_index : List (Option ℕ)} {added : List A} (chunks' : ℕ → Chunk A)
      (live' saved' : List ℕ) (i c : ℕ)
      → IsSoundFor size chunks made live free saved head next next tail by_index added
      → ((d : ℕ) → times d live' + times d saved' + one (c == d) ≡ times d live + times d saved)
      → ((d : ℕ) → times d saved' ≡ one (chunks' d).on_saved)
      → ((d : ℕ) → (d == c) ≡ false → chunks' d ≡ chunks d)
      → (chunks' c).on_saved ≡ false
      → length (chunks' c).buf ≡ size
      → entry by_index i ≡ some c
      → ¬ (head ≡ some c)
      → (chunks c).base + (chunks c).pos ≤ tail
      → IsSoundFor size chunks' made live'
          (push_back free c)
          saved'
          head
          next
          next
          tail
          (cleared by_index i c)
          added
  freed-IsSoundFor {size} {chunks} {made} {live} {free} {saved} {head} {next} {tail} {by_index}
        chunks' live' saved' i c ok places flags others o l e h t =
      record {
        size_pos = ok.size_pos;
        next_is = ok.next_is;
        places = λ d. omega (arith, times-push d free c, places d, ok.places d);
        flags = flags;
        rooms = λ d m. elim (Bool-cases (d == c)) [
          | inl y ↦ ap (λ x. length (chunks' x).buf) (same y) ∙ l
          | inr n ↦ rw (others d n) (ok.rooms d m)
        ];
        filled = λ d m f.
            let n : (d == c) ≡ false = ground (arith, times-push d free c) in
            rw (others d n)
              (cleared-IsFilled i c (ok.filled d m (ground (arith, times-push d free c))) e n);
        indexed = λ k d e'. elim (Bool-cases (k == i)) [
          | inl y ↦ absurd (cleared-entry by_index i c k d e (same y) e')
          | inr n ↦
              let e'' : entry by_index k ≡ some d = kept_entry by_index i c k d e n e' in
              let (m, f, b, under) = ok.indexed k d e'' in
              let (_, _, b', _) = ok.indexed i c e in
              let o : (d == c) ≡ false = elim (Bool-cases (d == c)) [
                | inl y ↦ absurd (
                    ground (
                      arith,
                      n,
                      one_place ok.size_pos (sym b ∙ ap (λ x. (chunks x).base) (same y) ∙ b'),
                    ))
                | inr o ↦ o
              ] in
              (
                m,
                ground (arith, times-push d free c, f, o),
                ap (λ x. x.base) (others d o) ∙ b,
                under,
              )
        ];
        head_is = λ g e'.
            let (m, f, b, o) = ok.head_is g e' in
            let n : (g == c) ≡ false = elim (Bool-cases (g == c)) [
              | inl y ↦ absurd (h (e' ∙ ap some (same y)))
              | inr n ↦ n
            ] in
            (m, ground (arith, times-push g free c, f, n), rw (others g n) b, rw (others g n) o);
        start = ok.start;
        passed = λ d s. elim (Bool-cases (d == c)) [
          | inl y ↦ absurd (ground (arith, sym s ∙ ap (λ x. (chunks' x).on_saved) (same y) ∙ o))
          | inr n ↦ rw (others d n) (ok.passed d (sym (ap (λ x. x.on_saved) (others d n)) ∙ s))
        ];
        covered = λ s u v.
            let (d, m, f, low, high) = ok.covered s u v in
            let n : (d == c) ≡ false = elim (Bool-cases (d == c)) [
              | inl y ↦
                  absurd
                    (omega (arith, u, high, t, ap (λ x. (chunks x).base + (chunks x).pos) (same y)))
              | inr n ↦ n
            ] in
            (
              d,
              m,
              ground (arith, times-push d free c, f, n),
              rw (others d n) low,
              rw (others d n) high,
            );
      }

  -- the entry that a chunk in hand is cleared from
  pub entry_of :
      (a : TokenArena A) {added : List A} (c : ℕ)
      → IsSound a added
      → c < a.made
      → times c a.free ≡ 0
      → entry a.by_index ((a.chunks c).base / a.chunk_size) ≡ some c
  entry_of a c ok m f =
      let g = ok.filled c m f in
      ap (entry a.by_index)
        (ap (λ b. b / a.chunk_size) g.numbered ∙ mul-div_cancel g.number ok.size_pos)
      ∙ g.found
