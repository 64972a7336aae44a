-- ===== src/TokenArena/Add.antt =====
-- `Add` of internal/tokenarena/tokenarena.go, in the arena's invariant.
use go_yaml.TokenArena.{
  Chunk, TokenArena, update, put_entry, fresh_chunk, filled_again, grow_from, grow, room, written,
  add, push_back,
}
use go_yaml.TokenArena.Counts.{same, times, one, times-push, entry-put_entry}
use go_yaml.TokenArena.Sound.{IsFilled, IsSoundFor, IsSound}
use go_yaml.Base.{
  ℕ, suc, ◌+◌, ◌*◌, ◌/◌, ◌≤◌, ◌<◌, false, Option, some, List, [], ◌∷◌, ◌++◌, ltb, ◌==◌, get_elem?,
  set, length, length-replicate, length-append, length-set, get_elem?-append, get_elem?-last,
  get_elem?-set_same, get_elem?-set_before, ◌≡◌, refl, sym, ap, ◌∙◌, arith, inl, inr, Option-cases,
  Bool-cases, ==-self,
}
use native.Mathlib.Nat.{mul-div_cancel}

module _ {ℓ} {A : Type ℓ} where
  -- a chunk of the index is found there when another is put in
  put_entry-IsFilled :
      {size : ℕ} {by_index : List (Option ℕ)} {next : ℕ} {added : List A} {d : ℕ} {k : Chunk A}
      (i c : ℕ) (f : IsFilled size by_index next added d k)
      → (f.number == i) ≡ false
      → IsFilled size (put_entry by_index i c) next added d k
  put_entry-IsFilled {by_index = by_index} i c f n = record {
    within = f.within;
    ahead = f.ahead;
    number = f.number;
    numbered = f.numbered;
    found = rw (entry-put_entry by_index i c f.number, n) f.found;
    holds = f.holds;
  }

  -- the chunk that is put in, which holds nothing yet
  fresh-IsFilled :
      {size : ℕ} (by_index : List (Option ℕ)) {next : ℕ} {added : List A} {k : Chunk A} (i c : ℕ)
      → k.base ≡ next
      → k.pos ≡ 0
      → i * size ≡ next
      → IsFilled size (put_entry by_index i c) next added c k
  fresh-IsFilled by_index i c b p m = record {
    within = omega (arith, p);
    ahead = omega (arith, b, p);
    number = i;
    numbered = b ∙ sym m;
    found = rw (entry-put_entry by_index i c i) (ground arith);
    holds = λ j h. absurd (ground (arith, p));
  }

  -- A chunk that stood on no list, or on the free list, becomes the head.
  headed-IsSoundFor :
      {size : ℕ} {chunks : ℕ → Chunk A} {made : ℕ} {live free saved : List ℕ} {head : Option ℕ}
      {next tail : ℕ} {by_index : List (Option ℕ)} {added : List A} (made' : ℕ) (free' : List ℕ)
      (c : ℕ) (v : Chunk A)
      → IsSoundFor size chunks made live free saved head next next tail by_index added
      → ((d : ℕ) → times d live + times d saved + times d free' + one (c == d) ≡ one (ltb d made'))
      → ((d : ℕ) → (d == c) ≡ false → (d < made' → d < made) × (times d free' ≡ times d free))
      → made ≤ made'
      → (c < made → ¬ (times c free ≡ 0))
      → c < made'
      → next / size * size ≡ next
      → v.base ≡ next
      → v.pos ≡ 0
      → v.on_saved ≡ false
      → length v.buf ≡ size
      → IsSoundFor size
          (update chunks c v)
          made'
          (push_back live c)
          free'
          saved
          (some c)
          next
          (suc next)
          tail
          (put_entry by_index (next / size) c)
          added
  headed-IsSoundFor {size} {chunks} {made} {live} {free} {saved} {head} {next} {tail} {by_index}
        made' free' c v ok places others more outside inside multiple b p o l =
      record {
        size_pos = ok.size_pos;
        next_is = ok.next_is;
        places = λ d. omega (arith, times-push d live c, places d);
        flags = λ d. ground (arith, ok.flags d, places d);
        rooms = λ d h. ground (arith, ok.rooms d, others d);
        filled = λ d h f. elim (Bool-cases (d == c)) [
          | inl y ↦ rw (same y, ==-self c) (fresh-IsFilled by_index (next / size) c b p multiple)
          | inr n ↦
              let g = ok.filled d ((others d n).0 h) (sym (others d n).1 ∙ f) in
              let below = ok.indexed g.number d g.found in
              rw n (put_entry-IsFilled (next / size) c g (ground (arith, multiple, below)))
        ];
        indexed = λ k d e.
            let e = sym (entry-put_entry by_index (next / size) c k) ∙ e in
            elim (Bool-cases (k == next / size)) [
              | inl y ↦
                  let m : k * size ≡ next = ap (λ x. x * size) (same y) ∙ multiple in
                  ground (arith, e, y, b, m, places c)
              | inr n ↦ ground (arith, e, n, ok.indexed k d, others d, outside)
            ];
        head_is = λ h e. ground (arith, e, places c, b, p, o);
        start = λ e. absurd (ground arith);
        passed = λ d e. ground (arith, ok.passed d);
        covered = λ s t u.
            let (d, m, f, low, high) = ok.covered s t u in
            let n : (d == c) ≡ false = ground (arith, outside) in
            let o = others d n in
            (
              d,
              ground (arith, m),
              ground (arith, f, o),
              ground (arith, low, n),
              ground (arith, high, n),
            );
      }

  -- An arena whose head has room for the next token, with its next number and its tail.
  pub record HasRoom (next tail : ℕ) (b : TokenArena A) (added : List A) : Type ℓ where
    pub first : ℕ
    pub first_is : b.head ≡ some first
    pub free_room : (b.chunks first).pos < b.chunk_size
    pub same_next : b.next ≡ next
    pub same_tail : b.tail ≡ tail
    pub sound :
        IsSoundFor b.chunk_size b.chunks b.made b.live b.free b.saved b.head b.next
          (suc b.next)
          b.tail
          b.by_index
          added

  next_multiple :
      (a : TokenArena A) {added : List A} (n : ℕ)
      → IsSound a added
      → a.next ≡ n * a.chunk_size
      → a.next / a.chunk_size * a.chunk_size ≡ a.next
  next_multiple a n ok e =
      ap (λ q. q / a.chunk_size * a.chunk_size) e
      ∙ ap (λ q. q * a.chunk_size) (mul-div_cancel n ok.size_pos)
      ∙ sym e

  grow_from-HasRoom :
      (blank : A) (a : TokenArena A) {added : List A}
      → IsSound a added
      → a.next / a.chunk_size * a.chunk_size ≡ a.next
      → (free : List ℕ) → a.free ≡ free
      → HasRoom a.next a.tail (grow_from blank a free) added
  unfolding grow_from times
  grow_from-HasRoom blank a ok m [] e =
      let none_free : (d : ℕ) → times d a.free ≡ 0 = λ d. ap (times d) e in
      record {
        first = a.made;
        first_is = refl;
        free_room = ground (arith, ok.size_pos);
        same_next = refl;
        same_tail = refl;
        sound =
            headed-IsSoundFor (suc a.made) a.free a.made (fresh_chunk a.chunk_size blank a.next) ok
              (λ d. ground (arith, ok.places d)) (λ d n. (λ h. ground arith, refl)) (omega arith)
              (λ h. absurd (omega arith)) (omega arith) m refl refl refl
              (length-replicate a.chunk_size blank);
      }
  grow_from-HasRoom blank a ok m (c ∷ free) e =
      let freed : (d : ℕ) → times d a.free ≡ one (c == d) + times d free = λ d. ap (times d) e in
      let inside : c < a.made = ground (arith, freed c, ok.places c) in
      record {
        first = c;
        first_is = refl;
        free_room = ground (arith, ok.size_pos);
        same_next = refl;
        same_tail = refl;
        sound =
            headed-IsSoundFor a.made free c (filled_again blank a.next (a.chunks c)) ok
              (λ d. omega (arith, freed d, ok.places d)) (λ d n. (λ h. h, ground (arith, freed d)))
              (omega arith) (λ h z. ground (arith, freed c)) inside m refl refl refl
              (length-replicate (length (a.chunks c).buf) blank ∙ ok.rooms c inside);
      }

  wider :
      (a : TokenArena A) {added : List A}
      → IsSound a added
      → IsSoundFor a.chunk_size a.chunks a.made a.live a.free a.saved a.head a.next
          (suc a.next)
          a.tail
          a.by_index
          added
  wider a ok = record {
    size_pos = ok.size_pos;
    next_is = ok.next_is;
    places = ok.places;
    flags = ok.flags;
    rooms = ok.rooms;
    filled = ok.filled;
    indexed = λ k c i. ground (arith, ok.indexed k c i);
    head_is = ok.head_is;
    start = ok.start;
    passed = ok.passed;
    covered = ok.covered;
  }

  room-HasRoom :
      (blank : A) (a : TokenArena A) {added : List A}
      → IsSound a added
      → HasRoom a.next a.tail (room blank a) added
  unfolding room grow
  room-HasRoom blank a ok = elim (Option-cases a.head) [
    | inl e ↦
        rw (room, e)
          (grow_from-HasRoom blank a ok (next_multiple a 0 ok (ground (arith, ok.start e))) a.free
            refl)
    | inr (h, e) ↦
        let (made, held, ends, unsaved) = ok.head_is h e in
        let f = ok.filled h made held in
        elim (Bool-cases ((a.chunks h).pos == length (a.chunks h).buf)) [
          | inl full ↦
              rw (room, e, full)
                (grow_from-HasRoom blank a ok
                  (next_multiple a (suc f.number) ok
                    (ground (arith, full, ok.rooms h made, f.numbered)))
                  a.free refl)
          | inr part ↦
              rw (room, e, part)
                (record {
                  first = h;
                  first_is = e;
                  free_room = ground (arith, part, ok.rooms h made, f.within);
                  same_next = refl;
                  same_tail = refl;
                  sound = wider a ok;
                })
        ]
  ]

  append-IsFilled :
      {size : ℕ} {by_index : List (Option ℕ)} {next : ℕ} {added : List A} {d : ℕ} {k : Chunk A}
      (v : A) (f : IsFilled size by_index next added d k)
      → next ≡ length added
      → IsFilled size by_index (suc next) (added ++ v ∷ []) d k
  append-IsFilled {added = added} {k = k} v f n = record {
    within = f.within;
    ahead = omega (arith, f.ahead);
    number = f.number;
    numbered = f.numbered;
    found = f.found;
    holds = λ i h.
        f.holds i h
        ∙ sym (get_elem?-append added (v ∷ []) (k.base + i) (omega (arith, f.ahead, n)));
  }

  written-IsFilled :
      {size : ℕ} {by_index : List (Option ℕ)} {next : ℕ} {added : List A} {d : ℕ} {k : Chunk A}
      (v : A) (f : IsFilled size by_index next added d k)
      → next ≡ length added
      → k.base + k.pos ≡ next
      → k.pos < size
      → length k.buf ≡ size
      → IsFilled size by_index
          (suc next)
          (added ++ v ∷ [])
          d
          (record k { buf = set k.buf k.pos v; pos = suc k.pos })
  written-IsFilled {added = added} {k = k} v f n e p l = record {
    within = omega (arith, p);
    ahead = omega (arith, e);
    number = f.number;
    numbered = f.numbered;
    found = f.found;
    holds = λ i h. elim (Bool-cases (i == k.pos)) [
      | inl y ↦
          rw (same y, get_elem?-set_same k.buf k.pos v (omega (arith, p, l)))
            (sym (get_elem?-last added v) ∙ ap (get_elem? (added ++ v ∷ [])) (omega (arith, n, e)))
      | inr o ↦
          let below : i < k.pos = ground (arith, h, o) in
          get_elem?-set_before k.buf k.pos i v below ∙ (append-IsFilled v f n).holds i below
    ];
  }

  written-IsSound :
      (b : TokenArena A) {next tail : ℕ} {added : List A} (v : A) (r : HasRoom next tail b added)
      → IsSound (written b v (some r.first)) (added ++ v ∷ [])
  written-IsSound b {added = added} v r =
      let (made, held, ends, unsaved) = r.sound.head_is r.first r.first_is in
      let ok = r.sound in
      let h = r.first in
      record {
        size_pos = ok.size_pos;
        next_is = omega (arith, ok.next_is, length-append added (v ∷ []));
        places = ok.places;
        flags = λ d. ground (arith, ok.flags d, ok.flags h);
        rooms = λ d m.
            ground
              (arith, ok.rooms d m, ok.rooms h, length-set (b.chunks h).buf (b.chunks h).pos v);
        filled = λ d m f. elim (Bool-cases (d == h)) [
          | inl y ↦
              rw (same y, ==-self h)
                (written-IsFilled v (ok.filled h made held) ok.next_is ends r.free_room
                  (ok.rooms h made))
          | inr n ↦ rw n (append-IsFilled v (ok.filled d m f) ok.next_is)
        ];
        indexed = λ k d e. ground (arith, ok.indexed k d e, ok.indexed k h);
        head_is = λ g e. ground (arith, e, made, held, ends, unsaved);
        start = λ e. absurd (ground (arith, r.first_is, e));
        passed = λ d e. ground (arith, ok.passed d, unsaved);
        covered = λ s t u. elim (Bool-cases (s == b.next)) [
          | inl y ↦ (h, made, held, ground (arith, y, ends), ground (arith, y, ends))
          | inr n ↦
              let (d, m, f, low, high) = ok.covered s t (ground (arith, n, u)) in
              (d, m, f, ground (arith, low), ground (arith, high))
        ];
      }

  pub add-IsSound :
      (blank : A) (a : TokenArena A) {added : List A} (v : A)
      → IsSound a added
      → IsSound (add blank a v) (added ++ v ∷ [])
  unfolding add
  add-IsSound blank a v ok =
      let r = room-HasRoom blank a ok in rw (add, r.first_is) (written-IsSound (room blank a) v r)
