-- ===== src/Arena/Tests.antt =====
-- A run of chunks released and taken from: parser/arena/run.go.
use go_yaml.Base.{
  ℕ, zero, suc, Bool, true, false, some, none, [], ◌∷◌, ltb, ◌≡◌, refl, arith, get_elem?,
}
use go_yaml.Arena.{Chunk, Run, Cell, release, take_cell, taken}
use go_yaml.Arena.Live.{IsTrue, AreTrue, IsLive, Stands, release-Keeps, taken-IsTrue}

abbrev older : Chunk
older = record { name = 0; capacity = 2; seqs = 1 ∷ 2 ∷ []; checked = 0; unknown = false }

abbrev newer : Chunk
newer = record { name = 1; capacity = 2; seqs = 3 ∷ 5 ∷ []; checked = 0; unknown = false }

abbrev two_full : Run
two_full = record { filling = none; full = older ∷ newer ∷ []; free = []; size = 2; made = 2 }

-- the descent has read up to the token at 4
abbrev is_read : ℕ → Bool
is_read s = ltb s 4

-- the chunk of the two read tokens is filled again
refilled : (take_cell (release two_full is_read) 6).1 ≡ (0, 0)
unfolding take_cell release
refilled = refl

older-IsTrue : IsTrue is_read older
older-IsTrue = record {
  behind = λ i s h e. absurd (omega arith);
  marked = marked;
  inside = omega arith;
}
  where
    marked : (i : ℕ) → get_elem? older.seqs i ≡ some 0 → older.unknown ≡ true
    marked zero e = ground arith
    marked (suc zero) e = ground arith
    marked (suc (suc i)) e = cc

newer-IsTrue : IsTrue is_read newer
newer-IsTrue = record {
  behind = λ i s h e. absurd (omega arith);
  marked = marked;
  inside = omega arith;
}
  where
    marked : (i : ℕ) → get_elem? newer.seqs i ≡ some 0 → newer.unknown ≡ true
    marked zero e = ground arith
    marked (suc zero) e = ground arith
    marked (suc (suc i)) e = cc

release-Keeps_example :
    AreTrue is_read (release two_full is_read).full
    × ((cell : Cell) (s : ℕ)
        → IsLive is_read s
        → Stands two_full.full cell s
        → Stands (release two_full is_read).full cell s)
release-Keeps_example = release-Keeps two_full is_read (older-IsTrue, (newer-IsTrue, tt))

taken-IsTrue_example : IsTrue is_read (taken newer 0)
taken-IsTrue_example = taken-IsTrue is_read newer 0 newer-IsTrue
