-- ===== src/Arena.antt =====
-- parser/arena/run.go: `Run`, which hands out cells in chunks and takes a chunk back once nothing reads
-- the tokens its cells stand for. What a cell holds is the caller's and is left out, with the zeroing
-- and the poisoning of it; a chunk has a name, so that a cell is a name and an index. `Size` at or
-- below zero is 0, and `probe.ReuseReleased` is true, as in a normal build.
pub mod Live
mod Tests
use go_yaml.Base.{
  ℕ, zero, suc, ◌+◌, Bool, true, false, not, ◌&&◌, ◌||◌, Option, none, some, List, [], ◌∷◌, ◌++◌,
  ltb, ◌==◌, if◌then◌else◌, length, drop,
}

abbrev pub min_group_block : ℕ
min_group_block = 16

-- `used` is the length of `seqs`
pub record Chunk : Type 0 where
  pub name : ℕ
  pub capacity : ℕ
  pub seqs : List ℕ
  pub checked : ℕ
  pub unknown : Bool

-- `made` counts the chunks allocated, which names the next one
pub record Run : Type 0 where
  pub filling : Option Chunk
  pub full : List Chunk
  pub free : List Chunk
  pub size : ℕ
  pub made : ℕ

abbrev pub Cell : Type 0
Cell = ℕ × ℕ

unfoldable pub block_size : Run → ℕ
block_size a = if a.size == 0 then min_group_block else a.size

-- the last of a list, and what stands in front of it
unfoldable pub pop_last : Chunk → List Chunk → List Chunk × Chunk
pop_last c [] = ([], c)
pop_last c (d ∷ ds) = let (front, e) = pop_last d ds in (c ∷ front, e)

-- `append(a.full, a.filling)` where there is one
unfoldable pub retire : Option Chunk → List Chunk → List Chunk
retire none full = full
retire (some c) full = full ++ c ∷ []

abbrev emptied : Chunk → Chunk
emptied c = record c { seqs = []; checked = 0; unknown = false }

unfoldable pub fill_from : Run → List Chunk → List Chunk → Run × Chunk
unfolding pop_last block_size
fill_from a full [] =
    let c : Chunk = record {
      name = a.made;
      capacity = block_size a;
      seqs = [];
      checked = 0;
      unknown = false;
    } in
    (record a { filling = some c; full = full; made = a.made + 1 }, c)
fill_from a full (f ∷ fs) =
    let (front, e) = pop_last f fs in
    let c = emptied e in (record a { filling = some c; full = full; free = front }, c)

-- the run with the chunk in hand that `advance` leaves, and that chunk
unfoldable pub advance : Run → Run × Chunk
unfolding fill_from retire
advance a = fill_from a (retire a.filling a.full) a.free

-- the chunk that the next cell comes from
unfoldable pub room : Run → Run × Chunk
unfolding advance
room a = elim a.filling [
  | none ↦ advance a
  | some c ↦ if length c.seqs == c.capacity then advance a else (a, c)
]

unfoldable pub taken : Chunk → ℕ → Chunk
taken c seq = record c { seqs = c.seqs ++ seq ∷ []; unknown = c.unknown || seq == 0 }

-- `Take`
unfoldable pub take_cell : Run → ℕ → Run × Cell
unfolding room taken
take_cell a seq =
    let (b, c) = room a in (record b { filling = some (taken c seq) }, (c.name, length c.seqs))

-- the loop of `finished`: how many of the cells from the cursor on are dead
unfoldable pub dead_run : (ℕ → Bool) → List ℕ → ℕ
dead_run dead [] = 0
dead_run dead (s ∷ ss) = let rest = dead_run dead ss in if dead s then suc rest else 0

unfoldable pub swept : (ℕ → Bool) → Chunk → Chunk
unfolding dead_run
swept dead c = record c { checked = c.checked + dead_run dead (drop c.checked c.seqs) }

-- the loop of `Release`: the chunks that stay, and those taken back
unfoldable pub release_full : (ℕ → Bool) → List Chunk → List Chunk → List Chunk × List Chunk
unfolding swept
release_full dead [] free = ([], free)
release_full dead (c ∷ cs) free =
    let d = swept dead c in
    let back = record d { seqs = []; checked = 0 } in
    let later = release_full dead cs free in
    let after = release_full dead cs (free ++ back ∷ []) in
    if c.unknown
    then (c ∷ later.0, later.1)
    else if not (d.checked == length d.seqs)
    then (d ∷ later.0, later.1)
    else after

unfoldable pub release : Run → (ℕ → Bool) → Run
unfolding release_full
release a dead =
    let (full, free) = release_full dead a.full a.free in record a { full = full; free = free }

-- `Recycle`
unfoldable pub recycle_full : List Chunk → List Chunk → List Chunk
recycle_full [] free = free
recycle_full (c ∷ cs) free = recycle_full cs (free ++ emptied c ∷ [])

unfoldable pub recycle : Run → Run
unfolding recycle_full retire
recycle a = record a {
  filling = none;
  full = [];
  free = recycle_full (retire a.filling a.full) a.free;
}
