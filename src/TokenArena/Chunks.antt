-- ===== src/TokenArena/Chunks.antt =====
-- internal/tokenarena/tokenarena.go: chunks, the lists of them, the arena.
use go_yaml.Base.{
  ℕ, ◌/◌, Bool, false, Option, none, List, [], ◌∷◌, ◌++◌, ltb, ◌==◌, if◌then◌else◌, length,
}

unfoldable pub max : ℕ → ℕ → ℕ
max a b = if ltb a b then b else a

unfoldable pub min : ℕ → ℕ → ℕ
min a b = if ltb a b then a else b

abbrev pub min_chunk : ℕ
min_chunk = 32

abbrev pub max_chunk : ℕ
max_chunk = 256

abbrev pub bytes_per_token : ℕ
bytes_per_token = 8

unfoldable pub size_for : ℕ → ℕ
unfolding max min
size_for n = min (max (n / bytes_per_token / 4) min_chunk) max_chunk

pub record Chunk {ℓ} (A : Type ℓ) : Type ℓ where
  pub base : ℕ
  pub pos : ℕ
  pub saves : ℕ
  pub on_saved : Bool
  pub generation : ℕ
  pub buf : List A

pub record Stats : Type 0 where
  pub tokens : ℕ
  pub allocated : ℕ
  pub recycled : ℕ
  pub live_high : ℕ
  pub free_high : ℕ
  pub saved_high : ℕ
  pub pins : ℕ
  pub saves : ℕ
  pub visited : ℕ

-- `made` counts the chunks ever allocated, which numbers the next one.
pub record TokenArena {ℓ} (A : Type ℓ) : Type ℓ where
  pub chunk_size : ℕ
  pub chunks : ℕ → Chunk A
  pub made : ℕ
  pub live : List ℕ
  pub free : List ℕ
  pub saved : List ℕ
  pub head : Option ℕ
  pub next : ℕ
  pub tail : ℕ
  pub frozen : ℕ
  pub stats : Stats
  pub released : ℕ
  pub by_index : List (Option ℕ)

abbrev pub no_stats : Stats
no_stats = record {
  tokens = 0;
  allocated = 0;
  recycled = 0;
  live_high = 0;
  free_high = 0;
  saved_high = 0;
  pins = 0;
  saves = 0;
  visited = 0;
}

-- `remove` of a list
unfoldable pub unlink : ℕ → List ℕ → List ℕ
unlink c [] = []
unlink c (d ∷ ds) = let rest = unlink c ds in if d == c then ds else d ∷ rest

abbrev pub push_back : List ℕ → ℕ → List ℕ
push_back l c = l ++ c ∷ []

module _ {ℓ} {A : Type ℓ} where
  -- a write to the heap
  abbrev pub update : (ℕ → Chunk A) → ℕ → Chunk A → ℕ → Chunk A
  update chunks c v d = if d == c then v else chunks d

  abbrev pub observe : TokenArena A → TokenArena A
  observe a = record a {
    stats = record a.stats {
      live_high = max a.stats.live_high (length a.live);
      free_high = max a.stats.free_high (length a.free);
      saved_high = max a.stats.saved_high (length a.saved);
    };
  }

  unfoldable pub new : ℕ → TokenArena A
  unfolding max
  new size = record {
    chunk_size = max size 1;
    chunks =
        λ c. record { base = 0; pos = 0; saves = 0; on_saved = false; generation = 0; buf = [] };
    made = 0;
    live = [];
    free = [];
    saved = [];
    head = none;
    next = 0;
    tail = 0;
    frozen = 0;
    stats = no_stats;
    released = 0;
    by_index = [];
  }
