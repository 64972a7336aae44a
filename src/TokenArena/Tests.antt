-- ===== src/TokenArena/Tests.antt =====
-- Runs of the arena of internal/tokenarena/tokenarena.go, on chunks of two tokens.
use go_yaml.Base.{ℕ, ◌<◌, some, none, List, [], ◌∷◌, get_elem?, ◌≡◌, ◌⊎◌, refl, arith}
use go_yaml.TokenArena.{add, put_entry, size_for, new, at, all, save, set_tail, generation_of}
use go_yaml.TokenArena.Counts.{times}
use go_yaml.TokenArena.Reclaim.{set_tail-reclaims}
use go_yaml.TokenArena.Sound.{IsSound}
use go_yaml.TokenArena.Trace.{
  Call, adds, sets_tail, run, added_since, run-new-IsSound, run-at, run-saved, all_keep,
}

abbrev five : List (Call ℕ)
five = adds 10 ∷ adds 11 ∷ adds 12 ∷ adds 13 ∷ adds 14 ∷ []

abbrev later : List (Call ℕ)
later = sets_tail 4 ∷ adds 15 ∷ adds 16 ∷ adds 17 ∷ []

sizes : (size_for 0 ≡ 32) × (size_for 3200 ≡ 100) × (size_for 1000000 ≡ 256)
unfolding size_for
sizes = (refl, refl, refl)

runs :
    let a = run 0 (new 2) five in
    let b = run 0 (save a 1 1) later in
    (all a.chunks a.live ≡ 10 ∷ 11 ∷ 12 ∷ 13 ∷ 14 ∷ [])
    × (at a 3 ≡ some 13)
    × (at b 0 ≡ some 10)
    × (at b 3 ≡ none)
    × (at b 7 ≡ some 17)
    × (b.live ≡ 2 ∷ 1 ∷ [])
    × (b.saved ≡ 0 ∷ [])
    × (generation_of b 7 ≡ some 1)
unfolding run all at save new generation_of add put_entry set_tail
runs = (refl, refl, refl, refl, refl, refl, refl, refl)

run-new-IsSound_example : IsSound (run 0 (new 2) five) (added_since [] five)
run-new-IsSound_example = run-new-IsSound 0 2 five

run-at_example :
    let a = run 0 (new 2) five in
    (at a 3 ≡ get_elem? (added_since [] five) 3) ⊎ ((at a 3 ≡ none) × (3 < a.tail))
run-at_example = run-at 0 2 five 3

run-saved_example : at (run 0 (save (run 0 (new 2) five) 1 1) later) 1 ≡ some 11
unfolding run at all_keep new add put_entry
run-saved_example = run-saved 0 2 five later 1 1 1 refl (omega arith) (omega arith) refl

set_tail-reclaims_example : times 0 (set_tail (run 0 (new 2) five) 3).free ≡ 1
unfolding run new set_tail add
set_tail-reclaims_example =
    set_tail-reclaims 0 2 five 3 0 refl (omega arith) refl (omega arith) refl
