-- ===== src/Key/Tests.antt =====
-- The key set at concrete documents: parser/key/set.go.
use go_yaml.Base.{
  ℕ, zero, suc, ◌≤◌, ◌≡◌, refl, arith, true, false, some, none, List, [], ◌∷◌, codes, is_some, inl,
  inr, equal,
}
use go_yaml.Token.Position.{Position, at}
use go_yaml.Key.Set.{KeySet, fresh, record_key, close, holds, use_json_names, empty, find, Index}
use go_yaml.Key.Ledger.{Ledger, OpenMap, record_once}
use go_yaml.Key.Ledger.Notes.{spec_notes, record_once-notes}
use go_yaml.Key.Set.Spec.{Frame, spec_record, find_name, filters, entries_of, Kinds, Distinct}
use go_yaml.Key.Set.State.{Represents}
use go_yaml.Key.Set.Refine.{Records, record_key-Records}
use go_yaml.Key.Set.Close.{close-Represents}
use go_yaml.Key.Set.Holds.{holds_correct, holds_misses}
use go_yaml.Key.Set.Trace.{Use, opens, uses, closes, run, run-from_empty}

abbrev place_of : ℕ → Position
place_of line = at line 1 0 0

-- "7: a", a mapping under "x" with a "7" of its own, then "\"7\": b" in the outer mapping
abbrev document : List Use
document =
    opens
    ∷ uses (codes "7") 1 (place_of 1)
    ∷ uses (codes "x") 2 (place_of 2)
    ∷ opens
    ∷ uses (codes "7") 1 (place_of 3)
    ∷ uses (codes "7") 1 (place_of 4)
    ∷ closes
    ∷ uses (codes "7") 2 (place_of 5)
    ∷ closes
    ∷ []

run-from_empty_example :
    run (use_json_names empty true) [] document
    ≡ some (fresh ∷ fresh ∷ fresh ∷ (place_of 3, false, true) ∷ (place_of 1, true, true) ∷ [])
unfolding equal
run-from_empty_example = run-from_empty true document (omega arith) (omega arith)

yaml_answers :
    run (use_json_names empty false) [] document
    ≡ some (fresh ∷ fresh ∷ fresh ∷ (place_of 3, false, true) ∷ fresh ∷ [])
unfolding equal
yaml_answers = run-from_empty false document (omega arith) (omega arith)

-- one mapping with the keys "a" and "b"
abbrev two : Frame
two =
    (record { text = codes "a"; kind = 2; at = place_of 1 })
    ∷ (record { text = codes "b"; kind = 2; at = place_of 2 })
    ∷ []

abbrev of_two : KeySet
of_two = record { filter = filters two; entries = entries_of two; index = none; json_names = true }

of_two-Represents : Represents true of_two (two ∷ [])
unfolding find equal
of_two-Represents = record {
  filter_is = refl;
  entries_is = refl;
  json_is = refl;
  kinds = (omega arith, (omega arith, tt));
  small = omega arith;
  distinct = (λ _. (refl, (refl, tt)), tt);
  top = (inl (λ r e. refl, omega arith), tt);
  owned = λ b nb r e. refl;
}

record_key-Records_example :
    Records true []
      (spec_record true two (codes "a") 1 (place_of 3))
      (record_key of_two 0 (codes "a") 1 (place_of 3))
record_key-Records_example =
    record_key-Records true two [] (codes "a") 1 (place_of 3) (omega arith) of_two of_two-Represents
      (omega arith)

close-Represents_example : Represents true (close of_two 0) []
close-Represents_example = close-Represents true of_two two [] of_two-Represents

holds_correct_example : holds of_two 0 (codes "b") ≡ true
unfolding equal
holds_correct_example =
    holds_correct true of_two two [] of_two-Represents (codes "b") (inr (omega arith))

-- keys of one byte each, the largest first
abbrev many : ℕ → Frame
many zero = []
many (suc n) = (record { text = n ∷ []; kind = 2; at = place_of n }) ∷ many n

many-no_name : (n m : ℕ) → n ≤ m → is_some (find_name (m ∷ []) (many n)) ≡ false
unfolding equal
many-no_name zero m h = refl
many-no_name (suc n) m h = ground (arith, many-no_name n m)

many-Distinct : (n : ℕ) → Distinct (many n)
many-Distinct zero = tt
many-Distinct (suc n) = (many-no_name n n (omega arith), many-Distinct n)

many-Kinds : (n : ℕ) → Kinds (many n)
many-Kinds zero = tt
many-Kinds (suc n) = (omega arith, many-Kinds n)

many_index : Index
many_index = λ r. none

abbrev of_many : KeySet
of_many = record {
  filter = filters (many 64);
  entries = entries_of (many 64);
  index = some many_index;
  json_names = true;
}

of_many-Represents : Represents true of_many (many 64 ∷ [])
unfolding find many_index
of_many-Represents = record {
  filter_is = refl;
  entries_is = refl;
  json_is = refl;
  kinds = many-Kinds 64;
  small = omega arith;
  distinct = (λ _. many-Distinct 64, tt);
  top = (inl (λ r e. refl, omega arith), tt);
  owned = λ b nb r e. refl;
}

holds_misses_example : holds of_many 0 (63 ∷ []) ≡ false
unfolding find many_index
holds_misses_example =
    holds_misses true of_many (many 64) [] of_many-Represents (63 ∷ []) many_index refl refl refl
      (λ r e. refl)

abbrev mapping : OpenMap
mapping = record { node = 7; entry_of = none; entry_index = 0 }

abbrev ledger : Ledger
ledger = record {
  keys = of_two;
  open_maps = mapping ∷ [];
  built_keys = (λ s. none) ∷ [];
  allow_repeats = false;
  ordered_maps = [];
  pending = 0;
  pending_index = 0;
  expect_ordered = false;
  notes = [];
}

-- "a" as another node: one JSON name twice
record_once-notes_example :
    (l' : Ledger) × (record_once ledger 0 (codes "a") 1 (place_of 3) ≡ some l')
    × (l'.notes ≡ spec_notes 7 false (codes "a") (place_of 3) (some (place_of 1, true, true)))
    × Represents true l'.keys (two ∷ [])
unfolding equal
record_once-notes_example =
    record_once-notes true two [] (codes "a") 1 (place_of 3) ledger mapping [] refl refl
      of_two-Represents (omega arith) (omega arith)
