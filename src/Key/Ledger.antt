-- ===== src/Key/Ledger.antt =====
-- parser/key/ledger.go: `Ledger`, which notes a repeated key on the mapping or the ordered map that holds
-- it. A node is a number; what the code appends to a node's `Duplicates` goes to the list `notes`, with
-- the node. The stacks have their innermost element first, but for the ordered maps, which are
-- addressed by index. `none` is a panic. The functions that the code returns to take an element off
-- again are operations of their own. `probe.Enabled` is false, as in a normal build.
pub mod Notes
use go_yaml.Base.{
  ℕ, zero, suc, ◌+◌, ◌-◌, Bool, true, false, not, ◌&&◌, Option, none, some, List, [], ◌∷◌, ◌++◌,
  ltb, ◌==◌, if◌then◌else◌, length, take, get_elem?, set, Bytes, equal,
}
use go_yaml.Key.Set.{KeySet, Found, record_key, close, reset, base, holds, use_json_names, empty}
use go_yaml.Token.Position.{Position}

pub data Target : Type 0 where
  on_mapping : ℕ → Target
  on_sequence : ℕ → Target

-- `ast.DuplicateKey`
pub record DuplicateKey : Type 0 where
  pub name : Bytes
  pub at : Position
  pub first_at : Position
  pub json_name_only : Bool
  pub index : ℕ
  pub allowed : Bool

-- `entryOf` below zero is `none`
pub record OpenMap : Type 0 where
  pub node : ℕ
  pub entry_of : Option ℕ
  pub entry_index : ℕ

-- a nil sequence is `none`
pub record Scope : Type 0 where
  pub keys : KeySet
  pub seq : Option ℕ

abbrev pub BuiltKeys : Type 0
BuiltKeys = Bytes → Option Position

pub record Ledger : Type 0 where
  pub keys : KeySet
  pub open_maps : List OpenMap
  pub built_keys : List BuiltKeys
  pub allow_repeats : Bool
  pub ordered_maps : List Scope
  pub pending : ℕ
  pub pending_index : ℕ
  pub expect_ordered : Bool
  pub notes : List (Target × DuplicateKey)

unfoldable pub expect_ordered_map : Ledger → Ledger
expect_ordered_map l = record l { expect_ordered = true }

unfoldable pub take_ordered_map : Ledger → Ledger × Bool
take_ordered_map l = (record l { expect_ordered = false }, l.expect_ordered)

unfoldable pub open_ordered_map : Ledger → Option ℕ → Ledger
open_ordered_map l seq =
    let scope : Scope = record { keys = use_json_names empty l.keys.json_names; seq = seq } in
    record l { ordered_maps = l.ordered_maps ++ scope ∷ [] }

-- what `OpenOrderedMap` returns
unfoldable pub end_ordered_map : Ledger → Ledger
end_ordered_map l = record l {
  ordered_maps = take (length l.ordered_maps - 1) l.ordered_maps;
  pending = 0;
}

unfoldable pub mark_entry : Ledger → ℕ → Ledger
mark_entry l i = record l { pending = length l.ordered_maps; pending_index = i }

unfoldable pub unmark_entry : Ledger → Ledger
unmark_entry l = record l { pending = 0 }

unfoldable pub in_mapping : Ledger → Bool
in_mapping l = ltb 0 (length l.built_keys)

unfoldable pub note : Ledger → Target → DuplicateKey → Ledger
note l target dup = record l { notes = l.notes ++ (target, dup) ∷ [] }

-- behind the recording in the ordered map's own set
unfoldable pub note_entry : Ledger → Option ℕ → Bytes → Position → ℕ → Found → Ledger
unfolding note
note_entry l none text pos i found = l
note_entry l (some seq) text pos i (first, json_only, defined) =
    let dup : DuplicateKey = record {
      name = text;
      at = pos;
      first_at = first;
      json_name_only = json_only;
      index = i;
      allowed = l.allow_repeats;
    } in
    if defined then note l (on_sequence seq) dup else l

unfoldable pub record_in_ordered_map : Ledger → ℕ → Bytes → ℕ → Position → ℕ → Option Ledger
unfolding note_entry
record_in_ordered_map l which text kind pos i = elim (get_elem? l.ordered_maps which) [
  | none ↦ none
  | some scope ↦ elim (record_key scope.keys 0 text kind pos) [
    | none ↦ none
    | some (k, found) ↦
        let kept = record l {
          ordered_maps = set l.ordered_maps which (record scope { keys = k });
        } in
        some (note_entry kept scope.seq text pos i found)
  ]
]

unfoldable pub record_entry : Ledger → Bytes → ℕ → Position → Option Ledger
unfolding record_in_ordered_map
record_entry l text kind pos = elim (ltb 0 l.pending) [
  | false ↦ some l
  | true ↦ record_in_ordered_map l (l.pending - 1) text kind pos l.pending_index
]

unfoldable pub allow : Ledger → Bool → Ledger
allow l on = record l { allow_repeats = on }

-- `noteDuplicate`, on the innermost mapping open
unfoldable pub note_duplicate : Ledger → DuplicateKey → Ledger
unfolding note
note_duplicate l dup = elim l.open_maps [
  | [] ↦ l
  | top ∷ rest ↦ note l (on_mapping top.node) (record dup { allowed = l.allow_repeats })
]

abbrev pub repeat : Bytes → Position → Position → Bool → DuplicateKey
repeat name at first json_only = record {
  name = name;
  at = at;
  first_at = first;
  json_name_only = json_only;
  index = 0;
  allowed = false;
}

-- a key that was new in its mapping, on to the ordered map it is an entry of
unfoldable pub record_new : Ledger → List OpenMap → Bytes → ℕ → Position → Option Ledger
unfolding record_in_ordered_map
record_new l [] text kind pos = some l
record_new l (top ∷ rest) text kind pos = elim top.entry_of [
  | none ↦ some l
  | some which ↦ record_in_ordered_map l which text kind pos top.entry_index
]

unfoldable pub record_found : Ledger → Bytes → ℕ → Position → Found → Option Ledger
unfolding record_new note_duplicate
record_found l text kind pos (first, json_only, true) =
    some (note_duplicate l (repeat text pos first json_only))
record_found l text kind pos (first, json_only, false) = record_new l l.open_maps text kind pos

unfoldable pub record_once : Ledger → ℕ → Bytes → ℕ → Position → Option Ledger
unfolding record_found
record_once l b text kind pos = elim (record_key l.keys b text kind pos) [
  | none ↦ none
  | some (k, found) ↦ record_found (record l { keys = k }) text kind pos found
]

unfoldable pub record_built : Ledger → Bytes → Bytes → Position → Option Ledger
unfolding note_duplicate equal
record_built l identity display pos = elim l.built_keys [
  | [] ↦ none
  | top ∷ rest ↦ elim (top identity) [
    | some first ↦ some (note_duplicate l (repeat display pos first false))
    | none ↦
        some (record l { built_keys = (λ s. if equal identity s then some pos else top s) ∷ rest })
  ]
]

abbrev entry_of_pending : ℕ → Option ℕ
entry_of_pending zero = none
entry_of_pending (suc n) = some n

unfoldable pub open_map : Ledger → ℕ → Ledger
open_map l node =
    let top : OpenMap = record {
      node = node;
      entry_of = entry_of_pending l.pending;
      entry_index = l.pending_index;
    } in
    record l {
      open_maps = top ∷ l.open_maps;
      built_keys = (λ s. none) ∷ l.built_keys;
      pending = 0;
      expect_ordered = false;
    }

abbrev tail_of {ℓ} : {A : Type ℓ} → List A → List A
tail_of [] = []
tail_of (x ∷ xs) = xs

-- what `Open` returns
unfoldable pub end_map : Ledger → Ledger
end_map l = record l { open_maps = tail_of l.open_maps; built_keys = tail_of l.built_keys }

unfoldable pub close_keys : Ledger → ℕ → Ledger
close_keys l b = record l { keys = close l.keys b }

unfoldable pub reset_ledger : Ledger → Ledger
reset_ledger l = record l {
  keys = reset l.keys;
  open_maps = [];
  built_keys = [];
  ordered_maps = [];
  pending = 0;
  expect_ordered = false;
}
