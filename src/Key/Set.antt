-- ===== src/Key/Set.antt =====
-- parser/key/set.go: the set that finds a key a mapping has already used.
-- The index is a Go map that no code ranges over, so it is the function that a lookup is; `none`
-- is the nil map. A write to the nil map panics: `Option` results, `none` where the code panics.
-- A position and a kind are plain values, a kind being a byte.
pub mod Index
pub mod Filter
pub mod Spec
pub mod Scan
pub mod State
pub mod Spill
pub mod Push
pub mod Lookup
pub mod Record
pub mod Refine
pub mod Close
pub mod Open
pub mod Holds
pub mod Trace
use Prim.Native.Nat.{bit_or}
use go_yaml.Base.{
  ℕ, zero, suc, ◌+◌, ◌-◌, ◌*◌, ◌/◌, ◌%◌, ◌^◌, Bool, true, false, not, ◌&&◌, ◌||◌, Option, none,
  some, List, [], ◌∷◌, ◌++◌, leb, ◌==◌, if◌then◌else◌, length, drop, take, is_some, Bytes, equal,
}
use go_yaml.Token.Position.{Position, no_position}

abbrev pub spill_at : ℕ
spill_at = 64

-- `base` is an int32, the set's index truncated
pub record MapKeyRef : Type 0 where
  pub base : ℕ
  pub kind : ℕ
  pub text : Bytes

pub record KeyEntry : Type 0 where
  pub text : Bytes
  pub at : Position

abbrev pub any_kind : ℕ
any_kind = 255

abbrev pub Index : Type 0
Index = MapKeyRef → Option Position

pub record KeySet : Type 0 where
  pub filter : List ℕ
  pub entries : List KeyEntry
  pub index : Option Index
  pub json_names : Bool

unfoldable pub same_ref : MapKeyRef → MapKeyRef → Bool
same_ref a b = a.base == b.base && a.kind == b.kind && equal a.text b.text

abbrev pub ref : ℕ → ℕ → Bytes → MapKeyRef
ref base kind text = record { base = base % 2 ^ 32; kind = kind; text = text }

-- `k.index[ref]`, of a nil map too
unfoldable pub find : Option Index → MapKeyRef → Option Position
find none r = none
find (some ix) r = ix r

-- `k.index[ref] = pos`
unfoldable pub put : Index → MapKeyRef → Position → Index
put ix r p s = if same_ref r s then some p else ix s

-- `delete(k.index, ref)`, which does nothing to a nil map
unfoldable pub remove : Option Index → MapKeyRef → Option Index
remove none r = none
remove (some ix) r = some (λ s. if same_ref r s then none else ix s)

last : ℕ → Bytes → ℕ
last c [] = c
last c (d ∷ ds) = last d ds

-- the first and the last byte, in the two high bytes of the word
pub edge_bytes : Bytes → ℕ
edge_bytes [] = 0
edge_bytes (c ∷ cs) = bit_or (c * 2 ^ 16 % 2 ^ 32) (last c cs * 2 ^ 24 % 2 ^ 32)

unfoldable pub key_filter : Bytes → ℕ → ℕ
key_filter text kind =
    bit_or (bit_or kind (length text % 2 ^ 32 * 2 ^ 8 % 2 ^ 32)) (edge_bytes text)

unfoldable pub base : KeySet → ℕ
base k = length k.entries

unfoldable pub use_json_names : KeySet → Bool → KeySet
use_json_names k on = record k { json_names = on }

-- Where the key was first written, whether it is one JSON name under two nodes, and whether the
-- name was used already.
abbrev pub Found : Type 0
Found = Position × Bool × Bool

abbrev pub fresh : Found
fresh = (no_position, false, false)

-- The scan under `jsonNames`, over the tail of the filters and the entries side by side.
unfoldable pub scan_names : ℕ → Bytes → List ℕ → List KeyEntry → Option Found
scan_names f text (g ∷ gs) (e ∷ es) =
    if g / 2 ^ 8 == f / 2 ^ 8 && equal e.text text
    then some (e.at, not (g == f), true)
    else scan_names f text gs es
scan_names f text _ _ = none

unfoldable pub scan_nodes : ℕ → Bytes → List ℕ → List KeyEntry → Option Found
scan_nodes f text (g ∷ gs) (e ∷ es) =
    if g == f && equal e.text text then some (e.at, false, true) else scan_nodes f text gs es
scan_nodes f text _ _ = none

unfoldable pub push : KeySet → Bytes → Position → ℕ → KeySet
push k text pos f = record k {
  filter = k.filter ++ f ∷ [];
  entries = k.entries ++ (record { text = text; at = pos } ∷ []);
}

-- `if _, defined := index[ref]; !defined { index[ref] = at }`
unfoldable pub put_absent : Index → MapKeyRef → Position → Index
put_absent ix r p = elim (ix r) [ some q ↦ ix | none ↦ put ix r p ]

-- the loop of `spill` over the tail; the kind of a key is the low byte of its filter
unfoldable pub spill_keys : ℕ → Bool → List ℕ → List KeyEntry → Index → Index
spill_keys base json (g ∷ gs) (e ∷ es) ix =
    let node = put_absent ix (ref base (g % 2 ^ 8) e.text) e.at in
    let named = if json then put_absent node (ref base any_kind e.text) e.at else node in
    spill_keys base json gs es named
spill_keys base json _ _ ix = ix

unfoldable pub made : Option Index → Index
made none = λ r. none
made (some ix) = ix

unfoldable pub spill : KeySet → ℕ → KeySet
spill k base = record k {
  index =
      some (spill_keys base k.json_names (drop base k.filter) (drop base k.entries) (made k.index));
}

-- the writes of `recordIndexed`, into an index that is there
unfoldable pub index_key : KeySet → Index → ℕ → Bytes → ℕ → Position → ℕ → KeySet
index_key k ix base text kind pos f =
    let named = if k.json_names then put ix (ref base any_kind text) pos else ix in
    push (record k { index = some (put named (ref base kind text) pos) }) text pos f

-- behind the first lookup; the writes panic where the index is nil
unfoldable pub record_name : KeySet → ℕ → Bytes → ℕ → Position → ℕ → Option (KeySet × Found)
record_name k base text kind pos f =
    let by_name = if k.json_names then find k.index (ref base any_kind text) else none in
    elim by_name [
      | some prev ↦ some (k, (prev, true, true))
      | none ↦ elim k.index [
        | none ↦ none
        | some ix ↦ some (index_key k ix base text kind pos f, fresh)
      ]
    ]

-- behind the spilling
unfoldable pub record_ref : KeySet → ℕ → Bytes → ℕ → Position → ℕ → Option (KeySet × Found)
record_ref k base text kind pos f = elim (find k.index (ref base kind text)) [
  | some prev ↦ some (k, (prev, false, true))
  | none ↦ record_name k base text kind pos f
]

unfoldable pub record_indexed : KeySet → ℕ → Bytes → ℕ → Position → ℕ → Option (KeySet × Found)
record_indexed k base text kind pos f =
    record_ref (if length k.entries - base == spill_at then spill k base else k) base text kind pos
      f

unfoldable pub scan : KeySet → ℕ → Bytes → ℕ → Option Found
scan k base text f =
    if k.json_names
    then scan_names f text (drop base k.filter) (drop base k.entries)
    else scan_nodes f text (drop base k.filter) (drop base k.entries)

-- `Record`
unfoldable pub record_key : KeySet → ℕ → Bytes → ℕ → Position → Option (KeySet × Found)
record_key k base text kind pos =
    let f = key_filter text kind in
    if leb spill_at (length k.entries - base)
    then record_indexed k base text kind pos f
    else elim (scan k base text f) [
      | some found ↦ some (k, found)
      | none ↦ some (push k text pos f, fresh)
    ]

-- the scan of `Holds`, by the filters without their low byte
unfoldable pub scan_holds : ℕ → Bytes → List ℕ → List KeyEntry → Bool
scan_holds name text (g ∷ gs) (e ∷ es) =
    (g / 2 ^ 8 == name && equal e.text text) || scan_holds name text gs es
scan_holds name text _ _ = false

unfoldable pub holds : KeySet → ℕ → Bytes → Bool
holds k base text =
    if k.json_names && is_some k.index && leb spill_at (length k.entries - base)
    then is_some (find k.index (ref base any_kind text))
    else scan_holds (key_filter text 0 / 2 ^ 8) text (drop base k.filter) (drop base k.entries)

-- the loop of `Close`
unfoldable pub delete_keys : ℕ → Bool → List ℕ → List KeyEntry → Option Index → Option Index
delete_keys base json (g ∷ gs) (e ∷ es) ix =
    let node = remove ix (ref base (g % 2 ^ 8) e.text) in
    let named = if json then remove node (ref base any_kind e.text) else node in
    delete_keys base json gs es named
delete_keys base json _ _ ix = ix

unfoldable pub close : KeySet → ℕ → KeySet
close k base =
    let ix =
      if leb spill_at (length k.entries - base)
      then delete_keys base k.json_names (drop base k.filter) (drop base k.entries) k.index
      else k.index in
    record k { filter = take base k.filter; entries = take base k.entries; index = ix }

-- `clear(k.index)` of a nil map does nothing
emptied : Option Index → Option Index
emptied none = none
emptied (some ix) = some (λ r. none)

unfoldable pub reset : KeySet → KeySet
unfolding emptied
reset k = record { filter = []; entries = []; index = emptied k.index; json_names = false }

abbrev pub empty : KeySet
empty = record { filter = []; entries = []; index = none; json_names = false }
