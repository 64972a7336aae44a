-- ===== src/Key/Set/Spec.antt =====
-- What the key set of parser/key/set.go promises: the mappings that are open, innermost first, each
-- the list of its keys in the order they were written. A key is looked up from the first one on.
use go_yaml.Base.{
  ℕ, ◌<◌, Bool, true, false, not, ◌&&◌, Option, none, some, List, [], ◌∷◌, ◌++◌, ◌==◌,
  if◌then◌else◌, is_some, Bytes, equal, ◌≡◌,
}
use go_yaml.Token.Position.{Position}
use go_yaml.Key.Set.{KeyEntry, Found, fresh, key_filter}

pub record Key : Type 0 where
  pub text : Bytes
  pub kind : ℕ
  pub at : Position

abbrev pub Frame : Type 0
Frame = List Key

-- the first key of that name
abbrev pub find_name : Bytes → Frame → Option Key
find_name text [] = none
find_name text (k ∷ ks) = if equal k.text text then some k else find_name text ks

-- the first key that is that node: of that name and of that kind
abbrev pub find_node : Bytes → ℕ → Frame → Option Key
find_node text kind [] = none
find_node text kind (k ∷ ks) =
    if k.kind == kind && equal k.text text then some k else find_node text kind ks

-- What a use of a key finds: under JSON names a key of its name, else a key that is the same node.
abbrev pub found_name : ℕ → Option Key → Option Found
found_name kind none = none
found_name kind (some k) = some (k.at, not (k.kind == kind), true)

abbrev pub found_node : Option Key → Option Found
found_node none = none
found_node (some k) = some (k.at, false, true)

abbrev pub duplicate : Bool → Frame → Bytes → ℕ → Option Found
duplicate true f text kind = found_name kind (find_name text f)
duplicate false f text kind = found_node (find_node text kind f)

-- A key that is no duplicate joins the innermost mapping.
abbrev pub recorded : Frame → Bytes → ℕ → Position → Option Found → Frame × Found
recorded f text kind pos (some found) = (f, found)
recorded f text kind pos none = (f ++ (record { text = text; kind = kind; at = pos } ∷ []), fresh)

abbrev pub spec_record : Bool → Frame → Bytes → ℕ → Position → Frame × Found
spec_record json f text kind pos = recorded f text kind pos (duplicate json f text kind)

-- the keys of all open mappings, as the set stacks them
abbrev pub flat : List Frame → Frame
flat [] = []
flat (f ∷ fs) = flat fs ++ f

abbrev pub filters : Frame → List ℕ
filters [] = []
filters (k ∷ ks) = key_filter k.text k.kind ∷ filters ks

abbrev pub entries_of : Frame → List KeyEntry
entries_of [] = []
entries_of (k ∷ ks) = record { text = k.text; at = k.at } ∷ entries_of ks

-- every kind is one of a key: a byte below `anyKind`
abbrev pub Kinds : Frame → Type 0
Kinds [] = Unit {0}
Kinds (k ∷ ks) = (k.kind < 255) × Kinds ks

-- under JSON names no two keys of a mapping have one name
abbrev pub Distinct : Frame → Type 0
Distinct [] = Unit {0}
Distinct (k ∷ ks) = (is_some (find_name k.text ks) ≡ false) × Distinct ks
