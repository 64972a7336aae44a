-- ===== src/Key/Set/Scan.antt =====
-- The scans of parser/key/set.go against the lookups of `Spec`.
use go_yaml.Base.{
  ℕ, ◌<◌, ◌/◌, ◌^◌, ◌&&◌, [], ◌∷◌, ◌==◌, is_some, Bytes, equal, equal_iff, ◌≡◌, refl, arith,
}
use go_yaml.Key.Set.{key_filter, scan_names, scan_nodes, scan_holds}
use go_yaml.Key.Set.Filter.{key_filter-kind, key_filter-name}
use go_yaml.Key.Set.Spec.{
  Frame, find_name, find_node, found_name, found_node, filters, entries_of, Kinds,
}

-- beside an equal text the filters say what the kinds say
pub same_name :
    (a b : Bytes) (j k : ℕ)
    → j < 255
    → k < 255
    → (key_filter a j / 2 ^ 8 == key_filter b k / 2 ^ 8 && equal a b) ≡ equal a b
same_name a b j k p q = ground (arith, equal_iff a b, key_filter-name a j, key_filter-name b k)

pub same_node :
    (a b : Bytes) (j k : ℕ)
    → j < 255
    → k < 255
    → (key_filter a j == key_filter b k && equal a b) ≡ (j == k && equal a b)
same_node a b j k p q = ground (arith, equal_iff a b, key_filter-kind a j, key_filter-kind b k)

pub scan_names-lem :
    (text : Bytes) (kind : ℕ) (ks : Frame)
    → kind < 255
    → Kinds ks
    → scan_names (key_filter text kind) text (filters ks) (entries_of ks)
      ≡ found_name kind (find_name text ks)
unfolding scan_names
scan_names-lem text kind [] h v = refl
scan_names-lem text kind (k ∷ ks) h (p, v) = ground (
  arith,
  same_name k.text text k.kind kind,
  same_node k.text text k.kind kind,
  scan_names-lem text kind ks,
)

pub scan_nodes-lem :
    (text : Bytes) (kind : ℕ) (ks : Frame)
    → kind < 255
    → Kinds ks
    → scan_nodes (key_filter text kind) text (filters ks) (entries_of ks)
      ≡ found_node (find_node text kind ks)
unfolding scan_nodes
scan_nodes-lem text kind [] h v = refl
scan_nodes-lem text kind (k ∷ ks) h (p, v) =
    ground (arith, same_node k.text text k.kind kind, scan_nodes-lem text kind ks)

pub scan_holds-lem :
    (text : Bytes) (ks : Frame)
    → Kinds ks
    → scan_holds (key_filter text 0 / 2 ^ 8) text (filters ks) (entries_of ks)
      ≡ is_some (find_name text ks)
unfolding scan_holds
scan_holds-lem text [] v = refl
scan_holds-lem text (k ∷ ks) (p, v) =
    ground (arith, same_name k.text text k.kind 0, scan_holds-lem text ks)
