-- ===== src/Key/Set/Lookup.antt =====
-- The index of a mapping against the lookups of `Spec`: by node, and by name under JSON names.
use go_yaml.Base.{
  ℕ, ◌<◌, ◌%◌, ◌^◌, Bool, true, false, ◌&&◌, Option, none, some, [], ◌∷◌, ◌==◌, Bytes, equal,
  equal_iff, is_some, ◌≡◌, refl, arith, ==-self,
}
use go_yaml.Token.Position.{Position}
use go_yaml.Key.Set.{ref, same_ref}
use go_yaml.Key.Set.Spec.{Key, Frame, find_name, find_node, found_name, duplicate, Kinds, Distinct}
use go_yaml.Key.Set.Index.{keys_at}

abbrev pub place : Option Key → Option Position
place none = none
place (some k) = some k.at

same_ref-ref : (b j k : ℕ) (s t : Bytes) → same_ref (ref b j s) (ref b k t) ≡ (j == k && equal s t)
unfolding same_ref
same_ref-ref b j k s t = rw (==-self (b % 2 ^ 32))

pub keys_at-node :
    (b : ℕ) (json : Bool) (f : Frame) (kind : ℕ) (text : Bytes)
    → kind < 255
    → keys_at b json f (ref b kind text) ≡ place (find_node text kind f)
keys_at-node b json [] kind text h = refl
keys_at-node b json (k ∷ ks) kind text h =
    rw
      (
        same_ref-ref b k.kind kind k.text text,
        same_ref-ref b 255 kind k.text text,
        keys_at-node b json ks kind text h,
      )
      (ground arith)

pub keys_at-name :
    (b : ℕ) (f : Frame) (text : Bytes)
    → Kinds f
    → keys_at b true f (ref b 255 text) ≡ place (find_name text f)
keys_at-name b [] text v = refl
keys_at-name b (k ∷ ks) text (p, v) =
    rw
      (
        same_ref-ref b k.kind 255 k.text text,
        same_ref-ref b 255 255 k.text text,
        keys_at-name b ks text v,
      )
      (ground arith)

pub keys_at-no_name :
    (b : ℕ) (f : Frame) (text : Bytes) → Kinds f → keys_at b false f (ref b 255 text) ≡ none
keys_at-no_name b [] text v = refl
keys_at-no_name b (k ∷ ks) text (p, v) =
    rw (same_ref-ref b k.kind 255 k.text text, keys_at-no_name b ks text v) (ground arith)

node_has_name :
    (f : Frame) (text : Bytes) (kind : ℕ) (k : Key)
    → find_node text kind f ≡ some k
    → is_some (find_name text f) ≡ true
node_has_name [] text kind k h = cc
node_has_name (j ∷ js) text kind k h = ground (arith, node_has_name js text kind k)

named_node :
    (f : Frame) (text : Bytes) (kind : ℕ) (k : Key)
    → Distinct f
    → find_node text kind f ≡ some k
    → found_name kind (find_name text f) ≡ some (k.at, false, true)
named_node [] text kind k d h = cc
named_node (j ∷ js) text kind k (d, ds) h =
    ground
      (arith, equal_iff j.text text, node_has_name js text kind k, named_node js text kind k ds)

-- in a mapping of distinct names a key found by node is the one found by name
pub duplicate-node :
    (json : Bool) (f : Frame) (text : Bytes) (kind : ℕ) (k : Key)
    → (json ≡ true → Distinct f)
    → find_node text kind f ≡ some k
    → duplicate json f text kind ≡ some (k.at, false, true)
duplicate-node true f text kind k d h = named_node f text kind k (d refl) h
duplicate-node false f text kind k d h = rw h

pub duplicate-name :
    (f : Frame) (text : Bytes) (kind : ℕ) (k : Key)
    → find_node text kind f ≡ none
    → find_name text f ≡ some k
    → duplicate true f text kind ≡ some (k.at, true, true)
duplicate-name [] text kind k n h = cc
duplicate-name (j ∷ js) text kind k n h = ground (arith, duplicate-name js text kind k)
