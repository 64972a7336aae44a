-- ===== src/Key/Set/Index.antt =====
-- The hash index of parser/key/set.go: what `spill`, `recordIndexed` and `Close` write to it, as a
-- lookup at every reference.
use go_yaml.Base.{
  ℕ, Bool, true, false, ◌&&◌, ◌||◌, Option, none, some, [], ◌∷◌, ◌++◌, if◌then◌else◌, is_some,
  equal_iff, ◌≡◌, refl, sym, arith, Bool-cases, inl, inr,
}
use go_yaml.Token.Position.{Position}
use go_yaml.Key.Set.{
  MapKeyRef, Index, same_ref, ref, any_kind, put, put_absent, remove, find, spill_keys, delete_keys,
}
use go_yaml.Key.Set.Filter.{key_filter-kind}
use go_yaml.Key.Set.Spec.{Key, Frame, filters, entries_of, Kinds}

abbrev pub or_else : Option Position → Option Position → Option Position
or_else none q = q
or_else (some p) q = some p

-- what one key answers at a reference: its node, and its name under JSON names
abbrev pub key_at : ℕ → Bool → Key → MapKeyRef → Option Position
key_at base json k r =
    if same_ref (ref base k.kind k.text) r
    then some k.at
    else if json && same_ref (ref base any_kind k.text) r
    then some k.at
    else none

-- what the keys of a mapping answer at a reference, the first one that does
abbrev pub keys_at : ℕ → Bool → Frame → MapKeyRef → Option Position
keys_at base json [] r = none
keys_at base json (k ∷ ks) r = or_else (key_at base json k r) (keys_at base json ks r)

pub or_else_assoc : (a b c : Option Position) → or_else (or_else a b) c ≡ or_else a (or_else b c)
or_else_assoc none b c = refl
or_else_assoc (some p) b c = refl

pub or_else-none : (a : Option Position) → or_else a none ≡ a
or_else-none none = refl
or_else-none (some p) = refl

pub same_ref_eq : (a b : MapKeyRef) → same_ref a b ≡ true → a ≡ b
unfolding same_ref
same_ref_eq a b h = ground (arith, equal_iff a.text b.text)

pub put_lem :
    (ix : Index) (q : MapKeyRef) (p : Position) (r : MapKeyRef)
    → put ix q p r ≡ (if same_ref q r then some p else ix r)
unfolding put
put_lem ix q p r = refl

pub put_absent_lem :
    (ix : Index) (q : MapKeyRef) (p : Position) (r : MapKeyRef)
    → put_absent ix q p r ≡ or_else (ix r) (if same_ref q r then some p else none)
unfolding put_absent
put_absent_lem ix q p r = step (ix q) refl
  where
    step :
        (o : Option Position)
        → ix q ≡ o
        → (elim o as (λ _. Index) [ some p' ↦ ix | none ↦ put ix q p ]) r
          ≡ or_else (ix r) (if same_ref q r then some p else none)
    step (some p') e = elim (Bool-cases (same_ref q r)) [
      | inl same ↦ rw (same, ← same_ref_eq q r same, e)
      | inr other ↦ rw other (sym (or_else-none (ix r)))
    ]
    step none e = elim (Bool-cases (same_ref q r)) [
      | inl same ↦ rw (put_lem, same, ← same_ref_eq q r same, e)
      | inr other ↦ rw (put_lem, other) (sym (or_else-none (ix r)))
    ]

abbrev named : ℕ → Bool → Key → Index → Index
named base json k ix =
    if json
    then put_absent (put_absent ix (ref base k.kind k.text) k.at) (ref base any_kind k.text) k.at
    else put_absent ix (ref base k.kind k.text) k.at

-- both writes of `spill` for one key
pub spill_key :
    (base : ℕ) (json : Bool) (k : Key) (ix : Index) (r : MapKeyRef)
    → named base json k ix r ≡ or_else (ix r) (key_at base json k r)
spill_key base true k ix r = rw (put_absent_lem, put_absent_lem) (ground arith)
spill_key base false k ix r = rw put_absent_lem (ground arith)

pub keys_at-append :
    (base : ℕ) (json : Bool) (ks ls : Frame) (r : MapKeyRef)
    → keys_at base json (ks ++ ls) r ≡ or_else (keys_at base json ks r) (keys_at base json ls r)
keys_at-append base json [] ls r = refl
keys_at-append base json (k ∷ ks) ls r =
    rw (keys_at-append base json ks ls r)
      (sym (or_else_assoc (key_at base json k r) (keys_at base json ks r) (keys_at base json ls r)))

pub spill_keys_lem :
    (base : ℕ) (json : Bool) (ks : Frame) (ix : Index) (r : MapKeyRef)
    → Kinds ks
    → spill_keys base json (filters ks) (entries_of ks) ix r
      ≡ or_else (ix r) (keys_at base json ks r)
unfolding spill_keys
spill_keys_lem base json [] ix r v = sym (or_else-none (ix r))
spill_keys_lem base json (k ∷ ks) ix r (p, v) = rw (key_filter-kind k.text k.kind (omega arith)) (
    rw (spill_keys_lem base json ks (named base json k ix) r v, spill_key base json k ix r)
      (or_else_assoc (ix r) (key_at base json k r) (keys_at base json ks r)))

-- whether a key's references, which `Close` deletes, hold this one
abbrev pub hits : ℕ → Bool → Frame → MapKeyRef → Bool
hits base json [] r = false
hits base json (k ∷ ks) r =
    same_ref (ref base k.kind k.text) r
    || (json && same_ref (ref base any_kind k.text) r)
    || hits base json ks r

find-remove :
    (ix : Option Index) (q r : MapKeyRef)
    → find (remove ix q) r ≡ (if same_ref q r then none else find ix r)
unfolding find remove
find-remove none q r = ground arith
find-remove (some ix) q r = refl

abbrev unnamed : ℕ → Bool → Key → Option Index → Option Index
unnamed base json k ix =
    if json
    then remove (remove ix (ref base k.kind k.text)) (ref base any_kind k.text)
    else remove ix (ref base k.kind k.text)

find-unnamed :
    (base : ℕ) (json : Bool) (k : Key) (ix : Option Index) (r : MapKeyRef)
    → find (unnamed base json k ix) r ≡ (
        if same_ref (ref base k.kind k.text) r || (json && same_ref (ref base any_kind k.text) r)
        then none
        else find ix r)
find-unnamed base true k ix r = rw (find-remove, find-remove) (ground arith)
find-unnamed base false k ix r = rw find-remove (ground arith)

pub delete_keys_lem :
    (base : ℕ) (json : Bool) (ks : Frame) (ix : Option Index) (r : MapKeyRef)
    → Kinds ks
    → find (delete_keys base json (filters ks) (entries_of ks) ix) r
      ≡ (if hits base json ks r then none else find ix r)
unfolding delete_keys
delete_keys_lem base json [] ix r v = refl
delete_keys_lem base json (k ∷ ks) ix r (p, v) = rw (key_filter-kind k.text k.kind (omega arith)) (
    rw (delete_keys_lem base json ks (unnamed base json k ix) r v, find-unnamed base json k ix r)
      (ground arith))

pub hits-keys_at :
    (base : ℕ) (json : Bool) (ks : Frame) (r : MapKeyRef)
    → hits base json ks r ≡ is_some (keys_at base json ks r)
hits-keys_at base json [] r = refl
hits-keys_at base json (k ∷ ks) r = ground (arith, hits-keys_at base json ks r)
