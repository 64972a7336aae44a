-- ===== src/Key/Set/Spill.antt =====
-- `spill` of parser/key/set.go moves the innermost mapping into the index and changes nothing else.
use go_yaml.Base.{
  ℕ, ◌-◌, ◌≤◌, ◌<◌, ◌^◌, Bool, Option, none, some, List, ◌∷◌, ◌++◌, length, ◌≡◌, ◌≢◌, refl, sym,
  ◌∙◌, arith, inl, inr, length-append,
}
use go_yaml.Token.Position.{Position}
use go_yaml.Key.Set.{KeySet, MapKeyRef, Index, find, made, spill}
use go_yaml.Key.Set.Spec.{Frame, flat}
use go_yaml.Key.Set.Index.{keys_at, or_else, or_else-none, spill_keys_lem}
use go_yaml.Key.Set.State.{
  Agrees, Represents, Kinds-append_right, drop-filters, drop-entries_of, keys_at-other,
  length-entries_of, LowerOk-transfer,
}

find-made : (ix : Option Index) (r : MapKeyRef) → made ix r ≡ find ix r
unfolding find made
find-made none r = refl
find-made (some ix) r = refl

or_else_self : (a : Option Position) → or_else a a ≡ a
or_else_self none = refl
or_else_self (some p) = refl

module _ (json : Bool) (k : KeySet) (f : Frame) (fs : List Frame)
    (rep : Represents json k (f ∷ fs)) where
  abbrev start : ℕ
  start = length (flat fs)

  start_small : start < 2 ^ 32
  start_small = omega (arith, rep.small, length-append (flat fs) f)

  -- the number of keys above the start, as the code counts it
  pub own_keys : length k.entries - start ≡ length f
  own_keys =
      rw rep.entries_is (omega (arith, length-entries_of (flat fs ++ f), length-append (flat fs) f))

  find-spill :
      (r : MapKeyRef)
      → find (spill k start).index r ≡ or_else (find k.index r) (keys_at start json f r)
  unfolding spill find
  find-spill r = rw (
    rep.filter_is,
    rep.entries_is,
    rep.json_is,
    drop-filters (flat fs) f,
    drop-entries_of (flat fs) f,
    spill_keys_lem start json f (made k.index) r (Kinds-append_right (flat fs) f rep.kinds),
    find-made k.index r,
  )

  pub spill-Agrees : Agrees json (find (spill k start).index) start f
  spill-Agrees r e = elim rep.top.0 [
    | inl (silent, _) ↦ find-spill r ∙ rw (silent r e)
    | inr (agrees, _) ↦ find-spill r ∙ rw (agrees r e) (or_else_self (keys_at start json f r))
  ]

  spill-other : (r : MapKeyRef) → r.base ≢ start → find (spill k start).index r ≡ find k.index r
  spill-other r ne =
      find-spill r
      ∙ rw (keys_at-other start json f r start_small ne) (or_else-none (find k.index r))

  pub spill-Represents : 64 ≤ length f → Represents json (spill k start) (f ∷ fs)
  unfolding spill
  spill-Represents full = record {
    filter_is = rep.filter_is;
    entries_is = rep.entries_is;
    json_is = rep.json_is;
    kinds = rep.kinds;
    small = rep.small;
    distinct = rep.distinct;
    top = (
      inr (spill-Agrees, full),
      LowerOk-transfer json start spill-other fs (omega arith) rep.top.1,
    );
    owned = λ b nb r e. spill-other r (λ q. nb.0 (sym e ∙ q)) ∙ rep.owned b nb r e;
  }
