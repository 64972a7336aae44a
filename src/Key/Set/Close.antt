-- ===== src/Key/Set/Close.antt =====
-- `Base`, `Close`, `Reset` and `Holds` of parser/key/set.go against the stack of mappings.
use go_yaml.Base.{
  ℕ, ◌<◌, ◌^◌, Bool, none, List, [], ◌∷◌, ◌==◌, leb, if◌then◌else◌, length, ◌≡◌, ◌≢◌, refl, ◌∙◌,
  arith, inl, inr, length-append, Bool-cases, ◌&&◌,
}
use go_yaml.Key.Set.{KeySet, MapKeyRef, find, close}
use go_yaml.Key.Set.Spec.{Key, Frame, flat}
use go_yaml.Key.Set.Index.{hits, delete_keys_lem, hits-keys_at}
use go_yaml.Key.Set.Spill.{own_keys}
use go_yaml.Key.Set.State.{
  IsSilent, LowerOk, TopOk, Represents, Kinds-append_right, Kinds-append_left, drop-filters,
  drop-entries_of, take-filters, take-entries_of, keys_at-other, LowerOk-transfer, FrameOk-transfer,
}

cons_ne_nil : {k : Key} {ks : Frame} → (k ∷ ks) ≢ []
cons_ne_nil e = cc

module _ (json : Bool) (k : KeySet) (f : Frame) (fs : List Frame)
    (rep : Represents json k (f ∷ fs)) where
  abbrev here : ℕ
  here = length (flat fs)

  here_small : here < 2 ^ 32
  here_small = omega (arith, rep.small, length-append (flat fs) f)

  find-close :
      (r : MapKeyRef)
      → find (close k here).index r
        ≡ (if leb 64 (length f) && hits here json f r then none else find k.index r)
  unfolding close
  find-close r =
      rw
        (
          own_keys json k f fs rep,
          rep.filter_is,
          rep.entries_is,
          rep.json_is,
          drop-filters (flat fs) f,
          drop-entries_of (flat fs) f,
        )
        (ground
          (arith, delete_keys_lem here json f k.index r (Kinds-append_right (flat fs) f rep.kinds)))

  close-other : (r : MapKeyRef) → r.base ≢ here → find (close k here).index r ≡ find k.index r
  close-other r ne =
      find-close r
      ∙ rw (hits-keys_at here json f r, keys_at-other here json f r here_small ne) (ground arith)

  close-IsSilent : IsSilent (find (close k here).index) here
  close-IsSilent r e =
      find-close r
      ∙ rw (hits-keys_at here json f r) (elim rep.top.0 [
        | inl (silent, _) ↦ ground (arith, silent r e)
        | inr (agrees, full) ↦ ground (arith, agrees r e)
      ])

  next_top :
      (gs : List Frame)
      → length (flat gs) ≡ here
      → LowerOk json (find k.index) gs
      → TopOk json (find (close k here).index) gs
  next_top [] e l = tt
  next_top ([] ∷ gs) e (_, l) = (
    inl (λ r q. close-IsSilent r (omega (arith, length-append (flat gs) [])), omega arith),
    LowerOk-transfer json here close-other gs (omega (arith, length-append (flat gs) [])) l,
  )
  next_top ((g ∷ gs) ∷ hs) e (inl n, l) = absurd (cons_ne_nil n)
  next_top ((g ∷ gs) ∷ hs) e (inr ok, l) = (
    FrameOk-transfer json here close-other (length (flat hs)) (g ∷ gs)
        (omega (arith, length-append (flat hs) (g ∷ gs))) ok,
    LowerOk-transfer json here close-other hs (omega (arith, length-append (flat hs) (g ∷ gs))) l,
  )

  -- Closing the innermost mapping leaves a set that represents the mappings outside it.
  pub close-Represents : Represents json (close k here) fs
  unfolding close
  close-Represents = record {
    filter_is = rw rep.filter_is (take-filters (flat fs) f);
    entries_is = rw rep.entries_is (take-entries_of (flat fs) f);
    json_is = rep.json_is;
    kinds = Kinds-append_left (flat fs) f rep.kinds;
    small = here_small;
    distinct = rep.distinct.1;
    top = next_top fs refl rep.top.1;
    owned = λ b nb r e. elim (Bool-cases (b == here)) [
      | inl same ↦ close-IsSilent r (ground arith)
      | inr other ↦ close-other r (ground arith) ∙ rep.owned b (ground arith, nb) r e
    ];
  }
