-- ===== src/Key/Set/Open.antt =====
-- The start of a mapping (`Base`), the fresh set and `Reset` of parser/key/set.go.
use go_yaml.Base.{
  ℕ, ◌<◌, Bool, false, List, [], ◌∷◌, ◌++◌, length, ◌≡◌, refl, arith, inl, inr, length-append,
  append-nil,
}
use go_yaml.Key.Set.{KeySet, find, reset, empty, base, use_json_names}
use go_yaml.Key.Set.Spec.{Frame, flat}
use go_yaml.Key.Set.State.{Lookup, IsSilent, LowerOk, TopOk, NotBase, Represents, length-entries_of}

NotBase-above : (fs : List Frame) (b : ℕ) → length (flat fs) < b → NotBase b fs
NotBase-above [] b h = tt
NotBase-above (f ∷ fs) b h = (
  omega (arith, length-append (flat fs) f),
  NotBase-above fs b (omega (arith, length-append (flat fs) f)),
)

IsSilent-start :
    (json : Bool) (look : Lookup) (frames : List Frame)
    → TopOk json look frames
    → ((b : ℕ) → NotBase b frames → IsSilent look b)
    → IsSilent look (length (flat frames))
IsSilent-start json look [] top owned = owned 0 tt
IsSilent-start json look ([] ∷ fs) (inl (silent, _), l) owned =
    λ r e. silent r (omega (arith, length-append (flat fs) []))
IsSilent-start json look ([] ∷ fs) (inr (agrees, full), l) owned = absurd (omega arith)
IsSilent-start json look ((k ∷ ks) ∷ fs) (ok, l) owned = owned (length (flat fs ++ k ∷ ks)) (
  omega (arith, length-append (flat fs) (k ∷ ks)),
  NotBase-above fs (length (flat fs ++ k ∷ ks)) (omega (arith, length-append (flat fs) (k ∷ ks))),
)

lower :
    (json : Bool) (look : Lookup) (frames : List Frame)
    → TopOk json look frames
    → LowerOk json look frames
lower json look [] top = tt
lower json look (f ∷ fs) (ok, l) = (inr ok, l)

module _ (json : Bool) (k : KeySet) (frames : List Frame) (rep : Represents json k frames) where
  -- `Base` is where the keys of a mapping opened now will start.
  pub base-Represents : base k ≡ length (flat frames)
  unfolding base
  base-Represents = rw rep.entries_is (length-entries_of (flat frames))

  pub open-Represents : Represents json k ([] ∷ frames)
  open-Represents = record {
    filter_is = rw (append-nil (flat frames)) rep.filter_is;
    entries_is = rw (append-nil (flat frames)) rep.entries_is;
    json_is = rep.json_is;
    kinds = rw (append-nil (flat frames)) rep.kinds;
    small = rw (append-nil (flat frames)) rep.small;
    distinct = (λ _. tt, rep.distinct);
    top = (
      inl (IsSilent-start json (find k.index) frames rep.top rep.owned, omega arith),
      lower json (find k.index) frames rep.top,
    );
    owned = λ b nb. rep.owned b nb.1;
  }

  pub reset-Represents : Represents false (reset k) []
  unfolding reset find
  reset-Represents = record {
    filter_is = refl;
    entries_is = refl;
    json_is = refl;
    kinds = tt;
    small = omega arith;
    distinct = tt;
    top = tt;
    owned = λ b nb r e. ground arith;
  }

pub empty-Represents : (json : Bool) → Represents json (use_json_names empty json) []
unfolding use_json_names find
empty-Represents json = record {
  filter_is = refl;
  entries_is = refl;
  json_is = refl;
  kinds = tt;
  small = omega arith;
  distinct = tt;
  top = tt;
  owned = λ b nb r e. refl;
}
