-- ===== src/Key/Set/Holds.antt =====
-- `Holds` of parser/key/set.go: where it answers for the mapping's names, and where it does not.
use go_yaml.Base.{
  ℕ, ◌<◌, ◌^◌, Bool, true, false, Option, none, some, List, ◌∷◌, leb, if◌then◌else◌, length, Bytes,
  ◌≡◌, ◌≢◌, ◌⊎◌, refl, ap, ◌∙◌, arith, inl, inr, length-append, is_some, ◌&&◌, ◌%◌,
}
use go_yaml.Token.Position.{Position}
use go_yaml.Key.Set.{KeySet, Index, find, ref, holds}
use go_yaml.Key.Set.Spec.{Key, Frame, flat, find_name}
use go_yaml.Key.Set.Lookup.{place, keys_at-name}
use go_yaml.Key.Set.Scan.{scan_holds-lem}
use go_yaml.Key.Set.Spill.{own_keys}
use go_yaml.Key.Set.State.{IsSilent, Represents, Kinds-append_right, drop-filters, drop-entries_of}

is_some-place : (o : Option Key) → is_some (place o) ≡ is_some o
is_some-place none = refl
is_some-place (some k) = refl

module _ (json : Bool) (k : KeySet) (f : Frame) (fs : List Frame) (rep : Represents json k (f ∷ fs))
    (text : Bytes) where
  abbrev here : ℕ
  here = length (flat fs)

  holds_lem : holds k here text ≡ (
      if json && is_some k.index && leb 64 (length f)
      then is_some (find k.index (ref here 255 text))
      else is_some (find_name text f))
  unfolding holds
  holds_lem = rw (
    own_keys json k f fs rep,
    rep.filter_is,
    rep.entries_is,
    rep.json_is,
    drop-filters (flat fs) f,
    drop-entries_of (flat fs) f,
    scan_holds-lem text f (Kinds-append_right (flat fs) f rep.kinds),
  )

  base_is : here % 2 ^ 32 ≡ here
  base_is = omega (arith, rep.small, length-append (flat fs) f)

  indexed_name :
      json ≡ true
      → 64 < length f
      → is_some (find k.index (ref here 255 text)) ≡ is_some (find_name text f)
  indexed_name j past = elim rep.top.0 [
    | inl (silent, short) ↦ absurd (omega arith)
    | inr (agrees, full) ↦
        ap (λ (o : Option Position). is_some o)
          (agrees (ref here 255 text) base_is
            ∙ rw j (keys_at-name here f text (Kinds-append_right (flat fs) f rep.kinds)))
        ∙ is_some-place (find_name text f)
  ]

  -- Away from exactly 64 keys, `Holds` says whether some key of the innermost mapping has the name;
  -- without JSON names it does so at 64 too.
  pub holds_correct :
      (json ≡ false) ⊎ (length f ≢ 64) → holds k here text ≡ is_some (find_name text f)
  holds_correct h = holds_lem ∙ ground (arith, indexed_name)

  -- Under JSON names, at exactly 64 keys that are not in an index made for another mapping, `Holds`
  -- denies every name, those of the keys too.
  pub holds_misses :
      (ix : Index)
      → json ≡ true
      → k.index ≡ some ix
      → length f ≡ 64
      → IsSilent (find k.index) here
      → holds k here text ≡ false
  holds_misses ix j i exact silent = holds_lem ∙ ground (arith, silent (ref here 255 text) base_is)
