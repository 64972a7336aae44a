-- ===== src/Key/Set/State.antt =====
-- How a key set of parser/key/set.go represents the open mappings of `Spec`, innermost first.
use go_yaml.Base.{
  ℕ, suc, ◌≤◌, ◌<◌, ◌^◌, Bool, true, false, Option, none, List, [], ◌∷◌, ◌++◌, length, Bytes, ◌≡◌,
  ◌≢◌, ◌⊎◌, refl, ap, sym, ◌∙◌, arith, inl, inr, length-append, drop, drop-length-append, take,
  take-length-append,
}
use go_yaml.Token.Position.{Position}
use go_yaml.Key.Set.{KeySet, MapKeyRef, find, key_filter, ref, same_ref}
use go_yaml.Key.Set.Spec.{Key, Frame, flat, filters, entries_of, Kinds, Distinct}
use go_yaml.Key.Set.Index.{keys_at}

abbrev pub Lookup : Type 0
Lookup = MapKeyRef → Option Position

-- no reference of the mapping that starts there is in the index
abbrev pub IsSilent : Lookup → ℕ → Type 0
IsSilent look b = (r : MapKeyRef) → r.base ≡ b → look r ≡ none

-- the index answers for the mapping that starts there as its keys do
abbrev pub Agrees : Bool → Lookup → ℕ → Frame → Type 0
Agrees json look b f = (r : MapKeyRef) → r.base ≡ b → look r ≡ keys_at b json f r

-- A mapping is in the index whole once it has passed 64 keys, and not at all below; at 64 either.
abbrev pub FrameOk : Bool → Lookup → ℕ → Frame → Type 0
FrameOk json look b f =
    (IsSilent look b × (length f ≤ 64)) ⊎ (Agrees json look b f × (64 ≤ length f))

-- The outer mappings: one without keys may share its start with the mapping inside it.
abbrev pub LowerOk : Bool → Lookup → List Frame → Type 0
LowerOk json look [] = Unit {0}
LowerOk json look (f ∷ fs) =
    ((f ≡ []) ⊎ FrameOk json look (length (flat fs)) f) × LowerOk json look fs

abbrev pub NotBase : ℕ → List Frame → Type 0
NotBase b [] = Unit {0}
NotBase b (f ∷ fs) = (b ≢ length (flat fs)) × NotBase b fs

abbrev pub TopOk : Bool → Lookup → List Frame → Type 0
TopOk json look [] = Unit {0}
TopOk json look (f ∷ fs) = FrameOk json look (length (flat fs)) f × LowerOk json look fs

abbrev pub AllDistinct : Bool → List Frame → Type 0
AllDistinct json [] = Unit {0}
AllDistinct json (f ∷ fs) = (json ≡ true → Distinct f) × AllDistinct json fs

pub record Represents (json : Bool) (k : KeySet) (frames : List Frame) : Type 0 where
  pub filter_is : k.filter ≡ filters (flat frames)
  pub entries_is : k.entries ≡ entries_of (flat frames)
  pub json_is : k.json_names ≡ json
  pub kinds : Kinds (flat frames)
  pub small : length (flat frames) < 2 ^ 32
  pub distinct : AllDistinct json frames
  pub top : TopOk json (find k.index) frames
  pub owned : (b : ℕ) → NotBase b frames → IsSilent (find k.index) b

pub filters-append : (ks ls : Frame) → filters (ks ++ ls) ≡ filters ks ++ filters ls
filters-append [] ls = refl
filters-append (k ∷ ks) ls = ap (◌∷◌ (key_filter k.text k.kind)) (filters-append ks ls)

pub entries_of-append : (ks ls : Frame) → entries_of (ks ++ ls) ≡ entries_of ks ++ entries_of ls
entries_of-append [] ls = refl
entries_of-append (k ∷ ks) ls =
    ap (◌∷◌ (record { text = k.text; at = k.at })) (entries_of-append ks ls)

pub length-filters : (ks : Frame) → length (filters ks) ≡ length ks
length-filters [] = refl
length-filters (k ∷ ks) = ap suc (length-filters ks)

pub length-entries_of : (ks : Frame) → length (entries_of ks) ≡ length ks
length-entries_of [] = refl
length-entries_of (k ∷ ks) = ap suc (length-entries_of ks)

pub Kinds-append_right : (ks ls : Frame) → Kinds (ks ++ ls) → Kinds ls
Kinds-append_right [] ls v = v
Kinds-append_right (k ∷ ks) ls (p, v) = Kinds-append_right ks ls v

pub Kinds-append_left : (ks ls : Frame) → Kinds (ks ++ ls) → Kinds ks
Kinds-append_left [] ls v = tt
Kinds-append_left (k ∷ ks) ls (p, v) = (p, Kinds-append_left ks ls v)

pub Kinds-append : (ks ls : Frame) → Kinds ks → Kinds ls → Kinds (ks ++ ls)
Kinds-append [] ls v w = w
Kinds-append (k ∷ ks) ls (p, v) w = (p, Kinds-append ks ls v w)

-- The keys above a mapping's start are its own.
module _ (outer own : Frame) where
  pub drop-filters : drop (length outer) (filters (outer ++ own)) ≡ filters own
  drop-filters =
      rw (filters-append outer own, ← length-filters outer)
        (drop-length-append (filters outer) (filters own))

  pub drop-entries_of : drop (length outer) (entries_of (outer ++ own)) ≡ entries_of own
  drop-entries_of =
      rw (entries_of-append outer own, ← length-entries_of outer)
        (drop-length-append (entries_of outer) (entries_of own))

  pub take-filters : take (length outer) (filters (outer ++ own)) ≡ filters outer
  take-filters =
      rw (filters-append outer own, ← length-filters outer)
        (take-length-append (filters outer) (filters own))

  pub take-entries_of : take (length outer) (entries_of (outer ++ own)) ≡ entries_of outer
  take-entries_of =
      rw (entries_of-append outer own, ← length-entries_of outer)
        (take-length-append (entries_of outer) (entries_of own))

-- what another mapping's references find
pub same_ref-base :
    (b kind : ℕ) (text : Bytes) (r : MapKeyRef)
    → b < 2 ^ 32
    → r.base ≢ b
    → same_ref (ref b kind text) r ≡ false
unfolding same_ref
same_ref-base b kind text r h ne = ground arith

pub keys_at-other :
    (b : ℕ) (json : Bool) (ks : Frame) (r : MapKeyRef)
    → b < 2 ^ 32
    → r.base ≢ b
    → keys_at b json ks r ≡ none
keys_at-other b json [] r h ne = refl
keys_at-other b json (k ∷ ks) r h ne =
    rw
      (
        same_ref-base b k.kind k.text r h ne,
        same_ref-base b 255 k.text r h ne,
        keys_at-other b json ks r h ne,
      )
      (ground arith)

cons_ne_nil : {k : Key} {ks : Frame} → (k ∷ ks) ≢ []
cons_ne_nil e = cc

-- A change to the index at one start leaves the mappings below it as they were.
module _ (json : Bool) {look look' : Lookup} (b : ℕ)
    (same : (r : MapKeyRef) → r.base ≢ b → look' r ≡ look r) where
  pub FrameOk-transfer :
      (c : ℕ) (f : Frame) → c ≢ b → FrameOk json look c f → FrameOk json look' c f
  FrameOk-transfer c f ne (inl (silent, short)) =
      inl (λ r e. same r (λ q. ne (sym e ∙ q)) ∙ silent r e, short)
  FrameOk-transfer c f ne (inr (agrees, full)) =
      inr (λ r e. same r (λ q. ne (sym e ∙ q)) ∙ agrees r e, full)

  pub LowerOk-transfer :
      (fs : List Frame) → length (flat fs) ≤ b → LowerOk json look fs → LowerOk json look' fs
  LowerOk-transfer [] h l = tt
  LowerOk-transfer ([] ∷ fs) h (_, l) =
      (inl refl, LowerOk-transfer fs (omega (arith, length-append (flat fs) [])) l)
  LowerOk-transfer ((k ∷ ks) ∷ fs) h (inl e, l) = absurd (cons_ne_nil e)
  LowerOk-transfer ((k ∷ ks) ∷ fs) h (inr ok, l) = (
    inr (
        FrameOk-transfer (length (flat fs)) (k ∷ ks)
          (omega (arith, length-append (flat fs) (k ∷ ks))) ok),
    LowerOk-transfer fs (omega (arith, length-append (flat fs) (k ∷ ks))) l,
  )
