-- ===== src/Key/Set/Push.antt =====
-- A key that is no duplicate joins the innermost mapping (parser/key/set.go, `push`).
use go_yaml.Base.{
  ℕ, ◌+◌, ◌<◌, ◌^◌, Bool, true, false, Option, none, some, List, [], ◌∷◌, ◌++◌, length, Bytes, ◌≡◌,
  ◌≢◌, refl, sym, ◌∙◌, arith, length-append, append_assoc, is_some, equal, equal_iff,
}
use go_yaml.Token.Position.{Position}
use go_yaml.Key.Set.{KeySet, MapKeyRef, find, key_filter}
use go_yaml.Key.Set.Spec.{Key, Frame, flat, Distinct, find_name, found_name, duplicate}
use go_yaml.Key.Set.State.{
  FrameOk, Represents, filters-append, entries_of-append, LowerOk-transfer, Kinds-append,
}

abbrev pub new_key : Bytes → ℕ → Position → Key
new_key text kind pos = record { text = text; kind = kind; at = pos }

find_name-append :
    (name : Bytes) (f : Frame) (text : Bytes) (kind : ℕ) (pos : Position)
    → is_some (find_name name f) ≡ false
    → equal text name ≡ false
    → is_some (find_name name (f ++ new_key text kind pos ∷ [])) ≡ false
find_name-append name [] text kind pos h ne = rw ne
find_name-append name (k ∷ ks) text kind pos h ne =
    ground (arith, find_name-append name ks text kind pos)

Distinct-append :
    (f : Frame) (text : Bytes) (kind : ℕ) (pos : Position)
    → Distinct f
    → find_name text f ≡ none
    → Distinct (f ++ new_key text kind pos ∷ [])
Distinct-append [] text kind pos d h = (refl, tt)
Distinct-append (k ∷ ks) text kind pos (d, ds) h =
    let ne : equal text k.text ≡ false =
      ground (arith, equal_iff text k.text, equal_iff k.text text) in
    let rest : find_name text ks ≡ none = ground arith in
    (find_name-append k.text ks text kind pos d ne, Distinct-append ks text kind pos ds rest)

not_found : (kind : ℕ) (o : Option Key) → found_name kind o ≡ none → o ≡ none
not_found kind none h = refl
not_found kind (some k) h = cc

pub push-Distinct :
    (json : Bool) (f : Frame) (text : Bytes) (kind : ℕ) (pos : Position)
    → (json ≡ true → Distinct f)
    → duplicate json f text kind ≡ none
    → json ≡ true
    → Distinct (f ++ new_key text kind pos ∷ [])
push-Distinct true f text kind pos d h e =
    Distinct-append f text kind pos (d refl) (not_found kind (find_name text f) h)
push-Distinct false f text kind pos d h e = cc

-- `after` is the set with the key on its stack and an index that serves the grown mapping.
pub record Pushed (json : Bool) (k after : KeySet) (f : Frame) (fs : List Frame) (key : Key)
    : Type 0 where
  pub filter_is : after.filter ≡ k.filter ++ key_filter key.text key.kind ∷ []
  pub entries_is : after.entries ≡ k.entries ++ record { text = key.text; at = key.at } ∷ []
  pub json_is : after.json_names ≡ k.json_names
  pub top : FrameOk json (find after.index) (length (flat fs)) (f ++ key ∷ [])
  pub other : (r : MapKeyRef) → r.base ≢ length (flat fs) → find after.index r ≡ find k.index r

pub Pushed-Represents :
    (json : Bool) (k after : KeySet) (f : Frame) (fs : List Frame) (text : Bytes) (kind : ℕ)
    (pos : Position)
    → Represents json k (f ∷ fs)
    → Pushed json k after f fs (new_key text kind pos)
    → kind < 255
    → length (flat (f ∷ fs)) + 1 < 2 ^ 32
    → duplicate json f text kind ≡ none
    → Represents json after ((f ++ new_key text kind pos ∷ []) ∷ fs)
Pushed-Represents json k after f fs text kind pos rep p small room new =
    let key = new_key text kind pos in
    let grown : flat fs ++ (f ++ key ∷ []) ≡ (flat fs ++ f) ++ key ∷ [] =
      sym (append_assoc (flat fs) f (key ∷ [])) in
    record {
      filter_is =
          p.filter_is ∙ rw (rep.filter_is, grown) (sym (filters-append (flat fs ++ f) (key ∷ [])));
      entries_is =
          p.entries_is
          ∙ rw (rep.entries_is, grown) (sym (entries_of-append (flat fs ++ f) (key ∷ [])));
      json_is = p.json_is ∙ rep.json_is;
      kinds = rw grown (Kinds-append (flat fs ++ f) (key ∷ []) rep.kinds (small, tt));
      small = rw grown (omega (arith, length-append (flat fs ++ f) (key ∷ [])));
      distinct = (push-Distinct json f text kind pos rep.distinct.0 new, rep.distinct.1);
      top = (p.top, LowerOk-transfer json (length (flat fs)) p.other fs (omega arith) rep.top.1);
      owned = λ b nb r e. p.other r (λ q. nb.0 (sym e ∙ q)) ∙ rep.owned b nb r e;
    }
