-- ===== src/Key/Set/Record.antt =====
-- The parts of `Record` (parser/key/set.go): its scan, its push and its writes to the index.
use go_yaml.Base.{
  ℕ, ◌+◌, ◌≤◌, ◌<◌, ◌%◌, ◌^◌, Bool, true, false, Option, none, some, List, [], ◌∷◌, ◌++◌,
  if◌then◌else◌, length, Bytes, ◌≡◌, ◌≢◌, refl, ◌∙◌, arith, inl, inr, length-append, ==-self,
  equal_self,
}
use go_yaml.Token.Position.{Position}
use go_yaml.Key.Set.{
  KeySet, MapKeyRef, Index, find, ref, push, put, scan, key_filter, scan_names, scan_nodes,
  index_key, same_ref,
}
use go_yaml.Key.Set.Spec.{Key, Frame, flat, filters, entries_of, Kinds, duplicate}
use go_yaml.Key.Set.Index.{keys_at, keys_at-append, or_else, put_lem, same_ref_eq}
use go_yaml.Key.Set.Scan.{scan_names-lem, scan_nodes-lem}
use go_yaml.Key.Set.Push.{new_key, Pushed-Represents}
use go_yaml.Key.Set.State.{
  Agrees, FrameOk, Represents, Kinds-append_right, drop-filters, drop-entries_of, same_ref-base,
}

scan_tail :
    (json : Bool) (f : Frame) (text : Bytes) (kind : ℕ)
    → kind < 255
    → Kinds f
    → (if json
        then scan_names (key_filter text kind) text (filters f) (entries_of f)
        else scan_nodes (key_filter text kind) text (filters f) (entries_of f))
      ≡ duplicate json f text kind
scan_tail true f text kind h v = scan_names-lem text kind f h v
scan_tail false f text kind h v = scan_nodes-lem text kind f h v

keys_at-first :
    (b : ℕ) (json : Bool) (k : Key) (ks : Frame)
    → keys_at b json (k ∷ ks) (ref b k.kind k.text) ≡ some k.at
unfolding same_ref
keys_at-first b json k ks = rw (==-self (b % 2 ^ 32), ==-self k.kind, equal_self k.text)

-- The two writes for a key at a reference, given what the index answers there.
new_key_at :
    (b : ℕ) (json : Bool) (ix : Index) (text : Bytes) (kind : ℕ) (pos : Position) (r : MapKeyRef)
    → (same_ref (ref b kind text) r ≡ true → ix r ≡ none)
    → (json ≡ true → same_ref (ref b 255 text) r ≡ true → ix r ≡ none)
    → put (if json then put ix (ref b 255 text) pos else ix) (ref b kind text) pos r
      ≡ or_else (ix r) (keys_at b json (new_key text kind pos ∷ []) r)
new_key_at b true ix text kind pos r node name = rw (put_lem, put_lem) (ground arith)
new_key_at b false ix text kind pos r node name = rw put_lem (ground arith)

-- a set whose index answers for a mapping with keys has an index
pub index_made :
    (json : Bool) (ix : Option Index) (b : ℕ) (f : Frame)
    → b < 2 ^ 32
    → Agrees json (find ix) b f
    → 64 ≤ length f
    → (i : Index) × (ix ≡ some i)
index_made json (some i) b f h a full = (i, refl)
index_made json none b [] h a full = absurd (omega arith)
index_made json none b (k ∷ ks) h a full =
    let first = a (ref b k.kind k.text) (omega arith) in
    absurd (unfold find in cc (first, keys_at-first b json k ks))

named_other :
    (json : Bool) (ix : Index) (b : ℕ) (text : Bytes) (pos : Position) (r : MapKeyRef)
    → b < 2 ^ 32
    → r.base ≢ b
    → (if json then put ix (ref b 255 text) pos else ix) r ≡ ix r
named_other true ix b text pos r h ne = rw (put_lem, same_ref-base b 255 text r h ne)
named_other false ix b text pos r h ne = refl

module _ (json : Bool) (f : Frame) (fs : List Frame) (text : Bytes) (kind : ℕ) (pos : Position)
    (small : kind < 255) where
  abbrev here : ℕ
  here = length (flat fs)

  pub scan_lem :
      (k : KeySet)
      → Represents json k (f ∷ fs)
      → scan k here text (key_filter text kind) ≡ duplicate json f text kind
  unfolding scan
  scan_lem k rep =
      rw
        (
          rep.filter_is,
          rep.entries_is,
          rep.json_is,
          drop-filters (flat fs) f,
          drop-entries_of (flat fs) f,
        )
        (scan_tail json f text kind small (Kinds-append_right (flat fs) f rep.kinds))

  push-top :
      (look : MapKeyRef → Option Position)
      → length f < 64
      → FrameOk json look here f
      → FrameOk json look here (f ++ new_key text kind pos ∷ [])
  push-top look short (inl (silent, _)) =
      inl (silent, omega (arith, length-append f (new_key text kind pos ∷ [])))
  push-top look short (inr (agrees, full)) = absurd (omega arith)

  pub push-Records :
      (k : KeySet)
      → Represents json k (f ∷ fs)
      → length f < 64
      → length (flat (f ∷ fs)) + 1 < 2 ^ 32
      → duplicate json f text kind ≡ none
      → Represents json
          (push k text pos (key_filter text kind))
          ((f ++ new_key text kind pos ∷ []) ∷ fs)
  unfolding push
  push-Records k rep short room new =
      Pushed-Represents json k _ f fs text kind pos rep
        (record {
          filter_is = refl;
          entries_is = refl;
          json_is = refl;
          top = push-top (find k.index) short rep.top.0;
          other = λ r ne. refl;
        })
        small room new

  pub index_key-Agrees :
      (k : KeySet) (ix : Index)
      → k.json_names ≡ json
      → Agrees json ix here f
      → keys_at here json f (ref here kind text) ≡ none
      → (json ≡ true → keys_at here json f (ref here 255 text) ≡ none)
      → Agrees json
          (find (index_key k ix here text kind pos (key_filter text kind)).index)
          here
          (f ++ new_key text kind pos ∷ [])
  unfolding index_key push find
  index_key-Agrees k ix e agrees no_node no_name r at =
      rw (e, keys_at-append here json f (new_key text kind pos ∷ []) r, ← agrees r at)
        (new_key_at here json ix text kind pos r
          (λ same. agrees r at ∙ rw (← same_ref_eq (ref here kind text) r same) no_node)
          (λ j same. agrees r at ∙ rw (← same_ref_eq (ref here 255 text) r same) (no_name j)))

  other_key :
      (k : KeySet) (ix : Index) (r : MapKeyRef)
      → k.index ≡ some ix
      → here < 2 ^ 32
      → r.base ≢ here
      → find (index_key k ix here text kind pos (key_filter text kind)).index r ≡ find k.index r
  unfolding index_key push find
  other_key k ix r e h ne =
      rw (e, put_lem, same_ref-base here kind text r h ne)
        (named_other k.json_names ix here text pos r h ne)

  pub index_key-Represents :
      (k : KeySet) (ix : Index)
      → Represents json k (f ∷ fs)
      → k.index ≡ some ix
      → Agrees json (find k.index) here f
      → 64 ≤ length f
      → length (flat (f ∷ fs)) + 1 < 2 ^ 32
      → keys_at here json f (ref here kind text) ≡ none
      → (json ≡ true → keys_at here json f (ref here 255 text) ≡ none)
      → duplicate json f text kind ≡ none
      → Represents json
          (index_key k ix here text kind pos (key_filter text kind))
          ((f ++ new_key text kind pos ∷ []) ∷ fs)
  index_key-Represents k ix rep e agrees full room no_node no_name new =
      let h : here < 2 ^ 32 = omega (arith, length-append (flat fs) f) in
      Pushed-Represents json k (index_key k ix here text kind pos (key_filter text kind)) f fs text
        kind pos rep
        (record {
          filter_is = unfold index_key push in refl;
          entries_is = unfold index_key push in refl;
          json_is = unfold index_key push in refl;
          top = inr (
            index_key-Agrees k ix rep.json_is (unfold find in rw e at agrees) no_node no_name,
            omega (arith, length-append f (new_key text kind pos ∷ [])),
          );
          other = λ r ne. other_key k ix r e h ne;
        })
        small room new
