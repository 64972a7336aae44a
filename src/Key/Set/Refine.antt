-- ===== src/Key/Set/Refine.antt =====
-- `Record` of parser/key/set.go against the lookup in the innermost mapping's keys.
use go_yaml.Base.{
  ℕ, ◌+◌, ◌-◌, ◌≤◌, ◌<◌, ◌^◌, Bool, true, false, Option, none, some, List, [], ◌∷◌, ◌++◌, ◌==◌, leb,
  if◌then◌else◌, length, Bytes, ◌≡◌, refl, ap, sym, ◌∙◌, arith, inl, inr, length-append,
  Option-cases, Bool-cases, ◌%◌,
}
use go_yaml.Token.Position.{Position}
use go_yaml.Key.Set.{
  KeySet, Found, fresh, find, ref, spill, push, scan, key_filter, record_key, record_indexed,
  record_ref, record_name, index_key, Index,
}
use go_yaml.Key.Set.Spec.{
  Frame, flat, find_name, find_node, duplicate, spec_record, Kinds, found_name, found_node,
}
use go_yaml.Key.Set.Index.{keys_at}
use go_yaml.Key.Set.Lookup.{place, keys_at-node, keys_at-name, duplicate-node, duplicate-name}
use go_yaml.Key.Set.Push.{new_key}
use go_yaml.Key.Set.Record.{index_made, scan_lem, push-Records, index_key-Represents}
use go_yaml.Key.Set.Spill.{own_keys, spill-Agrees, spill-Represents}
use go_yaml.Key.Set.State.{Agrees, Represents, Kinds-append_right}

-- What `Record` has to do: return what the specification finds, in a set that represents its
-- mapping. `none` is a panic.
abbrev pub Records : Bool → List Frame → Frame × Found → Option (KeySet × Found) → Type 0
Records json fs s none = ⊥
Records json fs s (some (k, found)) = (found ≡ s.1) × Represents json k (s.0 ∷ fs)

-- the branches of `Record` below 64 keys
module _ (k : KeySet) (b : ℕ) (text : Bytes) (kind : ℕ) (pos : Position) where
  record_key-fresh :
      leb 64 (length k.entries - b) ≡ false
      → scan k b text (key_filter text kind) ≡ none
      → record_key k b text kind pos ≡ some (push k text pos (key_filter text kind), fresh)
  unfolding record_key
  record_key-fresh t e = rw (t, e)

  record_key-found :
      (found : Found)
      → leb 64 (length k.entries - b) ≡ false
      → scan k b text (key_filter text kind) ≡ some found
      → record_key k b text kind pos ≡ some (k, found)
  unfolding record_key
  record_key-found found t e = rw (t, e)

  record_key-indexed :
      leb 64 (length k.entries - b) ≡ true
      → record_key k b text kind pos
        ≡ record_ref
            (if length k.entries - b == 64 then spill k b else k)
            b
            text
            kind
            pos
            (key_filter text kind)
  unfolding record_key record_indexed
  record_key-indexed t = rw t

  record_ref-found :
      (f : ℕ) (prev : Position)
      → find k.index (ref b kind text) ≡ some prev
      → record_ref k b text kind pos f ≡ some (k, (prev, false, true))
  unfolding record_ref
  record_ref-found f prev e = rw (e, record_ref)

  record_ref-none :
      (f : ℕ)
      → find k.index (ref b kind text) ≡ none
      → record_ref k b text kind pos f ≡ record_name k b text kind pos f
  unfolding record_ref
  record_ref-none f e = rw (e, record_ref)

  record_name-found :
      (f : ℕ) (prev : Position)
      → k.json_names ≡ true
      → find k.index (ref b 255 text) ≡ some prev
      → record_name k b text kind pos f ≡ some (k, (prev, true, true))
  unfolding record_name
  record_name-found f prev j e = ground arith

  record_name-fresh :
      (f : ℕ) (ix : Index)
      → k.index ≡ some ix
      → (k.json_names ≡ true → find k.index (ref b 255 text) ≡ none)
      → record_name k b text kind pos f ≡ some (index_key k ix b text kind pos f, fresh)
  unfolding record_name
  record_name-fresh f ix i e = ground arith

module _ (json : Bool) (f : Frame) (fs : List Frame) (text : Bytes) (kind : ℕ) (pos : Position)
    (small : kind < 255) where
  abbrev here : ℕ
  here = length (flat fs)

  found-Records :
      (k : KeySet) (found : Found)
      → Represents json k (f ∷ fs)
      → duplicate json f text kind ≡ some found
      → Records json fs (spec_record json f text kind pos) (some (k, found))
  found-Records k found rep d = rw d (refl, rep)

  fresh-Records :
      (k : KeySet)
      → Represents json k ((f ++ new_key text kind pos ∷ []) ∷ fs)
      → duplicate json f text kind ≡ none
      → Records json fs (spec_record json f text kind pos) (some (k, fresh))
  fresh-Records k rep d = rw d (refl, rep)

  scanned-Records :
      (k : KeySet)
      → Represents json k (f ∷ fs)
      → length f < 64
      → length (flat (f ∷ fs)) + 1 < 2 ^ 32
      → Records json fs (spec_record json f text kind pos) (record_key k here text kind pos)
  scanned-Records k rep short room =
      let scanning : leb 64 (length k.entries - here) ≡ false =
        rw (own_keys json k f fs rep) (ground arith) in
      elim (Option-cases (duplicate json f text kind)) [
        | inl d ↦
            rw
              (record_key-fresh k here text kind pos scanning
                (scan_lem json f fs text kind pos small k rep ∙ d))
              (fresh-Records _ (push-Records json f fs text kind pos small k rep short room d) d)
        | inr (found, d) ↦
            rw
              (record_key-found k here text kind pos found scanning
                (scan_lem json f fs text kind pos small k rep ∙ d))
              (found-Records k found rep d)
      ]

  looked_up :
      (k : KeySet)
      → Represents json k (f ∷ fs)
      → Agrees json (find k.index) here f
      → find k.index (ref here kind text) ≡ place (find_node text kind f)
  looked_up k rep agrees =
      agrees (ref here kind text) (omega (arith, rep.small, length-append (flat fs) f))
      ∙ keys_at-node here json f kind text small

  -- the lookup by name and the writes
  written-Records :
      (k : KeySet)
      → Represents json k (f ∷ fs)
      → Agrees json (find k.index) here f
      → 64 ≤ length f
      → length (flat (f ∷ fs)) + 1 < 2 ^ 32
      → find_node text kind f ≡ none
      → (json ≡ true → keys_at here json f (ref here 255 text) ≡ none)
      → duplicate json f text kind ≡ none
      → Records json fs
          (spec_record json f text kind pos)
          (record_name k here text kind pos (key_filter text kind))
  written-Records k rep agrees full room no_node no_name new =
      let (ix, i) =
        index_made json k.index here f (omega (arith, length-append (flat fs) f)) agrees full in
      let base_is : here % 2 ^ 32 ≡ here = omega (arith, rep.small, length-append (flat fs) f) in
      rw
        (record_name-fresh k here text kind pos (key_filter text kind) ix i
          (λ j. agrees (ref here 255 text) base_is ∙ no_name (sym rep.json_is ∙ j)))
        (fresh-Records _
          (index_key-Represents json f fs text kind pos small k ix rep i agrees full room
            (keys_at-node here json f kind text small ∙ ap place no_node) no_name new)
          new)

  named-Records :
      (k : KeySet)
      → Represents json k (f ∷ fs)
      → Agrees json (find k.index) here f
      → 64 ≤ length f
      → length (flat (f ∷ fs)) + 1 < 2 ^ 32
      → find_node text kind f ≡ none
      → Records json fs
          (spec_record json f text kind pos)
          (record_name k here text kind pos (key_filter text kind))
  named-Records k rep agrees full room no_node = elim (Bool-cases json) [
    | inl j ↦ elim (Option-cases (find_name text f)) [
      | inl n ↦
          written-Records k rep agrees full room no_node
            (λ _. rw j (keys_at-name here f text own_kinds ∙ ap place n))
            (rw j (ap (found_name kind) n))
      | inr (key, n) ↦
          rw
            (record_name-found k here text kind pos (key_filter text kind) key.at (rep.json_is ∙ j)
              (agrees (ref here 255 text) start_base
                ∙ rw j (keys_at-name here f text own_kinds ∙ ap place n)))
            (found-Records k (key.at, true, true) rep
              (rw j (duplicate-name f text kind key no_node n)))
    ]
    | inr j ↦
        written-Records k rep agrees full room no_node (λ t. cc) (rw j (ap found_node no_node))
  ]
    where
      own_kinds : Kinds f
      own_kinds = Kinds-append_right (flat fs) f rep.kinds

      start_base : here % 2 ^ 32 ≡ here
      start_base = omega (arith, rep.small, length-append (flat fs) f)

  indexed-Records :
      (k : KeySet)
      → Represents json k (f ∷ fs)
      → Agrees json (find k.index) here f
      → 64 ≤ length f
      → length (flat (f ∷ fs)) + 1 < 2 ^ 32
      → Records json fs
          (spec_record json f text kind pos)
          (record_ref k here text kind pos (key_filter text kind))
  indexed-Records k rep agrees full room = elim (Option-cases (find_node text kind f)) [
    | inl n ↦
        rw
          (record_ref-none k here text kind pos (key_filter text kind)
            (looked_up k rep agrees ∙ ap place n))
          (named-Records k rep agrees full room n)
    | inr (key, n) ↦
        rw
          (record_ref-found k here text kind pos (key_filter text kind) key.at
            (looked_up k rep agrees ∙ ap place n))
          (found-Records k (key.at, false, true) rep
            (duplicate-node json f text kind key rep.distinct.0 n))
  ]

  past_scan :
      (k : KeySet)
      → Represents json k (f ∷ fs)
      → length (flat (f ∷ fs)) + 1 < 2 ^ 32
      → 64 ≤ length f
      → Records json fs (spec_record json f text kind pos) (
          record_ref
            (if length f == 64 then spill k here else k)
            here
            text
            kind
            pos
            (key_filter text kind))
  past_scan k rep room full = elim (Bool-cases (length f == 64)) [
    | inl exact ↦ rw exact (
        indexed-Records (spill k here) (spill-Represents json k f fs rep full)
          (spill-Agrees json k f fs rep) full room)
    | inr past ↦ rw past (elim rep.top.0 [
      | inl (silent, short) ↦ absurd (ground arith)
      | inr (agrees, _) ↦ indexed-Records k rep agrees full room
    ])
  ]

  -- On a set that represents a stack of mappings, `Record` at the start of the innermost one does not
  -- panic, returns what the stack finds, and leaves a set that represents the stack with the key
  -- recorded, if the kind is below 255 and fewer than 2 ^ 32 - 1 keys are held.
  pub record_key-Records :
      (k : KeySet)
      → Represents json k (f ∷ fs)
      → length (flat (f ∷ fs)) + 1 < 2 ^ 32
      → Records json fs (spec_record json f text kind pos) (record_key k here text kind pos)
  record_key-Records k rep room = elim (Bool-cases (leb 64 (length f))) [
    | inr short ↦ scanned-Records k rep (ground arith) room
    | inl full ↦
        rw
          (
            record_key-indexed k here text kind pos (rw (own_keys json k f fs rep) full),
            own_keys json k f fs rep,
          )
          (past_scan k rep room (ground arith))
  ]
