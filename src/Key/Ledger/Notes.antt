-- ===== src/Key/Ledger/Notes.antt =====
-- What `Ledger` of parser/key/ledger.go notes, against the stack of mappings that its set represents.
use go_yaml.Base.{
  ℕ, ◌+◌, ◌<◌, ◌^◌, Bool, true, false, Option, none, some, List, [], ◌∷◌, ◌++◌, length, Bytes, ◌≡◌,
  refl, ap, sym, ◌∙◌, arith, append-nil,
}
use go_yaml.Key.Ledger.{
  Ledger, OpenMap, Target, on_mapping, DuplicateKey, repeat, record_once, record_found, record_new,
  note_duplicate, note,
}
use go_yaml.Key.Set.{KeySet, Found, record_key}
use go_yaml.Key.Set.Refine.{Records, record_key-Records}
use go_yaml.Key.Set.Spec.{
  Key, Frame, flat, duplicate, spec_record, recorded, find_name, find_node, found_name, found_node,
}
use go_yaml.Key.Set.State.{Represents}
use go_yaml.Token.Position.{Position, no_position}

-- the note that a use of a key leaves on the mapping, if it finds one
abbrev pub spec_notes : ℕ → Bool → Bytes → Position → Option Found → List (Target × DuplicateKey)
spec_notes node allowed text pos none = []
spec_notes node allowed text pos (some (first, json_only, defined)) =
    (on_mapping node, record (repeat text pos first json_only) { allowed = allowed }) ∷ []

found_name-flag : (kind : ℕ) (o : Option Key) (x : Found) → found_name kind o ≡ some x → x.2 ≡ true
found_name-flag kind none x e = cc
found_name-flag kind (some k) x e = ground (arith, e)

found_node-flag : (o : Option Key) (x : Found) → found_node o ≡ some x → x.2 ≡ true
found_node-flag none x e = cc
found_node-flag (some k) x e = ground (arith, e)

duplicate-flag :
    (json : Bool) (f : Frame) (text : Bytes) (kind : ℕ) (x : Found)
    → duplicate json f text kind ≡ some x
    → x.2 ≡ true
duplicate-flag true f text kind x e = found_name-flag kind (find_name text f) x e
duplicate-flag false f text kind x e = found_node-flag (find_node text kind f) x e

record_new-plain :
    (l : Ledger) (top : OpenMap) (rest : List OpenMap) (text : Bytes) (kind : ℕ) (pos : Position)
    → top.entry_of ≡ none
    → record_new l (top ∷ rest) text kind pos ≡ some l
unfolding record_new
record_new-plain l top rest text kind pos e = ground arith

module _ (l : Ledger) (top : OpenMap) (rest : List OpenMap) (text : Bytes) (kind : ℕ)
    (pos : Position) (opened : l.open_maps ≡ top ∷ rest) where
  record_found-repeat :
      (first : Position) (json_only : Bool)
      → record_found l text kind pos (first, json_only, true)
        ≡ some (
            note l
              (on_mapping top.node)
              (record (repeat text pos first json_only) { allowed = l.allow_repeats }))
  unfolding record_found note_duplicate
  record_found-repeat first json_only = rw opened refl

  record_found-new :
      (first : Position) (json_only : Bool)
      → top.entry_of ≡ none
      → record_found l text kind pos (first, json_only, false) ≡ some l
  unfolding record_found
  record_found-new first json_only e =
      ap (λ (ms : List OpenMap). record_new l ms text kind pos) opened
      ∙ record_new-plain l top rest text kind pos e

note-notes :
    (l : Ledger) (t : Target) (d : DuplicateKey) → (note l t d).notes ≡ l.notes ++ (t, d) ∷ []
unfolding note
note-notes l t d = refl

note-keys : (l : Ledger) (t : Target) (d : DuplicateKey) → (note l t d).keys ≡ l.keys
unfolding note
note-keys l t d = refl

record_once-some :
    (l : Ledger) (b : ℕ) (text : Bytes) (kind : ℕ) (pos : Position) (k : KeySet) (found : Found)
    → record_key l.keys b text kind pos ≡ some (k, found)
    → record_once l b text kind pos ≡ record_found (record l { keys = k }) text kind pos found
unfolding record_once
record_once-some l b text kind pos k found e = rw (record_once, e) refl

module _ (json : Bool) (f : Frame) (fs : List Frame) (text : Bytes) (kind : ℕ) (pos : Position)
    (l : Ledger) (top : OpenMap) (rest : List OpenMap) (opened : l.open_maps ≡ top ∷ rest)
    (plain : top.entry_of ≡ none) where
  -- what one use of a key comes to
  abbrev pub Outcome : Option Ledger → Type 0
  Outcome o =
      (l' : Ledger) × (o ≡ some l')
      × (l'.notes
          ≡ l.notes ++ spec_notes top.node l.allow_repeats text pos (duplicate json f text kind))
      × Represents json l'.keys ((spec_record json f text kind pos).0 ∷ fs)

  outcome :
      (k : KeySet) (found : Found) (d : Option Found)
      → duplicate json f text kind ≡ d
      → found ≡ (recorded f text kind pos d).1
      → Represents json k ((recorded f text kind pos d).0 ∷ fs)
      → Outcome (record_found (record l { keys = k }) text kind pos found)
  outcome k found none d same rep =
      let kept = record l { keys = k } in
      (
        kept,
        ap (record_found kept text kind pos) same
            ∙ record_found-new kept top rest text kind pos opened no_position false plain,
        rw d (sym (append-nil l.notes)),
        rw d rep,
      )
  outcome k found (some (first, json_only, flag)) d same rep =
      let kept = record l { keys = k } in
      let dup : DuplicateKey = record (repeat text pos first json_only) {
        allowed = l.allow_repeats;
      } in
      let flagged : flag ≡ true = duplicate-flag json f text kind (first, json_only, flag) d in
      (
        note kept (on_mapping top.node) dup,
        ap (record_found kept text kind pos)
              (same ∙ ap (λ (t : Bool). (first, json_only, t)) flagged)
            ∙ record_found-repeat kept top rest text kind pos opened first json_only,
        note-notes kept (on_mapping top.node) dup ∙ rw d refl,
        rw (d, note-keys kept (on_mapping top.node) dup) rep,
      )

  from_record :
      (r : Option (KeySet × Found))
      → record_key l.keys (length (flat fs)) text kind pos ≡ r
      → Records json fs (spec_record json f text kind pos) r
      → Outcome (record_once l (length (flat fs)) text kind pos)
  from_record none e records = absurd records
  from_record (some (k, found)) e (same, rep) =
      let (l', is, noted, kept) = outcome k found (duplicate json f text kind) refl same rep in
      (l', record_once-some l (length (flat fs)) text kind pos k found e ∙ is, noted, kept)

  -- In a mapping that is no entry of an ordered map, `RecordOnce` does not panic. It notes a repeated
  -- key on that mapping, with where the key was first written, and nothing else, just if the mapping has
  -- the key; else the key joins it. The kind is below 255 and fewer than 2 ^ 32 - 1 keys are held.
  pub record_once-notes :
      Represents json l.keys (f ∷ fs)
      → kind < 255
      → length (flat (f ∷ fs)) + 1 < 2 ^ 32
      → Outcome (record_once l (length (flat fs)) text kind pos)
  record_once-notes rep small room =
      from_record (record_key l.keys (length (flat fs)) text kind pos) refl
        (record_key-Records json f fs text kind pos small l.keys rep room)
