-- ===== src/Key/Set/Trace.antt =====
-- Whole uses of the key set of parser/key/set.go, as the parser makes them: a mapping opens with
-- `Base`, its keys go to `Record`, it ends with `Close`.
use go_yaml.Base.{
  ℕ, ◌+◌, ◌<◌, ◌≤◌, ◌^◌, Bool, Option, none, some, List, [], ◌∷◌, length, Bytes, ◌≡◌, refl, arith,
  length-append,
}
use go_yaml.Token.Position.{Position}
use go_yaml.Key.Set.{KeySet, Found, base, record_key, close, use_json_names, empty}
use go_yaml.Key.Set.Spec.{Frame, flat, spec_record, recorded, duplicate}
use go_yaml.Key.Set.State.{Represents}
use go_yaml.Key.Set.Refine.{Records, record_key-Records}
use go_yaml.Key.Set.Close.{close-Represents}
use go_yaml.Key.Set.Open.{base-Represents, open-Represents, empty-Represents}

pub data Use : Type 0 where
  opens : Use
  uses : Bytes → ℕ → Position → Use
  closes : Use

abbrev pub KeyKinds : List Use → Type 0
KeyKinds [] = Unit {0}
KeyKinds (uses text kind pos ∷ us) = (kind < 255) × KeyKinds us
KeyKinds (opens ∷ us) = KeyKinds us
KeyKinds (closes ∷ us) = KeyKinds us

abbrev pub answered : Found → Option (List Found) → Option (List Found)
answered found none = none
answered found (some rest) = some (found ∷ rest)

-- go on from what `Record` returned
abbrev pub then_run : Option (KeySet × Found) → (KeySet → Option (List Found)) → Option (List Found)
then_run none go = none
then_run (some (k, found)) go = answered found (go k)

-- The answers of `Record` in order, by the set and the bases of the open mappings, innermost first.
-- `none` where the code panics or no mapping is open.
abbrev pub run : KeySet → List ℕ → List Use → Option (List Found)
run k bs [] = some []
run k bs (opens ∷ us) = run k (base k ∷ bs) us
run k (b ∷ bs) (uses text kind pos ∷ us) =
    then_run (record_key k b text kind pos) (λ next. run next (b ∷ bs) us)
run k [] (uses text kind pos ∷ us) = none
run k (b ∷ bs) (closes ∷ us) = run (close k b) bs us
run k [] (closes ∷ us) = none

-- the same by the specification
abbrev pub spec_run : Bool → List Frame → List Use → Option (List Found)
spec_run json fs [] = some []
spec_run json fs (opens ∷ us) = spec_run json ([] ∷ fs) us
spec_run json (f ∷ fs) (uses text kind pos ∷ us) =
    let next = spec_record json f text kind pos in answered next.1 (spec_run json (next.0 ∷ fs) us)
spec_run json [] (uses text kind pos ∷ us) = none
spec_run json (f ∷ fs) (closes ∷ us) = spec_run json fs us
spec_run json [] (closes ∷ us) = none

abbrev pub starts : List Frame → List ℕ
starts [] = []
starts (f ∷ fs) = length (flat fs) ∷ starts fs

recorded-length :
    (f : Frame) (text : Bytes) (kind : ℕ) (pos : Position) (d : Option Found)
    → length (recorded f text kind pos d).0 ≤ length f + 1
recorded-length f text kind pos none =
    omega (arith, length-append f (record { text = text; kind = kind; at = pos } ∷ []))
recorded-length f text kind pos (some found) = omega arith

then_run-Records :
    (json : Bool) (fs : List Frame) (s : Frame × Found) (r : Option (KeySet × Found))
    (go : KeySet → Option (List Found)) (rest : Option (List Found))
    → Records json fs s r
    → ((k : KeySet) → Represents json k (s.0 ∷ fs) → go k ≡ rest)
    → then_run r go ≡ answered s.1 rest
then_run-Records json fs s none go rest r h = absurd r
then_run-Records json fs s (some (k, found)) go rest (same, rep) h = rw (same, h k rep) refl

run_lem :
    (json : Bool) (us : List Use) (fs : List Frame) (k : KeySet)
    → Represents json k fs
    → KeyKinds us
    → length (flat fs) + length us < 2 ^ 32
    → run k (starts fs) us ≡ spec_run json fs us
run_lem json [] fs k rep ks room = refl
run_lem json (opens ∷ us) fs k rep ks room = rw (base-Represents json k fs rep) (
    run_lem json us ([] ∷ fs) k (open-Represents json k fs rep) ks
      (omega (arith, length-append (flat fs) [])))
run_lem json (uses text kind pos ∷ us) (f ∷ fs) k rep (small, ks) room =
    let next = spec_record json f text kind pos in
    then_run-Records json fs next (record_key k (length (flat fs)) text kind pos)
      (λ k'. run k' (starts (f ∷ fs)) us) (spec_run json (next.0 ∷ fs) us)
      (record_key-Records json f fs text kind pos small k rep (omega arith))
      (λ k' rep'. run_lem json us (next.0 ∷ fs) k' rep' ks (
        omega (
          arith,
          length-append (flat fs) f,
          length-append (flat fs) next.0,
          recorded-length f text kind pos (duplicate json f text kind),
        )))
run_lem json (uses text kind pos ∷ us) [] k rep ks room = refl
run_lem json (closes ∷ us) (f ∷ fs) k rep ks room =
    run_lem json us fs (close k (length (flat fs))) (close-Represents json k f fs rep) ks
      (omega (arith, length-append (flat fs) f))
run_lem json (closes ∷ us) [] k rep ks room = refl

-- From the empty set, with JSON names on or off, any sequence of openings, uses of keys and closings
-- answers each key as the specification does, the position of the first use and both flags, and no
-- write panics, if every kind is below 255 and the sequence is shorter than 2 ^ 32.
pub run-from_empty :
    (json : Bool) (us : List Use)
    → KeyKinds us
    → length us < 2 ^ 32
    → run (use_json_names empty json) [] us ≡ spec_run json [] us
run-from_empty json us ks room =
    run_lem json us [] (use_json_names empty json) (empty-Represents json) ks (omega arith)
