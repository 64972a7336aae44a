-- ===== src/Parser/Scope.antt =====
-- The scope of a YAML directive, in parser/version.go: the document behind it and no other.
use go_yaml.Parser.Version.{
  yaml_versions, version_schema, Raw, retype_ahead, Parser, schema_in_force, first_ahead,
  end_version_scope, VersionError, unknown_version, specified_twice, declare_version,
}
use go_yaml.Parser.Retype.{Cut, cut, fits, retype_ahead-cut}
use go_yaml.Base.{
  ℕ, suc, Bool, true, false, not, ◌&&◌, if◌then◌else◌, Option, none, some, List, [], ◌∷◌, ◌++◌,
  length, Bytes, equal, one_of, ◌≡◌, refl, ap, sym, ◌∙◌, Bool-cases, inl, inr,
}

-- The scanner's schema is the one in force, and the plain scalars behind the tokens taken have the types
-- their texts have under it.
pub record IsCut (p : Parser) (taken : List (Option Raw)) (cs : List Cut) : Type 0 where
  pub scans : p.scan_schema ≡ schema_in_force p
  pub ahead : p.tokens ≡ taken ++ cut (schema_in_force p) cs

nothing_declared :
    (p : Parser)
    → equal p.yaml_version [] ≡ true
    → schema_in_force p ≡ version_schema p.option_version
unfolding schema_in_force
nothing_declared p h = rw h refl

-- The end of a document's scope puts the schema of the options in force and gives it to the scanner, and
-- the plain scalars behind the tokens taken have the types of their texts under it, where they had those
-- under the schema before, the first of them is where the reader stands, and the content of each block
-- scalar there stands directly behind its header.
pub end_version_scope-IsCut :
    (p : Parser) (taken : List (Option Raw)) (cs : List Cut)
    → fits cs ≡ true
    → first_ahead p.not_taken p.reader_seq ≡ length taken
    → IsCut p taken cs
    → IsCut (end_version_scope p) taken cs
      × (schema_in_force (end_version_scope p) ≡ version_schema p.option_version)
unfolding end_version_scope schema_in_force version_schema equal
end_version_scope-IsCut p taken cs h at c = elim (Bool-cases (equal p.yaml_version [])) [
  | inl y ↦ rw y (c, nothing_declared p y)
  | inr n ↦ rw n (
    record {
      scans = refl;
      ahead =
          ap (retype_ahead (version_schema p.option_version) _) c.ahead
          ∙ retype_ahead-cut (schema_in_force p) (version_schema p.option_version) _ taken cs h at;
    },
    refl,
  )
]

declared : (value : Bytes) → one_of yaml_versions value ≡ true → equal value [] ≡ false
unfolding one_of yaml_versions equal
declared [] h = sym h
declared (c ∷ cs) h = refl

in_force :
    (p : Parser)
    → equal p.yaml_version [] ≡ false
    → schema_in_force p ≡ version_schema p.yaml_version
unfolding schema_in_force
in_force p h = rw h refl

-- whether the directive is read, by the value and what was declared before
abbrev pub accepts : Bytes → Bytes → Bool
accepts value before = one_of yaml_versions value && equal before []

abbrev pub refusal : Bytes → Bytes → Option VersionError
refusal value before =
    if not (one_of yaml_versions value)
    then some unknown_version
    else if not (equal before [])
    then some specified_twice
    else none

-- A YAML directive is refused for a version that is not known, and for a second one in the document, and
-- then nothing changes. One that is read puts the schema of its version in force and gives it to the
-- scanner, and keeps the version of the options. Either way the plain scalars behind its version's token
-- have the types of their texts under the schema in force, where they had them before and the content of
-- each block scalar there stands directly behind its header.
pub declare_version-IsCut :
    (value : Bytes) (seq : ℕ) (p : Parser) (taken : List (Option Raw)) (cs : List Cut)
    → fits cs ≡ true
    → suc seq ≡ length taken
    → IsCut p taken cs
    → ((declare_version value seq p).1 ≡ refusal value p.yaml_version)
      × ((if accepts value p.yaml_version then p else (declare_version value seq p).0) ≡ p)
      × ((declare_version value seq p).0.yaml_version
          ≡ (if accepts value p.yaml_version then value else p.yaml_version))
      × ((declare_version value seq p).0.option_version ≡ p.option_version)
      × (schema_in_force (declare_version value seq p).0
          ≡ (if accepts value p.yaml_version then version_schema value else schema_in_force p))
      × IsCut (declare_version value seq p).0 taken cs
unfolding declare_version
declare_version-IsCut value seq p taken cs h at c = elim (Bool-cases (one_of yaml_versions value)) [
  | inr n ↦ rw n (refl, refl, refl, refl, refl, c)
  | inl y ↦ elim (Bool-cases (equal p.yaml_version [])) [
    | inr n ↦ rw (y, n) (refl, refl, refl, refl, refl, c)
    | inl z ↦
        let forced = in_force _ (declared value y) in
        rw (y, z)
          (
            refl,
            refl,
            refl,
            refl,
            forced,
            record {
              scans = sym forced;
              ahead =
                  ap (retype_ahead (version_schema value) (suc seq)) c.ahead
                  ∙ retype_ahead-cut (schema_in_force p) (version_schema value) (suc seq) taken cs h
                      at
                  ∙ ap (λ s. taken ++ cut s cs) (sym forced);
            },
          )
  ]
]
