-- ===== src/Parser/VersionTests.antt =====
-- Documents with and without a YAML directive, for parser/version.go.
use go_yaml.Base.{
  true, false, if◌then◌else◌, Option, none, some, List, [], ◌∷◌, ◌++◌, codes, equal, one_of, ◌≡◌,
  refl,
}
use go_yaml.Token.Kind.{comment, directive, string, bool, single_quote, folded}
use go_yaml.Token.Keyword.{schema12, schema11}
use go_yaml.Token.Scalar.{scalar_type}
use go_yaml.Parser.Version.{
  retype, version_schema, resolved_by_any_schema, is_block_header, Raw, Parser, schema_in_force,
  first_ahead, end_version_scope, unknown_version, declare_version, yaml_versions,
}
use go_yaml.Parser.Retype.{raw, retype-commented, Cut, plain, other, block, gone, cut, fits}
use go_yaml.Parser.Scope.{accepts, refusal, IsCut, declare_version-IsCut, end_version_scope-IsCut}

-- a plain scalar, a quoted one and a block scalar behind "%YAML 1.1"
abbrev behind : List Cut
behind =
    plain (codes "yes")
    ∷ other (record { typ = single_quote; value = codes "yes" })
    ∷ block folded (codes ">") none (codes "yes")
    ∷ gone
    ∷ []

abbrev before : List (Option Raw)
before =
    some (record { typ = directive; value = codes "%" })
    ∷ some (record { typ = string; value = codes "1.1" })
    ∷ []

abbrev fresh : Parser
fresh = record {
  yaml_version = [];
  option_version = [];
  scan_schema = schema12;
  tokens = before ++ cut schema12 behind;
  reader_seq = 2;
  not_taken = none;
}

abbrev under : Parser
under = record {
  yaml_version = codes "1.1";
  option_version = [];
  scan_schema = schema11;
  tokens = before ++ cut schema11 behind;
  reader_seq = 5;
  not_taken = some 2;
}

fresh-IsCut : IsCut fresh before behind
unfolding schema_in_force version_schema equal
fresh-IsCut = record { scans = refl; ahead = refl }

under-IsCut : IsCut under before behind
unfolding schema_in_force version_schema equal
under-IsCut = record { scans = refl; ahead = refl }

retyped :
    (scalar_type (codes "yes") schema12 ≡ string)
    × (scalar_type (codes "yes") schema11 ≡ bool)
    × ((declare_version (codes "2.0") 1 fresh).1 ≡ some unknown_version)
unfolding scalar_type declare_version one_of yaml_versions equal
retyped = (refl, refl, refl)

declare_version-IsCut_example :
    ((declare_version (codes "1.1") 1 fresh).1 ≡ refusal (codes "1.1") [])
    × ((if accepts (codes "1.1") [] then fresh else (declare_version (codes "1.1") 1 fresh).0)
        ≡ fresh)
    × ((declare_version (codes "1.1") 1 fresh).0.yaml_version
        ≡ (if accepts (codes "1.1") [] then codes "1.1" else []))
    × ((declare_version (codes "1.1") 1 fresh).0.option_version ≡ [])
    × (schema_in_force (declare_version (codes "1.1") 1 fresh).0 ≡ (
        if accepts (codes "1.1") [] then version_schema (codes "1.1") else schema_in_force fresh))
    × IsCut (declare_version (codes "1.1") 1 fresh).0 before behind
unfolding fits is_block_header resolved_by_any_schema
declare_version-IsCut_example =
    declare_version-IsCut (codes "1.1") 1 fresh before behind refl refl fresh-IsCut

accepted : accepts (codes "1.1") [] ≡ true
unfolding one_of yaml_versions equal
accepted = refl

retype-commented_example :
    retype schema11 false
      (cut schema12 (block folded (codes ">") (some (codes " c")) (codes "yes") ∷ behind))
    ≡ raw folded (codes ">")
      ∷ raw comment (codes " c")
      ∷ raw (scalar_type (codes "yes") schema11) (codes "yes")
      ∷ cut schema11 behind
unfolding fits is_block_header resolved_by_any_schema
retype-commented_example =
    retype-commented schema12 schema11 folded (codes ">") (codes " c") (codes "yes") behind refl
      refl

end_version_scope-IsCut_example :
    IsCut (end_version_scope under) before behind
    × (schema_in_force (end_version_scope under) ≡ version_schema [])
unfolding fits is_block_header resolved_by_any_schema first_ahead
end_version_scope-IsCut_example = end_version_scope-IsCut under before behind refl refl under-IsCut
