-- ===== src/Token/Tests.antt =====
-- Runs of the scalar resolution at texts from its comments.
use go_yaml.Base.{Bool, ◌<◌, ◌^◌, arith, ◌≡◌, refl, some, codes, true, false}
use go_yaml.Token.Kind.{
  integer, octet_integer, hex_integer, float, string, bool, infinity, null, binary_integer,
}
use go_yaml.Token.Keyword.{schema12, schema11, keyword_type, lookup, keyword_types, parse_bool}
use go_yaml.Token.Keyword.Gate.{keyword_type-lookup, parse_bool-total}
use go_yaml.Token.Number.{NumberType, in_base}
use go_yaml.Token.Position.{
  offset, indent_num, set_offset, set_indent_num, at, position_halves, at_halves,
}
use go_yaml.Token.Scalar.{scalar_type, is_number, number_type, shape_of_number}
use go_yaml.Token.Scalar.Cover.{is_number_covers}
use go_yaml.Token.Scalar.Signed.{is_number_misses}

resolutions12 :
    (scalar_type (codes "017") schema12 ≡ integer)
    × (scalar_type (codes "0o17") schema12 ≡ octet_integer)
    × (scalar_type (codes "-0x1F") schema12 ≡ string)
    × (scalar_type (codes "0x1F") schema12 ≡ hex_integer)
    × (scalar_type (codes "1e10") schema12 ≡ float)
    × (scalar_type (codes ".") schema12 ≡ string)
    × (scalar_type (codes "1.5.5") schema12 ≡ string)
    × (scalar_type (codes "+.inf") schema12 ≡ infinity)
    × (scalar_type (codes "no") schema12 ≡ string)
    × (scalar_type (codes "~") schema12 ≡ null)
unfolding scalar_type
resolutions12 = (refl, refl, refl, refl, refl, refl, refl, refl, refl, refl)

resolutions11 :
    (scalar_type (codes "017") schema11 ≡ octet_integer)
    × (scalar_type (codes "0o17") schema11 ≡ string)
    × (scalar_type (codes "-0x1F") schema11 ≡ hex_integer)
    × (scalar_type (codes "0b1_01") schema11 ≡ binary_integer)
    × (scalar_type (codes "1e10") schema11 ≡ string)
    × (scalar_type (codes "1_0.5e+3") schema11 ≡ float)
    × (scalar_type (codes "190:20:30") schema11 ≡ integer)
    × (scalar_type (codes "190:20:30.5") schema11 ≡ float)
    × (scalar_type (codes "190:61") schema11 ≡ string)
    × (scalar_type (codes "+_1") schema11 ≡ integer)
    × (scalar_type (codes "no") schema11 ≡ bool)
unfolding scalar_type
resolutions11 = (refl, refl, refl, refl, refl, refl, refl, refl, refl, refl, refl)

quoted : (is_number (codes "-0x1F") ≡ false) × (is_number (codes "1:30") ≡ true)
unfolding is_number
quoted = (refl, refl)

position_halves_example :
    let p = at 3 4 17 5 in
    (offset (set_offset p 4294967295) ≡ 4294967295)
    × (indent_num (set_offset p 4294967295) ≡ indent_num p)
    × (indent_num (set_indent_num p 4294967295) ≡ 4294967295)
    × (offset (set_indent_num p 4294967295) ≡ offset p)
    × ((set_offset p 4294967295).place < 2 ^ 64)
    × ((set_indent_num p 4294967295).place < 2 ^ 64)
unfolding at
position_halves_example = position_halves (at 3 4 17 5) 4294967295 (omega arith)

at_halves_example :
    (offset (at 3 4 17 5) ≡ 17) × (indent_num (at 3 4 17 5) ≡ 5) × ((at 3 4 17 5).place < 2 ^ 64)
at_halves_example = at_halves 3 4 17 5

keyword_type-lookup_example :
    keyword_type (codes "-.inf") schema12 ≡ lookup (codes "-.inf") (keyword_types schema12)
keyword_type-lookup_example = keyword_type-lookup (codes "-.inf") schema12

parse_bool-total_example : (b : Bool) × (parse_bool (codes "Off") ≡ some b)
unfolding keyword_type
parse_bool-total_example = parse_bool-total (codes "Off") schema11 refl

is_number_covers_example : is_number (codes "190:20:30.5") ≡ true
unfolding shape_of_number
is_number_covers_example = is_number_covers (codes "190:20:30.5") schema11 refl refl

is_number_misses_example :
    (number_type (codes "-0x1F") schema11 ≡ some NumberType.hex)
    × (is_number (codes "-0x1F") ≡ false)
unfolding in_base
is_number_misses_example = is_number_misses b'-' (codes "1F") refl refl
