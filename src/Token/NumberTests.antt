-- ===== src/Token/NumberTests.antt =====
-- Integers read and named, at texts from the comments of token/token.go and token/keyname.go.
use go_yaml.Base.{codes, some, none, [], pos, negsuc, neg, ◌≡◌, ◌↔◌, refl}
use go_yaml.Token.Kind.{integer, octet_integer, hex_integer, binary_integer, string}
use go_yaml.Token.Number.{
  split_sign, parse_integer, parse_big_integer, uint64, int64, sexagesimal_value,
}
use go_yaml.Token.Number.Exact.{is_plain, parse_integer-exact, word_of_big}
use go_yaml.Token.KeyName.{integer_key_name, canonical_base64, with_decimal_point}
use go_yaml.Token.KeyName.Integers.{integer_key_name_iff}

integers :
    (parse_integer (codes "0100") octet_integer ≡ some (uint64 64))
    × (parse_integer (codes "0100") integer ≡ some (uint64 100))
    × (parse_integer (codes "-0") integer ≡ some (uint64 0))
    × (parse_integer (codes "-9223372036854775808") integer
        ≡ some (int64 (neg 9223372036854775808)))
    × (parse_integer (codes "-9223372036854775809") integer ≡ none)
    × (parse_integer (codes "18446744073709551615") integer ≡ some (uint64 18446744073709551615))
    × (parse_integer (codes "18446744073709551616") integer ≡ none)
    × (parse_integer (codes "-0x1_F") hex_integer ≡ some (int64 (negsuc 30)))
    × (parse_integer (codes "0b1_01") binary_integer ≡ some (uint64 5))
    × (parse_integer (codes "0o17") octet_integer ≡ some (uint64 15))
    × (parse_integer (codes "1") string ≡ none)
unfolding parse_integer
integers = (refl, refl, refl, refl, refl, refl, refl, refl, refl, refl, refl)

sexagesimals :
    (sexagesimal_value (codes "190:20:30.5") ≡ some (685230, codes ".5"))
    × (sexagesimal_value (codes "1::2") ≡ none)
    × (sexagesimal_value (codes "307445734561825860:15") ≡ some (18446744073709551615, []))
    × (sexagesimal_value (codes "307445734561825860:16") ≡ none)
    × (parse_big_integer (codes "-307445734561825860:16") integer
        ≡ some (negsuc 18446744073709551615))
unfolding sexagesimal_value parse_big_integer
sexagesimals = (refl, refl, refl, refl, refl)

names :
    (integer_key_name (codes "0x10") hex_integer ≡ codes "16")
    × (integer_key_name (codes "-0") integer ≡ codes "0")
    × (integer_key_name (codes "-18446744073709551617") integer ≡ codes "-18446744073709551617")
    × (canonical_base64 (codes "AA\r\n ==") ≡ codes "AA==")
    × (with_decimal_point (codes "1000") ≡ codes "1000.0")
    × (with_decimal_point (codes "1e+30") ≡ codes "1e+30")
unfolding integer_key_name canonical_base64 with_decimal_point
names = (refl, refl, refl, refl, refl, refl)

signed : parse_integer (codes "+5") integer ≡ some (uint64 5)
unfolding parse_integer
signed = refl

parse_integer-exact_example :
    parse_integer (codes "-1:30") integer ≡ word_of_big (parse_big_integer (codes "-1:30") integer)
unfolding is_plain split_sign
parse_integer-exact_example = parse_integer-exact (codes "-1:30") integer refl

integer_key_name_iff_example :
    (integer_key_name (codes "007") integer ≡ integer_key_name (codes "0x7") hex_integer)
    ↔ (pos 7 ≡ pos 7)
unfolding is_plain split_sign parse_big_integer
integer_key_name_iff_example =
    integer_key_name_iff (codes "007") (codes "0x7") integer hex_integer refl refl refl refl
