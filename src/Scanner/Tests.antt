-- ===== src/Scanner/Tests.antt =====
-- Escapes of internal/scanner/string.go.
use go_yaml.Base.{ℕ, Bool, ◌==◌, arith, ◌≡◌, true, [], ◌∷◌, ◌++◌, codes, refl}
use go_yaml.Scanner.Escape.{
  valid_rune, rune_bytes, refused, reads, no_low, no_pair, no_character, short_8, escape,
  is_code_point_escape,
}
use go_yaml.Scanner.EscapeRefusal.{two_codes, escape-refused}
use go_yaml.Scanner.EscapeHex.{hex_text, utf16_text, escape-hex}

escapes :
    (escape (codes "n rest") ≡ reads (10 ∷ []) 1)
    × (escape (codes "x41") ≡ reads (codes "A") 3)
    × (escape (codes "x4") ≡ refused short_8)
    × (escape (codes "u00e9") ≡ reads (195 ∷ 169 ∷ []) 5)
    × (escape (codes "uD83D\\uDE00") ≡ reads (240 ∷ 159 ∷ 152 ∷ 128 ∷ []) 11)
    × (escape (codes "uD83D\\u0041") ≡ refused no_low)
    × (escape (codes "uD83D.......") ≡ refused no_pair)
    × (escape (codes "uDE00") ≡ refused no_character)
    × (escape (codes "UFFFFFFFF") ≡ refused no_character)
    × (escape [] ≡ reads (codes "\\") 0)
    × (is_code_point_escape b'u' ≡ true)
unfolding escape is_code_point_escape
escapes = (refl, refl, refl, refl, refl, refl, refl, refl, refl, refl, refl)

-- small letters, but for a capital in the second place
abbrev mixed : ℕ → Bool
mixed k = k == 1

escape-refused_example :
    (escape (b'U' ∷ hex_text mixed 8 57005 ++ codes "!") ≡ refused no_character)
    × (escape (b'u' ∷ hex_text mixed 4 56831 ++ codes "!") ≡ refused no_character)
    × (escape (two_codes mixed 55357 65 (codes "!")) ≡ refused no_low)
unfolding valid_rune
escape-refused_example =
    escape-refused mixed 57005 56831 55357 65 (codes "!") (omega arith) refl refl refl (omega arith)
      refl

capitals : hex_text mixed 4 57005 ≡ codes "deAd"
unfolding hex_text
capitals = refl

escape-hex_example :
    (escape (b'U' ∷ hex_text mixed 8 128512 ++ codes "!") ≡ reads (rune_bytes 128512) 9)
    × (escape (utf16_text mixed 128512 ++ codes "!") ≡ reads (rune_bytes 128512) 11)
unfolding valid_rune
escape-hex_example = escape-hex mixed 128512 (codes "!") refl
