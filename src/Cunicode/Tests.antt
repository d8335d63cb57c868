-- ===== src/Cunicode/Tests.antt =====
-- The functions of cunicode.c at concrete texts.
use bigloo.Prelude.{ℕ, ◌%◌, some, List, [], ◌∷◌, ◌≡◌, arith, map, inl, not}
use bigloo.Memory.{Str, len, IsTerminated}
use bigloo.Cstring.Equal.Laws.{Decides}
use bigloo.Cunicode.Build.{
  ucs2_string_append, c_subucs2_string, unit_of_char, bstring_to_ucs2_string,
}
use bigloo.Cunicode.Build.Laws.{ucs2_append_sub, bstring_to_ucs2_string_lem}
use bigloo.Cstring.Compare.Order.{lex_lt}
use bigloo.Cunicode.Compare.{
  ucs2_strcmp, ucs2_strcicmp, ucs2_string_lt, ucs2_string_le, ucs2_string_gt, ucs2_string_ge,
}
use bigloo.Cunicode.Compare.Laws.{ucs2_string-orders}
use bigloo.Cunicode.Compare.Equal.{ucs2_strcmp-Decides, ucs2_strcicmp-Decides}
use bigloo.Cunicode.Utf8.{ok, ucs2_to_utf8_string, utf8_string_to_ucs2_string}
use bigloo.Cunicode.Utf8.Inverse.{Survives, empty, pair, single, utf8_round_trip}

-- A, e with an acute accent, and a character of two surrogates.
abbrev text : List ℕ
text = 0x41 ∷ 0xe9 ∷ 0xd83d ∷ 0xde00 ∷ []

abbrev text_string : Str
text_string = record { chars = text; after = 0 }

abbrev letter : Str
letter = record { chars = 0x61 ∷ []; after = 0 }

text-Survives : Survives text
text-Survives = single (inl (omega arith)) (inl (omega arith)) (
    single (inl (omega arith)) (inl (omega arith))
      (pair (omega arith) (omega arith) (omega arith) (omega arith) empty))

utf8_round_trip_example :
    (s : Str) × (ucs2_to_utf8_string text ≡ some s)
    × IsTerminated s
    × (utf8_string_to_ucs2_string 7 s ≡ ok (record { chars = text; after = 7 }))
utf8_round_trip_example = utf8_round_trip text 7 text-Survives

ucs2_strcmp-Decides_example : Decides (ucs2_strcmp text_string letter) (text ≡ letter.chars)
ucs2_strcmp-Decides_example = ucs2_strcmp-Decides text_string letter

ucs2_strcicmp-Decides_example :
    Decides
      (ucs2_strcicmp (λ c. c % 32) text_string letter)
      ((map (λ c. c % 32) text ≡ map (λ c. c % 32) letter.chars) × (◌≡◌ {A = ℕ} (0 % 32) (0 % 32)))
ucs2_strcicmp-Decides_example = ucs2_strcicmp-Decides text_string letter (λ c. c % 32)

bstring_to_ucs2_string_lem_example :
    bstring_to_ucs2_string (record { chars = 0x41 ∷ 0xe9 ∷ []; after = 0 })
    ≡ some (record { chars = map unit_of_char (0x41 ∷ 0xe9 ∷ []); after = 0 })
bstring_to_ucs2_string_lem_example =
    bstring_to_ucs2_string_lem (record { chars = 0x41 ∷ 0xe9 ∷ []; after = 0 })

ucs2_string-orders_example :
    (ucs2_string_lt text_string letter ≡ some (lex_lt text letter.chars))
    × (ucs2_string_le text_string letter ≡ some (not (lex_lt letter.chars text)))
    × (ucs2_string_gt text_string letter ≡ some (lex_lt letter.chars text))
    × (ucs2_string_ge text_string letter ≡ some (not (lex_lt text letter.chars)))
ucs2_string-orders_example = ucs2_string-orders text_string letter

ucs2_append_sub_example :
    (r : Str) × (ucs2_string_append text_string letter ≡ some r)
    × (r ≡ record { chars = 0x41 ∷ 0xe9 ∷ 0xd83d ∷ 0xde00 ∷ 0x61 ∷ []; after = 0 })
    × (c_subucs2_string r 0 4 ≡ some (record { chars = text; after = 0 }))
    × (c_subucs2_string r 4 (len r) ≡ some (record { chars = 0x61 ∷ []; after = 0 }))
ucs2_append_sub_example = ucs2_append_sub text_string letter
