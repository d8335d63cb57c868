-- ===== src/Cstring/Tests.antt =====
-- The functions of cstring.c at concrete strings.
use bigloo.Prelude.{
  ℕ, zero, suc, ◌+◌, ◌≤◌, ◌<◌, Bool, true, false, not, some, List, [], ◌∷◌, length, take, get_elem?,
  ◌*◌, ◌≡◌, ◌≢◌, refl, arith, map, ◌⊎◌, if◌then◌else◌, ltb,
}
use bigloo.Prelude.Int.{pos, negsuc}
use bigloo.Memory.{Str, len, memory}
use bigloo.Cstring.Build.{blit_string}
use bigloo.Cstring.Build.Laws.{blit_string_lem}
use bigloo.Cstring.Equal.{
  bigloo_strcmp_at, bigloo_strcicmp, bigloo_strcmp_ci_at, bigloo_strncmp_ci, bigloo_strncmp_ci_at,
  bigloo_strncmp_at, lesser,
}
use bigloo.Cstring.Equal.Laws.{Decides, OccursAt}
use bigloo.Cstring.Equal.Decides.{
  bigloo_strncmp_at-Decides, bigloo_strcmp_at-Decides, bigloo_ci-Decides,
}
use bigloo.Cstring.Equal.Bug.{bigloo_strncmp_ci_at_misses}
use bigloo.Cstring.Compare.{
  bigloo_string_lt, bigloo_string_le, bigloo_string_gt, bigloo_string_ge, bigloo_string_cilt,
  bigloo_string_cile, bigloo_string_cigt, bigloo_string_cige, fold_char,
}
use bigloo.Cstring.Compare.Order.{lex_lt, bigloo_string-orders, bigloo_string-ci_orders}
use bigloo.Cstring.Digits.{integer_to_string}
use bigloo.Cstring.Digits.Laws.{Prints, integer_to_string-Prints}
use bigloo.Cstring.Escape.{create_string_for_read, bgl_escape_C_string}
use bigloo.Cstring.Escape.Laws.{create_string_for_read_lem, escape_round_trip}

abbrev abc : Str
abc = record { chars = b'a' ∷ b'b' ∷ b'c' ∷ []; after = 0 }

-- `b`, a newline and a quote
abbrev odd : Str
odd = record { chars = b'b' ∷ 10 ∷ b'"' ∷ []; after = 0 }

-- The lower case of the letters of ASCII.
abbrev lower : ℕ → ℕ
lower c = if ltb 64 c then (if ltb c 91 then c + 32 else c) else c

no_zero_abc : (i : ℕ) → get_elem? abc.chars i ≢ some 0
no_zero_abc zero = ground arith
no_zero_abc (suc zero) = ground arith
no_zero_abc (suc (suc zero)) = ground arith
no_zero_abc (suc (suc (suc i))) = ground arith

-- Two of three characters, one place to the right, within one string.
blit_string_lem_example :
    (m : List ℕ) × (blit_string 0 1 2 (memory abc) ≡ some m)
    × (length m ≡ 4)
    × ((i : ℕ) → i < 2 → get_elem? m (1 + i) ≡ get_elem? (memory abc) (0 + i))
    × ((j : ℕ) → (j < 1) ⊎ (3 ≤ j) → get_elem? m j ≡ get_elem? (memory abc) j)
blit_string_lem_example = blit_string_lem 0 1 2 (memory abc) (omega arith) (omega arith)

bigloo_strcmp_at-Decides_example :
    Decides (bigloo_strcmp_at abc odd (pos 1)) (OccursAt 1 odd.chars abc.chars)
    × (bigloo_strcmp_at abc odd (negsuc 1) ≡ some false)
bigloo_strcmp_at-Decides_example = bigloo_strcmp_at-Decides abc odd 1

bigloo_ci-Decides_example :
    let f = map lower in
    Decides (bigloo_strcicmp lower abc odd) (f abc.chars ≡ f odd.chars)
    × Decides (bigloo_strcmp_ci_at lower abc odd (pos 1)) (OccursAt 1 (f odd.chars) (f abc.chars))
    × Decides
        (bigloo_strncmp_ci lower abc odd (pos 2))
        ((2 ≤ len abc) × (2 ≤ len odd) × (f (take 2 abc.chars) ≡ f (take 2 odd.chars)))
bigloo_ci-Decides_example = bigloo_ci-Decides abc odd lower 1 2

-- "abc" holds the first character of "abc" at 0, and the answer is no.
bigloo_strncmp_ci_at_misses_example : bigloo_strncmp_ci_at lower abc abc (pos 0) (pos 1) ≢ some true
bigloo_strncmp_ci_at_misses_example =
    bigloo_strncmp_ci_at_misses lower abc abc 0 1 (omega arith) (omega arith) refl

bigloo_string-orders_example :
    (bigloo_string_lt abc odd ≡ some (lex_lt abc.chars odd.chars))
    × (bigloo_string_le abc odd ≡ some (not (lex_lt odd.chars abc.chars)))
    × (bigloo_string_gt abc odd ≡ some (lex_lt odd.chars abc.chars))
    × (bigloo_string_ge abc odd ≡ some (not (lex_lt abc.chars odd.chars)))
bigloo_string-orders_example = bigloo_string-orders abc odd

integer_to_string-Prints_example : Prints (integer_to_string (negsuc 254) 16) 16 (negsuc 254)
integer_to_string-Prints_example =
    integer_to_string-Prints (negsuc 254) 16 (omega arith) (omega arith) (omega arith)

create_string_for_read_lem_example :
    (q : Str) × (esc : Bool) × (create_string_for_read odd false ≡ some (q, esc))
    × (q.after ≡ 0)
    × (len q ≤ len odd * 4)
    × ((i : ℕ) → get_elem? q.chars i ≢ some 0)
    × (esc ≡ false → q.chars ≡ odd.chars)
create_string_for_read_lem_example = create_string_for_read_lem odd false (omega arith)

escape_round_trip_example :
    (q : Str) × (esc : Bool) × (create_string_for_read odd true ≡ some (q, esc))
    × (bgl_escape_C_string (memory q) 0 (len q) ≡ some (record { chars = odd.chars; after = 0 }))
escape_round_trip_example = escape_round_trip odd true (omega arith)

bigloo_string-ci_orders_example :
    let f = map (fold_char lower) in
    (bigloo_string_cilt lower abc odd ≡ some (lex_lt (f abc.chars) (f odd.chars)))
    × (bigloo_string_cile lower abc odd ≡ some (not (lex_lt (f odd.chars) (f abc.chars))))
    × (bigloo_string_cigt lower abc odd ≡ some (lex_lt (f odd.chars) (f abc.chars)))
    × (bigloo_string_cige lower abc odd ≡ some (not (lex_lt (f abc.chars) (f odd.chars))))
bigloo_string-ci_orders_example = bigloo_string-ci_orders abc odd lower

bigloo_strncmp_at-Decides_example :
    Decides
      (bigloo_strncmp_at abc odd (pos 1) (pos 2))
      (OccursAt 1 (take (lesser 3 2) odd.chars) abc.chars)
    × (bigloo_strncmp_at abc odd (negsuc 1) (pos 4) ≡ some false)
    × (bigloo_strncmp_at abc odd (pos 1) (negsuc 2) ≡ some false)
bigloo_strncmp_at-Decides_example = bigloo_strncmp_at-Decides abc odd 1 2 (pos 4)
