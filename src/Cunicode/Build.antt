-- ===== src/Cunicode/Build.antt =====
-- runtime/Clib/cunicode.c: the operations that make a string of 16-bit units. A `char` is signed,
-- so its conversion to a unit adds 0xff00 to a byte from 0x80.
pub mod Laws
use bigloo.Prelude.{
  ℕ, zero, suc, ◌+◌, ◌-◌, ◌==◌, ltb, Bool, true, false, Option, none, some, List, [], ◌∷◌, ◌++◌,
  ◌>>=◌, if◌then◌else◌, length, replicate, map, get_elem?,
}
use bigloo.Prelude.Int.{ℤ, pos, negsuc}
use bigloo.Memory.{Str, len, memory, advance, of_memory}
use bigloo.Cstring.Build.{strlen}
use bigloo.Cstring.Digits.{integer_to_string}

-- A negative size is a failure, `none`.
unfoldable pub make_ucs2_string : ℤ → ℕ → Option Str
make_ucs2_string (pos n) c = some (record { chars = replicate n c; after = 0 })
make_ucs2_string (negsuc n) c = none

-- `for (len--; len >= 0; len--) u1[len] = u2[len];`: the units copied, from the last to the first.
pub ucs2cpy : ℕ → List ℕ → List ℕ → Option (List ℕ)
ucs2cpy zero p out = some out
ucs2cpy (suc n) p out = do c ← get_elem? p n; ucs2cpy n p (c ∷ out)

unfoldable pub ucs2_string_append : Str → Str → Option Str
ucs2_string_append s t = do
  a ← ucs2cpy (len s) (memory s) []
  b ← ucs2cpy (len t) (memory t) []
  of_memory (len s + len t) (a ++ (b ++ 0 ∷ []))

-- `ucs2cpy` of a negative size copies nothing, and the 0 is then written before the string.
unfoldable pub c_subucs2_string : Str → ℕ → ℕ → Option Str
c_subucs2_string s lo hi = if ltb hi lo then none else (do
  p ← advance lo (memory s)
  a ← ucs2cpy (hi - lo) p []
  of_memory (hi - lo) (a ++ 0 ∷ []))

-- `for (i = 0; i < len; i++) cstring[i] = (ucs2_t)cstr[i];`, with `len - i` rounds left.
pub copy_loop : (ℕ → ℕ) → ℕ → List ℕ → Option (List ℕ)
copy_loop cast zero p = some []
copy_loop cast (suc n) [] = none
copy_loop cast (suc n) (c ∷ p) = do cs ← copy_loop cast n p; some (cast c ∷ cs)

unfoldable pub c_ucs2_string_copy : Str → Option Str
c_ucs2_string_copy s = do
  cs ← copy_loop (λ c. c) (len s) (memory s)
  some (record { chars = cs; after = 0 })

-- `(ucs2_t)(c[i])` for a signed `char`.
abbrev pub unit_of_char : ℕ → ℕ
unit_of_char c = if ltb c 0x80 then c else c + 0xff00

unfoldable pub string_to_ucs2_string : List ℕ → Option Str
string_to_ucs2_string p = do
  n ← strlen p
  cs ← copy_loop unit_of_char n p
  some (record { chars = cs; after = 0 })

unfoldable pub bstring_to_ucs2_string : Str → Option Str
bstring_to_ucs2_string s = do
  cs ← copy_loop unit_of_char (len s) (memory s)
  some (record { chars = cs; after = 0 })

unfoldable pub integer_to_ucs2_string : ℤ → ℕ → Option Str
integer_to_ucs2_string x radix = do s ← integer_to_string x radix; string_to_ucs2_string (memory s)
