-- ===== src/Cstring/Build.antt =====
-- runtime/Clib/cstring.c: the operations that make a string, and those that change one in place.
-- A `memcpy` that reads outside its source is a run that goes wrong, and so is one whose areas
-- overlap. Sizes are within `int`, so sums of lengths are written without wrapping.
pub mod Laws
use bigloo.Prelude.{
  ℕ, zero, suc, ◌+◌, ◌-◌, ◌==◌, ltb, leb, ◌||◌, ◌&&◌, Bool, true, false, Option, none, some, List,
  [], ◌∷◌, ◌++◌, ◌>>=◌, if◌then◌else◌, length, take, drop, replicate,
}
use bigloo.Prelude.Int.{ℤ, pos, negsuc}
use bigloo.Memory.{Str, len, memory, advance, units, of_memory}

-- A `char *`; `none` is the null pointer, which stands for the empty literal.
abbrev pub or_empty : Option (List ℕ) → List ℕ
or_empty none = 0 ∷ []
or_empty (some p) = p

unfoldable pub string_to_bstring_len : Option (List ℕ) → ℕ → Option Str
string_to_bstring_len c_string n = do
  cs ← units n (or_empty c_string)
  some (record { chars = cs; after = 0 })

-- `strlen`: the count of units before the first 0, which must be there.
unfoldable pub strlen : List ℕ → Option ℕ
strlen [] = none
strlen (c ∷ p) = if c == 0 then some 0 else (do n ← strlen p; some (suc n))

unfoldable pub string_to_bstring : Option (List ℕ) → Option Str
unfolding string_to_bstring_len strlen
string_to_bstring none = string_to_bstring_len none 0
string_to_bstring (some p) = do n ← strlen p; string_to_bstring_len (some p) n

unfoldable pub c_constant_string_to_string : List ℕ → Option Str
unfolding string_to_bstring
c_constant_string_to_string p = string_to_bstring (some p)

-- A negative size is a failure, `none`.
unfoldable pub make_string : ℤ → ℕ → Option Str
make_string (pos n) c = some (record { chars = replicate n c; after = 0 })
make_string (negsuc n) c = none

-- The characters of the new memory are whatever it holds, `fresh`.
unfoldable pub make_string_sans_fill : List ℕ → Str
make_string_sans_fill fresh = record { chars = fresh; after = 0 }

unfoldable pub string_append : Str → Str → Option Str
string_append s t = do
  a ← units (len s) (memory s)
  b ← units (len t + 1) (memory t)
  of_memory (len s + len t) (a ++ b)

unfoldable pub string_append_3 : Str → Str → Str → Option Str
string_append_3 s t u = do
  a ← units (len s) (memory s)
  b ← units (len t) (memory t)
  c ← units (len u + 1) (memory u)
  of_memory (len s + len t + len u) (a ++ (b ++ c))

-- A negative size, converted for `memcpy`, is past the end of any object.
unfoldable pub c_substring : Str → ℕ → ℕ → Option Str
c_substring s lo hi = if ltb hi lo then none else (do
  p ← advance lo (memory s)
  cs ← units (hi - lo) p
  some (record { chars = cs; after = 0 }))

-- The memory `m` after `memmove(m + dest, m + src, n)`: the source is read before the writes.
unfoldable pub memmove : ℕ → ℕ → ℕ → List ℕ → Option (List ℕ)
memmove dest src n m =
    if leb (src + n) (length m) && leb (dest + n) (length m)
    then some (take dest m ++ (take n (drop src m) ++ drop (dest + n) m))
    else none

abbrev pub disjoint : ℕ → ℕ → ℕ → Bool
disjoint dest src n = leb (src + n) dest || leb (dest + n) src

-- `memcpy` is undefined on areas that overlap.
unfoldable pub memcpy : ℕ → ℕ → ℕ → List ℕ → Option (List ℕ)
unfolding memmove
memcpy dest src n m = if disjoint dest src n then memmove dest src n m else none

-- `blit_string` in a memory `m` that holds both strings: `src` and `dest` are the addresses of
-- their characters at the two offsets, so that the strings may be one.
unfoldable pub blit_string : ℕ → ℕ → ℕ → List ℕ → Option (List ℕ)
unfolding memcpy
blit_string src dest n m =
    if leb (src + n) dest || leb (dest + n) src then memcpy dest src n m else memmove dest src n m

unfoldable pub bgl_string_shrink : Str → ℕ → Str
bgl_string_shrink s n = if ltb n (len s) then record { chars = take n s.chars; after = 0 } else s
