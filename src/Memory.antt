-- ===== src/Memory.antt =====
-- Strings in memory, as runtime/Clib/cstring.c and cunicode.c see them: a length, the units
-- that it counts, and the one unit that is allocated behind them. A pointer into such an
-- object is the list of the units from it to the end of the object, so a read through the
-- empty list is a read out of bounds, and the run is `none`.
pub mod Laws
use bigloo.Prelude.{
  ℕ, zero, suc, ◌+◌, ◌-◌, ◌^◌, ◌==◌, ◌&&◌, Bool, true, false, Option, none, some, List, [], ◌∷◌,
  ◌++◌, ◌>>=◌, length, drop, take, if◌then◌else◌, ◌≡◌,
}
use bigloo.Prelude.Int.{ℤ, pos, negsuc}

-- `after` is the unit behind the characters: 0 in a terminated string.
pub record Str : Type 0 where
  pub chars : List ℕ
  pub after : ℕ

abbrev pub len : Str → ℕ
len s = length s.chars

-- The pointer to the first character.
abbrev pub memory : Str → List ℕ
memory s = s.chars ++ s.after ∷ []

abbrev pub IsTerminated : Str → Type 0
IsTerminated s = s.after ≡ 0

-- `*p++`: the unit at the pointer, and the pointer moved by one.
abbrev pub read : List ℕ → Option (ℕ × List ℕ)
read [] = none
read (c ∷ p) = some (c, p)

-- `p + n`, which must stay within the object or point just behind it.
abbrev pub advance : ℕ → List ℕ → Option (List ℕ)
advance zero p = some p
advance (suc n) [] = none
advance (suc n) (c ∷ p) = advance n p

-- The `n` units at the pointer, as `memcpy` and `memcmp` read them.
abbrev pub units : ℕ → List ℕ → Option (List ℕ)
units zero p = some []
units (suc n) [] = none
units (suc n) (c ∷ p) = do cs ← units n p; some (c ∷ cs)

-- The conversion of a `long` to `unsigned long`, which is also `size_t`.
abbrev pub to_unsigned : ℤ → ℕ
to_unsigned (pos n) = n
to_unsigned (negsuc n) = 2 ^ 64 - suc n

abbrev pub list_eq : List ℕ → List ℕ → Bool
list_eq [] [] = true
list_eq [] (y ∷ ys) = false
list_eq (x ∷ xs) [] = false
list_eq (x ∷ xs) (y ∷ ys) = x == y && list_eq xs ys

-- `!memcmp(p, q, n)`.
abbrev pub memcmp_eq : List ℕ → List ℕ → ℕ → Option Bool
memcmp_eq p q n = do a ← units n p; b ← units n q; some (list_eq a b)

-- The string object whose memory was filled with `m`, the unit behind its `n` characters included.
abbrev pub of_memory : ℕ → List ℕ → Option Str
of_memory n m = do
  (c, rest) ← read (drop n m)
  if list_eq rest [] then some (record { chars = take n m; after = c }) else none
