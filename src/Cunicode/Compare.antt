-- ===== src/Cunicode/Compare.antt =====
-- runtime/Clib/cunicode.c: the tests of equality and the orders of strings of 16-bit units.
-- `ucs2_tolower` is any function on units; the code's own reads the tables of cucs2.c.
pub mod Laws
pub mod Equal
use bigloo.Prelude.{
  ℕ, zero, suc, ◌+◌, ◌==◌, ltb, leb, Bool, true, false, Option, none, some, List, ◌>>=◌,
  if◌then◌else◌, get_elem?,
}
use bigloo.Memory.{Str, len, memory, read}
use bigloo.Cstring.Compare.{mismatch}

-- `for (l1--; l1 >= 0; l1--) if (c1[l1] != c2[l1]) return 0; return 1;`, from the end.
pub same_below : ℕ → List ℕ → List ℕ → Option Bool
same_below zero p q = some true
same_below (suc n) p q = do
  a ← get_elem? p n
  b ← get_elem? q n
  let rest = same_below n p q
  if a == b then rest else some false

unfoldable pub ucs2_strcmp : Str → Str → Option Bool
ucs2_strcmp s t = if len s == len t then same_below (len s) (memory s) (memory t) else some false

abbrev pub lesser_length : Str → Str → ℕ
lesser_length s t = if ltb (len s) (len t) then len s else len t

-- The body that the eight orders share: the loop, and the test `cmp` of the two units where it
-- stopped, or of the two lengths.
abbrev pub ucs2_order : (ℕ → ℕ) → (ℕ → ℕ → Bool) → Str → Str → Option Bool
ucs2_order fold cmp s t = do
  (i, a, b) ← mismatch fold (lesser_length s t) 0 (memory s) (memory t)
  if ltb i (lesser_length s t) then some (cmp (fold a) (fold b)) else some (cmp (len s) (len t))

unfoldable pub ucs2_string_lt : Str → Str → Option Bool
ucs2_string_lt s t = ucs2_order (λ c. c) ltb s t

unfoldable pub ucs2_string_le : Str → Str → Option Bool
ucs2_string_le s t = ucs2_order (λ c. c) leb s t

unfoldable pub ucs2_string_gt : Str → Str → Option Bool
ucs2_string_gt s t = ucs2_order (λ c. c) (λ a b. ltb b a) s t

unfoldable pub ucs2_string_ge : Str → Str → Option Bool
ucs2_string_ge s t = ucs2_order (λ c. c) (λ a b. leb b a) s t

module _ (ucs2_tolower : ℕ → ℕ) where
  -- `for (i = 0; tolower(*st1) == tolower(*st2); i++, st1++, st2++) if (i == l1) return 1;`
  -- with `l1 - i` rounds left: the round at `i == l1` compares the units behind the characters.
  pub ci_rounds : ℕ → List ℕ → List ℕ → Option Bool
  ci_rounds zero p q = do (a, _) ← read p; (b, _) ← read q; some (ucs2_tolower a == ucs2_tolower b)
  ci_rounds (suc n) p q = do
    (a, p') ← read p
    (b, q') ← read q
    let rest = ci_rounds n p' q'
    if ucs2_tolower a == ucs2_tolower b then rest else some false

  unfoldable pub ucs2_strcicmp : Str → Str → Option Bool
  ucs2_strcicmp s t = if len s == len t then ci_rounds (len s) (memory s) (memory t) else some false

  unfoldable pub ucs2_string_cilt : Str → Str → Option Bool
  ucs2_string_cilt s t = ucs2_order ucs2_tolower ltb s t

  unfoldable pub ucs2_string_cile : Str → Str → Option Bool
  ucs2_string_cile s t = ucs2_order ucs2_tolower leb s t

  unfoldable pub ucs2_string_cigt : Str → Str → Option Bool
  ucs2_string_cigt s t = ucs2_order ucs2_tolower (λ a b. ltb b a) s t

  unfoldable pub ucs2_string_cige : Str → Str → Option Bool
  ucs2_string_cige s t = ucs2_order ucs2_tolower (λ a b. leb b a) s t
