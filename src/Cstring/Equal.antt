-- ===== src/Cstring/Equal.antt =====
-- runtime/Clib/cstring.c: `bigloo_strcmp` and the other tests of equality, whole, at an offset, and
-- of a prefix, with and without regard to case. `tolower` is the C library's function: it takes
-- a `char`, here the byte that the `char` holds, and its results are only compared. Lengths and
-- offsets are far from the bounds of `long`, so sums of them are written without wrapping.
pub mod Laws
pub mod Decides
pub mod Bug
use bigloo.Prelude.{
  ℕ, zero, suc, ◌+◌, ◌-◌, ◌^◌, ◌==◌, ltb, leb, ◌&&◌, Bool, true, false, Option, none, some, List,
  [], ◌∷◌, ◌>>=◌, if◌then◌else◌,
}
use bigloo.Prelude.Int.{ℤ, pos, negsuc}
use bigloo.Memory.{Str, len, memory, read, advance, memcmp_eq, to_unsigned}

unfoldable pub bigloo_strcmp : Str → Str → Option Bool
bigloo_strcmp s t = if len s == len t then memcmp_eq (memory s) (memory t) (len s) else some false

unfoldable pub bigloo_strcmp_at : Str → Str → ℤ → Option Bool
bigloo_strcmp_at s t (negsuc d) = some false
bigloo_strcmp_at s t (pos d) =
    if leb (len t + d) (len s)
    then (do p ← advance d (memory s); memcmp_eq p (memory t) (len t))
    else some false

-- `l2 < l3 ? l2 : l3`
abbrev pub lesser : ℕ → ℕ → ℕ
lesser a b = if ltb a b then a else b

unfoldable pub bigloo_strncmp_at : Str → Str → ℤ → ℤ → Option Bool
bigloo_strncmp_at s t (negsuc d) l3 = some false
bigloo_strncmp_at s t (pos d) (negsuc l3) = some false
bigloo_strncmp_at s t (pos d) (pos l3) =
    let l = lesser (len t) l3 in
    if leb (l + d) (len s)
    then (do p ← advance d (memory s); memcmp_eq p (memory t) l)
    else some false

abbrev pub at_least : ℕ → ℤ → Bool
at_least n (pos l) = leb l n
at_least n (negsuc l) = true

unfoldable pub bigloo_strncmp : Str → Str → ℤ → Option Bool
bigloo_strncmp s t l =
    if at_least (len s) l && at_least (len t) l
    then memcmp_eq (memory s) (memory t) (to_unsigned l)
    else some false

module _ (tolower : ℕ → ℕ) where
  -- `for (; (i < l) && (tolower(*st1) == tolower(*st2)); i++, st1++, st2++);` with `l - i`
  -- rounds left: the `i` at which the loop stops.
  pub ci_run : ℕ → ℕ → List ℕ → List ℕ → Option ℕ
  ci_run zero i p q = some i
  ci_run (suc n) i p q = do
    (a, p') ← read p
    (b, q') ← read q
    let rest = ci_run n (i + 1) p' q'
    if tolower a == tolower b then rest else some i

  unfoldable pub bigloo_strcmp_ci_at : Str → Str → ℤ → Option Bool
  unfolding ci_run
  bigloo_strcmp_ci_at s t (negsuc d) = some false
  bigloo_strcmp_ci_at s t (pos d) =
      if leb (len t + d) (len s)
      then (do p ← advance d (memory s); i ← ci_run (len t) 0 p (memory t); some (i == len t))
      else some false

  -- The loop runs to `l2`, the length of the second string, and the test is against `l`.
  unfoldable pub bigloo_strncmp_ci_at : Str → Str → ℤ → ℤ → Option Bool
  unfolding ci_run
  bigloo_strncmp_ci_at s t (negsuc d) l3 = some false
  bigloo_strncmp_ci_at s t (pos d) (negsuc l3) = some false
  bigloo_strncmp_ci_at s t (pos d) (pos l3) =
      let l = lesser (len t) l3 in
      if leb (l + d) (len s)
      then (do p ← advance d (memory s); i ← ci_run (len t) 0 p (memory t); some (i == l))
      else some false

  unfoldable pub bigloo_strncmp_ci : Str → Str → ℤ → Option Bool
  unfolding ci_run
  bigloo_strncmp_ci s t (negsuc l) = some false
  bigloo_strncmp_ci s t (pos l) =
      if leb l (len s) && leb l (len t)
      then (do i ← ci_run l 0 (memory s) (memory t); some (i == l))
      else some false

  -- `for (; l1 > 0; l1--, st1++, st2++) if (tolower(*st1) != tolower(*st2)) return 0; return 1;`
  pub ci_all : ℕ → List ℕ → List ℕ → Option Bool
  ci_all zero p q = some true
  ci_all (suc n) p q = do
    (a, p') ← read p
    (b, q') ← read q
    let rest = ci_all n p' q'
    if tolower a == tolower b then rest else some false

  unfoldable pub bigloo_strcicmp : Str → Str → Option Bool
  unfolding ci_all
  bigloo_strcicmp s t = if len s == len t then ci_all (len s) (memory s) (memory t) else some false
