-- ===== src/Cstring/Compare.antt =====
-- runtime/Clib/cstring.c: `bigloo_string_lt` and the other orders. `tolower` is the C
-- library's function at an `unsigned char`; its result is stored in an `unsigned char`.
pub mod Order
use bigloo.Prelude.{
  ℕ, zero, suc, ◌+◌, ◌%◌, ◌==◌, ltb, leb, Bool, true, false, Option, none, some, List, [], ◌∷◌,
  ◌>>=◌, if◌then◌else◌,
}
use bigloo.Memory.{Str, len, memory, read}

-- `for (i = 0; (fold(*st1) == fold(*st2)) && (i < min); i++, st1++, st2++);` with `min - i`
-- rounds left: where it stops, and the two characters there. `bigloo_string_lt` has no `fold`.
pub mismatch : (ℕ → ℕ) → ℕ → ℕ → List ℕ → List ℕ → Option (ℕ × ℕ × ℕ)
mismatch fold zero i p q = do (a, _) ← read p; (b, _) ← read q; some (i, a, b)
mismatch fold (suc n) i p q = do
  (a, p') ← read p
  (b, q') ← read q
  let rest = mismatch fold n (i + 1) p' q'
  if fold a == fold b then rest else some (i, a, b)

unfoldable pub bigloo_string_lt : Str → Str → Option Bool
bigloo_string_lt s t =
    let least = if ltb (len s) (len t) then len s else len t in
    do
      (i, a, b) ← mismatch (λ c. c) least 0 (memory s) (memory t)
      if ltb i least then some (ltb a b) else some (ltb (len s) (len t))

-- `for (; min > 0; min--, st1++, st2++) if (c1 != c2) return (c1 <=> c2); return dflt;`, the
-- loop of the functions below, where `fold` is what they do to each character first.
pub first_difference : (ℕ → ℕ) → (ℕ → ℕ → Bool) → Bool → ℕ → List ℕ → List ℕ → Option Bool
first_difference fold cmp dflt zero p q = some dflt
first_difference fold cmp dflt (suc n) p q = do
  (a, p') ← read p
  (b, q') ← read q
  let rest = first_difference fold cmp dflt n p' q'
  if fold a == fold b then rest else some (cmp (fold a) (fold b))

unfoldable pub bigloo_string_le : Str → Str → Option Bool
bigloo_string_le s t =
    let l1_le = leb (len s) (len t) in
    let least = if l1_le then len s else len t in
    first_difference (λ c. c) leb l1_le least (memory s) (memory t)

unfoldable pub bigloo_string_gt : Str → Str → Option Bool
bigloo_string_gt s t =
    let l1_gt = ltb (len t) (len s) in
    let least = if l1_gt then len t else len s in
    first_difference (λ c. c) (λ a b. ltb b a) l1_gt least (memory s) (memory t)

unfoldable pub bigloo_string_ge : Str → Str → Option Bool
bigloo_string_ge s t =
    let l1_ge = leb (len t) (len s) in
    let least = if l1_ge then len t else len s in
    first_difference (λ c. c) (λ a b. leb b a) l1_ge least (memory s) (memory t)

module _ (tolower : ℕ → ℕ) where
  -- `unsigned char c = tolower(*st)`
  abbrev pub fold_char : ℕ → ℕ
  fold_char c = tolower c % 256

  unfoldable pub bigloo_string_cilt : Str → Str → Option Bool
  bigloo_string_cilt s t =
      let l1_lt = ltb (len s) (len t) in
      let least = if l1_lt then len s else len t in
      first_difference fold_char ltb l1_lt least (memory s) (memory t)

  unfoldable pub bigloo_string_cile : Str → Str → Option Bool
  bigloo_string_cile s t =
      let l1_le = leb (len s) (len t) in
      let least = if l1_le then len s else len t in
      first_difference fold_char leb l1_le least (memory s) (memory t)

  unfoldable pub bigloo_string_cigt : Str → Str → Option Bool
  bigloo_string_cigt s t =
      let l1_gt = ltb (len t) (len s) in
      let least = if l1_gt then len t else len s in
      first_difference fold_char (λ a b. ltb b a) l1_gt least (memory s) (memory t)

  unfoldable pub bigloo_string_cige : Str → Str → Option Bool
  bigloo_string_cige s t =
      let l1_ge = leb (len t) (len s) in
      let least = if l1_ge then len t else len s in
      first_difference fold_char (λ a b. leb b a) l1_ge least (memory s) (memory t)
