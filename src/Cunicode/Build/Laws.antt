-- ===== src/Cunicode/Build/Laws.antt =====
-- The constructors of cunicode.c against the operations on lists of units.
use bigloo.Prelude.{
  ℕ, zero, suc, ◌+◌, ◌-◌, ◌≤◌, ltb, false, some, List, [], ◌∷◌, ◌++◌, length, take, drop, map, ◌≡◌,
  refl, arith, ap, ◌∙◌, sym, length-append, length-take, length-drop, drop-length, append_assoc,
  append-nil, take_all, get_elem?-some, take-suc, take_at,
}
use mathlib.Core.List.{map-id}
use bigloo.Memory.{Str, len, memory}
use bigloo.Memory.Laws.{advance-drop, length-memory, of_memory_at}
use bigloo.Cstring.Equal.Laws.{take-drop-append, take-memory}
use bigloo.Cunicode.Build.{
  ucs2cpy, ucs2_string_append, c_subucs2_string, copy_loop, c_ucs2_string_copy, unit_of_char,
  bstring_to_ucs2_string,
}

ucs2cpy-take : (n : ℕ) (p out : List ℕ) → n ≤ length p → ucs2cpy n p out ≡ some (take n p ++ out)
unfolding ucs2cpy
ucs2cpy-take zero p out h = refl
ucs2cpy-take (suc n) p out h =
    let (c, e) = get_elem?-some p n (omega arith) in
    rw e (
      ucs2cpy-take n p (c ∷ out) (omega arith)
      ∙ ap some (sym (append_assoc (take n p) (c ∷ []) out))
      ∙ ap (λ xs. some (xs ++ out)) (sym (take-suc n p e)))

copy_loop-take :
    (cast : ℕ → ℕ) (n : ℕ) (p : List ℕ)
    → n ≤ length p
    → copy_loop cast n p ≡ some (map cast (take n p))
unfolding copy_loop
copy_loop-take cast zero p h = refl
copy_loop-take cast (suc n) [] h = absurd (omega arith)
copy_loop-take cast (suc n) (c ∷ p) h = rw (copy_loop-take cast n p (omega arith)) refl

module _ (s : Str) where
  cpy_all : ucs2cpy (len s) (memory s) [] ≡ some s.chars
  cpy_all =
      ucs2cpy-take (len s) (memory s) [] (omega (arith, length-memory s))
      ∙ ap some (
          append-nil (take (len s) (memory s))
          ∙ take-memory (len s) s (omega arith)
          ∙ take_all (len s) s.chars (omega arith))

  copy_all : (cast : ℕ → ℕ) → copy_loop cast (len s) (memory s) ≡ some (map cast s.chars)
  copy_all cast =
      copy_loop-take cast (len s) (memory s) (omega (arith, length-memory s))
      ∙ ap (λ xs. some (map cast xs))
          (take-memory (len s) s (omega arith) ∙ take_all (len s) s.chars (omega arith))

c_subucs2_lem :
    (s : Str) (lo hi : ℕ)
    → lo ≤ hi
    → hi ≤ len s
    → c_subucs2_string s lo hi
      ≡ some (record { chars = take (hi - lo) (drop lo s.chars); after = 0 })
unfolding c_subucs2_string
c_subucs2_lem s lo hi h k =
    let order : ltb hi lo ≡ false = ground arith in
    let size : length (take (hi - lo) (drop lo s.chars)) ≡ hi - lo =
      length-take (hi - lo) (drop lo s.chars) (omega (arith, length-drop lo s.chars)) in
    rw
      (
        order,
        advance-drop lo (memory s) (omega (arith, length-memory s)),
        ucs2cpy-take (hi - lo) (drop lo (memory s)) []
            (omega (arith, length-memory s, length-drop lo (memory s))),
        take-drop-append (hi - lo) lo s.chars (s.after ∷ []) (omega arith),
        append-nil (take (hi - lo) (drop lo s.chars)),
      )
      (of_memory_at (hi - lo) (take (hi - lo) (drop lo s.chars)) 0 size)

append_lem :
    (s t : Str) → ucs2_string_append s t ≡ some (record { chars = s.chars ++ t.chars; after = 0 })
unfolding ucs2_string_append
append_lem s t =
    rw (cpy_all s, cpy_all t, ← append_assoc s.chars t.chars (0 ∷ []))
      (of_memory_at (len s + len t) (s.chars ++ t.chars) 0 (length-append s.chars t.chars))

-- `ucs2_string_append` copies within its strings and returns the units of both, terminated, and
-- `c_subucs2_string` cuts each of the two out of the result again.
pub ucs2_append_sub :
    (s t : Str)
    → (r : Str) × (ucs2_string_append s t ≡ some r)
      × (r ≡ record { chars = s.chars ++ t.chars; after = 0 })
      × (c_subucs2_string r 0 (len s) ≡ some (record { chars = s.chars; after = 0 }))
      × (c_subucs2_string r (len s) (len r) ≡ some (record { chars = t.chars; after = 0 }))
ucs2_append_sub s t =
    let r : Str = record { chars = s.chars ++ t.chars; after = 0 } in
    let size : len r ≡ len s + len t = length-append s.chars t.chars in
    (
      r,
      append_lem s t,
      refl,
      c_subucs2_lem r 0 (len s) (omega arith) (omega arith)
          ∙ rw (take_at (len s - 0) s.chars t.chars (omega arith)) refl,
      c_subucs2_lem r (len s) (len r) (omega arith) (omega arith)
          ∙ rw (drop-length s.chars t.chars, take_all (len r - len s) t.chars (omega arith)) refl,
    )

-- `bstring_to_ucs2_string` reads within the string; the units are the bytes below 0x80, and the
-- others with 0xff00 added, so a byte from 0x80 does not become the character of its number.
pub bstring_to_ucs2_string_lem :
    (s : Str)
    → bstring_to_ucs2_string s ≡ some (record { chars = map unit_of_char s.chars; after = 0 })
unfolding bstring_to_ucs2_string
bstring_to_ucs2_string_lem s = rw (copy_all s unit_of_char) refl

pub c_ucs2_string_copy_lem :
    (s : Str) → c_ucs2_string_copy s ≡ some (record { chars = s.chars; after = 0 })
unfolding c_ucs2_string_copy
c_ucs2_string_copy_lem s = rw (copy_all s (λ c. c), map-id s.chars) refl
