-- ===== src/Memory/Laws.antt =====
-- Reads that stay within a string object succeed.
use bigloo.Prelude.{
  ℕ, zero, suc, ◌+◌, ◌≤◌, ◌==◌, Bool, true, false, Option, none, some, List, [], ◌∷◌, ◌++◌, ◌>>=◌,
  length, drop, take, ◌≡◌, refl, ap, ap₂, arith, ◌↔◌, append_assoc, sym, length-append, append-nil,
}
use bigloo.Memory.{Str, len, memory, advance, units, list_eq, of_memory}

pub units-append : (xs ys : List ℕ) → units (length xs) (xs ++ ys) ≡ some xs
units-append [] ys = refl
units-append (x ∷ xs) ys = rw (units-append xs ys)

pub units-memory : (s : Str) → units (len s) (memory s) ≡ some s.chars
units-memory s = units-append s.chars (s.after ∷ [])

pub units-take : (n : ℕ) (p : List ℕ) → n ≤ length p → units n p ≡ some (take n p)
units-take zero p h = refl
units-take (suc n) [] h = absurd (omega arith)
units-take (suc n) (c ∷ p) h = rw (units-take n p (omega arith))

pub advance-drop : (n : ℕ) (p : List ℕ) → n ≤ length p → advance n p ≡ some (drop n p)
advance-drop zero p h = refl
advance-drop (suc n) [] h = absurd (omega arith)
advance-drop (suc n) (c ∷ p) h = advance-drop n p (omega arith)

pub length-memory : (s : Str) → length (memory s) ≡ suc (len s)
length-memory s = omega (arith, length-append s.chars (s.after ∷ []))

pub list_eq_iff : (xs ys : List ℕ) → (list_eq xs ys ≡ true) ↔ (xs ≡ ys)
list_eq_iff [] [] = (λ _. refl, λ _. refl)
list_eq_iff [] (y ∷ ys) = (λ h. cc, λ h. cc)
list_eq_iff (x ∷ xs) [] = (λ h. cc, λ h. cc)
list_eq_iff (x ∷ xs) (y ∷ ys) = ground (arith, list_eq_iff xs ys)

pub of_memory-append :
    (xs : List ℕ) (c : ℕ)
    → of_memory (length xs) (xs ++ c ∷ []) ≡ some (record { chars = xs; after = c })
of_memory-append xs c =
    rw (bigloo.Prelude.drop-length xs (c ∷ []), bigloo.Prelude.take-length xs (c ∷ []))

pub of_memory_at :
    (n : ℕ) (xs : List ℕ) (c : ℕ)
    → length xs ≡ n
    → of_memory n (xs ++ c ∷ []) ≡ some (record { chars = xs; after = c })
of_memory_at n xs c e = rw (← e) (of_memory-append xs c)
