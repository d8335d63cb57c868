-- ===== src/Hash/Laws.antt =====
-- The hash numbers of a string are the same by its terminator and by its length, and within bounds.

use bigloo.Prelude.{ℕ, ◌%◌, ◌^◌, some, List, [], ◌∷◌, ◌++◌, length, ◌≡◌, refl}
use bigloo.Hash.{power_step, power_loop_len, get_hash_power_number_len}

-- The hash number of a text, computed without a pointer.
abbrev pub fold_power : ℕ → List ℕ → ℕ
fold_power r [] = r
fold_power r (c ∷ cs) = fold_power (power_step r c) cs

power_loop_len-append :
    (cs rest : List ℕ) (r : ℕ) → power_loop_len r (cs ++ rest) (length cs) ≡ some (fold_power r cs)
unfolding power_loop_len
power_loop_len-append [] rest r = refl
power_loop_len-append (c ∷ cs) rest r = power_loop_len-append cs rest (power_step r c)

abbrev pub hash_of : List ℕ → ℕ
hash_of cs = fold_power 0 cs % 2 ^ 12

pub hash_append :
    (cs rest : List ℕ) → get_hash_power_number_len (cs ++ rest) 12 (length cs) ≡ some (hash_of cs)
unfolding get_hash_power_number_len
hash_append cs rest = rw (power_loop_len-append cs rest 0) refl
