-- ===== src/Hash/Tests.antt =====
-- The hash numbers of a concrete name.
use bigloo.Prelude.{ℕ, ◌≡◌, refl, List, [], ◌∷◌}
use bigloo.Hash.{get_hash_number, get_hash_number_from_int, hash_loop, int_loop}

table_of_one : get_hash_number (1 ∷ 0 ∷ []) ≡ get_hash_number_from_int 1
unfolding get_hash_number get_hash_number_from_int hash_loop int_loop
table_of_one = refl

abbrev name : List ℕ
name = b'x' ∷ []
