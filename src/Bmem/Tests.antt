-- ===== src/Bmem/Tests.antt =====
-- Two keys of the same bucket in a table of three.
use bigloo.Prelude.{ℕ, Option, List, ◌%◌, ◌⊎◌, arith, none, some, [], ◌∷◌, ◌≡◌, refl}
use bigloo.Bmem.{
  Entry, HashTable, hash_chars, hashnumber, next_offset, get_loop, put_loop, hashtable_create,
  hashtable_get, hashtable_put,
}
use bigloo.Bmem.Table.{Occupied, hashtable_put-found, hashtable_put-other}

abbrev ab : Entry
ab = record { key = b'a' ∷ b'b' ∷ []; datum = 7 }

abbrev bc : Entry
bc = record { key = b'b' ∷ b'c' ∷ []; datum = 8 }

abbrev one_key : HashTable
one_key = record { size = 3; buckets = some ab ∷ none ∷ none ∷ [] }

abbrev two_keys : HashTable
two_keys = record { size = 3; buckets = some ab ∷ some bc ∷ none ∷ [] }

put_ab : hashtable_put 1 (hashtable_create 3) ab ≡ some (1, one_key)
unfolding hashtable_put hashtable_create put_loop hashnumber hash_chars
put_ab = refl

put_bc : hashtable_put 1 one_key bc ≡ some (1, two_keys)
unfolding hashtable_put put_loop hashnumber hash_chars next_offset
put_bc = refl

get_ab : hashtable_get 1 one_key (b'a' ∷ b'b' ∷ []) ≡ some (some 7)
unfolding hashtable_get get_loop hashnumber hash_chars
get_ab = refl

hashtable_put-found_example :
    ((answer : ℕ) × (b : List (Option Entry)) × (hashtable_put 1 one_key bc
        ≡ some (answer, record one_key { buckets = b }))
      × (hashtable_get 5 (record one_key { buckets = b }) (b'b' ∷ b'c' ∷ []) ≡ some (some 8)))
    ⊎ Occupied 5 3
        (some ab ∷ none ∷ none ∷ [])
        (b'b' ∷ b'c' ∷ [])
        (hashnumber (b'b' ∷ b'c' ∷ []) % 3)
        1
hashtable_put-found_example = hashtable_put-found 0 one_key bc (omega arith) refl

hashtable_put-other_example : hashtable_get 1 two_keys (b'a' ∷ b'b' ∷ []) ≡ some (some 7)
hashtable_put-other_example =
    hashtable_put-other 1 one_key bc 1 7 two_keys (b'a' ∷ b'b' ∷ []) put_bc refl get_ab
