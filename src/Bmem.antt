-- ===== src/Bmem.antt =====
-- bde/bmem/lib/hash.c: the hash table of the memory profiler, from strings to data. A string is the
-- list of its characters, none of which is 0; data are numbers. The hash number is computed on
-- machine words, in two's complement.
pub mod Laws
pub mod Kept
pub mod Table
mod Tests
use bigloo.Prelude.{
  ℕ, zero, suc, ◌+◌, ◌*◌, ◌%◌, ◌^◌, ◌==◌, leb, Bool, true, false, Option, none, some, List, [], ◌∷◌,
  ◌>>=◌, length, get_elem?, set, replicate, if◌then◌else◌,
}
use bigloo.Memory.{list_eq}
use bigloo.Hash.{sign_extended}

-- `hashbucketentry_t` with a key that is not null.
pub record Entry : Type 0 where
  pub key : List ℕ
  pub datum : ℕ

-- `hashtable_t`; none is an entry with a null key, and `size` is the number of the buckets.
pub record HashTable : Type 0 where
  pub size : ℕ
  pub buckets : List (Option Entry)

-- The character at a pointer.
abbrev pub first_char : List ℕ → ℕ
first_char [] = 0
first_char (c ∷ s) = c

-- `while (*c++) result += (result << 5) + (long)(*c)`: a round adds the character behind the one
-- that it tests.
unfoldable pub hash_chars : ℕ → List ℕ → ℕ
hash_chars result [] = result
hash_chars result (c ∷ s) =
    hash_chars ((result + (result * 32 + sign_extended (first_char s))) % 2 ^ 64) s

unfoldable pub hashnumber : List ℕ → ℕ
unfolding hash_chars
hashnumber string = hash_chars 5381 string % 2 ^ 29

unfoldable pub hashtable_create : ℕ → HashTable
hashtable_create size = record { size = size; buckets = replicate size none }

-- The next offset: `off + i * i`, taken modulo the size where it is not below it.
unfoldable pub next_offset : ℕ → ℕ → ℕ → ℕ
next_offset size off i = let noff = off + i * i in if leb size noff then noff % size else noff

-- What a search finds: null, or data. none is an access outside the buckets, or fuel that does not
-- suffice.
unfoldable pub get_loop : ℕ → ℕ → List (Option Entry) → List ℕ → ℕ → ℕ → Option (Option ℕ)
unfolding next_offset
get_loop zero size buckets key off i = none
get_loop (suc fuel) size buckets key off i = elim (get_elem? buckets off) [
  | none ↦ none
  | some none ↦ some none
  | some (some e) ↦
      let rest = get_loop fuel size buckets key (next_offset size off i) (suc i) in
      if list_eq e.key key then some (some e.datum) else rest
]

unfoldable pub hashtable_get : ℕ → HashTable → List ℕ → Option (Option ℕ)
unfolding get_loop hashnumber
hashtable_get fuel table key =
    get_loop fuel table.size table.buckets key (hashnumber key % table.size) 1

-- Where the loop of a put ends: it stores the entry and answers 1 or 2, or finds no place.
pub data Place : Type 0 where
  stored : ℕ → List (Option Entry) → Place
  no_place : Place

unfoldable pub put_loop : ℕ → ℕ → List (Option Entry) → Entry → ℕ → ℕ → Option Place
unfolding next_offset
put_loop zero size buckets entry off i = none
put_loop (suc fuel) size buckets entry off i = elim (get_elem? buckets off) [
  | none ↦ none
  | some none ↦ some (stored 1 (set buckets off (some entry)))
  | some (some e) ↦
      let rest = put_loop fuel size buckets entry (next_offset size off i) (suc i) in
      if list_eq e.key entry.key
      then some (stored 2 (set buckets off (some entry)))
      else if leb 5 i
      then some no_place
      else rest
]

-- `hashtable_put(table, obuckets[i].key, obuckets[i].data)` for each entry, where `put` is what a
-- call of it does.
unfoldable pub put_all :
    (HashTable → Entry → Option (ℕ × HashTable))
    → List (Option Entry)
    → HashTable
    → Option HashTable
put_all put [] table = some table
put_all put (none ∷ buckets) table = put_all put buckets table
put_all put (some e ∷ buckets) table = put table e >>= λ r. put_all put buckets r.1

unfoldable pub hashtable_rehash :
    (HashTable → Entry → Option (ℕ × HashTable)) → HashTable → Option HashTable
unfolding put_all hashtable_create
hashtable_rehash put table = put_all put table.buckets (hashtable_create (1 + table.size * 2))

-- A round of fuel is a call. The loop has a round for each `i` from 1 to 5.
unfoldable pub hashtable_put : ℕ → HashTable → Entry → Option (ℕ × HashTable)
unfolding put_loop hashtable_rehash hashnumber
hashtable_put zero table entry = none
hashtable_put (suc fuel) table entry =
    put_loop 5 table.size table.buckets entry (hashnumber entry.key % table.size) 1 >>= λ place.
    elim place [
      | stored answer buckets ↦ some (answer, record table { buckets = buckets })
      | no_place ↦
          hashtable_rehash (λ t e. hashtable_put fuel t e) table >>= λ t. hashtable_put fuel t entry
    ]
