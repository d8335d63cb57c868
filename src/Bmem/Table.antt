-- ===== src/Bmem/Table.antt =====
-- Puts and gets of the whole table.
use bigloo.Prelude.{
  ◌<◌, ◌+◌, ◌*◌, Bool-cases, true, leb, length, get_elem?, get_elem?-some, set, ℕ, zero, suc, ◌%◌,
  false, Option, Option-cases, none, some, List, ◌∷◌, ◌>>=◌, ◌≡◌, ◌⊎◌, inl, inr, refl, ap, sym, ◌∙◌,
  arith,
}
use native.Mathlib.Nat.{mod-lt}
use bigloo.Memory.{list_eq}
use bigloo.Bmem.{
  Entry, HashTable, Place, next_offset, stored, no_place, hashnumber, hash_chars, put_loop,
  hashtable_get, hashtable_put, hashtable_rehash,
}
use bigloo.Bmem.Laws.{put_loop-get, put_free, put_same, put_next}
use bigloo.Bmem.Kept.{get_loop-put}

-- The result of a put where the loop has ended.
abbrev placed : ℕ → HashTable → Entry → Option Place → Option (ℕ × HashTable)
placed fuel table entry o = o >>= λ place. elim place [
  | stored answer buckets ↦ some (answer, record table { buckets = buckets })
  | no_place ↦
      hashtable_rehash (λ t e. hashtable_put fuel t e) table >>= λ t. hashtable_put fuel t entry
]

first_loop : HashTable → Entry → Option Place
first_loop table e = put_loop 5 table.size table.buckets e (hashnumber e.key % table.size) 1

default : ℕ × HashTable → Option (ℕ × HashTable) → ℕ × HashTable
default d none = d
default d (some p) = p

-- A put stores the entry in the table as it is, or in the table that the rehash gives.
put_stages :
    (fuel : ℕ) (table : HashTable) (e : Entry) (answer : ℕ) (t' : HashTable)
    → hashtable_put (suc fuel) table e ≡ some (answer, t')
    → ((b : List (Option Entry)) × (put_loop 5 table.size table.buckets e
            (hashnumber e.key % table.size)
            1
          ≡ some (stored answer b))
        × (t' ≡ record table { buckets = b }))
      ⊎ ((t : HashTable) × (hashtable_put fuel t e ≡ some (answer, t')))
unfolding hashtable_put default
put_stages fuel table e answer t' h =
    let loop = put_loop 5 table.size table.buckets e (hashnumber e.key % table.size) 1 in
    elim (Option-cases loop) [
      | inl g ↦ absurd (ground (arith, sym (ap (placed fuel table e) g) ∙ h))
      | inr (stored c b, g) ↦
          let q = ap (default (0, table)) (sym (ap (placed fuel table e) g) ∙ h) in
          inl (b, g ∙ ap (λ n. some (stored n b)) (ap (λ p. p.0) q), sym (ap (λ p. p.1) q))
      | inr (no_place, g) ↦
          let run = sym (ap (placed fuel table e) g) ∙ h in
          elim (Option-cases (hashtable_rehash (λ t x. hashtable_put fuel t x) table)) [
            | inl r ↦
                absurd (ground (arith, sym (ap (λ o. o >>= λ t. hashtable_put fuel t e) r) ∙ run))
            | inr (t, r) ↦ inr (t, sym (ap (λ o. o >>= λ t. hashtable_put fuel t e) r) ∙ run)
          ]
    ]

-- From the offset `off` on, the next places of a search are held by other keys.
unfoldable pub Occupied : ℕ → ℕ → List (Option Entry) → List ℕ → ℕ → ℕ → Type 0
Occupied zero size buckets key off i = Unit
Occupied (suc rounds) size buckets key off i =
    (e : Entry) × (get_elem? buckets off ≡ some (some e))
    × (list_eq e.key key ≡ false)
    × Occupied rounds size buckets key (next_offset size off i) (suc i)

next_offset-lt : (size off i : ℕ) → 0 < size → next_offset size off i < size
unfolding next_offset
next_offset-lt size off i h = ground (arith, mod-lt (off + i * i) h)

-- What a place holds: nothing, the key, or another key.
unfoldable PlaceHolds : List (Option Entry) → ℕ → List ℕ → Type 0
PlaceHolds b off key =
    (get_elem? b off ≡ some none)
    ⊎ (((o : Entry) × (get_elem? b off ≡ some (some o)) × (list_eq o.key key ≡ true))
        ⊎ ((o : Entry) × (get_elem? b off ≡ some (some o)) × (list_eq o.key key ≡ false)))

place_holds :
    (b : List (Option Entry)) (off : ℕ) (key : List ℕ) (x : Option Entry)
    → get_elem? b off ≡ some x
    → PlaceHolds b off key
unfolding PlaceHolds
place_holds b off key none g = inl g
place_holds b off key (some o) g = elim (Bool-cases (list_eq o.key key)) [
  | inl k ↦ inr (inl (o, g, k))
  | inr k ↦ inr (inr (o, g, k))
]

-- The loop of a put stores the entry, or finds other keys in each place up to the fifth.
put_loop-ends :
    (rounds size : ℕ) (b : List (Option Entry)) (e : Entry) (off i : ℕ)
    → size ≡ length b
    → off < size
    → i + rounds ≡ 5
    → ((answer : ℕ) × (b' : List (Option Entry)) × (put_loop (suc rounds) size b e off i
          ≡ some (stored answer b')))
      ⊎ Occupied (suc rounds) size b e.key off i
unfolding Occupied PlaceHolds
put_loop-ends zero size b e off i n lt sum =
    let (x, p) = get_elem?-some b off (omega arith) in
    elim (place_holds b off e.key x p) [
      | inl g ↦ inl (1, set b off (some e), put_free zero size b off i e g)
      | inr (inl (o, g, k)) ↦ inl (2, set b off (some e), put_same zero size b off i e o g k)
      | inr (inr (o, g, k)) ↦ inr (o, g, k, tt)
    ]
put_loop-ends (suc rounds) size b e off i n lt sum =
    let (x, p) = get_elem?-some b off (omega arith) in
    elim (place_holds b off e.key x p) [
      | inl g ↦ inl (1, set b off (some e), put_free (suc rounds) size b off i e g)
      | inr (inl (o, g, k)) ↦
          inl (2, set b off (some e), put_same (suc rounds) size b off i e o g k)
      | inr (inr (o, g, k)) ↦
          let early : leb 5 i ≡ false = ground arith in
          elim (put_loop-ends rounds size b e (next_offset size off i) (suc i) n
            (next_offset-lt size off i (omega arith)) (omega arith)) [
              | inl (answer, b', r) ↦
                  inl (answer, b', put_next (suc rounds) size b off i e o g k early ∙ r)
              | inr rest ↦ inr (o, g, k, rest)
            ]
    ]

-- In a table that has a bucket, and whose size is the number of its buckets, a put returns without
-- a rehash, and a get of the key then returns the datum in at most five rounds; or else the five
-- places that the put tries are all held by other keys.
pub hashtable_put-found :
    (fuel : ℕ) (table : HashTable) (e : Entry)
    → 0 < table.size
    → table.size ≡ length table.buckets
    → ((answer : ℕ) × (b : List (Option Entry)) × (hashtable_put (suc fuel) table e
          ≡ some (answer, record table { buckets = b }))
        × (hashtable_get 5 (record table { buckets = b }) e.key ≡ some (some e.datum)))
      ⊎ Occupied 5 table.size table.buckets e.key (hashnumber e.key % table.size) 1
unfolding hashtable_put hashtable_get
hashtable_put-found fuel table e h n =
    let off = hashnumber e.key % table.size in
    elim (put_loop-ends 4 table.size table.buckets e off 1 n (mod-lt (hashnumber e.key) h)
      (omega arith)) [
        | inr full ↦ inr full
        | inl (answer, b, g) ↦ inl (
          answer,
          b,
          ap (placed fuel table e) g,
          put_loop-get 5 table.size table.buckets b e off 1 answer g,
        )
      ]

-- After a put that returns, with or without a rehash, a get of the key returns the datum, in at
-- most five rounds.
pub hashtable_put-get :
    (fuel : ℕ) (table : HashTable) (e : Entry) (answer : ℕ) (t' : HashTable)
    → hashtable_put fuel table e ≡ some (answer, t')
    → hashtable_get 5 t' e.key ≡ some (some e.datum)
unfolding hashtable_get hashtable_put
hashtable_put-get zero table e answer t' h = absurd (ground (arith, h))
hashtable_put-get (suc fuel) table e answer t' h = elim (put_stages fuel table e answer t' h) [
  | inr (t, g) ↦ hashtable_put-get fuel t e answer t' g
  | inl (b, g, q) ↦
      ap (λ x. hashtable_get 5 x e.key) q
      ∙ put_loop-get 5 table.size table.buckets b e (hashnumber e.key % table.size) 1 answer g
]

-- A put without a rehash keeps what a get of another key finds.
pub hashtable_put-other :
    (fuel : ℕ) (table : HashTable) (e : Entry) (answer d : ℕ) (t' : HashTable) (key : List ℕ)
    → hashtable_put 1 table e ≡ some (answer, t')
    → list_eq e.key key ≡ false
    → hashtable_get fuel table key ≡ some (some d)
    → hashtable_get fuel t' key ≡ some (some d)
unfolding hashtable_get hashtable_put
hashtable_put-other fuel table e answer d t' key h n g = elim (put_stages 0 table e answer t' h) [
  | inr (t, k) ↦ absurd (ground (arith, k))
  | inl (b, k, q) ↦
      ap (λ x. hashtable_get fuel x key) q
      ∙ get_loop-put 5 fuel table.size table.buckets b e key (hashnumber e.key % table.size) 1
          (hashnumber key % table.size) 1 answer d k n g
]

-- The first character of a key does not count.
pub hashnumber-first : (a b : ℕ) (s : List ℕ) → hashnumber (a ∷ s) ≡ hashnumber (b ∷ s)
unfolding hashnumber hash_chars
hashnumber-first a b s = refl
