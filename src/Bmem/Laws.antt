-- ===== src/Bmem/Laws.antt =====
-- What was put is found.
use bigloo.Prelude.{
  ℕ, zero, suc, ◌==◌, Bool-cases, Option-cases, true, false, Option, none, some, List, [], ◌∷◌,
  get_elem?, set, leb, ◌≡◌, ◌⊎◌, inl, inr, refl, ap, sym, ◌∙◌, arith,
}
use bigloo.Memory.{list_eq}
use bigloo.Memory.Laws.{list_eq_iff}
use bigloo.Bmem.{Entry, Place, stored, no_place, next_offset, get_loop, put_loop}

module _ {A : Type 0} where
  pub set_hit :
      (xs : List A) (i : ℕ) (u v : A) → get_elem? xs i ≡ some u → get_elem? (set xs i v) i ≡ some v
  set_hit [] i u v h = absurd (ground (arith, h))
  set_hit (x ∷ xs) zero u v h = refl
  set_hit (x ∷ xs) (suc i) u v h = set_hit xs i u v h

  pub set_miss :
      (xs : List A) (i j : ℕ) (v : A) → (i == j) ≡ false → get_elem? (set xs i v) j ≡ get_elem? xs j
  set_miss [] i j v h = refl
  set_miss (x ∷ xs) zero zero v h = absurd (ground arith)
  set_miss (x ∷ xs) zero (suc j) v h = refl
  set_miss (x ∷ xs) (suc i) zero v h = refl
  set_miss (x ∷ xs) (suc i) (suc j) v h = set_miss xs i j v (ground arith)

list_eq_refl : (xs : List ℕ) → list_eq xs xs ≡ true
list_eq_refl xs = (list_eq_iff xs xs).1 refl

buckets_of : Option Place → List (Option Entry)
buckets_of none = []
buckets_of (some no_place) = []
buckets_of (some (stored a b)) = b

stored_inj :
    {a c : ℕ} {b d : List (Option Entry)}
    → ◌≡◌ {A = Option Place} (some (stored a b)) (some (stored c d))
    → b ≡ d
unfolding buckets_of
stored_inj h = ap buckets_of h

-- The rounds of a put, and of a get.
module _ (fuel size : ℕ) (b : List (Option Entry)) (off i : ℕ) where
  pub put_out : (e : Entry) → get_elem? b off ≡ none → put_loop (suc fuel) size b e off i ≡ none
  unfolding put_loop
  put_out e h = rw (h, put_loop) refl

  pub put_free :
      (e : Entry)
      → get_elem? b off ≡ some none
      → put_loop (suc fuel) size b e off i ≡ some (stored 1 (set b off (some e)))
  unfolding put_loop
  put_free e h = rw (h, put_loop) refl

  pub put_same :
      (e o : Entry)
      → get_elem? b off ≡ some (some o)
      → list_eq o.key e.key ≡ true
      → put_loop (suc fuel) size b e off i ≡ some (stored 2 (set b off (some e)))
  unfolding put_loop
  put_same e o h k = rw (h, put_loop, k) refl

  put_last :
      (e o : Entry)
      → get_elem? b off ≡ some (some o)
      → list_eq o.key e.key ≡ false
      → leb 5 i ≡ true
      → put_loop (suc fuel) size b e off i ≡ some no_place
  unfolding put_loop
  put_last e o h k l = rw (h, put_loop, k, l) refl

  pub put_next :
      (e o : Entry)
      → get_elem? b off ≡ some (some o)
      → list_eq o.key e.key ≡ false
      → leb 5 i ≡ false
      → put_loop (suc fuel) size b e off i ≡ put_loop fuel size b e (next_offset size off i) (suc i)
  unfolding put_loop
  put_next e o h k l = rw (h, put_loop, k, l) refl

  pub get_same :
      (key : List ℕ) (o : Entry)
      → get_elem? b off ≡ some (some o)
      → list_eq o.key key ≡ true
      → get_loop (suc fuel) size b key off i ≡ some (some o.datum)
  unfolding get_loop
  get_same key o h k = rw (h, get_loop, k) refl

  pub get_next :
      (key : List ℕ) (o : Entry)
      → get_elem? b off ≡ some (some o)
      → list_eq o.key key ≡ false
      → get_loop (suc fuel) size b key off i
        ≡ get_loop fuel size b key (next_offset size off i) (suc i)
  unfolding get_loop
  get_next key o h k = rw (h, get_loop, k) refl

  -- Where a round of a put stores the entry, or goes on.
  pub put_cases :
      (e : Entry) (answer : ℕ) (b' : List (Option Entry))
      → put_loop (suc fuel) size b e off i ≡ some (stored answer b')
      → ((b' ≡ set b off (some e))
          × ((get_elem? b off ≡ some none)
              ⊎ ((o : Entry) × (get_elem? b off ≡ some (some o)) × (list_eq o.key e.key ≡ true))))
        ⊎ ((o : Entry) × (get_elem? b off ≡ some (some o))
            × (list_eq o.key e.key ≡ false)
            × (put_loop fuel size b e (next_offset size off i) (suc i) ≡ some (stored answer b')))
  put_cases e answer b' h = elim (Option-cases (get_elem? b off)) [
    | inl g ↦ absurd (ground (arith, put_out e g, h))
    | inr (none, g) ↦ inl (stored_inj (sym h ∙ put_free e g), inl g)
    | inr (some o, g) ↦ elim (Bool-cases (list_eq o.key e.key)) [
      | inl k ↦ inl (stored_inj (sym h ∙ put_same e o g k), inr (o, g, k))
      | inr k ↦ elim (Bool-cases (leb 5 i)) [
        | inl l ↦ absurd (ground (arith, put_last e o g k l, h))
        | inr l ↦ inr (o, g, k, sym (put_next e o g k l) ∙ h)
      ]
    ]
  ]

pub eq_of_test : (a b : ℕ) → (a == b) ≡ true → a ≡ b
eq_of_test a b h = ground arith

abbrev pub key_of : Option (Option Entry) → List ℕ
key_of (some (some e)) = e.key
key_of (some none) = []
key_of none = []

pub none-some : {A : Type 0} (a : A) → ◌≡◌ {A = Option (Option A)} (some none) (some (some a)) → ⊥
none-some a h = ground (arith, h)

-- A put keeps the entries of other keys where they are.
pub put_loop-kept :
    (fuel size : ℕ) (b b' : List (Option Entry)) (e o : Entry) (off i answer j : ℕ)
    → put_loop fuel size b e off i ≡ some (stored answer b')
    → get_elem? b j ≡ some (some o)
    → list_eq o.key e.key ≡ false
    → get_elem? b' j ≡ some (some o)
unfolding put_loop
put_loop-kept zero size b b' e o off i answer j h k n = absurd (ground (arith, h))
put_loop-kept (suc fuel) size b b' e o off i answer j h k n =
    elim (put_cases fuel size b off i e answer b' h) [
      | inr (x, g, m, rest) ↦
          put_loop-kept fuel size b b' e o (next_offset size off i) (suc i) answer j rest k n
      | inl (p, place) ↦ elim (Bool-cases (off == j)) [
        | inr d ↦ ap (λ c. get_elem? c j) p ∙ set_miss b off j (some e) d ∙ k
        | inl d ↦
            let at : get_elem? b off ≡ some (some o) = ap (get_elem? b) (eq_of_test off j d) ∙ k in
            absurd (elim place [
              | inl g ↦ none-some o (sym g ∙ at)
              | inr (x, g, m) ↦
                  let q = ap (λ c. list_eq (key_of c) e.key) (sym g ∙ at) in ground (arith, q, m, n)
            ])
      ]
    ]

-- After a put its key is found by the rounds of the put.
pub put_loop-get :
    (fuel size : ℕ) (b b' : List (Option Entry)) (e : Entry) (off i answer : ℕ)
    → put_loop fuel size b e off i ≡ some (stored answer b')
    → get_loop fuel size b' e.key off i ≡ some (some e.datum)
unfolding put_loop
put_loop-get zero size b b' e off i answer h = absurd (ground (arith, h))
put_loop-get (suc fuel) size b b' e off i answer h =
    elim (put_cases fuel size b off i e answer b' h) [
      | inr (x, g, m, rest) ↦
          get_next fuel size b' off i e.key x
            (put_loop-kept (suc fuel) size b b' e x off i answer off h g m) m
          ∙ put_loop-get fuel size b b' e (next_offset size off i) (suc i) answer rest
      | inl (p, place) ↦
          get_same fuel size b' off i e.key e
            (ap (λ c. get_elem? c off) p ∙ elim place [
              | inl g ↦ set_hit b off none (some e) g
              | inr (x, g, m) ↦ set_hit b off (some x) (some e) g
            ])
            (list_eq_refl e.key)
    ]
