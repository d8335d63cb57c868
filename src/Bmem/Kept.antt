-- ===== src/Bmem/Kept.antt =====
-- What was found under other keys is found after a put.
use bigloo.Prelude.{
  ℕ, zero, suc, ◌==◌, Bool-cases, Option-cases, true, false, Option, none, some, List, get_elem?,
  set, ◌≡◌, ◌⊎◌, inl, inr, refl, ap, sym, ◌∙◌, arith,
}
use bigloo.Memory.{list_eq}
use bigloo.Memory.Laws.{list_eq_iff}
use bigloo.Bmem.{Entry, stored, next_offset, get_loop, put_loop}
use bigloo.Bmem.Laws.{
  get_same, get_next, put_cases, eq_of_test, key_of, none-some, set_hit, set_miss,
}

-- An entry stays, or is replaced by that of the same key.
put_loop-slot :
    (fuel size : ℕ) (b b' : List (Option Entry)) (e o : Entry) (off i answer j : ℕ)
    → put_loop fuel size b e off i ≡ some (stored answer b')
    → get_elem? b j ≡ some (some o)
    → (get_elem? b' j ≡ some (some o))
      ⊎ ((list_eq o.key e.key ≡ true) × (get_elem? b' j ≡ some (some e)))
unfolding put_loop
put_loop-slot zero size b b' e o off i answer j h k = absurd (ground (arith, h))
put_loop-slot (suc fuel) size b b' e o off i answer j h k =
    elim (put_cases fuel size b off i e answer b' h) [
      | inr (x, g, m, rest) ↦
          put_loop-slot fuel size b b' e o (next_offset size off i) (suc i) answer j rest k
      | inl (p, place) ↦ elim (Bool-cases (off == j)) [
        | inr d ↦ inl (ap (λ c. get_elem? c j) p ∙ set_miss b off j (some e) d ∙ k)
        | inl d ↦
            let at : get_elem? b off ≡ some (some o) = ap (get_elem? b) (eq_of_test off j d) ∙ k in
            let hit : get_elem? b' j ≡ some (some e) =
              ap (λ c. get_elem? c j) p
              ∙ ap (get_elem? (set b off (some e))) (sym (eq_of_test off j d))
              ∙ set_hit b off (some o) (some e) at in
            elim place [
              | inl g ↦ absurd (none-some o (sym g ∙ at))
              | inr (x, g, m) ↦ inr (ap (λ c. list_eq (key_of c) e.key) (sym at ∙ g) ∙ m, hit)
            ]
      ]
    ]

abbrev datum_of : Option (Option ℕ) → ℕ
datum_of (some (some d)) = d
datum_of (some none) = 0
datum_of none = 0

module _ (fuel size : ℕ) (b : List (Option Entry)) (off i : ℕ) (key : List ℕ) where
  get_out : get_elem? b off ≡ none → get_loop (suc fuel) size b key off i ≡ none
  unfolding get_loop
  get_out h = rw (h, get_loop) refl

  get_free : get_elem? b off ≡ some none → get_loop (suc fuel) size b key off i ≡ some none
  unfolding get_loop
  get_free h = rw (h, get_loop) refl

two_keys : (a b c : List ℕ) → list_eq a b ≡ true → list_eq a c ≡ true → list_eq b c ≡ false → ⊥
two_keys a b c p q n =
    let e = (list_eq_iff b c).1 (sym ((list_eq_iff a b).0 p) ∙ (list_eq_iff a c).0 q) in
    ground (arith, e, n)

-- The rounds of a search that finds data.
get_cases :
    (fuel size : ℕ) (b : List (Option Entry)) (key : List ℕ) (off i d : ℕ)
    → get_loop (suc fuel) size b key off i ≡ some (some d)
    → (o : Entry) × (get_elem? b off ≡ some (some o))
      × (((list_eq o.key key ≡ true) × (o.datum ≡ d))
          ⊎ ((list_eq o.key key ≡ false)
              × (get_loop fuel size b key (next_offset size off i) (suc i) ≡ some (some d))))
get_cases fuel size b key off i d h = elim (Option-cases (get_elem? b off)) [
  | inl g ↦ absurd (ground (arith, get_out fuel size b off i key g, h))
  | inr (none, g) ↦ absurd (none-some d (sym (get_free fuel size b off i key g) ∙ h))
  | inr (some o, g) ↦ elim (Bool-cases (list_eq o.key key)) [
    | inl k ↦
        let q = ap datum_of (sym (get_same fuel size b off i key o g k) ∙ h) in (o, g, inl (k, q))
    | inr k ↦ (o, g, inr (k, sym (get_next fuel size b off i key o g k) ∙ h))
  ]
]

pub get_loop-put :
    (fuel fuel' size : ℕ) (b b' : List (Option Entry)) (e : Entry) (key : List ℕ)
    (off i off' i' answer d : ℕ)
    → put_loop fuel size b e off i ≡ some (stored answer b')
    → list_eq e.key key ≡ false
    → get_loop fuel' size b key off' i' ≡ some (some d)
    → get_loop fuel' size b' key off' i' ≡ some (some d)
unfolding get_loop
get_loop-put fuel zero size b b' e key off i off' i' answer d h n g = absurd (ground (arith, g))
get_loop-put fuel (suc fuel') size b b' e key off i off' i' answer d h n g =
    let (o, at, way) = get_cases fuel' size b key off' i' d g in
    elim (put_loop-slot fuel size b b' e o off i answer off' h at) [
      | inl p ↦ elim way [
        | inl (k, q) ↦ get_same fuel' size b' off' i' key o p k ∙ ap (λ x. some (some x)) q
        | inr (k, rest) ↦
            get_next fuel' size b' off' i' key o p k
            ∙ get_loop-put fuel fuel' size b b' e key off i (next_offset size off' i') (suc i')
                answer d h n rest
      ]
      | inr (m, p) ↦ elim way [
        | inl (k, q) ↦ absurd (two_keys o.key e.key key m k n)
        | inr (k, rest) ↦
            get_next fuel' size b' off' i' key e p n
            ∙ get_loop-put fuel fuel' size b b' e key off i (next_offset size off' i') (suc i')
                answer d h n rest
      ]
    ]
