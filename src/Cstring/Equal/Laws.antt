-- ===== src/Cstring/Equal/Laws.antt =====
-- The tests of equality of cstring.c against occurrences of one text in another.
use bigloo.Prelude.{
  ℕ, zero, suc, ◌+◌, ◌≤◌, ◌==◌, Bool, true, Option, some, List, [], ◌∷◌, ◌++◌, ◌>>=◌, length, take,
  drop, ◌≡◌, refl, arith, map, ap, ◌∙◌, sym, ◌↔◌, length-append, length-take, take-append-drop,
  take-length, drop-length, Bool-cases, inl, inr,
}
use bigloo.Memory.{Str, len, memory, list_eq, memcmp_eq}
use bigloo.Memory.Laws.{units-take}
use bigloo.Cstring.Equal.{ci_run, ci_all}

-- The run returns, and answers whether `P` holds.
abbrev pub Decides : Option Bool → Type 0 → Type 0
Decides r P = (b : Bool) × (r ≡ some b) × ((b ≡ true) ↔ P)

-- `xs` stands in `ys` at the offset `d`.
abbrev pub OccursAt : ℕ → List ℕ → List ℕ → Type 0
OccursAt d xs ys =
    (before : List ℕ) × (behind : List ℕ) × (length before ≡ d) × (ys ≡ before ++ (xs ++ behind))

pub OccursAt-take :
    (d : ℕ) (xs ys : List ℕ)
    → (OccursAt d xs ys) ↔ ((d + length xs ≤ length ys) × (take (length xs) (drop d ys) ≡ xs))
OccursAt-take d xs ys = (there, back)
  where
    there : OccursAt d xs ys → (d + length xs ≤ length ys) × (take (length xs) (drop d ys) ≡ xs)
    there (before, behind, e, f) = (
      omega (arith, ap length f, length-append before (xs ++ behind), length-append xs behind),
      rw (f, ← e, drop-length before (xs ++ behind)) (take-length xs behind),
    )

    back : (d + length xs ≤ length ys) × (take (length xs) (drop d ys) ≡ xs) → OccursAt d xs ys
    back (h, e) = (
      take d ys,
      drop (length xs) (drop d ys),
      length-take d ys (omega arith),
      sym (
          ap (λ zs. take d ys ++ (zs ++ drop (length xs) (drop d ys))) (sym e)
          ∙ ap (λ zs. take d ys ++ zs) (take-append-drop (length xs) (drop d ys))
          ∙ take-append-drop d ys),
    )

-- The unit behind the characters is not among the units that a test within bounds reads.
pub take-drop-append :
    (n d : ℕ) (xs ys : List ℕ) → d + n ≤ length xs → take n (drop d (xs ++ ys)) ≡ take n (drop d xs)
take-drop-append zero d xs ys h = refl
take-drop-append (suc n) zero [] ys h = absurd (omega arith)
take-drop-append (suc n) zero (x ∷ xs) ys h =
    ap (λ zs. x ∷ zs) (take-drop-append n zero xs ys (omega arith))
take-drop-append (suc n) (suc d) [] ys h = absurd (omega arith)
take-drop-append (suc n) (suc d) (x ∷ xs) ys h = take-drop-append (suc n) d xs ys (omega arith)

pub take-memory : (n : ℕ) (s : Str) → n ≤ len s → take n (memory s) ≡ take n s.chars
take-memory n s h = take-drop-append n 0 s.chars (s.after ∷ []) (omega arith)

pub memcmp_eq-take :
    (p q : List ℕ) (n : ℕ)
    → n ≤ length p
    → n ≤ length q
    → memcmp_eq p q n ≡ some (list_eq (take n p) (take n q))
memcmp_eq-take p q n h k = rw (units-take n p h, units-take n q k)

pub map-take : (f : ℕ → ℕ) (n : ℕ) (xs : List ℕ) → map f (take n xs) ≡ take n (map f xs)
map-take f zero xs = refl
map-take f (suc n) [] = refl
map-take f (suc n) (x ∷ xs) = ap (λ zs. f x ∷ zs) (map-take f n xs)

pub map-drop : (f : ℕ → ℕ) (n : ℕ) (xs : List ℕ) → map f (drop n xs) ≡ drop n (map f xs)
map-drop f zero xs = refl
map-drop f (suc n) [] = refl
map-drop f (suc n) (x ∷ xs) = map-drop f n xs

pub ci_run-take :
    (tolower : ℕ → ℕ) (n i j : ℕ) (p q : List ℕ)
    → n ≤ length p
    → n ≤ length q
    → i + n ≡ j
    → ci_run tolower n i p q >>= (λ k. some (k == j))
      ≡ some (list_eq (map tolower (take n p)) (map tolower (take n q)))
unfolding ci_run
ci_run-take f zero i j p q h k e = ground arith
ci_run-take f (suc n) i j [] q h k e = absurd (omega arith)
ci_run-take f (suc n) i j (x ∷ p) [] h k e = absurd (omega arith)
ci_run-take f (suc n) i j (x ∷ p) (y ∷ q) h k e = elim (Bool-cases (f x == f y)) [
  | inl same ↦ rw same (ci_run-take f n (i + 1) j p q (omega arith) (omega arith) (omega arith))
  | inr other ↦ rw other (ground arith)
]

pub ci_all-take :
    (tolower : ℕ → ℕ) (n : ℕ) (p q : List ℕ)
    → n ≤ length p
    → n ≤ length q
    → ci_all tolower n p q ≡ some (list_eq (map tolower (take n p)) (map tolower (take n q)))
unfolding ci_all
ci_all-take f zero p q h k = refl
ci_all-take f (suc n) [] q h k = absurd (omega arith)
ci_all-take f (suc n) (x ∷ p) [] h k = absurd (omega arith)
ci_all-take f (suc n) (x ∷ p) (y ∷ q) h k = ground (arith, ci_all-take f n p q)
