-- ===== src/Cstring/Equal/Bug.antt =====
-- `bigloo_strncmp_ci_at` tests `i == l` after a loop that runs to the length of the second string.
use bigloo.Prelude.{
  ℕ, zero, suc, ◌+◌, ◌≤◌, ◌<◌, ◌==◌, leb, true, some, List, [], ◌∷◌, ◌>>=◌, length, take, drop, ◌≡◌,
  ◌≢◌, refl, arith, map, length-drop, Option-cases, inl, inr,
}
use bigloo.Prelude.Int.{pos}
use bigloo.Memory.{Str, len, memory}
use bigloo.Memory.Laws.{advance-drop, length-memory}
use bigloo.Cstring.Equal.{lesser, ci_run, bigloo_strncmp_ci_at}
use bigloo.Cstring.Equal.Laws.{take-memory, take-drop-append}

ci_run-ge :
    (tolower : ℕ → ℕ) (n i : ℕ) (p q : List ℕ) {j : ℕ} → ci_run tolower n i p q ≡ some j → i ≤ j
unfolding ci_run
ci_run-ge f zero i p q r = ground arith
ci_run-ge f (suc n) i [] q r = absurd (cc)
ci_run-ge f (suc n) i (x ∷ p) [] r = absurd (cc)
ci_run-ge f (suc n) i (x ∷ p) (y ∷ q) {j} r = ground (arith, ci_run-ge f n (i + 1) p q {j = j})

-- The loop does not stop where the first `k + 1` characters agree.
ci_run-past :
    (tolower : ℕ → ℕ) (k n i : ℕ) (p q : List ℕ) {j : ℕ}
    → k < n
    → map tolower (take (suc k) p) ≡ map tolower (take (suc k) q)
    → k < length p
    → k < length q
    → ci_run tolower n i p q ≡ some j
    → i + k < j
unfolding ci_run
ci_run-past f k zero i p q a e b c r = absurd (omega arith)
ci_run-past f k (suc n) i [] q a e b c r = absurd (omega arith)
ci_run-past f k (suc n) i (x ∷ p) [] a e b c r = absurd (omega arith)
ci_run-past f zero (suc n) i (x ∷ p) (y ∷ q) {j} a e b c r =
    let same : f x ≡ f y = cc in ground (arith, ci_run-ge f n (i + 1) p q {j = j})
ci_run-past f (suc k) (suc n) i (x ∷ p) (y ∷ q) {j} a e b c r =
    let same : f x ≡ f y = cc in
    let rest : map f (take (suc k) p) ≡ map f (take (suc k) q) = cc in
    let go : ci_run f n (i + 1) p q ≡ some j = ground arith in
    omega (arith, ci_run-past f k n (i + 1) p q (omega arith) rest (omega arith) (omega arith) go)

module _ (tolower : ℕ → ℕ) (s t : Str) (d l3 : ℕ) where
  -- Within bounds the function is its loop and the test behind it.
  ci_at_loop :
      l3 < len t
      → d + l3 < len s
      → bigloo_strncmp_ci_at tolower s t (pos d) (pos l3)
        ≡ ci_run tolower (len t) 0 (drop d (memory s)) (memory t) >>= (λ i. some (i == l3))
  unfolding bigloo_strncmp_ci_at
  ci_at_loop short within =
      let e : lesser (len t) l3 ≡ l3 = ground arith in
      let g : leb (l3 + d) (len s) ≡ true = ground arith in
      rw (e, g, advance-drop d (memory s) (omega (arith, length-memory s))) refl

  -- Where the length is less than the second string's and the two texts agree in more than so
  -- many characters, `bigloo_strncmp_ci_at` does not answer yes, though its question, whether
  -- they agree in the first `l3`, has that answer.
  pub bigloo_strncmp_ci_at_misses :
      l3 < len t
      → d + l3 < len s
      → map tolower (take (suc l3) (drop d s.chars)) ≡ map tolower (take (suc l3) t.chars)
      → bigloo_strncmp_ci_at tolower s t (pos d) (pos l3) ≢ some true
  bigloo_strncmp_ci_at_misses short within agree h =
      elim (Option-cases (ci_run tolower (len t) 0 (drop d (memory s)) (memory t))) [
        | inl fault ↦ ground (arith, ci_at_loop short within)
        | inr (j, e) ↦ ground (arith, ci_at_loop short within, past j e)
      ]
    where
      past : (j : ℕ) → ci_run tolower (len t) 0 (drop d (memory s)) (memory t) ≡ some j → 0 + l3 < j
      past j e =
          ci_run-past tolower l3 (len t) 0 (drop d (memory s)) (memory t) short
            (rw
              (
                take-drop-append (suc l3) d s.chars (s.after ∷ []) (omega arith),
                take-memory (suc l3) t (omega arith),
              )
              agree)
            (omega (arith, length-memory s, length-drop d (memory s)))
            (omega (arith, length-memory t)) e
