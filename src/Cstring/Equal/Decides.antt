-- ===== src/Cstring/Equal/Decides.antt =====
-- Each test of equality of cstring.c returns, and answers exactly its question.
use bigloo.Prelude.{
  ℕ, ◌+◌, ◌≤◌, ◌==◌, leb, ◌&&◌, Bool, false, Option, some, List, [], ◌∷◌, ◌>>=◌, if◌then◌else◌,
  length, take, drop, ◌≡◌, refl, arith, map, ap, ◌∙◌, sym, ◌↔◌, length-take, length-drop,
  length-map, take_all, Bool-cases, inl, inr,
}
use bigloo.Prelude.Int.{ℤ, pos, negsuc}
use mathlib.Core.List.{map-id}
use bigloo.Memory.{Str, len, memory, advance, list_eq, memcmp_eq}
use bigloo.Memory.Laws.{advance-drop, length-memory, list_eq_iff}
use bigloo.Cstring.Equal.{
  lesser, ci_run, bigloo_strcmp, bigloo_strcmp_at, bigloo_strncmp_at, bigloo_strncmp,
  bigloo_strcmp_ci_at, bigloo_strncmp_ci, bigloo_strcicmp,
}
use bigloo.Cstring.Equal.Laws.{
  Decides, OccursAt, OccursAt-take, take-drop-append, take-memory, memcmp_eq-take, map-take,
  map-drop, ci_run-take, ci_all-take,
}

pub Decides-list_eq :
    {r : Option Bool} {P : Type 0} (a b : List ℕ)
    → r ≡ some (list_eq a b)
    → ((a ≡ b) ↔ P)
    → Decides r P
Decides-list_eq a b e f =
    (list_eq a b, e, (λ h. f.0 ((list_eq_iff a b).0 h), λ h. (list_eq_iff a b).1 (f.1 h)))

pub Decides_false : {r : Option Bool} {P : Type 0} → r ≡ some false → (P → ⊥) → Decides r P
Decides_false e f = (false, e, (λ h. cc, λ h. absurd (f h)))

-- The test at an offset, for the first `n` characters of `t`, all folded by `f`.
module _ (f : ℕ → ℕ) (s t : Str) (d n : ℕ) (short : n ≤ len t) where
  abbrev wanted : List ℕ
  wanted = map f (take n t.chars)

  abbrev there : List ℕ
  there = map f (take n (drop d s.chars))

  length-wanted : length wanted ≡ n
  length-wanted = length-map f (take n t.chars) ∙ length-take n t.chars short

  at_offset : d + n ≤ len s → (there ≡ wanted) ↔ OccursAt d wanted (map f s.chars)
  at_offset fits =
      let o = OccursAt-take d wanted (map f s.chars) in
      let e : take (length wanted) (drop d (map f s.chars)) ≡ there =
        rw length-wanted
          (sym (map-take f n (drop d s.chars) ∙ ap (take n) (map-drop f d s.chars))) in
      (λ h. o.1 (omega (arith, length-wanted, length-map f s.chars), e ∙ h), λ h. sym e ∙ (o.0 h).1)

  off_end : (d + n ≤ len s → ⊥) → OccursAt d wanted (map f s.chars) → ⊥
  off_end short' h = short' (
      omega
        (arith, (OccursAt-take d wanted (map f s.chars)).0 h, length-wanted, length-map f s.chars))

  -- The reads of the test stay within the two strings.
  memcmp-at :
      d + n ≤ len s
      → advance d (memory s) >>= (λ p. memcmp_eq p (memory t) n)
        ≡ some (list_eq (take n (drop d s.chars)) (take n t.chars))
  memcmp-at fits =
      rw
        (
          advance-drop d (memory s) (omega (arith, length-memory s)),
          memcmp_eq-take (drop d (memory s)) (memory t) n
              (omega (arith, length-memory s, length-drop d (memory s)))
              (omega (arith, length-memory t)),
          take-drop-append n d s.chars (s.after ∷ []) fits,
          take-memory n t short,
        )
        refl

  ci_run-at :
      d + n ≤ len s
      → advance d (memory s) >>= (λ p. ci_run f n 0 p (memory t) >>= (λ i. some (i == n)))
        ≡ some (list_eq there wanted)
  ci_run-at fits =
      rw
        (
          advance-drop d (memory s) (omega (arith, length-memory s)),
          ci_run-take f n 0 n (drop d (memory s)) (memory t)
              (omega (arith, length-memory s, length-drop d (memory s)))
              (omega (arith, length-memory t)) (omega arith),
          take-drop-append n d s.chars (s.after ∷ []) fits,
          take-memory n t short,
        )
        refl

  guarded :
      (m : Option Bool)
      → (d + n ≤ len s → m ≡ some (list_eq there wanted))
      → Decides (if leb (n + d) (len s) then m else some false) (OccursAt d wanted (map f s.chars))
  guarded m run = elim (Bool-cases (leb (n + d) (len s))) [
    | inl fits ↦
        let h : d + n ≤ len s = ground arith in
        rw fits (Decides-list_eq there wanted (run h) (at_offset h))
    | inr over ↦ rw over (Decides_false refl (off_end (λ h. ground arith)))
  ]

lesser-le : (a b : ℕ) → lesser a b ≤ a
lesser-le a b = ground arith

module _ (s t : Str) where
  guarded_plain :
      (d n : ℕ)
      → n ≤ len t
      → Decides
          (if leb (n + d) (len s)
            then advance d (memory s) >>= (λ p. memcmp_eq p (memory t) n)
            else some false)
          (OccursAt d (take n t.chars) s.chars)
  guarded_plain d n short =
      rw (map-id (take n t.chars), map-id s.chars) at
        (guarded (λ c. c) s t d n short (advance d (memory s) >>= (λ p. memcmp_eq p (memory t) n))
          (λ h.
            rw (map-id (take n t.chars), map-id (take n (drop d s.chars)))
              (memcmp-at (λ c. c) s t d n short h)))

  -- `bigloo_strcmp` returns, and answers whether the two strings have the same characters.
  pub bigloo_strcmp-Decides : Decides (bigloo_strcmp s t) (s.chars ≡ t.chars)
  unfolding bigloo_strcmp
  bigloo_strcmp-Decides = elim (Bool-cases (len s == len t)) [
    | inl same ↦
        let e : len s ≡ len t = ground arith in
        rw same (
          Decides-list_eq s.chars t.chars
            (rw
              (
                memcmp_eq-take (memory s) (memory t) (len s) (omega (arith, length-memory s))
                    (omega (arith, length-memory t)),
                take-memory (len s) s (omega arith),
                take-memory (len s) t (omega arith),
                take_all (len s) s.chars (omega arith),
                e,
                take_all (len t) t.chars (omega arith),
              )
              refl)
            (λ h. h, λ h. h))
    | inr other ↦ rw other (Decides_false refl (λ h. ground (arith, ap length h)))
  ]

  -- `bigloo_strcmp_at` returns for every offset, and answers whether the second string stands in
  -- the first one at that offset; at a negative offset the answer is no.
  pub bigloo_strcmp_at-Decides :
      (d : ℕ)
      → Decides (bigloo_strcmp_at s t (pos d)) (OccursAt d t.chars s.chars)
        × (bigloo_strcmp_at s t (negsuc d) ≡ some false)
  unfolding bigloo_strcmp_at
  bigloo_strcmp_at-Decides d =
      (rw (take_all (len t) t.chars (omega arith)) at (guarded_plain d (len t) (omega arith)), refl)

  -- `bigloo_strncmp_at` returns for every offset and length, and answers whether the first `l3`
  -- characters of the second string, or all if it is shorter, stand in the first one at that
  -- offset; the answer is no if the offset or the length is negative.
  pub bigloo_strncmp_at-Decides :
      (d l3 : ℕ) (i : ℤ)
      → Decides
          (bigloo_strncmp_at s t (pos d) (pos l3))
          (OccursAt d (take (lesser (len t) l3) t.chars) s.chars)
        × (bigloo_strncmp_at s t (negsuc d) i ≡ some false)
        × (bigloo_strncmp_at s t (pos d) (negsuc l3) ≡ some false)
  unfolding bigloo_strncmp_at
  bigloo_strncmp_at-Decides d l3 i =
      (guarded_plain d (lesser (len t) l3) (lesser-le (len t) l3), refl, refl)

  -- `bigloo_strncmp` returns for a length that is not negative, and answers whether both strings
  -- have so many characters and the same ones up to there.
  pub bigloo_strncmp-Decides :
      (l : ℕ)
      → Decides
          (bigloo_strncmp s t (pos l))
          ((l ≤ len s) × (l ≤ len t) × (take l s.chars ≡ take l t.chars))
  unfolding bigloo_strncmp
  bigloo_strncmp-Decides l = elim (Bool-cases (leb l (len s) && leb l (len t))) [
    | inl both ↦
        let hs : l ≤ len s = ground arith in
        let ht : l ≤ len t = ground arith in
        rw both (
          Decides-list_eq (take l s.chars) (take l t.chars)
            (rw
              (
                memcmp_eq-take (memory s) (memory t) l (omega (arith, length-memory s))
                    (omega (arith, length-memory t)),
                take-memory l s hs,
                take-memory l t ht,
              )
              refl)
            (λ h. (hs, ht, h), λ h. h.2))
    | inr short ↦ rw short (Decides_false refl (λ h. ground arith))
  ]

  module _ (tolower : ℕ → ℕ) where
    -- The tests that disregard case return, and answer the same questions of the texts that
    -- `tolower` gives: whether they are equal, whether one stands in the other at an offset, and
    -- whether they agree in the first `l` characters.
    pub bigloo_ci-Decides :
        (d l : ℕ)
        → let f = map tolower in
          Decides (bigloo_strcicmp tolower s t) (f s.chars ≡ f t.chars)
          × Decides (bigloo_strcmp_ci_at tolower s t (pos d)) (OccursAt d (f t.chars) (f s.chars))
          × Decides
              (bigloo_strncmp_ci tolower s t (pos l))
              ((l ≤ len s) × (l ≤ len t) × (f (take l s.chars) ≡ f (take l t.chars)))
    unfolding bigloo_strcicmp bigloo_strcmp_ci_at bigloo_strncmp_ci
    bigloo_ci-Decides d l = (
      elim (Bool-cases (len s == len t)) [
        | inl same ↦
            let e : len s ≡ len t = ground arith in
            rw same (
              Decides-list_eq (map tolower s.chars) (map tolower t.chars)
                (rw
                  (
                    ci_all-take tolower (len s) (memory s) (memory t)
                        (omega (arith, length-memory s)) (omega (arith, length-memory t)),
                    take-memory (len s) s (omega arith),
                    take-memory (len s) t (omega arith),
                    take_all (len s) s.chars (omega arith),
                    e,
                    take_all (len t) t.chars (omega arith),
                  )
                  refl)
                (λ h. h, λ h. h))
        | inr other ↦ rw other (
            Decides_false refl (λ h.
              ground (arith, ap length h, length-map tolower s.chars, length-map tolower t.chars)))
      ],
      rw (take_all (len t) t.chars (omega arith)) at (
          guarded tolower s t d (len t) (omega arith) _
            (ci_run-at tolower s t d (len t) (omega arith))),
      elim (Bool-cases (leb l (len s) && leb l (len t))) [
        | inl both ↦
            let hs : l ≤ len s = ground arith in
            let ht : l ≤ len t = ground arith in
            rw both (
              Decides-list_eq (map tolower (take l s.chars)) (map tolower (take l t.chars))
                (rw
                  (
                    ci_run-take tolower l 0 l (memory s) (memory t) (omega (arith, length-memory s))
                        (omega (arith, length-memory t)) (omega arith),
                    take-memory l s hs,
                    take-memory l t ht,
                  )
                  refl)
                (λ h. (hs, ht, h), λ h. h.2))
        | inr short ↦ rw short (Decides_false refl (λ h. ground arith))
      ],
    )
