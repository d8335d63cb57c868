-- ===== src/Cunicode/Compare/Equal.antt =====
-- The tests of equality of cunicode.c.
use bigloo.Prelude.{
  ℕ, zero, suc, ◌≤◌, ◌<◌, ◌==◌, Bool, true, false, Option, some, List, [], ◌∷◌, ◌++◌, length,
  get_elem?, ◌≡◌, ◌≢◌, refl, arith, map, ap, ◌∙◌, sym, ◌↔◌, length-map, get_elem?-some, Bool-cases,
  inl, inr, get_elem?-append_left,
}
use bigloo.Memory.{Str, len, memory, list_eq}
use bigloo.Memory.Laws.{length-memory}
use bigloo.Cstring.Equal.Laws.{Decides}
use bigloo.Cstring.Equal.Decides.{Decides-list_eq, Decides_false}
use bigloo.Cunicode.Utf8.{ok, ucs2_to_utf8_string, utf8_string_to_ucs2_string}
use bigloo.Cunicode.Utf8.Inverse.{Survives, utf8_round_trip}
use bigloo.Cunicode.Compare.{same_below, ucs2_strcmp, ci_rounds, ucs2_strcicmp}

-- The elements below `n` are there and equal.
AgreeBelow : ℕ → List ℕ → List ℕ → Type 0
AgreeBelow n p q = (i : ℕ) → i < n → get_elem? p i ≡ get_elem? q i

eq_of_agree : (xs ys : List ℕ) → length xs ≡ length ys → AgreeBelow (length xs) xs ys → xs ≡ ys
unfolding AgreeBelow
eq_of_agree [] [] e h = refl
eq_of_agree [] (y ∷ ys) e h = absurd (omega arith)
eq_of_agree (x ∷ xs) [] e h = absurd (omega arith)
eq_of_agree (x ∷ xs) (y ∷ ys) e h =
    cc (h 0 (omega arith), eq_of_agree xs ys (omega arith) (λ i l. h (suc i) (omega arith)))

same_below_lem :
    (n : ℕ) (p q : List ℕ)
    → n ≤ length p
    → n ≤ length q
    → Decides (same_below n p q) (AgreeBelow n p q)
unfolding same_below AgreeBelow
same_below_lem zero p q h k = (true, refl, (λ _ i l. absurd (omega arith), λ _. refl))
same_below_lem (suc n) p q h k =
    let (a, ea) = get_elem?-some p n (omega arith) in
    let (b, eb) = get_elem?-some q n (omega arith) in
    let (r, run, iff) = same_below_lem n p q (omega arith) (omega arith) in
    elim (Bool-cases (a == b)) [
      | inl same ↦ (
        r,
        rw (ea, eb, same) run,
        (
          λ z i l. elim (Bool-cases (i == n)) [
            | inl last ↦ ground (arith, ea, eb)
            | inr before ↦ iff.0 z i (ground arith)
          ],
          λ z. iff.1 (λ i l. z i (omega arith)),
        ),
      )
      | inr other ↦
          (false, rw (ea, eb, other) refl, (λ z. cc, λ z. ground (arith, z n (omega arith))))
    ]

ci_rounds_lem :
    (f : ℕ → ℕ) (xs ys : List ℕ) (c d : ℕ)
    → length xs ≡ length ys
    → ci_rounds f (length xs) (xs ++ c ∷ []) (ys ++ d ∷ [])
      ≡ some (list_eq (map f (xs ++ c ∷ [])) (map f (ys ++ d ∷ [])))
unfolding ci_rounds
ci_rounds_lem f [] [] c d e = ground arith
ci_rounds_lem f [] (y ∷ ys) c d e = absurd (omega arith)
ci_rounds_lem f (x ∷ xs) [] c d e = absurd (omega arith)
ci_rounds_lem f (x ∷ xs) (y ∷ ys) c d e = ground (arith, ci_rounds_lem f xs ys c d)

map_append_last : (f : ℕ → ℕ) (xs : List ℕ) (c : ℕ) → map f (xs ++ c ∷ []) ≡ map f xs ++ f c ∷ []
map_append_last f [] c = refl
map_append_last f (x ∷ xs) c = ap (λ zs. f x ∷ zs) (map_append_last f xs c)

last_eq :
    (xs ys : List ℕ) (c d : ℕ)
    → length xs ≡ length ys
    → (xs ++ c ∷ [] ≡ ys ++ d ∷ []) ↔ ((xs ≡ ys) × (c ≡ d))
last_eq [] [] c d e = (λ h. (refl, cc), λ h. rw h.1 refl)
last_eq [] (y ∷ ys) c d e = absurd (omega arith)
last_eq (x ∷ xs) [] c d e = absurd (omega arith)
last_eq (x ∷ xs) (y ∷ ys) c d e =
    let (there, back) = last_eq xs ys c d (omega arith) in
    (λ h. ground (arith, there), λ h. let t : xs ++ c ∷ [] ≡ ys ++ d ∷ [] = back (cc, h.1) in cc)

yes_of : {r : Option Bool} {P : Type 0} → Decides r P → P → r ≡ some true
yes_of (b, run, iff) h = run ∙ ap some (iff.1 h)

no_of : {r : Option Bool} {P : Type 0} → Decides r P → (P → ⊥) → r ≡ some false
no_of (true, run, iff) h = absurd (h (iff.0 refl))
no_of (false, run, iff) h = run

module _ (s : Str) where
  at_memory : (i : ℕ) → i < len s → get_elem? (memory s) i ≡ get_elem? s.chars i
  at_memory i h = get_elem?-append_left s.chars (s.after ∷ []) i h

module _ (s t : Str) where
  agree_chars :
      len s ≡ len t → AgreeBelow (len s) (memory s) (memory t) → AgreeBelow (len s) s.chars t.chars
  unfolding AgreeBelow
  agree_chars e h i l = sym (at_memory s i l) ∙ h i l ∙ at_memory t i (omega arith)

  agree_memory : len s ≡ len t → s.chars ≡ t.chars → AgreeBelow (len s) (memory s) (memory t)
  unfolding AgreeBelow
  agree_memory e h i l =
      at_memory s i l ∙ ap (λ xs. get_elem? xs i) h ∙ sym (at_memory t i (omega arith))

  -- `ucs2_strcmp` returns, and answers whether the two strings have the same units.
  pub ucs2_strcmp-Decides : Decides (ucs2_strcmp s t) (s.chars ≡ t.chars)
  unfolding ucs2_strcmp
  ucs2_strcmp-Decides = elim (Bool-cases (len s == len t)) [
    | inl same ↦
        let e : len s ≡ len t = ground arith in
        let (b, run, iff) =
          same_below_lem (len s) (memory s) (memory t) (omega (arith, length-memory s))
            (omega (arith, length-memory t)) in
        rw same (
          b,
          run,
          (
            λ h. eq_of_agree s.chars t.chars e (agree_chars e (iff.0 h)),
            λ h. iff.1 (agree_memory e h),
          ),
        )
    | inr other ↦ rw other (Decides_false refl (λ h. ground (arith, ap length h)))
  ]

  -- `ucs2_strcicmp` returns, and answers whether the two strings have units that `ucs2_tolower` does
  -- not tell apart, the units that stand behind their characters included.
  pub ucs2_strcicmp-Decides :
      (ucs2_tolower : ℕ → ℕ)
      → Decides (ucs2_strcicmp ucs2_tolower s t) (
          (map ucs2_tolower s.chars ≡ map ucs2_tolower t.chars)
          × (ucs2_tolower s.after ≡ ucs2_tolower t.after))
  unfolding ucs2_strcicmp
  ucs2_strcicmp-Decides f = elim (Bool-cases (len s == len t)) [
    | inl same ↦
        let e : len s ≡ len t = ground arith in
        let ends =
          last_eq (map f s.chars) (map f t.chars) (f s.after) (f t.after)
            (omega (arith, length-map f s.chars, length-map f t.chars)) in
        let p = map_append_last f s.chars s.after in
        let q = map_append_last f t.chars t.after in
        rw same (
          Decides-list_eq (map f (memory s)) (map f (memory t))
            (ci_rounds_lem f s.chars t.chars s.after t.after e)
            (λ h. ends.0 (sym p ∙ h ∙ q), λ h. p ∙ ends.1 h ∙ sym q))
    | inr other ↦ rw other (
        Decides_false refl
          (λ h. ground (arith, ap length h.0, length-map f s.chars, length-map f t.chars)))
  ]

-- Two decodings of one text need not be equal to `ucs2_strcicmp`: the decoder leaves the unit behind
-- the characters as the memory held it, and the test compares that unit.
pub decoded_twice_differ :
    (ucs2_tolower : ℕ → ℕ) (us : List ℕ) (fresh fresh' : ℕ)
    → Survives us
    → ucs2_tolower fresh ≢ ucs2_tolower fresh'
    → (s d d' : Str) × (ucs2_to_utf8_string us ≡ some s)
      × (utf8_string_to_ucs2_string fresh s ≡ ok d)
      × (utf8_string_to_ucs2_string fresh' s ≡ ok d')
      × (ucs2_strcmp d d' ≡ some true)
      × (ucs2_strcicmp ucs2_tolower d d' ≡ some false)
decoded_twice_differ f us fresh fresh' ok' ne =
    let (s, enc, z, dec) = utf8_round_trip us fresh ok' in
    let (s', enc', z', dec') = utf8_round_trip us fresh' ok' in
    let d : Str = record { chars = us; after = fresh } in
    let d' : Str = record { chars = us; after = fresh' } in
    let same : s' ≡ s = cc in
    (
      s,
      d,
      d',
      enc,
      dec,
      rw same at dec',
      yes_of (ucs2_strcmp-Decides d d') refl,
      no_of (ucs2_strcicmp-Decides d d' f) (λ h. ne h.1),
    )
