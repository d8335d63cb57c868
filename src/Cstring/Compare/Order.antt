-- ===== src/Cstring/Compare/Order.antt =====
-- The orders of cstring.c against the lexicographic order of the characters.
use bigloo.Prelude.{
  ℕ, suc, ◌+◌, ◌≤◌, ◌==◌, ltb, leb, Bool, true, false, not, Option, some, List, [], ◌∷◌, ◌++◌,
  if◌then◌else◌, length, Bool-cases, inl, inr, ◌>>=◌, ◌≡◌, refl, arith, map, ap, ◌∙◌, length-map,
}
use mathlib.Core.List.{map-id}
use bigloo.Memory.{Str, len, memory}
use bigloo.Cstring.Compare.{
  mismatch, first_difference, fold_char, bigloo_string_lt, bigloo_string_le, bigloo_string_gt,
  bigloo_string_ge, bigloo_string_cilt, bigloo_string_cile, bigloo_string_cigt, bigloo_string_cige,
}

-- The lexicographic order of the values, a proper prefix being less.
abbrev pub lex_lt : List ℕ → List ℕ → Bool
lex_lt [] [] = false
lex_lt [] (y ∷ ys) = true
lex_lt (x ∷ xs) [] = false
lex_lt (x ∷ xs) (y ∷ ys) = if x == y then lex_lt xs ys else ltb x y

abbrev pub lex_le : List ℕ → List ℕ → Bool
lex_le xs ys = not (lex_lt ys xs)

-- The length of the shorter list, in step with both.
abbrev pub shorter : List ℕ → List ℕ → ℕ
shorter [] ys = 0
shorter (x ∷ xs) [] = 0
shorter (x ∷ xs) (y ∷ ys) = suc (shorter xs ys)

pub shorter_left : (xs ys : List ℕ) → length xs ≤ length ys → shorter xs ys ≡ length xs
shorter_left [] ys h = refl
shorter_left (x ∷ xs) [] h = absurd (omega arith)
shorter_left (x ∷ xs) (y ∷ ys) h = ap suc (shorter_left xs ys (omega arith))

pub shorter_right : (xs ys : List ℕ) → length ys ≤ length xs → shorter xs ys ≡ length ys
shorter_right [] [] h = refl
shorter_right [] (y ∷ ys) h = absurd (omega arith)
shorter_right (x ∷ xs) [] h = refl
shorter_right (x ∷ xs) (y ∷ ys) h = ap suc (shorter_right xs ys (omega arith))

-- What the loop computes: the first difference decides, and where there is none, the default.
pub lex : (ℕ → ℕ → Bool) → Bool → List ℕ → List ℕ → Bool
lex cmp dflt [] ys = dflt
lex cmp dflt (x ∷ xs) [] = dflt
lex cmp dflt (x ∷ xs) (y ∷ ys) = if x == y then lex cmp dflt xs ys else cmp x y

first_difference-lex :
    (fold : ℕ → ℕ) (cmp : ℕ → ℕ → Bool) (dflt : Bool) (xs ys p q : List ℕ) (n : ℕ)
    → n ≡ shorter xs ys
    → first_difference fold cmp dflt n (xs ++ p) (ys ++ q)
      ≡ some (lex cmp dflt (map fold xs) (map fold ys))
unfolding first_difference lex
first_difference-lex fold cmp dflt [] ys p q n e = rw e
first_difference-lex fold cmp dflt (x ∷ xs) [] p q n e = rw e
first_difference-lex fold cmp dflt (x ∷ xs) (y ∷ ys) p q n e =
    rw e (ground (arith, first_difference-lex fold cmp dflt xs ys p q (shorter xs ys) refl))

pub lex-lt : (xs ys : List ℕ) → lex ltb (ltb (length xs) (length ys)) xs ys ≡ lex_lt xs ys
unfolding lex
lex-lt [] [] = refl
lex-lt [] (y ∷ ys) = ground arith
lex-lt (x ∷ xs) [] = ground arith
lex-lt (x ∷ xs) (y ∷ ys) = ground (arith, lex-lt xs ys)

pub lex-le : (xs ys : List ℕ) → lex leb (leb (length xs) (length ys)) xs ys ≡ lex_le xs ys
unfolding lex
lex-le [] [] = refl
lex-le [] (y ∷ ys) = ground arith
lex-le (x ∷ xs) [] = ground arith
lex-le (x ∷ xs) (y ∷ ys) = ground (arith, lex-le xs ys)

pub lex-gt :
    (xs ys : List ℕ) → lex (λ a b. ltb b a) (ltb (length ys) (length xs)) xs ys ≡ lex_lt ys xs
unfolding lex
lex-gt [] [] = refl
lex-gt [] (y ∷ ys) = ground arith
lex-gt (x ∷ xs) [] = ground arith
lex-gt (x ∷ xs) (y ∷ ys) = ground (arith, lex-gt xs ys)

pub lex-ge :
    (xs ys : List ℕ) → lex (λ a b. leb b a) (leb (length ys) (length xs)) xs ys ≡ lex_le ys xs
unfolding lex
lex-ge [] [] = refl
lex-ge [] (y ∷ ys) = ground arith
lex-ge (x ∷ xs) [] = ground arith
lex-ge (x ∷ xs) (y ∷ ys) = ground (arith, lex-ge xs ys)

-- What follows the first form of the loop: the characters where it stopped decide.
abbrev pub decide_at : (ℕ → ℕ) → (ℕ → ℕ → Bool) → ℕ → Bool → ℕ × ℕ × ℕ → Option Bool
decide_at fold cmp least dflt (i, a, b) =
    if ltb i least then some (cmp (fold a) (fold b)) else some dflt

module _ (fold : ℕ → ℕ) (cmp : ℕ → ℕ → Bool) (dflt : Bool) where
  pub mismatch-lex :
      (xs ys : List ℕ) (c d n i least : ℕ)
      → n ≡ shorter xs ys
      → i + n ≡ least
      → mismatch fold n i (xs ++ c ∷ []) (ys ++ d ∷ []) >>= decide_at fold cmp least dflt
        ≡ some (lex cmp dflt (map fold xs) (map fold ys))
  unfolding mismatch lex
  mismatch-lex [] [] c d n i least e f = rw e (ground arith)
  mismatch-lex [] (y ∷ ys) c d n i least e f = rw e (ground arith)
  mismatch-lex (x ∷ xs) [] c d n i least e f = rw e (ground arith)
  mismatch-lex (x ∷ xs) (y ∷ ys) c d n i least e f = rw e (elim (Bool-cases (fold x == fold y)) [
    | inl same ↦ rw same (mismatch-lex xs ys c d (shorter xs ys) (i + 1) least refl (omega arith))
    | inr other ↦ rw other (ground arith)
  ])

module _ (s t : Str) where
  pub shorter-lt : (if ltb (len s) (len t) then len s else len t) ≡ shorter s.chars t.chars
  shorter-lt = ground (arith, shorter_left s.chars t.chars, shorter_right s.chars t.chars)

  shorter-le : (if leb (len s) (len t) then len s else len t) ≡ shorter s.chars t.chars
  shorter-le = ground (arith, shorter_left s.chars t.chars, shorter_right s.chars t.chars)

  shorter-gt : (if ltb (len t) (len s) then len t else len s) ≡ shorter s.chars t.chars
  shorter-gt = ground (arith, shorter_left s.chars t.chars, shorter_right s.chars t.chars)

  shorter-ge : (if leb (len t) (len s) then len t else len s) ≡ shorter s.chars t.chars
  shorter-ge = ground (arith, shorter_left s.chars t.chars, shorter_right s.chars t.chars)

  loop-lex :
      (fold : ℕ → ℕ) (cmp : ℕ → ℕ → Bool) (dflt : Bool) (n : ℕ)
      → n ≡ shorter s.chars t.chars
      → first_difference fold cmp dflt n (memory s) (memory t)
        ≡ some (lex cmp dflt (map fold s.chars) (map fold t.chars))
  loop-lex fold cmp dflt n e =
      first_difference-lex fold cmp dflt s.chars t.chars (s.after ∷ []) (t.after ∷ []) n e

  loop_plain :
      (cmp : ℕ → ℕ → Bool) (dflt : Bool) (n : ℕ)
      → n ≡ shorter s.chars t.chars
      → first_difference (λ c. c) cmp dflt n (memory s) (memory t)
        ≡ some (lex cmp dflt s.chars t.chars)
  loop_plain cmp dflt n e = rw (loop-lex (λ c. c) cmp dflt n e, map-id s.chars, map-id t.chars)

  -- The four orders of two strings read within them and return, whatever stands behind the
  -- characters, and are the lexicographic order of the bytes, a proper prefix being less.
  pub bigloo_string-orders :
      (bigloo_string_lt s t ≡ some (lex_lt s.chars t.chars))
      × (bigloo_string_le s t ≡ some (not (lex_lt t.chars s.chars)))
      × (bigloo_string_gt s t ≡ some (lex_lt t.chars s.chars))
      × (bigloo_string_ge s t ≡ some (not (lex_lt s.chars t.chars)))
  unfolding bigloo_string_lt bigloo_string_le bigloo_string_gt bigloo_string_ge
  bigloo_string-orders = (
    mismatch-lex (λ c. c) ltb _ s.chars t.chars s.after t.after _ 0 _ shorter-lt (omega arith)
        ∙ ap some (rw (map-id s.chars, map-id t.chars) (lex-lt s.chars t.chars)),
    loop_plain _ _ _ shorter-le ∙ ap some (lex-le s.chars t.chars),
    loop_plain _ _ _ shorter-gt ∙ ap some (lex-gt s.chars t.chars),
    loop_plain _ _ _ shorter-ge ∙ ap some (lex-ge s.chars t.chars),
  )

  module _ (tolower : ℕ → ℕ) where
    -- The case-insensitive orders read within the strings and return, and are the lexicographic
    -- order of the bytes that `tolower` gives, whatever that function is.
    pub bigloo_string-ci_orders :
        let f = map (fold_char tolower) in
        (bigloo_string_cilt tolower s t ≡ some (lex_lt (f s.chars) (f t.chars)))
        × (bigloo_string_cile tolower s t ≡ some (not (lex_lt (f t.chars) (f s.chars))))
        × (bigloo_string_cigt tolower s t ≡ some (lex_lt (f t.chars) (f s.chars)))
        × (bigloo_string_cige tolower s t ≡ some (not (lex_lt (f s.chars) (f t.chars))))
    unfolding bigloo_string_cilt bigloo_string_cile bigloo_string_cigt bigloo_string_cige
    bigloo_string-ci_orders =
        let f = map (fold_char tolower) in
        let a = length-map (fold_char tolower) s.chars in
        let b = length-map (fold_char tolower) t.chars in
        (
          loop-lex _ _ _ _ shorter-lt ∙ ap some (rw (a, b) at (lex-lt (f s.chars) (f t.chars))),
          loop-lex _ _ _ _ shorter-le ∙ ap some (rw (a, b) at (lex-le (f s.chars) (f t.chars))),
          loop-lex _ _ _ _ shorter-gt ∙ ap some (rw (a, b) at (lex-gt (f s.chars) (f t.chars))),
          loop-lex _ _ _ _ shorter-ge ∙ ap some (rw (a, b) at (lex-ge (f s.chars) (f t.chars))),
        )
