-- ===== src/Cunicode/Compare/Laws.antt =====
-- The orders and tests of cunicode.c against the order and the equality of lists of units.
use bigloo.Prelude.{ℕ, ltb, leb, Bool, not, some, length, ◌≡◌, arith, map, ap, ◌∙◌, length-map}
use mathlib.Core.List.{map-id}
use bigloo.Memory.{Str, len}
use bigloo.Cstring.Compare.Order.{
  lex_lt, lex, lex-lt, lex-le, lex-gt, lex-ge, shorter-lt, mismatch-lex,
}
use bigloo.Cunicode.Compare.{
  lesser_length, ucs2_order, ucs2_string_lt, ucs2_string_le, ucs2_string_gt, ucs2_string_ge,
  ucs2_string_cilt, ucs2_string_cile, ucs2_string_cigt, ucs2_string_cige,
}

module _ (s t : Str) where
  order_lex :
      (fold : ℕ → ℕ) (cmp : ℕ → ℕ → Bool)
      → ucs2_order fold cmp s t
        ≡ some (
            lex cmp
              (cmp (length (map fold s.chars)) (length (map fold t.chars)))
              (map fold s.chars)
              (map fold t.chars))
  order_lex fold cmp =
      rw (length-map fold s.chars, length-map fold t.chars)
        (mismatch-lex fold cmp (cmp (len s) (len t)) s.chars t.chars s.after t.after
          (lesser_length s t) 0 (lesser_length s t) (shorter-lt s t) (omega arith))

  module _ (fold : ℕ → ℕ) where
    orders_of :
        let xs = map fold s.chars in
        let ys = map fold t.chars in
        (ucs2_order fold ltb s t ≡ some (lex_lt xs ys))
        × (ucs2_order fold leb s t ≡ some (not (lex_lt ys xs)))
        × (ucs2_order fold (λ a b. ltb b a) s t ≡ some (lex_lt ys xs))
        × (ucs2_order fold (λ a b. leb b a) s t ≡ some (not (lex_lt xs ys)))
    orders_of =
        let xs = map fold s.chars in
        let ys = map fold t.chars in
        (
          order_lex fold ltb ∙ ap some (lex-lt xs ys),
          order_lex fold leb ∙ ap some (lex-le xs ys),
          order_lex fold (λ a b. ltb b a) ∙ ap some (lex-gt xs ys),
          order_lex fold (λ a b. leb b a) ∙ ap some (lex-ge xs ys),
        )

  -- The four orders of two strings of units read within them and return, and are the
  -- lexicographic order of the units, whatever unit stands behind the characters.
  pub ucs2_string-orders :
      (ucs2_string_lt s t ≡ some (lex_lt s.chars t.chars))
      × (ucs2_string_le s t ≡ some (not (lex_lt t.chars s.chars)))
      × (ucs2_string_gt s t ≡ some (lex_lt t.chars s.chars))
      × (ucs2_string_ge s t ≡ some (not (lex_lt s.chars t.chars)))
  unfolding ucs2_string_lt ucs2_string_le ucs2_string_gt ucs2_string_ge
  ucs2_string-orders = rw (map-id s.chars, map-id t.chars) at (orders_of (λ c. c))

  -- The four orders that disregard case are the lexicographic order of the units that
  -- `ucs2_tolower` gives, whatever that function is.
  pub ucs2_string-ci_orders :
      (ucs2_tolower : ℕ → ℕ)
      → let f = map ucs2_tolower in
        (ucs2_string_cilt ucs2_tolower s t ≡ some (lex_lt (f s.chars) (f t.chars)))
        × (ucs2_string_cile ucs2_tolower s t ≡ some (not (lex_lt (f t.chars) (f s.chars))))
        × (ucs2_string_cigt ucs2_tolower s t ≡ some (lex_lt (f t.chars) (f s.chars)))
        × (ucs2_string_cige ucs2_tolower s t ≡ some (not (lex_lt (f s.chars) (f t.chars))))
  unfolding ucs2_string_cilt ucs2_string_cile ucs2_string_cigt ucs2_string_cige
  ucs2_string-ci_orders ucs2_tolower = orders_of ucs2_tolower
