-- ===== src/Rgc/Number/Laws.antt =====
-- The loops on the digits of a match compute the number that the digits spell.
use bigloo.Prelude.{
  ℕ, ◌+◌, ◌-◌, ◌*◌, ◌≤◌, ◌<◌, ◌==◌, leb, Bool, true, ◌&&◌, List, [], ◌∷◌, ◌≡◌, refl, arith, ap, ◌∙◌,
  ◌⊎◌, inl, inr, Bool-cases,
}
use bigloo.Prelude.Int.{pos, ◌+ℤ◌, ◌-ℤ◌, ◌*ℤ◌, ltb_ℤ}
use bigloo.Cstring.Escape.{is_digit}
use bigloo.Rgc.Run.{ok}
use bigloo.Rgc.Number.{
  long_max, long_value, char_digit, int_digit, fixnum_loop, skip_zeros, whole, llong, digits_loop,
}

abbrev pub all_digits : List ℕ → Bool
all_digits [] = true
all_digits (b ∷ bs) = is_digit b && all_digits bs

-- The number that digits spell behind the number `r`.
abbrev pub decimal : ℕ → List ℕ → ℕ
decimal r [] = r
decimal r (b ∷ bs) = decimal (r * 10 + (b - b'0')) bs

pub decimal-le : (r : ℕ) (bs : List ℕ) → r ≤ decimal r bs
decimal-le r [] = omega arith
decimal-le r (b ∷ bs) = omega (arith, decimal-le (r * 10 + (b - b'0')) bs)

char_digit_step :
    (r b : ℕ) → is_digit b ≡ true → pos r *ℤ pos 10 +ℤ char_digit b ≡ pos (r * 10 + (b - b'0'))
unfolding ◌+ℤ◌ ◌-ℤ◌ ◌*ℤ◌ char_digit
char_digit_step r b d = ground arith

int_digit_step :
    (r b : ℕ) → is_digit b ≡ true → pos r *ℤ pos 10 +ℤ int_digit b ≡ pos (r * 10 + (b - b'0'))
unfolding ◌+ℤ◌ ◌-ℤ◌ ◌*ℤ◌ int_digit
int_digit_step r b d = ground arith

pub long_value_pos : (n : ℕ) → n ≤ long_max → long_value (pos n) ≡ ok (pos n)
unfolding long_value
long_value_pos n h = let e : leb n long_max ≡ true = ground arith in rw e refl

first_digit : (b : ℕ) (bs : List ℕ) → all_digits (b ∷ bs) ≡ true → is_digit b ≡ true
first_digit b bs d = ground arith

other_digits : (b : ℕ) (bs : List ℕ) → all_digits (b ∷ bs) ≡ true → all_digits bs ≡ true
other_digits b bs d = ground arith

pub fixnum_loop-decimal :
    (bs : List ℕ) (r : ℕ)
    → all_digits bs ≡ true
    → decimal r bs ≤ long_max
    → fixnum_loop bs (pos r) ≡ ok (pos (decimal r bs))
unfolding fixnum_loop
fixnum_loop-decimal [] r d h = refl
fixnum_loop-decimal (b ∷ bs) r d h =
    let s = r * 10 + (b - b'0') in
    rw (int_digit_step r b (first_digit b bs d), long_value_pos s (omega (arith, decimal-le s bs)))
      (fixnum_loop-decimal bs s (other_digits b bs d) h)

pub skip_zeros-decimal : (bs : List ℕ) → decimal 0 (skip_zeros bs) ≡ decimal 0 bs
unfolding skip_zeros
skip_zeros-decimal [] = refl
skip_zeros-decimal (b ∷ bs) = elim (Bool-cases (b == b'0')) [
  | inl zero_ ↦
      let e : 0 ≡ 0 * 10 + (b - b'0') = ground arith in
      rw zero_ (skip_zeros-decimal bs ∙ ap (λ r. decimal r bs) e)
  | inr other ↦ rw other refl
]

pub skip_zeros-all_digits : (bs : List ℕ) → all_digits bs ≡ true → all_digits (skip_zeros bs) ≡ true
unfolding skip_zeros
skip_zeros-all_digits [] d = refl
skip_zeros-all_digits (b ∷ bs) d = elim (Bool-cases (b == b'0')) [
  | inl zero_ ↦ rw zero_ (skip_zeros-all_digits bs (other_digits b bs d))
  | inr other ↦ rw other d
]

-- The loop reads all the digits of a number below 9223372036854775720, or stops at one of them when
-- the number spelt so far is large.
pub digits_loop-decimal :
    (bs : List ℕ) (r : ℕ)
    → all_digits bs ≡ true
    → r < 9223372036854775720
    → ((digits_loop bs (pos r) ≡ ok (whole (pos (decimal r bs))))
        × (decimal r bs < 9223372036854775720))
      ⊎ ((s b : ℕ) × (more : List ℕ) × (digits_loop bs (pos r) ≡ ok (llong (pos s) (b ∷ more)))
          × (922337203685477571 < s)
          × (s * 10 ≤ decimal r bs))
unfolding digits_loop
digits_loop-decimal [] r d h = inl (refl, h)
digits_loop-decimal (b ∷ bs) r d h = elim (Bool-cases (ltb_ℤ (pos 922337203685477571) (pos r))) [
  | inl large ↦
      inr
        (r, b, bs, rw large refl, ground arith, omega (arith, decimal-le (r * 10 + (b - b'0')) bs))
  | inr small ↦
      let s = r * 10 + (b - b'0') in
      let fits : s ≤ long_max = ground (arith, first_digit b bs d) in
      rw (small, char_digit_step r b (first_digit b bs d), long_value_pos s fits)
        (digits_loop-decimal bs s (other_digits b bs d) (ground (arith, first_digit b bs d)))
]
