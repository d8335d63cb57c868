-- ===== src/Rgc/Number/Exact.antt =====
-- The integer that a match spells, of the kind that holds it.
use bigloo.Prelude.{
  ℕ, ◌+◌, ◌/◌, ◌^◌, ◌≤◌, ◌<◌, ◌==◌, ltb, Bool, true, false, ◌&&◌, ◌||◌, some, List, [], ◌∷◌, ◌++◌,
  drop, get_elem?, ◌≡◌, refl, arith, ap, ◌∙◌, ◌⊎◌, inl, inr, Bool-cases, if◌then◌else◌,
  get_elem?-some,
}
use bigloo.Prelude.Int.{ℤ, pos, negsuc, ◌-ℤ◌, ◌*ℤ◌, ltb_ℤ}
use bigloo.Memory.{memory}
use bigloo.Memory.Laws.{length-memory, advance-drop}
use bigloo.Cstring.Escape.{is_digit}
use bigloo.Rgc.Run.{ok}
use bigloo.Rgc.Port.{Port}
use bigloo.Rgc.Port.Valid.{IsValid}
use bigloo.Rgc.Number.{
  long_max, long_value, between, whole, llong, digits_loop, skip_zeros, llong_loop, bint, belong,
  bignum, rgc_buffer_fixnum, rgc_buffer_bignum, rgc_buffer_integer,
}
use bigloo.Rgc.Number.Laws.{
  all_digits, decimal, fixnum_loop-decimal, skip_zeros-decimal, skip_zeros-all_digits,
  digits_loop-decimal,
}
use bigloo.Rgc.Number.Match.{match_text, between_lem, head_lem}

pub data Sign : Type 0 where
  unsigned plus minus : Sign

abbrev pub sign_text : Sign → List ℕ
sign_text unsigned = []
sign_text plus = b'+' ∷ []
sign_text minus = b'-' ∷ []

abbrev pub signed : Sign → ℕ → ℤ
signed minus n = pos 0 -ℤ pos n
signed _ n = pos n

module _ {S : Type 0} (p : Port S) (v : IsValid p) where
  abbrev sign_of : Sign → ℤ
  sign_of minus = negsuc 0
  sign_of _ = pos 1

  abbrev is_minus : Sign → Bool
  is_minus minus = true
  is_minus _ = false

  -- How the code takes a sign off.
  record Starts (sg : Sign) (ds : List ℕ) (first : ℕ) : Type 0 where
    head : get_elem? (memory p.buf) p.matchstart ≡ some first
    negative : (first == b'-') ≡ is_minus sg
    sign : (if first == b'-' then negsuc 0 else pos 1) ≡ sign_of sg
    rest :
        between p
          (if first == b'+' || first == b'-' then p.matchstart + 1 else p.matchstart)
          p.matchstop
        ≡ ok ds

  sign-Starts :
      (sg : Sign) (d : ℕ) (ds : List ℕ)
      → is_digit d ≡ true
      → match_text p ≡ sign_text sg ++ d ∷ ds
      → (first : ℕ) × Starts sg (d ∷ ds) first
  sign-Starts unsigned d ds h e =
      let no_minus : (d == b'-') ≡ false = ground arith in
      let no_sign : (d == b'+' || d == b'-') ≡ false = ground arith in
      (
        d,
        record {
          head = (head_lem p v d ds e).0;
          negative = no_minus;
          sign = rw no_minus refl;
          rest = rw no_sign (between_lem p v p.matchstart v.started ∙ ap ok e);
        },
      )
  sign-Starts plus d ds h e = (
    b'+',
    record {
      head = (head_lem p v b'+' (d ∷ ds) e).0;
      negative = refl;
      sign = refl;
      rest = (head_lem p v b'+' (d ∷ ds) e).1;
    },
  )
  sign-Starts minus d ds h e = (
    b'-',
    record {
      head = (head_lem p v b'-' (d ∷ ds) e).0;
      negative = refl;
      sign = refl;
      rest = (head_lem p v b'-' (d ∷ ds) e).1;
    },
  )

  times_sign : (sg : Sign) (n : ℕ) → pos n *ℤ sign_of sg ≡ signed sg n
  unfolding ◌*ℤ◌ ◌-ℤ◌
  times_sign unsigned n = ground arith
  times_sign plus n = ground arith
  times_sign minus n = ground arith

  or_comm : (a b : Bool) → (a || b) ≡ (b || a)
  or_comm false false = refl
  or_comm false true = refl
  or_comm true false = refl
  or_comm true true = refl

  long_signed : (sg : Sign) (n : ℕ) → n ≤ long_max → long_value (signed sg n) ≡ ok (signed sg n)
  unfolding long_value ◌-ℤ◌
  long_signed unsigned n h = ground arith
  long_signed plus n h = ground arith
  long_signed minus n h = ground arith

  signed_result :
      (sg : Sign) (n : ℕ)
      → n ≤ long_max
      → (if is_minus sg then long_value (pos 0 -ℤ pos n) else ok (pos n)) ≡ ok (signed sg n)
  signed_result unsigned n h = refl
  signed_result plus n h = refl
  signed_result minus n h = long_signed minus n h

  -- In a valid port a match of a sign, or none, and digits that spell a number that a `long` holds is read by
  -- `rgc_buffer_fixnum` as that number, without an overflow.
  pub fixnum-signed :
      (sg : Sign) (d : ℕ) (ds : List ℕ)
      → all_digits (d ∷ ds) ≡ true
      → match_text p ≡ sign_text sg ++ d ∷ ds
      → decimal 0 (d ∷ ds) ≤ long_max
      → rgc_buffer_fixnum p ≡ ok (signed sg (decimal 0 (d ∷ ds)))
  unfolding rgc_buffer_fixnum
  fixnum-signed sg d ds digits e h =
      let (first, t) = sign-Starts sg d ds (ground arith) e in
      let n = decimal 0 (d ∷ ds) in
      let rest : between p
            (if first == b'-' || first == b'+' then p.matchstart + 1 else p.matchstart) p.matchstop
          ≡ ok (d ∷ ds) =
        ap (λ c. between p (if c then p.matchstart + 1 else p.matchstart) p.matchstop)
          (or_comm (first == b'-') (first == b'+'))
        ∙ t.rest in
      rw (t.head, rest, fixnum_loop-decimal (d ∷ ds) 0 digits h, t.negative) (signed_result sg n h)

  module _ {B : Type 0} (isspace : ℕ → Bool) (to_bignum : List ℕ → B) (tag_shift : ℕ) where
    -- What `rgc_buffer_bignum` gives to the library of big numbers where `next` is the byte behind the
    -- match: the buffer from the match on if it is white space that was read, otherwise the match.
    abbrev pub bignum_text : ℕ → List ℕ
    bignum_text next =
        if ltb p.matchstop p.bufpos && isspace next
        then drop p.matchstart (memory p.buf)
        else match_text p ++ 0 ∷ []

    bignum_lem :
        (next : ℕ) × (get_elem? (memory p.buf) p.matchstop ≡ some next)
        × (rgc_buffer_bignum isspace to_bignum tag_shift p ≡ ok (to_bignum (bignum_text next)))
    unfolding rgc_buffer_bignum
    bignum_lem =
        let (next, n) =
          get_elem?-some (memory p.buf) p.matchstop (omega (arith, v, length-memory p.buf)) in
        let start =
          advance-drop p.matchstart (memory p.buf) (omega (arith, v, length-memory p.buf)) in
        (
          next,
          n,
          elim (Bool-cases (ltb p.matchstop p.bufpos && isspace next)) [
            | inl space ↦ rw (n, between_lem p v p.matchstart v.started, start, space) refl
            | inr other ↦ rw (n, between_lem p v p.matchstart v.started, start, other) refl
          ],
        )

    abbrev max_fixnum : ℕ
    max_fixnum = long_max / 2 ^ tag_shift

    -- What is made of the number `n` with its sign. The three cases exclude one another.
    abbrev pub Exact : Sign → ℕ → Type 0
    Exact sg n =
        ((n ≤ max_fixnum)
          × (n < 9223372036854775720)
          × (rgc_buffer_integer isspace to_bignum tag_shift p ≡ ok (bint (signed sg n))))
        ⊎ (((max_fixnum < n)
              × (n < 9223372036854775720)
              × (rgc_buffer_integer isspace to_bignum tag_shift p ≡ ok (belong (signed sg n))))
            ⊎ ((9223372036854775720 ≤ n)
                × (next : ℕ) × (get_elem? (memory p.buf) p.matchstop ≡ some next)
                × (rgc_buffer_integer isspace to_bignum tag_shift p
                    ≡ ok (bignum (to_bignum (bignum_text next))))))

    integer_whole :
        (sg : Sign) (ds : List ℕ) (first n : ℕ)
        → Starts sg ds first
        → digits_loop (skip_zeros ds) (pos 0) ≡ ok (whole (pos n))
        → n ≤ long_max
        → rgc_buffer_integer isspace to_bignum tag_shift p
          ≡ ok (if ltb_ℤ (pos max_fixnum) (pos n) then belong (signed sg n) else bint (signed sg n))
    unfolding rgc_buffer_integer
    integer_whole sg ds first n t run h =
        rw (t.head, t.rest, run, t.sign, times_sign sg n, long_signed sg n h) refl

    integer_large :
        (sg : Sign) (ds : List ℕ) (first s b : ℕ) (more : List ℕ) {big : B}
        → Starts sg ds first
        → digits_loop (skip_zeros ds) (pos 0) ≡ ok (llong (pos s) (b ∷ more))
        → 922337203685477571 < s
        → rgc_buffer_bignum isspace to_bignum tag_shift p ≡ ok big
        → rgc_buffer_integer isspace to_bignum tag_shift p ≡ ok (bignum big)
    unfolding rgc_buffer_integer llong_loop
    integer_large sg ds first s b more t run h e =
        let large : ltb_ℤ (pos 922337203685477571) (pos s) ≡ true = ground arith in
        rw (t.head, t.rest, run, large, e) refl

    -- In a valid port a match of a sign, or none, and digits that spell a number below
    -- 9223372036854775720 is read as that number: a fixnum where it is at most the greatest of
    -- these, otherwise a `long`. From 9223372036854775720 on it is what the library of big numbers
    -- makes of the match or, where white space stands behind the match in the buffer, of the buffer from
    -- the match on. No step overflows, and no number is a `long long`.
    pub integer-Exact :
        (sg : Sign) (d : ℕ) (ds : List ℕ)
        → all_digits (d ∷ ds) ≡ true
        → match_text p ≡ sign_text sg ++ d ∷ ds
        → Exact sg (decimal 0 (d ∷ ds))
    integer-Exact sg d ds digits e =
        let (first, t) = sign-Starts sg d ds (ground arith) e in
        let n = decimal 0 (d ∷ ds) in
        let same = skip_zeros-decimal (d ∷ ds) in
        elim (digits_loop-decimal (skip_zeros (d ∷ ds)) 0 (skip_zeros-all_digits (d ∷ ds) digits)
          (omega arith)) [
            | inl (run, h) ↦
                let low : n < 9223372036854775720 = omega (arith, h, same) in
                let fits : n ≤ long_max = omega arith in
                let whole_run =
                  integer_whole sg (d ∷ ds) first n t (run ∙ ap (λ k. ok (whole (pos k))) same)
                    fits in
                elim (Bool-cases (ltb_ℤ (pos max_fixnum) (pos n))) [
                  | inl over ↦ inr (
                      inl (
                        ground arith,
                        low,
                        whole_run
                            ∙ ap (λ c. ok (if c then belong (signed sg n) else bint (signed sg n)))
                                over,
                      ))
                  | inr within ↦ inl (
                    ground arith,
                    low,
                    whole_run
                        ∙ ap (λ c. ok (if c then belong (signed sg n) else bint (signed sg n)))
                            within,
                  )
                ]
            | inr (s, b, more, run, large, h) ↦
                let (next, at, r) = bignum_lem in
                inr (
                  inr (
                    omega (arith, large, h, same),
                    next,
                    at,
                    integer_large sg (d ∷ ds) first s b more t run large r,
                  ))
          ]
