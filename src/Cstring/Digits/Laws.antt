-- ===== src/Cstring/Digits/Laws.antt =====
-- The digits of cstring.c read back.
use bigloo.Prelude.{
  ℕ, zero, suc, ◌+◌, ◌-◌, ◌*◌, ◌/◌, ◌%◌, ◌^◌, ◌≤◌, ◌<◌, ◌==◌, leb, ◌&&◌, not, Bool, true, false,
  Option, none, some, List, [], ◌∷◌, ◌>>=◌, if◌then◌else◌, get_elem?, ◌≡◌, ◌≢◌, refl, arith, ap,
  ◌∙◌, sym, all_below, all_below_sound, Bool-cases, Option-cases, inl, inr,
}
use native.Mathlib.Nat.{zero-add, pow-suc, div-add-mod}
use native.Mathlib.Numerals.{one-add}
use bigloo.Prelude.Int.{ℤ, pos, negsuc}
use bigloo.Memory.{Str, IsTerminated, to_unsigned}
use bigloo.Cstring.Digits.{
  letters, hex_letters, neg, magnitude, c_div, c_rem, count_bits, digit_loop, sign_bit,
  signed_to_string, integer_to_string, llong_to_string, natural_to_string, unsigned_to_string,
  ullong_to_string,
}

-- The value of a digit, and of digits behind the value `acc` of those read.
abbrev pub digit_value : ℕ → ℕ
digit_value c = if leb c b'9' then c - b'0' else c - b'a' + 10

abbrev pub value : ℕ → ℕ → List ℕ → ℕ
value r acc [] = acc
value r acc (c ∷ cs) = value r (acc * r + digit_value c) cs

-- An optional sign and digits.
abbrev pub read_integer : ℕ → List ℕ → ℤ
read_integer r [] = pos 0
read_integer r (c ∷ cs) = if c == b'-' then neg (value r 0 cs) else pos (value r 0 (c ∷ cs))

-- What the loops ask of a table: a digit for each remainder.
abbrev Serves : List ℕ → ℕ → Type 0
Serves table r =
    (i : ℕ) → i < r → (c : ℕ) × (get_elem? table i ≡ some c) × (digit_value c ≡ i) × (c ≢ b'-')

-- The same as a test, for the tables of the code.
abbrev serves_at : List ℕ → ℕ → Bool
serves_at table i = elim (get_elem? table i) [
  | some c ↦ digit_value c == i && not (c == b'-')
  | none ↦ false
]

Serves-table :
    (table : List ℕ) (n r : ℕ) → all_below n (serves_at table) ≡ true → r ≤ n → Serves table r
Serves-table table n r h le i lt =
    go (get_elem? table i) refl (all_below_sound n (serves_at table) i h (omega arith))
  where
    go :
        (o : Option ℕ)
        → get_elem? table i ≡ o
        → serves_at table i ≡ true
        → (c : ℕ) × (get_elem? table i ≡ some c) × (digit_value c ≡ i) × (c ≢ b'-')
    go none e t = ground arith
    go (some c) e t = (c, e, ground arith, ground arith)

abbrev quotients : ℕ → ℕ → ℕ → ℕ
quotients zero n r = n
quotients (suc k) n r = quotients k (n / r) r

magnitude-div : (x : ℤ) (r : ℕ) → magnitude (c_div x r) ≡ magnitude x / r
magnitude-div x r = ground arith

magnitude-rem : (x : ℤ) (r : ℕ) → magnitude (c_rem x r) ≡ magnitude x % r
magnitude-rem x r = ground arith

div-le_half : (n r : ℕ) → 2 ≤ r → n / r ≤ n / 2
div-le_half n r h = grind arith

quotients_zero : (k n r : ℕ) → n ≡ 0 → quotients k n r ≡ 0
quotients_zero zero n r e = e
quotients_zero (suc k) n r e = quotients_zero k (n / r) r (rw e (omega arith))

-- The count is that of the rounds which bring the number to 0; `f` rounds are enough below 2 ^ f.
count_bits_lem :
    (f : ℕ) (x : ℤ) (r bits : ℕ)
    → 2 ≤ r
    → magnitude x < 2 ^ f
    → (k : ℕ) × (count_bits (suc f) x r bits ≡ some (bits + k)) × (quotients k (magnitude x) r ≡ 0)
unfolding count_bits
count_bits_lem zero x r bits h small =
    let e : magnitude x ≡ 0 = omega arith in (0, rw (e, count_bits) (ap some (omega arith)), e)
count_bits_lem (suc g) x r bits h small =
    let below : magnitude (c_div x r) < 2 ^ g =
      omega (arith, pow-suc 2 g, magnitude-div x r, div-le_half (magnitude x) r h) in
    let (k, run, zero') = count_bits_lem g (c_div x r) r (bits + 1) h below in
    elim (Bool-cases (magnitude x == 0)) [
      | inl done ↦ (0, rw done (ap some (omega arith)), ground arith)
      | inr more ↦ (
        suc k,
        rw more (run ∙ ap some (omega arith)),
        ap (λ n. quotients k n r) (sym (magnitude-div x r)) ∙ zero',
      )
    ]

-- Digits do not start with a sign.
abbrev HeadPlain : List ℕ → Type 0
HeadPlain [] = Unit
HeadPlain (c ∷ cs) = c ≢ b'-'

-- One round puts one digit: reading on from the quotient, the digit gives the number back.
digit_loop_lem :
    (table : List ℕ) (bits : ℕ) (x : ℤ) (r : ℕ) (out : List ℕ)
    → 2 ≤ r
    → Serves table r
    → HeadPlain out
    → (cs : List ℕ) × (digit_loop table bits x r out ≡ some cs)
      × (value r (quotients bits (magnitude x) r) cs ≡ value r (magnitude x) out)
      × HeadPlain cs
unfolding digit_loop
digit_loop_lem table zero x r out h t p = (out, refl, refl, p)
digit_loop_lem table (suc bits) x r out h t p =
    let (c, e, v, n) = t (magnitude x % r) (omega arith) in
    let (cs, run, val, plain) = digit_loop_lem table bits (c_div x r) r (c ∷ out) h t n in
    let back : magnitude x / r * r + digit_value c ≡ magnitude x =
      rw v (omega (arith, div-add-mod (magnitude x) r)) in
    (
      cs,
      rw (magnitude-rem x r, e) run,
      (rw (magnitude-div x r) at val) ∙ ap (λ n. value r n out) back,
      plain,
    )

-- Where the number is 0 before the last round, that round puts the digit 0 in front.
digit_loop_zero :
    (table : List ℕ) (bits : ℕ) (x : ℤ) (r : ℕ) (out : List ℕ) {c : ℕ}
    → get_elem? table 0 ≡ some c
    → quotients bits (magnitude x) r ≡ 0
    → digit_loop table (suc bits) x r out ≡ digit_loop table bits x r out >>= (λ cs. some (c ∷ cs))
unfolding digit_loop
digit_loop_zero table zero x r out e q = rw (magnitude-rem x r, q) (ground (arith, e))
digit_loop_zero table (suc bits) x r out {c} e q =
    elim (Option-cases (get_elem? table (magnitude (c_rem x r)))) [
      | inl fault ↦ rw fault refl
      | inr (a, found) ↦ rw found (
          digit_loop_zero table bits (c_div x r) r (a ∷ out) e
            (ap (λ n. quotients bits n r) (magnitude-div x r) ∙ q))
    ]

quotients-div : (k n r : ℕ) → quotients k (n / r) r ≡ quotients k n r / r
quotients-div zero n r = refl
quotients-div (suc k) n r = quotients-div k (n / r) r

quotients_more : (b k n r : ℕ) → b ≤ 1 → quotients k n r ≡ 0 → quotients (b + k) n r ≡ 0
quotients_more zero k n r h e = ap (λ j. quotients j n r) (zero-add k) ∙ e
quotients_more (suc b) k n r h e =
    let size : suc b + k ≡ suc k = omega arith in
    ap (λ j. quotients j n r) size ∙ quotients-div k n r ∙ rw e (omega arith)

read_integer_plain : (r : ℕ) (cs : List ℕ) → HeadPlain cs → read_integer r cs ≡ pos (value r 0 cs)
read_integer_plain r [] p = refl
read_integer_plain r (c ∷ cs) p = ground arith

-- The string that `signed_to_string` makes: it reads back as the number.
signed_to_string_lem :
    (table : List ℕ) (x : ℤ) (r : ℕ)
    → 2 ≤ r
    → Serves table r
    → magnitude x < 2 ^ 64
    → (s : Str) × (signed_to_string table x r ≡ some s)
      × IsTerminated s
      × (read_integer r s.chars ≡ x)
unfolding signed_to_string
signed_to_string_lem table (pos n) r h t small =
    let (k, run, q) = count_bits_lem 64 (pos n) r (sign_bit (pos n)) h small in
    let (cs, put, val, plain) = digit_loop_lem table (sign_bit (pos n) + k) (pos n) r [] h t tt in
    let total : value r 0 cs ≡ n =
      ap (λ m. value r m cs) (sym (quotients_more (sign_bit (pos n)) k n r (ground arith) q))
      ∙ val in
    (
      record { chars = cs; after = 0 },
      rw (run, put) refl,
      refl,
      read_integer_plain r cs plain ∙ ap pos total,
    )
signed_to_string_lem table (negsuc n) r h t small =
    let (k, run, q) = count_bits_lem 64 (negsuc n) r 1 h small in
    let (c, first, v, _) = t 0 (omega arith) in
    let (cs, put, val, plain) = digit_loop_lem table k (negsuc n) r [] h t tt in
    let total : value r 0 cs ≡ suc n = ap (λ m. value r m cs) (sym q) ∙ val in
    (
      record { chars = b'-' ∷ cs; after = 0 },
      rw (run, one-add k, digit_loop_zero table k (negsuc n) r [] first q, put) refl,
      refl,
      ap neg total,
    )

natural-signed :
    (table : List ℕ) (n r : ℕ) → natural_to_string table n r ≡ signed_to_string table (pos n) r
unfolding natural_to_string signed_to_string
natural-signed table zero r = refl
natural-signed table (suc n) r = let e : (suc n == 0) ≡ false = ground arith in rw e refl

letters_serve : (r : ℕ) → r ≤ 36 → Serves letters r
letters_serve r h = Serves-table letters 36 r refl h

hex_letters_serve : (r : ℕ) → r ≤ 16 → Serves hex_letters r
hex_letters_serve r h = Serves-table hex_letters 16 r refl h

-- The run returns a terminated string that reads back, in the radix, as the number `x`.
abbrev pub Prints : Option Str → ℕ → ℤ → Type 0
Prints run r x = (s : Str) × (run ≡ some s) × IsTerminated s × (read_integer r s.chars ≡ x)

-- For a number below 2 ^ 64 in magnitude and a radix from 2 to 36 `integer_to_string` returns a
-- terminated string, and its digits read back as the number, the sign included.
pub integer_to_string-Prints :
    (x : ℤ) (r : ℕ) → 2 ≤ r → r ≤ 36 → magnitude x < 2 ^ 64 → Prints (integer_to_string x r) r x
unfolding integer_to_string
integer_to_string-Prints x r h k small =
    signed_to_string_lem letters x r h (letters_serve r k) small

to_unsigned_fits : (x : ℤ) → magnitude x < 2 ^ 64 → to_unsigned x < 2 ^ 64
to_unsigned_fits x small = ground arith

-- For the same numbers and radices `unsigned_to_string` returns the digits of the number that the
-- 64 bits of `x` are without a sign.
pub unsigned_to_string-Prints :
    (x : ℤ) (r : ℕ)
    → 2 ≤ r
    → r ≤ 36
    → magnitude x < 2 ^ 64
    → Prints (unsigned_to_string x r) r (pos (to_unsigned x))
unfolding unsigned_to_string
unsigned_to_string-Prints x r h k small = rw (natural-signed letters (to_unsigned x) r) (
    signed_to_string_lem letters (pos (to_unsigned x)) r h (letters_serve r k)
      (to_unsigned_fits x small))

-- The functions on `long long` have digits for a radix from 2 to 16: for a number below 2 ^ 64 in
-- magnitude `llong_to_string` returns the digits of the number, and `ullong_to_string` those of the
-- number that its 64 bits are without a sign.
pub llong_to_string-Prints :
    (x : ℤ) (r : ℕ)
    → 2 ≤ r
    → r ≤ 16
    → magnitude x < 2 ^ 64
    → Prints (llong_to_string x r) r x × Prints (ullong_to_string x r) r (pos (to_unsigned x))
unfolding llong_to_string ullong_to_string
llong_to_string-Prints x r h k small = (
  signed_to_string_lem hex_letters x r h (hex_letters_serve r k) small,
  rw (natural-signed hex_letters (to_unsigned x) r) (
      signed_to_string_lem hex_letters (pos (to_unsigned x)) r h (hex_letters_serve r k)
        (to_unsigned_fits x small)),
)
