-- ===== src/Cstring/Digits.antt =====
-- runtime/Clib/cstring.c: `integer_to_string` and the other conversions of machine integers to
-- digits. A `long` and a `long long` have 64 bits, so the loop that counts digits ends in at most
-- 64 rounds for a radix from 2: the fuel is 65. The string is written from its end, so the
-- second loop puts each digit before those that it has.
pub mod Laws
use bigloo.Prelude.{
  ℕ, zero, suc, ◌+◌, ◌-◌, ◌/◌, ◌%◌, ◌==◌, Bool, true, false, Option, none, some, List, [], ◌∷◌,
  ◌++◌, ◌>>=◌, if◌then◌else◌, get_elem?, set,
}
use bigloo.Prelude.Int.{ℤ, pos, negsuc}
use bigloo.Memory.{Str, to_unsigned}

-- `static char letters[] = "0123456789abcdefghijklmnopqrstuvwxyz"`, with its final 0.
abbrev pub letters : List ℕ
letters =
    48 ∷ 49 ∷ 50 ∷ 51 ∷ 52 ∷ 53 ∷ 54 ∷ 55 ∷ 56 ∷ 57 ∷ 97 ∷ 98 ∷ 99 ∷ 100 ∷ 101 ∷ 102 ∷ 103 ∷ 104
    ∷ 105 ∷ 106 ∷ 107 ∷ 108 ∷ 109 ∷ 110 ∷ 111 ∷ 112 ∷ 113 ∷ 114 ∷ 115 ∷ 116 ∷ 117 ∷ 118 ∷ 119 ∷ 120
    ∷ 121 ∷ 122 ∷ 0 ∷ []

-- `char letters[] = "0123456789abcdef"` of the two functions on `long long`.
abbrev pub hex_letters : List ℕ
hex_letters =
    48 ∷ 49 ∷ 50 ∷ 51 ∷ 52 ∷ 53 ∷ 54 ∷ 55 ∷ 56 ∷ 57 ∷ 97 ∷ 98 ∷ 99 ∷ 100 ∷ 101 ∷ 102 ∷ 0 ∷ []

-- `- n`
abbrev pub neg : ℕ → ℤ
neg zero = pos 0
neg (suc n) = negsuc n

abbrev pub magnitude : ℤ → ℕ
magnitude (pos n) = n
magnitude (negsuc n) = suc n

-- `/` and `%` of C, which truncate towards 0, by a radix.
abbrev pub c_div : ℤ → ℕ → ℤ
c_div (pos n) r = pos (n / r)
c_div (negsuc n) r = neg (suc n / r)

abbrev pub c_rem : ℤ → ℕ → ℤ
c_rem (pos n) r = pos (n % r)
c_rem (negsuc n) r = neg (suc n % r)

-- `for (ax = x; ax != 0; ax /= radix) bits++;`
pub count_bits : ℕ → ℤ → ℕ → ℕ → Option ℕ
count_bits zero ax r bits = none
count_bits (suc fuel) ax r bits =
    let rest = count_bits fuel (c_div ax r) r (bits + 1) in
    if magnitude ax == 0 then some bits else rest

-- `for (...; bits > 0; bits--, s--, ax /= radix) *s = letters[abs((int)(ax % radix))];`
pub digit_loop : List ℕ → ℕ → ℤ → ℕ → List ℕ → Option (List ℕ)
digit_loop table zero ax r out = some out
digit_loop table (suc bits) ax r out = do
  c ← get_elem? table (magnitude (c_rem ax r))
  digit_loop table bits (c_div ax r) r (c ∷ out)

-- `(x <= 0 ? 1 : 0)`
abbrev pub sign_bit : ℤ → ℕ
sign_bit (pos zero) = 1
sign_bit (pos (suc n)) = 0
sign_bit (negsuc n) = 1

-- `if (x < 0) *(s+1) = '-';`
abbrev pub put_sign : ℤ → List ℕ → List ℕ
put_sign (pos n) cs = cs
put_sign (negsuc n) cs = set cs 0 b'-'

unfoldable pub signed_to_string : List ℕ → ℤ → ℕ → Option Str
signed_to_string table x radix = do
  bits ← count_bits 65 x radix (sign_bit x)
  cs ← digit_loop table bits x radix []
  some (record { chars = put_sign x cs; after = 0 })

unfoldable pub integer_to_string : ℤ → ℕ → Option Str
unfolding signed_to_string
integer_to_string x radix = signed_to_string letters x radix

unfoldable pub llong_to_string : ℤ → ℕ → Option Str
unfolding signed_to_string
llong_to_string x radix = signed_to_string hex_letters x radix

unfoldable pub natural_to_string : List ℕ → ℕ → ℕ → Option Str
natural_to_string table n radix = do
  bits ← count_bits 65 (pos n) radix (if n == 0 then 1 else 0)
  cs ← digit_loop table bits (pos n) radix []
  some (record { chars = cs; after = 0 })

unfoldable pub unsigned_to_string : ℤ → ℕ → Option Str
unfolding natural_to_string
unsigned_to_string x radix = natural_to_string letters (to_unsigned x) radix

unfoldable pub ullong_to_string : ℤ → ℕ → Option Str
unfolding natural_to_string
ullong_to_string x radix = natural_to_string hex_letters (to_unsigned x) radix
