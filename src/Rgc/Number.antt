-- ===== src/Rgc/Number.antt =====
-- runtime/Clib/crgc.c: the numbers that a match spells. `long` and `long long` have 64 bits; a value
-- outside is an overflow, `fault`. `char` is signed.
pub mod Laws
pub mod Match
pub mod Exact
use bigloo.Prelude.{
  ℕ, ◌+◌, ◌-◌, ◌/◌, ◌^◌, ◌==◌, ltb, leb, ◌||◌, ◌&&◌, Bool, List, [], ◌∷◌, ◌++◌, take, drop,
  get_elem?, if◌then◌else◌,
}
use bigloo.Prelude.Int.{ℤ, pos, negsuc, ◌-ℤ◌, ◌*ℤ◌, ◌+ℤ◌, ltb_ℤ}
use bigloo.Memory.{len, memory, advance, units}
use bigloo.Rgc.Run.{Run, ok, fault, checked, ◌>>=◌}
use bigloo.Rgc.Port.{Port}

abbrev pub long_max : ℕ
long_max = 9223372036854775807

-- A value that `long` must hold.
unfoldable pub long_value : ℤ → Run ℤ
long_value (pos n) = if leb n long_max then ok (pos n) else fault
long_value (negsuc n) = if leb n long_max then ok (negsuc n) else fault

-- `buf[ i ] - '0'` for a byte, in a `char`.
unfoldable pub char_digit : ℕ → ℤ
char_digit b = if ltb b 176 then pos b -ℤ pos 48 else pos b -ℤ pos 304

-- `buf[ i ] - '0'` where `buf[ i ]` is a `char`.
unfoldable pub int_digit : ℕ → ℤ
int_digit b = if ltb b 128 then pos b -ℤ pos 48 else pos b -ℤ pos 304

-- The bytes of the buffer from one offset to another.
abbrev pub between : {S : Type 0} → Port S → ℕ → ℕ → Run (List ℕ)
between ip start stop = do
  m ← checked (advance start (memory ip.buf))
  checked (units (stop - start) m)

unfoldable pub fixnum_loop : List ℕ → ℤ → Run ℤ
fixnum_loop [] res = ok res
fixnum_loop (b ∷ bytes) res = do r ← long_value (res *ℤ pos 10 +ℤ int_digit b); fixnum_loop bytes r

module _ {S : Type 0} where
  unfoldable pub rgc_buffer_fixnum : Port S → Run ℤ
  rgc_buffer_fixnum ip = do
    first ← checked (get_elem? (memory ip.buf) ip.matchstart)
    let i = if first == b'-' || first == b'+' then ip.matchstart + 1 else ip.matchstart
    bytes ← between ip i ip.matchstop
    res ← fixnum_loop bytes (pos 0)
    if first == b'-' then long_value (pos 0 -ℤ res) else ok res

-- `while ((start < stop) && RGC_BUFFER_REF(ip, start) == '0') start++;`
unfoldable pub skip_zeros : List ℕ → List ℕ
skip_zeros [] = []
skip_zeros (b ∷ bytes) = let rest = skip_zeros bytes in if b == b'0' then rest else b ∷ bytes

-- How the loop on the digits is left: at their end, or by `goto llong`, with what is not read.
pub data Scan : Type 0 where
  whole : ℤ → Scan
  llong : ℤ → List ℕ → Scan

unfoldable pub digits_loop : List ℕ → ℤ → Run Scan
digits_loop [] res = ok (whole res)
digits_loop (current ∷ bytes) res =
    if ltb_ℤ (pos (long_max / 10 - 9)) res
    then ok (llong res (current ∷ bytes))
    else (do r ← long_value (res *ℤ pos 10 +ℤ char_digit current); digits_loop bytes r)

-- The kinds of exact integers: BINT, make_belong, make_bllong, and what `rgc_buffer_bignum` returns.
pub data Integer (B : Type 0) : Type 0 where
  bint belong bllong : ℤ → Integer B
  bignum : B → Integer B

-- The code at the label `llong`; none where it calls `rgc_buffer_bignum`.
unfoldable pub llong_loop : {B : Type 0} → Run (Integer B) → List ℕ → ℤ → ℤ → Run (Integer B)
llong_loop rgc_bignum [] sign lres = do r ← long_value (lres *ℤ sign); ok (bllong r)
llong_loop rgc_bignum (current ∷ bytes) sign lres =
    if ltb_ℤ (pos (long_max / 10 - 9)) lres then rgc_bignum else (do
      r ← long_value (lres *ℤ pos 10 +ℤ char_digit current)
      llong_loop rgc_bignum bytes sign r)

-- `isspace` is that of the C library, and `bgl_string_to_bignum` of the library of big numbers: it gets
-- a pointer to a terminated text.
module _ {S B : Type 0} (isspace : ℕ → Bool) (bgl_string_to_bignum : List ℕ → B)
    (tag_shift : ℕ) where
  unfoldable pub rgc_buffer_bignum : Port S → Run B
  rgc_buffer_bignum ip = do
    next ← checked (get_elem? (memory ip.buf) ip.matchstop)
    s ← checked (advance ip.matchstart (memory ip.buf))
    bytes ← between ip ip.matchstart ip.matchstop
    if ltb ip.matchstop ip.bufpos && isspace next
        then ok (bgl_string_to_bignum s)
        else ok (bgl_string_to_bignum (bytes ++ 0 ∷ []))

  unfoldable pub rgc_buffer_integer : Port S → Run (Integer B)
  rgc_buffer_integer ip = do
    let maxvalfx = long_max / 2 ^ tag_shift
    first ← checked (get_elem? (memory ip.buf) ip.matchstart)
    let sign = if first == b'-' then negsuc 0 else pos 1
    let start = if first == b'+' || first == b'-' then ip.matchstart + 1 else ip.matchstart
    bytes ← between ip start ip.matchstop
    scan ← digits_loop (skip_zeros bytes) (pos 0)
    let as_bignum = rgc_buffer_bignum ip >>= (λ b. ok (bignum b))
    elim scan [
      | whole res ↦ do
        r ← long_value (res *ℤ sign)
        ok (if ltb_ℤ (pos maxvalfx) res then belong r else bint r)
      | llong res rest ↦ llong_loop as_bignum rest sign res
    ]
