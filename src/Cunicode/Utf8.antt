-- ===== src/Cunicode/Utf8.antt =====
-- runtime/Clib/cunicode.c: `ucs2_to_utf8_string` and `utf8_string_to_ucs2_string`. A unit
-- is a number below 2 ^ 16, a byte one below 2 ^ 8; `& (2 ^ k - 1)` is `% 2 ^ k`. The
-- bytes that the encoder writes at `write`, `write + 1`, ... are appended, so `write` is the
-- length of what is written.
pub mod Bits
pub mod Round
pub mod Inverse
pub mod Lossy
use Prim.Native.Nat.{bit_or}
use bigloo.Prelude.{
  ℕ, zero, suc, ◌+◌, ◌-◌, ◌*◌, ◌/◌, ◌%◌, ◌^◌, ◌==◌, ltb, leb, ◌&&◌, ◌||◌, Bool, true, false, Option,
  none, some, List, [], ◌∷◌, ◌++◌, ◌>>=◌, if◌then◌else◌, length, map, replicate,
}
use bigloo.Memory.{Str, len, memory}
use bigloo.Cstring.Build.{bgl_string_shrink}

-- `none` is the failure for a value above 0xffff, which no unit has.
unfoldable pub utf8_size : ℕ → Option ℕ
utf8_size u =
    if leb u 0x7f
    then some 1
    else if leb u 0x7ff
    then some 2
    else if leb u 0xd7ff
    then some 3
    else if leb u 0xdbff
    then some 4
    else if leb u 0xdfff
    then some 4
    else if leb u 0xfffd
    then some 3
    else if leb u 0xffff
    then some 3
    else none

-- The first loop: the size of the text that is to be written.
pub utf8_sizes : List ℕ → Option ℕ
utf8_sizes [] = some 0
utf8_sizes (u ∷ us) = do n ← utf8_size u; m ← utf8_sizes us; some (n + m)

-- `nu >= 0xdc00 && nu <= 0xdfff`
abbrev pub is_low : ℕ → Bool
is_low nu = leb 0xdc00 nu && leb nu 0xdfff

-- The four bytes of two surrogates.
pub pair_bytes : ℕ → ℕ → List ℕ
pair_bytes u nu =
    let z = nu % 64 in
    let y = nu % 1024 / 64 in
    let x = u % 4 in
    let w = u / 4 % 16 in
    let v = u / 64 % 16 in
    let uuuuu = v + 1 in
    bit_or 0xf0 (uuuuu / 4) % 256
    ∷ (bit_or (uuuuu % 4 * 16) w % 256 + 0x80) % 256
    ∷ (bit_or (x * 16) y % 256 + 0x80) % 256
    ∷ (z + 0x80) % 256
    ∷ []

-- The four bytes of a high surrogate alone, and of any other unit of that size alone.
pub half_bytes : ℕ → List ℕ
half_bytes u =
    if leb 0xd800 u && leb u 0xdbff
    then (let x = u % 4 in
        let w = u / 4 % 16 in
        let v = u / 64 % 16 in
        let uuuuu = v + 1 in
        0xf8
        ∷ (bit_or (uuuuu % 4 * 16) w % 256 + 0x80) % 256
        ∷ (x * 16 % 256 + 0x80) % 256
        ∷ bit_or 0x80 (uuuuu / 4) % 256
        ∷ [])
    else 0xfc ∷ 0x80 ∷ (u % 1024 / 64 + 0x80) % 256 ∷ (u % 64 + 0x80) % 256 ∷ []

-- The cases 1, 3 and the default, which falls through from 3.
pub unit_bytes : ℕ → ℕ → List ℕ
unit_bytes n u =
    if n == 1
    then u % 256 ∷ []
    else if n == 3
    then (0xff - 0xff / 2 ^ n + u / 64 / 64) % 256
      ∷ (0x80 + u / 64 % 64) % 256
      ∷ (0x80 + u % 64) % 256
      ∷ []
    else (0xff - 0xff / 2 ^ n + u / 64) % 256 ∷ (0x80 + u % 64) % 256 ∷ []

-- The bytes of `bs` in front of the rest that the loop writes, and `d` off `utf8_len` for them.
abbrev pub put : List ℕ → ℕ → Option (List ℕ × ℕ) → Option (List ℕ × ℕ)
put bs d rest = do (out, less) ← rest; some (bs ++ out, d + less)

-- The second loop: what it writes, and by how much it lowers `utf8_len`.
pub utf8_loop : List ℕ → Option (List ℕ × ℕ)
utf8_loop [] = some ([], 0)
utf8_loop (u ∷ []) = do n ← utf8_size u; some (if n == 4 then half_bytes u else unit_bytes n u, 0)
utf8_loop (u ∷ nu ∷ us) =
    let after_pair = utf8_loop us in
    let after_unit = utf8_loop (nu ∷ us) in
    do
      n ← utf8_size u
      if n == 4
          then (if is_low nu
              then put (pair_bytes u nu) 4 after_pair
              else put (half_bytes u) 0 after_unit)
          else put (unit_bytes n u) 0 after_unit

-- `make_string(utf8_len, '0')`, overwritten from its start; more bytes do not fit.
abbrev pub overwrite : ℕ → List ℕ → Option Str
overwrite total bs =
    if leb (length bs) total
    then some (record { chars = bs ++ replicate (total - length bs) b'0'; after = 0 })
    else none

unfoldable pub ucs2_to_utf8_string : List ℕ → Option Str
ucs2_to_utf8_string us = do
  total ← utf8_sizes us
  if total == length us then some (record { chars = map (λ u. u % 256) us; after = 0 }) else (do
    (bs, less) ← utf8_loop us
    s ← overwrite total bs
    some (bgl_string_shrink s (total - less)))

unfoldable pub ucs2_string_to_utf8_string : Str → Option Str
unfolding ucs2_to_utf8_string
ucs2_string_to_utf8_string s = ucs2_to_utf8_string s.chars

-- What the decoder does: it returns, fails with one of its two messages, or reads out of bounds.
pub data Run {ℓ} (A : Type ℓ) : Type ℓ where
  ok : A → Run A
  illegal_first_byte : ℕ → Run A
  illegal_following_byte : ℕ → Run A
  fault : Run A

abbrev pub bind {ℓ κ} : {A : Type ℓ} {B : Type κ} → Run A → (A → Run B) → Run B
bind (ok a) f = f a
bind (illegal_first_byte b) f = illegal_first_byte b
bind (illegal_following_byte b) f = illegal_following_byte b
bind fault f = fault

-- `while (byte & 0x40)`: the value so far and its count of bits, and the pointer. A byte has at
-- most seven more bits to shift out, so the fuel is 8.
pub following : ℕ → ℕ → ℕ → ℕ → ℕ → List ℕ → Run (ℕ × ℕ × ℕ × List ℕ)
following zero byte ucs2 bits count p = fault
following (suc fuel) byte ucs2 bits count [] =
    if byte / 64 % 2 == 1 then fault else ok (ucs2, bits, count, [])
following (suc fuel) byte ucs2 bits count (next ∷ p) =
    let rest = following fuel (byte * 2 % 256) (ucs2 * 64 + next % 64) (bits + 5) (count + 1) p in
    if byte / 64 % 2 == 1
    then (if leb next 0x7f || ltb 0xbf next then illegal_following_byte next else rest)
    else ok (ucs2, bits, count, next ∷ p)

-- The unit of the three bytes behind 0xf8, in an `int` of 32 bits.
pub high_of : ℕ → ℕ → ℕ → ℕ
high_of b1 b2 b3 =
    let u4u3 = b3 % 4 * 4 in
    let x = b2 / 16 % 4 in
    let w = b1 % 16 in
    let u2u1 = b1 / 16 % 4 in
    let uuuu = bit_or u4u3 u2u1 in
    let v = (uuuu + 2 ^ 32 - 1) % 2 ^ 32 in
    bit_or (bit_or (bit_or x (w * 4)) (v * 64 % 2 ^ 32)) (0x36 * 1024) % 2 ^ 16

-- The unit of the three bytes behind 0xfc.
pub low_of : ℕ → ℕ → ℕ → ℕ
low_of b1 b2 b3 = bit_or (bit_or (b3 % 64) (b2 % 16 * 64)) (0x37 * 1024) % 2 ^ 16

-- The units of a value of `bits` bits.
pub units_of : ℕ → ℕ → List ℕ
units_of ucs2 bits =
    let c = ucs2 % 2 ^ bits in
    if leb 0x10000 c
    then ((c - 0x10000) / 1024 + 0xd800) % 2 ^ 16 ∷ ((c - 0x10000) % 1024 + 0xdc00) % 2 ^ 16 ∷ []
    else c % 2 ^ 16 ∷ []

abbrev pub prepend : List ℕ → Run (List ℕ) → Run (List ℕ)
prepend us rest = bind rest (λ out. ok (us ++ out))

pub three_more : (ℕ → ℕ → ℕ → ℕ) → List ℕ → Run (List ℕ × ℕ × List ℕ)
three_more f (b1 ∷ b2 ∷ b3 ∷ q) = ok (f b1 b2 b3 ∷ [], 3, q)
three_more f q = fault

-- One round behind its first byte: the units, how many more bytes were read, and the pointer.
pub decode_round : ℕ → List ℕ → Run (List ℕ × ℕ × List ℕ)
decode_round byte p =
    if leb byte 0x7f
    then ok (byte ∷ [], 0, p)
    else if byte == 0xf8
    then three_more high_of p
    else if byte == 0xfc
    then three_more low_of p
    else if leb byte 0xbf || leb 0xfd byte
    then illegal_first_byte byte
    else bind (following 8 byte byte 6 0 p)
        λ (ucs2, bits, count, q). ok (units_of ucs2 bits, count, q)

-- The loop with `n` bytes left before `len`; a round may read past it. Each round reads a byte,
-- so `len` is fuel enough.
pub decode : ℕ → ℕ → List ℕ → Run (List ℕ)
decode fuel zero p = ok []
decode zero (suc n) p = fault
decode (suc fuel) (suc n) [] = fault
decode (suc fuel) (suc n) (byte ∷ p) =
    bind (decode_round byte p) λ (us, count, q). prepend us (decode fuel (n - count) q)

-- The new memory has one unit more than the string, and that unit is not written: it is
-- `fresh`, what the memory held.
unfoldable pub utf8_string_to_ucs2_string : ℕ → Str → Run Str
utf8_string_to_ucs2_string fresh s =
    bind (decode (len s) (len s) (memory s)) λ us. ok (record { chars = us; after = fresh })
