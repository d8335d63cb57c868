-- ===== src/Cunicode/Utf8/Lossy.antt =====
-- Texts that do not come back: the encoder joins two low surrogates, and drops the highest bit
-- of the high surrogates from 0xdbc0.
use Prim.Native.Nat.{bit_or}
use bigloo.Prelude.{
  ℕ, ◌+◌, ◌-◌, ◌*◌, ◌/◌, ◌%◌, ◌^◌, ◌≤◌, ◌<◌, some, List, [], ◌∷◌, ◌>>=◌, ◌≡◌, refl, arith, ap, ◌∙◌,
  sym,
}
use bigloo.Cunicode.Utf8.{
  utf8_sizes, pair_bytes, utf8_loop, high_of, three_more, ucs2_to_utf8_string, ok, decode_round,
  decode, utf8_string_to_ucs2_string,
}
use bigloo.Cstring.Build.{bgl_string_shrink}
use bigloo.Cunicode.Utf8.Bits.{table, or_low2}
use bigloo.Cunicode.Utf8.Round.{pair_bytes_lem, half_bytes_high}
use bigloo.Cunicode.Utf8.Inverse.{loop_pair, size_pair}

-- Two low surrogates are written as the pair that has the first one lowered by 0x400: the
-- encoder is not injective, and no decoder can tell the two texts apart.
pub low_low_joined :
    (u nu : ℕ) (us : List ℕ)
    → 0xdc00 ≤ u
    → u < 0xe000
    → 0xdc00 ≤ nu
    → nu < 0xe000
    → ucs2_to_utf8_string (u ∷ nu ∷ us) ≡ ucs2_to_utf8_string ((u - 0x400) ∷ nu ∷ us)
unfolding ucs2_to_utf8_string utf8_sizes
low_low_joined u nu us a b c d =
    rw
      (
        size_pair u (omega arith) b,
        size_pair (u - 0x400) (omega arith) (omega arith),
        loop_pair u nu us (omega arith) b (ground arith),
        loop_pair (u - 0x400) nu us (omega arith) (omega arith) (ground arith),
        same,
        byte,
      )
      refl
  where
    byte : u % 256 ≡ (u - 0x400) % 256
    byte = omega arith

    same : pair_bytes u nu ≡ pair_bytes (u - 0x400) nu
    same = pair_bytes_lem u nu ∙ ground arith ∙ sym (pair_bytes_lem (u - 0x400) nu)

-- The unit that three bytes give whose bits for `uuuu` are all 0.
high_of_wrapped :
    (b1 b2 b3 : ℕ)
    → b3 % 4 ≡ 0
    → b1 / 16 % 4 ≡ 0
    → high_of b1 b2 b3 ≡ 0xffc0 + b2 / 16 % 4 + b1 % 16 * 4
unfolding high_of
high_of_wrapped b1 b2 b3 e f =
    rw (e, f, or_low2 (b2 / 16 % 4) (b1 % 16) (omega arith) (omega arith))
      (table 1 64 (λ _ n. bit_or (bit_or n (2 ^ 32 - 64)) 0xd800 % 2 ^ 16) (λ _ n. 0xffc0 + n) refl
          0 (b2 / 16 % 4 + b1 % 16 * 4) (omega arith) (omega arith)
        ∙ omega arith)

-- A high surrogate from 0xdbc0 that stands alone is encoded, and decodes to a unit from 0xffc0.
pub high_lost :
    (u fresh : ℕ)
    → 0xdbc0 ≤ u
    → u < 0xdc00
    → ucs2_to_utf8_string (u ∷ []) >>= (λ s. some (utf8_string_to_ucs2_string fresh s))
      ≡ some (ok (record { chars = (0xffc0 + u % 64) ∷ []; after = fresh }))
unfolding ucs2_to_utf8_string utf8_string_to_ucs2_string utf8_sizes utf8_loop decode decode_round
    three_more bgl_string_shrink
high_lost u fresh lo hi =
    let b1 = 0x80 + (u / 64 % 16 + 1) % 4 * 16 + u / 4 % 16 in
    let b2 = 0x80 + u % 4 * 16 in
    let b3 = 0x80 + (u / 64 % 16 + 1) / 4 in
    let e : high_of b1 b2 b3 ≡ 0xffc0 + u % 64 =
      high_of_wrapped b1 b2 b3 (omega arith) (omega arith) ∙ omega arith in
    rw (size_pair u (omega arith) (omega arith), half_bytes_high u (omega arith) (omega arith))
      (ap (λ v. some (ok (record { chars = v ∷ []; after = fresh }))) e)
