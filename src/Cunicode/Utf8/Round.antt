-- ===== src/Cunicode/Utf8/Round.antt =====
-- Decoding what the encoder wrote, one character at a time.

use bigloo.Prelude.{
  ℕ, suc, ◌+◌, ◌-◌, ◌*◌, ◌/◌, ◌%◌, ◌^◌, ◌≤◌, ◌<◌, List, [], ◌∷◌, ◌≡◌, refl, arith, ap, ◌∙◌,
}
use bigloo.Cunicode.Utf8.{
  pair_bytes, half_bytes, following, units_of, decode_round, ok, high_of, low_of, three_more, bind,
}
use bigloo.Cunicode.Utf8.Bits.{
  or_nibbles, or_f0, or_80, or_pairs, or_low2, or_low6, or_d800, or_dc00,
}

following_step :
    (fuel byte ucs2 bits count next : ℕ) (p : List ℕ)
    → byte / 64 % 2 ≡ 1
    → 0x80 ≤ next
    → next ≤ 0xbf
    → following (suc fuel) byte ucs2 bits count (next ∷ p)
      ≡ following fuel (byte * 2 % 256) (ucs2 * 64 + next % 64) (bits + 5) (count + 1) p
unfolding following
following_step fuel byte ucs2 bits count next p h lo hi = ground arith

following_stop :
    (fuel byte ucs2 bits count : ℕ) (p : List ℕ)
    → byte / 64 % 2 ≡ 0
    → following (suc fuel) byte ucs2 bits count p ≡ ok (ucs2, bits, count, p)
unfolding following
following_stop fuel byte ucs2 bits count [] h = ground arith
following_stop fuel byte ucs2 bits count (next ∷ p) h = ground arith

abbrev IsNext : ℕ → Type 0
IsNext b = (0x80 ≤ b) × (b ≤ 0xbf)

following_one :
    (b n : ℕ) (p : List ℕ)
    → 0xc0 ≤ b
    → b < 0xe0
    → IsNext n
    → following 8 b b 6 0 (n ∷ p) ≡ ok (b * 64 + n % 64, 11, 1, p)
following_one b n p lo hi h =
    following_step 7 b b 6 0 n p (omega arith) h.0 h.1
    ∙ following_stop 6 (b * 2 % 256) (b * 64 + n % 64) 11 1 p (omega arith)

following_two :
    (b n m : ℕ) (p : List ℕ)
    → 0xe0 ≤ b
    → b < 0xf0
    → IsNext n
    → IsNext m
    → following 8 b b 6 0 (n ∷ m ∷ p) ≡ ok ((b * 64 + n % 64) * 64 + m % 64, 16, 2, p)
following_two b n m p lo hi h k =
    following_step 7 b b 6 0 n (m ∷ p) (omega arith) h.0 h.1
    ∙ following_step 6 (b * 2 % 256) (b * 64 + n % 64) 11 1 m p (omega arith) k.0 k.1
    ∙ following_stop 5 (b * 2 % 256 * 2 % 256) ((b * 64 + n % 64) * 64 + m % 64) 16 2 p
        (omega arith)

following_three :
    (b n m l : ℕ) (p : List ℕ)
    → 0xf0 ≤ b
    → b < 0xf8
    → IsNext n
    → IsNext m
    → IsNext l
    → following 8 b b 6 0 (n ∷ m ∷ l ∷ p)
      ≡ ok (((b * 64 + n % 64) * 64 + m % 64) * 64 + l % 64, 21, 3, p)
following_three b n m l p lo hi h k j =
    following_step 7 b b 6 0 n (m ∷ l ∷ p) (omega arith) h.0 h.1
    ∙ following_step 6 (b * 2 % 256) (b * 64 + n % 64) 11 1 m (l ∷ p) (omega arith) k.0 k.1
    ∙ following_step 5 (b * 2 % 256 * 2 % 256) ((b * 64 + n % 64) * 64 + m % 64) 16 2 l p
        (omega arith) j.0 j.1
    ∙ following_stop 4 (b * 2 % 256 * 2 % 256 * 2 % 256)
        (((b * 64 + n % 64) * 64 + m % 64) * 64 + l % 64) 21 3 p (omega arith)

-- A lead byte for which the round goes through `following`.
decode_round_lead :
    (b : ℕ) (p : List ℕ)
    → 0xc0 ≤ b
    → b < 0xf8
    → decode_round b p
      ≡ bind (following 8 b b 6 0 p) λ (ucs2, bits, count, q). ok (units_of ucs2 bits, count, q)
unfolding decode_round
decode_round_lead b p lo hi = ground arith

pub round_ascii : (u : ℕ) (p : List ℕ) → u < 0x80 → decode_round u p ≡ ok (u ∷ [], 0, p)
unfolding decode_round
round_ascii u p h = ground arith

-- The values that `units_of` splits, and those that it does not.
units_of_one : (c bits v : ℕ) → c % 2 ^ bits ≡ v → v < 0x10000 → units_of c bits ≡ v ∷ []
unfolding units_of
units_of_one c bits v e h = rw e (ground arith)

units_of_two :
    (c bits v hi lo : ℕ)
    → c % 2 ^ bits ≡ v
    → 0x10000 ≤ v
    → ((v - 0x10000) / 1024 + 0xd800) % 2 ^ 16 ≡ hi
    → (v - 0x10000) % 1024 + 0xdc00 ≡ lo
    → units_of c bits ≡ hi ∷ lo ∷ []
unfolding units_of
units_of_two c bits v hi lo e h a b = rw e (ground arith)

-- The two, three and four bytes of a unit or of a pair.
pub round_two :
    (u : ℕ) (p : List ℕ)
    → 0x80 ≤ u
    → u < 0x800
    → decode_round (0xc0 + u / 64) ((0x80 + u % 64) ∷ p) ≡ ok (u ∷ [], 1, p)
round_two u p lo hi =
    decode_round_lead (0xc0 + u / 64) ((0x80 + u % 64) ∷ p) (omega arith) (omega arith)
    ∙ rw
        (
          following_one (0xc0 + u / 64) (0x80 + u % 64) p (omega arith) (omega arith) (omega arith),
          units_of_one ((0xc0 + u / 64) * 64 + (0x80 + u % 64) % 64) 11 u (omega arith)
              (omega arith),
        )
        refl

pub round_three :
    (u : ℕ) (p : List ℕ)
    → 0x800 ≤ u
    → u < 0x10000
    → decode_round (0xe0 + u / 64 / 64) ((0x80 + u / 64 % 64) ∷ (0x80 + u % 64) ∷ p)
      ≡ ok (u ∷ [], 2, p)
round_three u p lo hi =
    let b = 0xe0 + u / 64 / 64 in
    let n = 0x80 + u / 64 % 64 in
    let m = 0x80 + u % 64 in
    decode_round_lead b (n ∷ m ∷ p) (omega arith) (omega arith)
    ∙ rw
        (
          following_two b n m p (omega arith) (omega arith) (omega arith) (omega arith),
          units_of_one ((b * 64 + n % 64) * 64 + m % 64) 16 u (omega arith) (omega arith),
        )
        refl

-- The pair of surrogates `u`, `nu` as the bytes of its character.
pub pair_bytes_lem :
    (u nu : ℕ)
    → pair_bytes u nu
      ≡ (0xf0 + (u / 64 % 16 + 1) / 4)
        ∷ (0x80 + (u / 64 % 16 + 1) % 4 * 16 + u / 4 % 16)
        ∷ (0x80 + u % 4 * 16 + nu % 1024 / 64)
        ∷ (0x80 + nu % 64)
        ∷ []
unfolding pair_bytes
pair_bytes_lem u nu =
    rw
      (
        or_f0 ((u / 64 % 16 + 1) / 4) (omega arith),
        or_nibbles ((u / 64 % 16 + 1) % 4) (u / 4 % 16) (omega arith) (omega arith),
        or_nibbles (u % 4) (nu % 1024 / 64) (omega arith) (omega arith),
      )
      (ground arith)

pub round_pair :
    (u nu : ℕ) (p : List ℕ)
    → 0xd800 ≤ u
    → u < 0xdc00
    → 0xdc00 ≤ nu
    → nu < 0xe000
    → decode_round (0xf0 + (u / 64 % 16 + 1) / 4) (
        (0x80 + (u / 64 % 16 + 1) % 4 * 16 + u / 4 % 16)
        ∷ (0x80 + u % 4 * 16 + nu % 1024 / 64)
        ∷ (0x80 + nu % 64)
        ∷ p)
      ≡ ok (u ∷ nu ∷ [], 3, p)
round_pair u nu p a b c d =
    let b0 = 0xf0 + (u / 64 % 16 + 1) / 4 in
    let b1 = 0x80 + (u / 64 % 16 + 1) % 4 * 16 + u / 4 % 16 in
    let b2 = 0x80 + u % 4 * 16 + nu % 1024 / 64 in
    let b3 = 0x80 + nu % 64 in
    let v = 0x10000 + (u - 0xd800) * 1024 + (nu - 0xdc00) in
    decode_round_lead b0 (b1 ∷ b2 ∷ b3 ∷ p) (omega arith) (omega arith)
    ∙ rw
        (
          following_three b0 b1 b2 b3 p (omega arith) (omega arith) (omega arith) (omega arith)
              (omega arith),
          units_of_two (((b0 * 64 + b1 % 64) * 64 + b2 % 64) * 64 + b3 % 64) 21 v u nu (omega arith)
              (omega arith) (omega arith) (omega arith),
        )
        refl

-- A high surrogate alone, below 0xdbc0, and a low one alone.
pub half_bytes_high :
    (u : ℕ)
    → 0xd800 ≤ u
    → u < 0xdc00
    → half_bytes u
      ≡ 0xf8
        ∷ (0x80 + (u / 64 % 16 + 1) % 4 * 16 + u / 4 % 16)
        ∷ (0x80 + u % 4 * 16)
        ∷ (0x80 + (u / 64 % 16 + 1) / 4)
        ∷ []
unfolding half_bytes
half_bytes_high u lo hi =
    rw
      (
        or_80 ((u / 64 % 16 + 1) / 4) (omega arith),
        or_nibbles ((u / 64 % 16 + 1) % 4) (u / 4 % 16) (omega arith) (omega arith),
      )
      (ground arith)

pub half_bytes_low :
    (u : ℕ)
    → 0xdc00 ≤ u
    → u < 0xe000
    → half_bytes u ≡ 0xfc ∷ 0x80 ∷ (0x80 + u % 1024 / 64) ∷ (0x80 + u % 64) ∷ []
unfolding half_bytes
half_bytes_low u lo hi = ground arith

-- What `high_of` computes, for any bytes: where the four bits of the second and the last byte are
-- all 0, the subtraction wraps.
pub high_of_lem :
    (b1 b2 b3 : ℕ)
    → 1 ≤ b3 % 4 * 4 + b1 / 16 % 4
    → high_of b1 b2 b3 ≡ b2 / 16 % 4 + b1 % 16 * 4 + (b3 % 4 * 4 + b1 / 16 % 4 - 1) * 64 + 0xd800
unfolding high_of
high_of_lem b1 b2 b3 h =
    rw
      (
        or_pairs (b3 % 4) (b1 / 16 % 4) (omega arith) (omega arith),
        or_low2 (b2 / 16 % 4) (b1 % 16) (omega arith) (omega arith),
        small,
        or_low6 (b2 / 16 % 4 + b1 % 16 * 4) (b3 % 4 * 4 + b1 / 16 % 4 - 1) (omega arith)
            (omega arith),
        or_d800 (b2 / 16 % 4 + b1 % 16 * 4 + (b3 % 4 * 4 + b1 / 16 % 4 - 1) * 64) (omega arith),
      )
      (omega arith)
  where
    small :
        (b3 % 4 * 4 + b1 / 16 % 4 + 2 ^ 32 - 1) % 2 ^ 32 * 64 % 2 ^ 32
        ≡ (b3 % 4 * 4 + b1 / 16 % 4 - 1) * 64
    small = omega arith

low_of_lem : (b1 b2 b3 : ℕ) → low_of b1 b2 b3 ≡ b3 % 64 + b2 % 16 * 64 + 0xdc00
unfolding low_of
low_of_lem b1 b2 b3 =
    rw
      (
        or_low6 (b3 % 64) (b2 % 16) (omega arith) (omega arith),
        or_dc00 (b3 % 64 + b2 % 16 * 64) (omega arith),
      )
      (omega arith)

pub round_high :
    (u : ℕ) (p : List ℕ)
    → 0xd800 ≤ u
    → u < 0xdbc0
    → decode_round 0xf8 (
        (0x80 + (u / 64 % 16 + 1) % 4 * 16 + u / 4 % 16)
        ∷ (0x80 + u % 4 * 16)
        ∷ (0x80 + (u / 64 % 16 + 1) / 4)
        ∷ p)
      ≡ ok (u ∷ [], 3, p)
unfolding decode_round three_more
round_high u p lo hi =
    let b1 = 0x80 + (u / 64 % 16 + 1) % 4 * 16 + u / 4 % 16 in
    let b2 = 0x80 + u % 4 * 16 in
    let b3 = 0x80 + (u / 64 % 16 + 1) / 4 in
    let e : high_of b1 b2 b3 ≡ u = high_of_lem b1 b2 b3 (omega arith) ∙ omega arith in
    ap (λ v. ok (v ∷ [], 3, p)) e

pub round_low :
    (u : ℕ) (p : List ℕ)
    → 0xdc00 ≤ u
    → u < 0xe000
    → decode_round 0xfc (0x80 ∷ (0x80 + u % 1024 / 64) ∷ (0x80 + u % 64) ∷ p) ≡ ok (u ∷ [], 3, p)
unfolding decode_round three_more
round_low u p lo hi =
    let e : low_of 0x80 (0x80 + u % 1024 / 64) (0x80 + u % 64) ≡ u =
      low_of_lem 0x80 (0x80 + u % 1024 / 64) (0x80 + u % 64) ∙ omega arith in
    ap (λ v. ok (v ∷ [], 3, p)) e
