-- ===== src/Cunicode/Utf8/Inverse.antt =====
-- `utf8_string_to_ucs2_string` undoes `ucs2_to_utf8_string`, on the texts for which it does.
use bigloo.Prelude.{
  ℕ, zero, suc, ◌+◌, ◌-◌, ◌*◌, ◌/◌, ◌%◌, ◌≤◌, ◌<◌, ◌==◌, ltb, leb, ◌||◌, true, false, some, List,
  [], ◌∷◌, ◌++◌, ◌>>=◌, if◌then◌else◌, length, map, ◌≡◌, refl, arith, ap, ap₂, ◌∙◌, sym,
  length-append, append-nil, append_assoc, Bool-cases, inl, inr, ◌⊎◌, take_at, replicate,
  length-replicate,
}
use bigloo.Memory.{Str, IsTerminated}
use bigloo.Cstring.Build.{bgl_string_shrink}
use bigloo.Cunicode.Utf8.{
  utf8_size, utf8_sizes, pair_bytes, half_bytes, unit_bytes, is_low, put, utf8_loop, overwrite,
  ucs2_to_utf8_string, ok, decode_round, decode, utf8_string_to_ucs2_string,
}
use bigloo.Cunicode.Utf8.Round.{
  round_ascii, round_two, round_three, round_pair, round_high, round_low, pair_bytes_lem,
  half_bytes_high, half_bytes_low,
}

-- The units that come back when they stand alone: not the high surrogates from 0xdbc0.
abbrev pub Alone : ℕ → Type 0
Alone u = (u < 0xdbc0) ⊎ (0xdc00 ≤ u) × (u < 0x10000)

-- The encoder does not join `u` with what follows it.
abbrev pub IsUnpaired : ℕ → List ℕ → Type 0
IsUnpaired u [] = Unit {0}
IsUnpaired u (nu ∷ us) = (u < 0xd800) ⊎ ((0xe000 ≤ u) ⊎ (is_low nu ≡ false))

-- Surrogates in pairs, and units alone. Two low surrogates in a row are not among these texts.
pub data Survives : List ℕ → Type 0 where
  empty : Survives []
  pair :
      {u nu : ℕ} {us : List ℕ}
      → 0xd800 ≤ u
      → u < 0xdc00
      → 0xdc00 ≤ nu
      → nu < 0xe000
      → Survives us
      → Survives (u ∷ nu ∷ us)
  single : {u : ℕ} {us : List ℕ} → Alone u → IsUnpaired u us → Survives us → Survives (u ∷ us)

-- The bytes of one unit, and how they decode.
abbrev unit_chunk : ℕ → ℕ → List ℕ
unit_chunk n u = if n == 4 then half_bytes u else unit_bytes n u

record Chunk (u : ℕ) : Type 0 where
  first : ℕ
  others : List ℕ
  size : utf8_size u ≡ some (suc (length others))
  bytes : unit_chunk (suc (length others)) u ≡ first ∷ others
  round : (p : List ℕ) → decode_round first (others ++ p) ≡ ok (u ∷ [], length others, p)
  plain : length others ≡ 0 → first ≡ u % 256

Chunk-of : (u : ℕ) → Alone u → Chunk u
unfolding utf8_size unit_bytes
Chunk-of u a = elim (Bool-cases (ltb u 0x80)) [
  | inl h ↦
      let lt : u < 0x80 = ground arith in
      record {
        first = u;
        others = [];
        size = ground arith;
        bytes = ground arith;
        round = λ p. round_ascii u p (ground arith);
        plain = λ _. omega arith;
      }
  | inr h ↦ elim (Bool-cases (ltb u 0x800)) [
    | inl k ↦ record {
      first = 0xc0 + u / 64;
      others = (0x80 + u % 64) ∷ [];
      size = ground arith;
      bytes = ground arith;
      round = λ p. round_two u p (ground arith) (ground arith);
      plain = λ h. absurd (omega arith);
    }
    | inr k ↦ elim (Bool-cases (ltb u 0xd800 || leb 0xe000 u)) [
      | inl l ↦ record {
        first = 0xe0 + u / 64 / 64;
        others = (0x80 + u / 64 % 64) ∷ (0x80 + u % 64) ∷ [];
        size = ground arith;
        bytes = ground arith;
        round = λ p. round_three u p (ground arith) (ground arith);
        plain = λ h. absurd (omega arith);
      }
      | inr l ↦ elim (Bool-cases (ltb u 0xdc00)) [
        | inl m ↦ record {
          first = 0xf8;
          others =
              (0x80 + (u / 64 % 16 + 1) % 4 * 16 + u / 4 % 16)
              ∷ (0x80 + u % 4 * 16)
              ∷ (0x80 + (u / 64 % 16 + 1) / 4)
              ∷ [];
          size = ground arith;
          bytes = half_bytes_high u (ground arith) (ground arith);
          round = λ p. round_high u p (ground arith) (ground arith);
          plain = λ h. absurd (omega arith);
        }
        | inr m ↦ record {
          first = 0xfc;
          others = 0x80 ∷ (0x80 + u % 1024 / 64) ∷ (0x80 + u % 64) ∷ [];
          size = ground arith;
          bytes = half_bytes_low u (ground arith) (ground arith);
          round = λ p. round_low u p (ground arith) (ground arith);
          plain = λ h. absurd (omega arith);
        }
      ]
    ]
  ]
]

-- A round that reads the bytes of some units, and the loop on the rest.
module _ (b : ℕ) (cs us bs vs p : List ℕ)
    (round : (q : List ℕ) → decode_round b (cs ++ q) ≡ ok (us, length cs, q))
    (rest : (fuel : ℕ) → length bs ≤ fuel → decode fuel (length bs) (bs ++ p) ≡ ok vs) where
  decode_step :
      (fuel : ℕ)
      → suc (length (cs ++ bs)) ≤ fuel
      → decode fuel (suc (length (cs ++ bs))) (b ∷ ((cs ++ bs) ++ p)) ≡ ok (us ++ vs)
  unfolding decode
  decode_step zero h = absurd (omega arith)
  decode_step (suc fuel) h =
      let left : length (cs ++ bs) - length cs ≡ length bs = omega (arith, length-append cs bs) in
      rw
        (
          append_assoc cs bs p,
          round (bs ++ p),
          left,
          rest fuel (omega (arith, length-append cs bs)),
        )
        refl

append_empty : (xs ys : List ℕ) → length xs ≡ 0 → xs ++ ys ≡ ys
append_empty [] ys h = refl
append_empty (x ∷ xs) ys h = absurd (omega arith)

record Written (us : List ℕ) : Type 0 where
  bs : List ℕ
  less : ℕ
  loop : utf8_loop us ≡ some (bs, less)
  sizes : utf8_sizes us ≡ some (length bs + less)
  -- Each unit takes a byte or more, and where each takes one they are the bytes.
  wide : length us ≤ length bs + less
  narrow : length bs + less ≡ length us → (less ≡ 0) × (bs ≡ map (λ u. u % 256) us)
  back : (p : List ℕ) (fuel : ℕ) → length bs ≤ fuel → decode fuel (length bs) (bs ++ p) ≡ ok us

loop_single :
    (u n : ℕ) (us : List ℕ)
    → utf8_size u ≡ some n
    → (n ≡ 4 → (0xd800 ≤ u) × (u < 0xe000))
    → IsUnpaired u us
    → utf8_loop (u ∷ us) ≡ put (unit_chunk n u) 0 (utf8_loop us)
unfolding utf8_loop
loop_single u n [] e four h = rw e (ap (λ bs. some (bs, 0)) (sym (append-nil (unit_chunk n u))))
loop_single u n (nu ∷ us) e four h = rw e (ground arith)

size_four : (u n : ℕ) → utf8_size u ≡ some n → n ≡ 4 → (0xd800 ≤ u) × (u < 0xe000)
unfolding utf8_size
size_four u n e f = ground arith

pub size_pair : (u : ℕ) → 0xd800 ≤ u → u < 0xe000 → utf8_size u ≡ some 4
unfolding utf8_size
size_pair u a b = ground arith

pub loop_pair :
    (u nu : ℕ) (us : List ℕ)
    → 0xd800 ≤ u
    → u < 0xe000
    → is_low nu ≡ true
    → utf8_loop (u ∷ nu ∷ us) ≡ put (pair_bytes u nu) 4 (utf8_loop us)
unfolding utf8_loop
loop_pair u nu us a b h = rw (size_pair u a b, h) refl

write_all : (us : List ℕ) → Survives us → Written us
unfolding utf8_sizes
write_all [] empty = record {
  bs = [];
  less = 0;
  loop = unfold utf8_loop in refl;
  sizes = refl;
  wide = omega arith;
  narrow = λ _. (refl, refl);
  back = λ p fuel h. unfold decode in refl;
}
write_all (u ∷ nu ∷ us) (pair a b c d s) =
    let w = write_all us s in
    let tail : List ℕ =
      (0x80 + (u / 64 % 16 + 1) % 4 * 16 + u / 4 % 16)
      ∷ (0x80 + u % 4 * 16 + nu % 1024 / 64)
      ∷ (0x80 + nu % 64)
      ∷ [] in
    record {
      bs = (0xf0 + (u / 64 % 16 + 1) / 4) ∷ (tail ++ w.bs);
      less = 4 + w.less;
      loop =
          loop_pair u nu us a (omega arith) (ground arith) ∙ rw (pair_bytes_lem u nu, w.loop) refl;
      sizes =
          rw (size_pair u a (omega arith), size_pair nu (omega arith) d, w.sizes)
            (ap some (omega arith));
      wide = omega (arith, w.wide);
      narrow = λ h. absurd (omega (arith, w.wide));
      back = λ p.
          decode_step (0xf0 + (u / 64 % 16 + 1) / 4) tail (u ∷ nu ∷ []) w.bs us p
            (λ q. round_pair u nu q a b c d) (w.back p);
    }
write_all (u ∷ us) (single a np s) =
    let w = write_all us s in
    let k = Chunk-of u a in
    let size = length-append k.others w.bs in
    record {
      bs = k.first ∷ (k.others ++ w.bs);
      less = w.less;
      loop =
          loop_single u (suc (length k.others)) us k.size
            (size_four u (suc (length k.others)) k.size) np
          ∙ rw (k.bytes, w.loop) (ap (λ m. some (k.first ∷ (k.others ++ w.bs), m)) (omega arith));
      sizes = rw (k.size, w.sizes) (ap some (omega (arith, size)));
      wide = omega (arith, size, w.wide);
      narrow = λ h.
          let (z, e) = w.narrow (omega (arith, size, w.wide)) in
          let alone : length k.others ≡ 0 = omega (arith, size, w.wide) in
          (z, ap₂ ◌∷◌ (k.plain alone) (append_empty k.others w.bs alone ∙ e));
      back = λ p. decode_step k.first k.others (u ∷ []) w.bs us p k.round (w.back p);
    }

-- `overwrite` and `bgl_string_shrink` leave the bytes written, whatever `utf8_len` was lowered by.
pub shrink_written :
    (bs : List ℕ) (total less : ℕ)
    → length bs + less ≡ total
    → overwrite total bs >>= (λ s. some (bgl_string_shrink s (total - less)))
      ≡ some (record { chars = bs; after = 0 })
unfolding bgl_string_shrink
shrink_written bs total less e =
    let fits : leb (length bs) total ≡ true = ground arith in
    rw fits (elim (Bool-cases (ltb (total - less) (length padded))) [
      | inl cut ↦ rw cut (
          ap (λ cs. some (record { chars = cs; after = 0 }))
            (take_at (total - less) bs (replicate (total - length bs) b'0') (omega arith)))
      | inr whole ↦
          let none_left : total - length bs ≡ 0 = ground (arith, size) in
          rw whole
            (ap (λ cs. some (record { chars = cs; after = 0 })) (rw none_left (append-nil bs)))
    ])
  where
    padded : List ℕ
    padded = bs ++ replicate (total - length bs) b'0'

    size : length padded ≡ length bs + (total - length bs)
    size =
        length-append bs (replicate (total - length bs) b'0')
        ∙ ap (λ n. length bs + n) (length-replicate (total - length bs) b'0')

-- A text whose surrogates stand in pairs, but for single ones that are low ones not behind a
-- surrogate or high ones below 0xdbc0 not before a low one, is encoded within the buffer that is allocated for it, and the
-- decoder gives it back, whatever the new memory held.
pub utf8_round_trip :
    (us : List ℕ) (fresh : ℕ)
    → Survives us
    → (s : Str) × (ucs2_to_utf8_string us ≡ some s)
      × IsTerminated s
      × (utf8_string_to_ucs2_string fresh s ≡ ok (record { chars = us; after = fresh }))
unfolding ucs2_to_utf8_string utf8_string_to_ucs2_string
utf8_round_trip us fresh ok' =
    let w = write_all us ok' in
    let s : Str = record { chars = w.bs; after = 0 } in
    (
      s,
      rw w.sizes (elim (Bool-cases (length w.bs + w.less == length us)) [
        | inl same ↦
            let (z, e) = w.narrow (ground arith) in
            rw same (ap (λ cs. some (record { chars = cs; after = 0 })) (sym e))
        | inr other ↦ rw (other, w.loop) (shrink_written w.bs _ w.less refl)
      ]),
      refl,
      rw (w.back (0 ∷ []) (length w.bs) (omega arith)) refl,
    )
