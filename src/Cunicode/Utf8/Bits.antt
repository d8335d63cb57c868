-- ===== src/Cunicode/Utf8/Bits.antt =====
-- `|` of fields that share no bit is their sum, at the widths that cunicode.c uses.
use Prim.Native.Nat.{bit_or}
use bigloo.Prelude.{ℕ, ◌+◌, ◌*◌, ◌<◌, ◌==◌, true, ◌≡◌, refl, arith, all_below, all_below_sound}

eq_of_test : (a b : ℕ) → (a == b) ≡ true → a ≡ b
eq_of_test a b h = ground arith

-- Two nested tables.
module _ (m n : ℕ) (f g : ℕ → ℕ → ℕ) where
  pub table :
      all_below m (λ x. all_below n (λ y. f x y == g x y)) ≡ true
      → (x y : ℕ) → x < m
      → y < n
      → f x y ≡ g x y
  table h x y p q = eq_of_test (f x y) (g x y) (all_below_sound n _ y (all_below_sound m _ x h p) q)

pub or_nibbles : (x y : ℕ) → x < 16 → y < 16 → bit_or (x * 16) y ≡ x * 16 + y
or_nibbles = table 16 16 (λ x y. bit_or (x * 16) y) (λ x y. x * 16 + y) refl

pub or_f0 : (k : ℕ) → k < 8 → bit_or 0xf0 k ≡ 0xf0 + k
or_f0 k h = table 1 8 (λ _ k. bit_or 0xf0 k) (λ _ k. 0xf0 + k) refl 0 k (omega arith) h

pub or_80 : (k : ℕ) → k < 8 → bit_or 0x80 k ≡ 0x80 + k
or_80 k h = table 1 8 (λ _ k. bit_or 0x80 k) (λ _ k. 0x80 + k) refl 0 k (omega arith) h

pub or_pairs : (x y : ℕ) → x < 4 → y < 4 → bit_or (x * 4) y ≡ x * 4 + y
or_pairs = table 4 4 (λ x y. bit_or (x * 4) y) (λ x y. x * 4 + y) refl

pub or_low2 : (x y : ℕ) → x < 4 → y < 16 → bit_or x (y * 4) ≡ x + y * 4
or_low2 = table 4 16 (λ x y. bit_or x (y * 4)) (λ x y. x + y * 4) refl

pub or_low6 : (x y : ℕ) → x < 64 → y < 16 → bit_or x (y * 64) ≡ x + y * 64
or_low6 = table 64 16 (λ x y. bit_or x (y * 64)) (λ x y. x + y * 64) refl

pub or_d800 : (x : ℕ) → x < 1024 → bit_or x 0xd800 ≡ x + 0xd800
or_d800 x h = table 1 1024 (λ _ x. bit_or x 0xd800) (λ _ x. x + 0xd800) refl 0 x (omega arith) h

pub or_dc00 : (x : ℕ) → x < 1024 → bit_or x 0xdc00 ≡ x + 0xdc00
or_dc00 x h = table 1 1024 (λ _ x. bit_or x 0xdc00) (λ _ x. x + 0xdc00) refl 0 x (omega arith) h
