-- ===== src/Cstring/Escape/Laws.antt =====
-- What `create_string_for_read` escapes, `bgl_escape_C_string` gives back.
use bigloo.Prelude.{
  ℕ, zero, suc, ◌+◌, ◌-◌, ◌*◌, ◌/◌, ◌%◌, ◌≤◌, ◌<◌, ◌==◌, ltb, leb, ◌||◌, Bool, true, false, some,
  List, [], ◌∷◌, ◌++◌, if◌then◌else◌, length, get_elem?, ◌≡◌, ◌≢◌, refl, arith, ap, append_assoc,
  length-append, Bool-cases, Option-cases, inl, inr,
}
use native.Mathlib.Nat.{zero-add}
use bigloo.Memory.{Str, len, memory}
use bigloo.Memory.Laws.{units-memory, of_memory-append}
use bigloo.Cstring.Build.Laws.{string_to_bstring_round_trip}
use bigloo.Cstring.Escape.{
  int_rounds, control_letter, quote_char, quote_all, create_string_for_read, letter_escape,
  escape_at, octal_escape, unescape, bgl_escape_C_string,
}

letter_lem : (c l : ℕ) → control_letter c ≡ some l → (letter_escape l ≡ some c) × (l ≢ 0)
letter_lem c l e = ground arith

-- What one character becomes: itself, or a backslash and an escape that stands for it.
data Quoted : ℕ → List ℕ → Bool → Type 0 where
  plain : (c : ℕ) → c ≢ 92 → c ≢ 0 → Quoted c (c ∷ []) false
  escape :
      (c : ℕ) (e : List ℕ)
      → 1 ≤ length e
      → length e ≤ 3
      → ((i : ℕ) → get_elem? e i ≢ some 0)
      → ((q : List ℕ) → escape_at (e ++ q) ≡ some (c ∷ [], q, length e, length e - 1))
      → Quoted c (92 ∷ e) true

octal_digits :
    (c : ℕ)
    → c < 32
    → (q : List ℕ)
    → escape_at ((48 + c / 64) ∷ (48 + c / 8 % 8) ∷ (48 + c % 8) ∷ q) ≡ some (c ∷ [], q, 3, 2)
unfolding escape_at octal_escape
octal_digits c h q = let z : c / 64 ≡ 0 = omega arith in rw z (ground arith)

not_zero_3 : (a b c : ℕ) → 0 < a → 0 < b → 0 < c → (i : ℕ) → get_elem? (a ∷ b ∷ c ∷ []) i ≢ some 0
not_zero_3 a b c h k l zero = ground arith
not_zero_3 a b c h k l (suc zero) = ground arith
not_zero_3 a b c h k l (suc (suc zero)) = ground arith
not_zero_3 a b c h k l (suc (suc (suc i))) = ground arith

not_zero_1 : (a : ℕ) → a ≢ 0 → (i : ℕ) → get_elem? (a ∷ []) i ≢ some 0
not_zero_1 a h zero = ground arith
not_zero_1 a h (suc i) = ground arith

escape_at_letter :
    (l c : ℕ) → letter_escape l ≡ some c → (q : List ℕ) → escape_at (l ∷ q) ≡ some (c ∷ [], q, 1, 0)
unfolding escape_at
escape_at_letter l c h q = rw (escape_at, h) refl

bar_Quoted : (b : Bool) → Quoted 124 ((quote_char b 124).0) ((quote_char b 124).1)
unfolding quote_char escape_at octal_escape
bar_Quoted true =
    escape 124 (124 ∷ []) (omega arith) (omega arith) (not_zero_1 124 (omega arith)) (λ q. refl)
bar_Quoted false = plain 124 (omega arith) (omega arith)

quote_char-Quoted : (b : Bool) (c : ℕ) → Quoted c ((quote_char b c).0) ((quote_char b c).1)
unfolding quote_char
quote_char-Quoted b c = elim (Bool-cases (c == 124)) [
  | inl bar ↦ let bar' : c ≡ 124 = ground arith in rw bar' (bar_Quoted b)
  | inr no_bar ↦ elim (Option-cases (control_letter c)) [
    | inr (l, e) ↦
        let (back, z) = letter_lem c l e in
        rw (quote_char, e)
          (escape c (l ∷ []) (omega arith) (omega arith) (not_zero_1 l z)
            (escape_at_letter l c back))
    | inl e ↦ elim (Bool-cases (leb 32 c)) [
      | inl shown ↦ rw (quote_char, e, no_bar, shown) (plain c (ground arith) (ground arith))
      | inr hidden ↦
          rw (quote_char, e, no_bar, hidden)
            (escape c ((48 + c / 64) ∷ (48 + c / 8 % 8) ∷ (48 + c % 8) ∷ []) (omega arith)
              (omega arith) (not_zero_3 _ _ _ (omega arith) (omega arith) (omega arith))
              (octal_digits c (ground arith)))
    ]
  ]
]

-- The loop over `n` characters at `q`, whatever the fuel.
abbrev Undoes : ℕ → List ℕ → List ℕ → ℕ → Type 0
Undoes n q cs less = (fuel : ℕ) → n ≤ fuel → unescape fuel n q ≡ some (cs, less)

-- A round of the loop over an escape and over another character.
unescape-escape :
    {n c : ℕ} {cs : List ℕ} {less : ℕ}
    → (e q : List ℕ) → 1 ≤ length e
    → escape_at (e ++ q) ≡ some (c ∷ [], q, length e, length e - 1)
    → Undoes n q cs less
    → Undoes (suc (length e + n)) (92 ∷ e ++ q) (c ∷ cs) (length e + less)
unfolding unescape
unescape-escape e q h k r zero le = absurd (omega arith)
unescape-escape {n = n} {less = less} e q h k r (suc fuel) le =
    let there : length e + n - length e ≡ n = omega arith in
    let count : 1 + (length e - 1) + less ≡ length e + less = omega arith in
    rw (k, there, r fuel (omega arith)) (rw count refl)

unescape-plain :
    {n c : ℕ} {cs : List ℕ} {less : ℕ}
    → (q : List ℕ) → c ≢ 92
    → Undoes n q cs less
    → Undoes (suc n) (c ∷ q) (c ∷ cs) less
unfolding unescape
unescape-plain q h r zero le = absurd (omega arith)
unescape-plain {c = c} {less = less} q h r (suc fuel) le =
    let other : (c == 92) ≡ false = ground arith in
    rw (other, r fuel (omega arith), zero-add less) refl

-- All that the loop writes for the characters `cs`.
record AllQuoted (cs out : List ℕ) (esc : Bool) : Type 0 where
  shorter : ℕ
  size : length out ≡ length cs + shorter
  bound : length out ≤ length cs * 4
  no_zero : (i : ℕ) → get_elem? out i ≢ some 0
  same : esc ≡ false → out ≡ cs
  back : (rest : List ℕ) → Undoes (length out) (out ++ rest) cs shorter

unescape_nothing : (fuel : ℕ) (p : List ℕ) → unescape fuel 0 p ≡ some ([], 0)
unfolding unescape
unescape_nothing zero p = refl
unescape_nothing (suc fuel) p = refl

no_zero_append :
    (e out : List ℕ)
    → ((i : ℕ) → get_elem? e i ≢ some 0)
    → ((i : ℕ) → get_elem? out i ≢ some 0)
    → (i : ℕ) → get_elem? (e ++ out) i ≢ some 0
no_zero_append [] out h k i = k i
no_zero_append (x ∷ e) out h k zero = h 0
no_zero_append (x ∷ e) out h k (suc i) = no_zero_append e out (λ j. h (suc j)) k i

no_zero_cons :
    (x : ℕ) (out : List ℕ)
    → x ≢ 0
    → ((i : ℕ) → get_elem? out i ≢ some 0)
    → (i : ℕ) → get_elem? (x ∷ out) i ≢ some 0
no_zero_cons x out h k zero = ground arith
no_zero_cons x out h k (suc i) = k i

more :
    {c : ℕ} {cs w out : List ℕ} {esc esc' : Bool}
    → Quoted c w esc
    → AllQuoted cs out esc'
    → AllQuoted (c ∷ cs) (w ++ out) (esc || esc')
more {cs = cs} {out = out} {esc' = esc'} (plain c h k) a = record {
  shorter = a.shorter;
  size = omega (arith, a.size);
  bound = omega (arith, a.bound);
  no_zero = no_zero_cons c out k a.no_zero;
  same = λ e. ap (λ x. c ∷ x) (a.same e);
  back = λ rest. unescape-plain (out ++ rest) h (a.back rest);
}
more {cs = cs} {out = out} {esc' = esc'} (escape c e lo hi k back) a = record {
  shorter = length e + a.shorter;
  size = omega (arith, length-append e out, a.size);
  bound = omega (arith, a.bound, length-append e out);
  no_zero = no_zero_cons 92 (e ++ out) (omega arith) (no_zero_append e out k a.no_zero);
  same = λ t. absurd (ground arith);
  back = λ rest.
      rw (append_assoc e out rest, length-append e out)
        (unescape-escape e (out ++ rest) lo (back (out ++ rest)) (a.back rest));
}

quote_all-AllQuoted :
    (b : Bool) (cs : List ℕ) → AllQuoted cs ((quote_all b cs).0) ((quote_all b cs).1)
unfolding quote_all
quote_all-AllQuoted b [] = record {
  shorter = 0;
  size = refl;
  bound = omega arith;
  no_zero = λ i. ground arith;
  same = λ _. refl;
  back = λ rest fuel h. unescape_nothing fuel rest;
}
quote_all-AllQuoted b (c ∷ cs) = more (quote_char-Quoted b c) (quote_all-AllQuoted b cs)

abbrev written : Str → Bool → Str
written s symbolp = record { chars = (quote_all symbolp s.chars).0; after = 0 }

create_string-written :
    (s : Str) (symbolp : Bool)
    → len s < 536870912
    → create_string_for_read s symbolp ≡ some (written s symbolp, (quote_all symbolp s.chars).1)
unfolding create_string_for_read
create_string-written s symbolp h =
    let a = quote_all-AllQuoted symbolp s.chars in
    let out = (quote_all symbolp s.chars).0 in
    let rounds : int_rounds (len s) ≡ some (len s) = ground arith in
    let fits : leb (length out + 1) (if ltb 200 (len s * 4 + 1) then len s * 4 + 1 else 200)
        ≡ true =
      ground (arith, a.bound) in
    rw
      (
        rounds,
        units-memory s,
        fits,
        string_to_bstring_round_trip (written s symbolp) refl a.no_zero,
      )
      refl

-- The buffer is large enough for every string shorter than 2 ^ 29 bytes: what it holds is returned
-- with the terminator, and has no 0. `esc` is false only where nothing had to be escaped.
pub create_string_for_read_lem :
    (s : Str) (symbolp : Bool)
    → len s < 536870912
    → (q : Str) × (esc : Bool) × (create_string_for_read s symbolp ≡ some (q, esc))
      × (q.after ≡ 0)
      × (len q ≤ len s * 4)
      × ((i : ℕ) → get_elem? q.chars i ≢ some 0)
      × (esc ≡ false → q.chars ≡ s.chars)
create_string_for_read_lem s symbolp h =
    let a = quote_all-AllQuoted symbolp s.chars in
    (
      written s symbolp,
      (quote_all symbolp s.chars).1,
      create_string-written s symbolp h,
      refl,
      a.bound,
      a.no_zero,
      a.same,
    )

-- What is escaped for reading, as a string or as a symbol, of a string of fewer than 2 ^ 29 bytes
-- reads back as the string it was, and the length that the reader computes while it goes is right.
pub escape_round_trip :
    (s : Str) (symbolp : Bool)
    → len s < 536870912
    → (q : Str) × (esc : Bool) × (create_string_for_read s symbolp ≡ some (q, esc))
      × (bgl_escape_C_string (memory q) 0 (len q) ≡ some (record { chars = s.chars; after = 0 }))
unfolding bgl_escape_C_string
escape_round_trip s symbolp h =
    let a = quote_all-AllQuoted symbolp s.chars in
    let out = (quote_all symbolp s.chars).0 in
    let whole : length out - 0 ≡ length out = omega arith in
    let rest : length out - a.shorter ≡ len s = omega (arith, a.size) in
    (
      written s symbolp,
      (quote_all symbolp s.chars).1,
      create_string-written s symbolp h,
      rw (whole, a.back (0 ∷ []) (length out) (omega arith), rest) (of_memory-append s.chars 0),
    )
