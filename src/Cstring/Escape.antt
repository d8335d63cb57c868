-- ===== src/Cstring/Escape.antt =====
-- runtime/Clib/cstring.c: `create_string_for_read`, which escapes the characters of a string,
-- and `bgl_escape_C_string` and `bgl_escape_scheme_string`, which undo escapes. `isdigit` and
-- `isxdigit` are those of the C locale. The macro `__STDC___` that guards the cases `a` and
-- `?` is no macro of a compiler, so these cases are absent.
pub mod Laws
use bigloo.Prelude.{
  ℕ, zero, suc, ◌+◌, ◌-◌, ◌*◌, ◌/◌, ◌%◌, ◌^◌, ◌==◌, ltb, leb, ◌&&◌, ◌||◌, not, Bool, true, false,
  Option, none, some, List, [], ◌∷◌, ◌++◌, ◌>>=◌, if◌then◌else◌, length,
}
use bigloo.Memory.{Str, len, memory, advance, units, of_memory}
use bigloo.Cstring.Build.{string_to_bstring}
use bigloo.Cunicode.Utf8.{ucs2_string_to_utf8_string}

-- The characters of C: `\b`, `\t`, `\n`, `\v`, `\f`, `\r`.
abbrev pub control_letter : ℕ → Option ℕ
control_letter c =
    if c == 10
    then some b'n'
    else if c == 9
    then some b't'
    else if c == 8
    then some b'b'
    else if c == 13
    then some b'r'
    else if c == 12
    then some b'f'
    else if c == 11
    then some b'v'
    else if c == b'"'
    then some b'"'
    else if c == 92
    then some 92
    else none

-- What one round writes, and whether it sets `esc`; `\%03o` is three octal digits.
pub quote_char : Bool → ℕ → List ℕ × Bool
quote_char symbolp c = elim (control_letter c) [
  | some l ↦ (92 ∷ l ∷ [], true)
  | none ↦
      if c == b'|'
      then (if symbolp then (92 ∷ b'|' ∷ [], true) else (b'|' ∷ [], false))
      else if leb b' ' c
      then (c ∷ [], false)
      else (92 ∷ (b'0' + c / 64) ∷ (b'0' + c / 8 % 8) ∷ (b'0' + c % 8) ∷ [], true)
]

pub quote_all : Bool → List ℕ → List ℕ × Bool
quote_all symbolp [] = ([], false)
quote_all symbolp (c ∷ cs) =
    let (out, esc) = quote_char symbolp c in
    let (more, esc') = quote_all symbolp cs in (out ++ more, esc || esc')

-- `BUFFER_SIZE`, the bytes on the stack that serve a short string.
abbrev pub buffer_size : ℕ
buffer_size = 200

-- `int len`: how many rounds the loop makes for a string of `n` bytes, whose length is taken modulo
-- `2 ^ 32` and is negative from `2 ^ 31` on. `len * 4 + 1` overflows from `2 ^ 29` on, and below
-- `- 2 ^ 29`.
abbrev pub int_rounds : ℕ → Option ℕ
int_rounds n =
    if ltb (n % 4294967296) 536870912
    then some (n % 4294967296)
    else if leb 3758096384 (n % 4294967296)
    then some 0
    else none

-- The second value is `esc`. To write more than the buffer holds is a run that goes wrong.
unfoldable pub create_string_for_read : Str → Bool → Option (Str × Bool)
create_string_for_read s symbolp = do
  n ← int_rounds (len s)
  cs ← units n (memory s)
  let (out, esc) = quote_all symbolp cs
  let size = if ltb buffer_size (n * 4 + 1) then n * 4 + 1 else buffer_size
  if leb (length out + 1) size
      then (do r ← string_to_bstring (some (out ++ 0 ∷ [])); some (r, esc))
      else none

unfoldable pub string_for_read : Str → Option (Str × Bool)
string_for_read s = create_string_for_read s false

unfoldable pub symbol_for_read : Str → Option (Str × Bool)
symbol_for_read s = create_string_for_read s true

abbrev pub is_digit : ℕ → Bool
is_digit c = leb b'0' c && leb c b'9'

abbrev pub is_xdigit : ℕ → Bool
is_xdigit c = is_digit c || (leb b'a' c && leb c b'f') || (leb b'A' c && leb c b'F')

-- `XDIGIT_TO_BYTE`
abbrev pub xdigit_to_byte : ℕ → ℕ
xdigit_to_byte c = if is_digit c then c - b'0' else 10 + (if leb b'a' c then c - b'a' else c - b'A')

-- One escape, its pointer behind the backslash: what is written, the pointer behind it, how many
-- characters lie between, and by how much `len` is lowered for them.
abbrev pub Escaped : Type 0
Escaped = Option (List ℕ × List ℕ × ℕ × ℕ)

-- The characters behind the one that names the escape; a read past the object goes wrong.
pub hex_escape : ℕ → List ℕ → Escaped
hex_escape c [] = none
hex_escape c (s1 ∷ p) = if not (is_xdigit s1) then some (c ∷ [], s1 ∷ p, 1, 0) else elim p [
  | [] ↦ none
  | s2 ∷ q ↦
      if not (is_xdigit s2)
      then some (c ∷ [], s1 ∷ s2 ∷ q, 1, 0)
      else some ((xdigit_to_byte s1 * 16 + xdigit_to_byte s2) % 256 ∷ [], q, 3, 2)
]

-- How many of the first `n` characters are hexadecimal digits, up to the first that is not.
pub hex_run : ℕ → List ℕ → Option ℕ
hex_run zero p = some 0
hex_run (suc n) [] = none
hex_run (suc n) (s ∷ p) =
    let rest = hex_run n p >>= (λ k. some (suc k)) in if is_xdigit s then rest else some 0

pub ucs2_escape : ℕ → List ℕ → Escaped
ucs2_escape c p = do
  k ← hex_run 4 p
  ds ← units k p
  q ← advance k p
  elim ds [
    | n1 ∷ n2 ∷ n3 ∷ n4 ∷ [] ↦ do
      let u =
          (xdigit_to_byte n1 * 2 ^ 12
            + xdigit_to_byte n2 * 2 ^ 8
            + xdigit_to_byte n3 * 2 ^ 4
            + xdigit_to_byte n4)
          % 2 ^ 16
      utf8 ← ucs2_string_to_utf8_string (record { chars = u ∷ []; after = 0 })
      some (utf8.chars, q, 5, 5 - len utf8)
    | _ ↦ some (c ∷ [], p, 1, 0)
  ]

pub octal_escape : ℕ → List ℕ → Escaped
octal_escape c p = if not (is_digit c) then some (c ∷ [], p, 1, 0) else elim p [
  | [] ↦ none
  | s1 ∷ q ↦ if not (is_digit s1) then some (c ∷ [], s1 ∷ q, 1, 0) else elim q [
    | [] ↦ none
    | s2 ∷ r ↦
        if not (is_digit s2)
        then some (c ∷ [], s1 ∷ s2 ∷ r, 1, 0)
        else some (((c - b'0') * 64 + (s1 - b'0') * 8 + (s2 - b'0')) % 256 ∷ [], r, 3, 2)
  ]
]

-- The cases of one character.
abbrev pub letter_escape : ℕ → Option ℕ
letter_escape c =
    if c == 0
    then some 92
    else if c == b'n'
    then some 10
    else if c == b't'
    then some 9
    else if c == b'b'
    then some 8
    else if c == b'r'
    then some 13
    else if c == b'f'
    then some 12
    else if c == b'v'
    then some 11
    else if c == 92
    then some 92
    else if c == 39
    then some 39
    else if c == b'"'
    then some b'"'
    else none

pub escape_at : List ℕ → Escaped
escape_at [] = none
escape_at (c ∷ p) = elim (letter_escape c) [
  | some a ↦ some (a ∷ [], p, 1, 0)
  | none ↦
      if c == b'x' || c == b'X'
      then hex_escape c p
      else if c == b'u' || c == b'U'
      then ucs2_escape c p
      else octal_escape c p
]

abbrev pub emit : List ℕ → ℕ → Option (List ℕ × ℕ) → Option (List ℕ × ℕ)
emit cs d rest = do (out, less) ← rest; some (cs ++ out, d + less)

-- `while (src < stop)` with `n` the distance to `stop`, 0 where the pointer is past it: what is
-- written, and by how much `len` is lowered. A round moves the pointer, so that distance is fuel.
pub unescape : ℕ → ℕ → List ℕ → Option (List ℕ × ℕ)
unescape fuel zero p = some ([], 0)
unescape zero (suc n) p = none
unescape (suc fuel) (suc n) [] = none
unescape (suc fuel) (suc n) (c ∷ p) =
    let plain = unescape fuel n p in
    let escaped =
      escape_at p >>= (λ (cs, q, used, d). emit cs (1 + d) (unescape fuel (n - used) q)) in
    if c == 92 then escaped else emit (c ∷ []) 0 plain

-- The header gets `len`, so what is written must be so long.
unfoldable pub bgl_escape_C_string : List ℕ → ℕ → ℕ → Option Str
bgl_escape_C_string src start end = do
  p ← advance start src
  (out, less) ← unescape (end - start) (end - start) p
  of_memory (end - start - less) (out ++ 0 ∷ [])

-- The loop of `bgl_escape_scheme_string`.
pub scheme_unescape : ℕ → ℕ → List ℕ → Option (List ℕ × ℕ)
scheme_unescape fuel zero p = some ([], 0)
scheme_unescape zero (suc n) p = none
scheme_unescape (suc fuel) (suc n) [] = none
scheme_unescape (suc fuel) (suc n) (c ∷ p) =
    let plain = scheme_unescape fuel n p in
    let escaped : Option (List ℕ × ℕ) = elim p [
      | [] ↦ none
      | d ∷ q ↦ emit ((if d == b'n' then 10 else d) ∷ []) 1 (scheme_unescape fuel (n - 1) q)
    ] in
    if c == 92 then escaped else emit (c ∷ []) 0 plain

unfoldable pub bgl_escape_scheme_string : List ℕ → ℕ → ℕ → Option Str
bgl_escape_scheme_string src start end = do
  p ← advance start src
  (out, less) ← scheme_unescape (end - start) (end - start) p
  of_memory (end - start - less) (out ++ 0 ∷ [])
