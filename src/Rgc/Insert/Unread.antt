-- ===== src/Rgc/Insert/Unread.antt =====
-- Where the functions that put characters back do not do so: the first byte of the buffer, and
-- a buffer without bytes.
use bigloo.Prelude.{
  ℕ, zero, suc, ◌+◌, ◌-◌, ◌%◌, ◌≤◌, ◌<◌, ltb, leb, true, false, some, List, [], ◌∷◌, ◌++◌, take,
  drop, get_elem?, ◌≡◌, refl, arith, ap, ◌∙◌, sym, length-take, drop-append,
}
use bigloo.Prelude.Int.{pos, ◌-ℤ◌}
use bigloo.Memory.{len}
use bigloo.Rgc.Run.{ok, unfinished}
use bigloo.Rgc.Port.{Port, Read}
use bigloo.Rgc.Port.Laws.{stored, length-stored, drop-stored, store-chars}
use bigloo.Rgc.Port.Stream.{Stream}
use bigloo.Rgc.Port.Valid.{IsValid, pending}
use bigloo.Rgc.Fill.Arrange.{rgc_double_buffer_lem}
use bigloo.Rgc.Insert.{rgc_reserve_space, rgc_buffer_unget_char}

-- `rgc_reserve_space` does not end on a port whose buffer has no bytes, as that of a port on the
-- empty string: twice nothing is nothing. This holds for every fuel, whenever a byte is asked for
-- and none has been matched.
pub reserve_space_empty :
    {S : Type 0} (held : ℕ → ℕ) (fuel : ℕ) (p : Port S) (amount : ℕ)
    → len p.buf ≡ 0
    → p.matchstop ≡ 0
    → 0 < amount
    → rgc_reserve_space held fuel p amount ≡ unfinished
unfolding rgc_reserve_space
reserve_space_empty held zero p amount e s h = refl
reserve_space_empty held (suc fuel) p amount e s h =
    let (b, run, size, same) = rgc_double_buffer_lem held p in
    let no : leb amount p.matchstop ≡ false = ground arith in
    let full : leb amount (p.matchstop + (len p.buf - p.bufpos)) ≡ false = ground arith in
    rw (no, full, run)
      (reserve_space_empty held fuel (record p { buf = b }) amount (omega (arith, size)) s h)

take-suc-drop :
    (m b : ℕ) (xs : List ℕ) {d : ℕ}
    → suc m ≤ b
    → get_elem? xs m ≡ some d
    → drop m (take b xs) ≡ d ∷ drop (suc m) (take b xs)
take-suc-drop zero zero xs h e = absurd (omega arith)
take-suc-drop (suc m) zero xs h e = absurd (omega arith)
take-suc-drop zero (suc b) [] h e = absurd (cc)
take-suc-drop zero (suc b) (x ∷ xs) h e = cc
take-suc-drop (suc m) (suc b) [] h e = absurd (cc)
take-suc-drop (suc m) (suc b) (x ∷ xs) h e = take-suc-drop m b xs (omega arith) e

module _ {S : Type 0} {read : S → ℕ → Read S} (stream : Stream read) where
  -- On a valid port with a match that is not empty, `rgc_buffer_unget_char` returns the character it
  -- is given and a valid port whose text to come is the last byte of the match, whatever the
  -- character, followed by the text that was to come.
  pub unget_char-pending :
      (p : Port S) (c d : ℕ)
      → IsValid p
      → p.matchstart < p.matchstop
      → get_elem? p.buf.chars (p.matchstop - 1) ≡ some d
      → p.matchstop ≤ p.forward
      → (p' : Port S) × (rgc_buffer_unget_char p c ≡ ok (c, p'))
        × IsValid p'
        × (pending stream p' ≡ d ∷ pending stream p)
  unfolding rgc_buffer_unget_char
  unget_char-pending p c d v m e f =
      let some_match : ltb 0 p.matchstop ≡ true = ground arith in
      let next : suc (p.matchstop - 1) ≡ p.matchstop = omega arith in
      (
        record p { filepos = p.filepos -ℤ pos 1; matchstop = p.matchstop - 1 },
        rw some_match refl,
        omega arith,
        ap (λ xs. xs ++ stream.rest p.source)
            (take-suc-drop (p.matchstop - 1) p.bufpos p.buf.chars (omega arith) e
              ∙ ap (λ k. d ∷ drop k (take p.bufpos p.buf.chars)) next),
      )

  -- On a valid port whose match ends at the start of the buffer, `rgc_buffer_unget_char` writes over
  -- the first byte that is not yet read: the text that is to come is the byte of the character,
  -- followed by what was to come without its first byte.
  pub unget_char_overwrites :
      (p : Port S) (c : ℕ)
      → IsValid p
      → p.matchstop ≡ 0
      → 0 < p.bufpos
      → (p' : Port S) × (rgc_buffer_unget_char p c ≡ ok (c, p'))
        × IsValid p'
        × (pending stream p' ≡ c % 256 ∷ drop 1 (pending stream p))
  unfolding rgc_buffer_unget_char
  unget_char_overwrites p c v m h =
      let cs = c % 256 ∷ [] in
      let none_match : ltb 0 p.matchstop ≡ false = ground arith in
      let whole = length-stored 0 cs p.buf.chars (omega (arith, v.within)) in
      let xs = take p.bufpos p.buf.chars in
      (
        record p {
          filepos = p.filepos -ℤ pos 1;
          buf = record { chars = stored 0 cs p.buf.chars; after = p.buf.after };
        },
        rw (none_match, store-chars p.buf 0 cs (omega (arith, v.within))) refl,
        omega (arith, whole, v),
        ap (λ k. drop k (take p.bufpos (stored 0 cs p.buf.chars)) ++ stream.rest p.source) m
            ∙ ap (λ ys. ys ++ stream.rest p.source)
                (drop-stored 0 p.bufpos cs p.buf.chars (omega arith) v.within)
            ∙ ap (λ ys. c % 256 ∷ ys)
                (sym (
                  drop-append 1 xs (stream.rest p.source)
                    (omega (arith, length-take p.bufpos p.buf.chars v.within))))
            ∙ ap (λ k. c % 256 ∷ drop 1 (drop k xs ++ stream.rest p.source)) (sym m),
      )
