-- ===== src/Rgc/Position/Lines.antt =====
-- The start and the end of a line, whatever the buffer does.
use bigloo.Prelude.{
  ℕ, suc, ◌+◌, ◌-◌, ◌<◌, ◌==◌, ltb, Bool, true, false, some, List, [], ◌∷◌, ◌++◌, length, take,
  drop, get_elem?, ◌≡◌, refl, arith, ap, ◌∙◌, sym, ◌⊎◌, inl, inr, get_elem?-some,
  get_elem?-append_left, get_elem?-append_right, get_elem?-take, get_elem?-drop, length-take,
  length-drop, length-append,
}
use bigloo.Memory.{memory}
use bigloo.Memory.Laws.{length-memory}
use bigloo.Rgc.Run.{ok, fails}
use bigloo.Rgc.Port.{Port, Read, failed, is_closed}
use bigloo.Rgc.Port.Laws.{stored, move-chars}
use bigloo.Rgc.Port.Valid.{IsValid, window}
use bigloo.Rgc.Port.Stream.{Stream}
use bigloo.Rgc.Fill.{error_of, rgc_shift_buffer}
use bigloo.Rgc.Fill.Laws.{rgc_fill_buffer-Fills}
use bigloo.Rgc.Position.{rgc_buffer_bol_p, rgc_buffer_eol_p}

-- The shift of the buffer of a valid port, to the start of its match, does not change whether the
-- match stands at the start of a line: the byte before it goes to `lastchar`.
pub bol_p-shift_buffer :
    {S : Type 0} (p : Port S)
    → IsValid p
    → 0 < p.matchstart
    → (q : Port S) × (rgc_shift_buffer p ≡ ok q) × (rgc_buffer_bol_p q ≡ rgc_buffer_bol_p p)
unfolding rgc_shift_buffer rgc_buffer_bol_p
bol_p-shift_buffer p v h =
    let (c, last) =
      get_elem?-some (memory p.buf) (p.matchstart - 1) (omega (arith, v, length-memory p.buf)) in
    let behind : ltb 0 p.matchstart ≡ true = ground arith in
    let n = p.bufpos - p.matchstart + 1 in
    let cs = take n (drop p.matchstart (memory p.buf)) in
    (
      record p {
        lastchar = c;
        buf = record { chars = stored 0 cs p.buf.chars; after = p.buf.after };
        bufpos = p.bufpos - p.matchstart;
        matchstop = p.matchstop - p.matchstart;
        forward = p.forward - p.matchstart;
        matchstart = 0;
      },
      rw (last, move-chars p.buf 0 p.matchstart n (omega (arith, v)) (omega (arith, v))) refl,
      rw (behind, last) refl,
    )

-- Whether a text starts with the end of a line.
abbrev pub ends_line : List ℕ → Bool
ends_line [] = false
ends_line (c ∷ cs) = c == 10

module _ {S : Type 0} (p : Port S) (v : IsValid p) where
  length-window : length (window p) ≡ p.bufpos - p.matchstart
  length-window = omega (
    arith,
    v,
    length-drop p.matchstart (take p.bufpos p.buf.chars),
    length-take p.bufpos p.buf.chars v.within,
  )

  -- The byte at the read position, behind the first bytes of the window.
  byte_ahead :
      (xs : List ℕ) (c : ℕ) (cs : List ℕ)
      → window p ≡ xs ++ c ∷ cs
      → p.forward - p.matchstart ≡ length xs
      → (get_elem? (memory p.buf) p.forward ≡ some c) × ((p.forward == p.bufpos) ≡ false)
  byte_ahead xs c cs w f =
      let size : length xs + suc (length cs) ≡ p.bufpos - p.matchstart =
        omega (arith, length-window, ap length w, length-append xs (c ∷ cs)) in
      let i = p.forward - p.matchstart in
      (
        get_elem?-append_left p.buf.chars (p.buf.after ∷ []) p.forward (omega (arith, v))
            ∙ sym (get_elem?-take p.bufpos p.buf.chars p.forward (omega (arith, v)))
            ∙ sym (
                get_elem?-drop p.matchstart (take p.bufpos p.buf.chars) i p.forward
                  (omega (arith, v)))
            ∙ ap (λ ys. get_elem? ys i) w
            ∙ get_elem?-append_right xs (c ∷ cs) 0 i (omega arith),
        ground (arith, v),
      )

module _ {S : Type 0} {read : S → ℕ → Read S} (stream : Stream read) (held : ℕ → ℕ) where
  -- On a valid open port whose buffer is read to its end, `rgc_buffer_eol_p` ends after at most two
  -- rounds: it fails as the read of the source fails, or reads some text `more`, of which nothing is
  -- lost, and answers whether that text starts with the end of a line; no text is no end of a line.
  pub eol_p-ends_line :
      (p : Port S)
      → IsValid p
      → is_closed p.kindof ≡ false
      → ((p' : Port S) × (more : List ℕ) × (rgc_buffer_eol_p read held 2 p p.bufpos p.bufpos
            ≡ ok (ends_line more, p'))
          × IsValid p'
          × (window p' ≡ window p ++ more)
          × (stream.rest p.source ≡ more ++ stream.rest p'.source))
        ⊎ ((n : ℕ) × (reset : Bool) × (read p.source n ≡ failed reset)
            × (rgc_buffer_eol_p read held 2 p p.bufpos p.bufpos ≡ fails (error_of reset)))
  unfolding rgc_buffer_eol_p
  eol_p-ends_line p v on =
      let same : (p.bufpos == p.bufpos) ≡ true = ground arith in
      elim (rgc_fill_buffer-Fills stream held p v on) [
        | inr (n, reset, e, run) ↦ inr (n, reset, e, rw (same, run) refl)
        | inl (b, p', [], run, f, text) ↦
            inl (p', [], rw (same, run, f.answer) refl, f.valid, f.longer, text)
        | inl (b, p', c ∷ cs, run, f, text) ↦
            let (byte, far) =
              byte_ahead p' f.valid (window p) c cs f.longer (f.looked ∙ sym (length-window p v)) in
            inl (p', c ∷ cs, rw (same, run, f.answer, far, byte) refl, f.valid, f.longer, text)
      ]
