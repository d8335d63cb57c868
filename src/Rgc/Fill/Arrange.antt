-- ===== src/Rgc/Fill/Arrange.antt =====
-- `rgc_shift_buffer` and `rgc_double_buffer` keep the bytes from the start of the match on.
use bigloo.Prelude.{
  ℕ, ◌+◌, ◌-◌, ◌*◌, ◌≤◌, ◌<◌, [], ◌∷◌, length, take, drop, ◌≡◌, refl, arith, ap, ◌∙◌, sym,
  length-take, length-drop, take-append, take-take, drop-take, get_elem?-some,
}
use bigloo.Memory.{Str, len, memory}
use bigloo.Memory.Laws.{length-memory, units-memory}
use bigloo.Cstring.Equal.Laws.{take-drop-append}
use bigloo.Rgc.Run.{ok}
use bigloo.Rgc.Port.{Port, fresh_units}
use bigloo.Rgc.Port.Laws.{length-fresh_units, stored, length-stored, store-chars, move-chars}
use bigloo.Rgc.Port.Valid.{IsValid, window}
use bigloo.Rgc.Fill.{rgc_double_buffer, rgc_shift_buffer}

module _ {S : Type 0} where
  -- The buffer was arranged anew: no byte from the start of the match on has changed.
  pub record Kept (p p' : Port S) : Type 0 where
    pub valid : IsValid p'
    pub same : window p' ≡ window p
    pub token : p'.matchstop - p'.matchstart ≡ p.matchstop - p.matchstart
    pub looked : p'.forward - p'.matchstart ≡ p.forward - p.matchstart
    pub source : p'.source ≡ p.source
    pub eof : p'.eof ≡ p.eof
    pub barrier : p'.fillbarrier ≡ p.fillbarrier

  pub rgc_shift_buffer-Kept :
      (p : Port S)
      → IsValid p
      → 0 < p.matchstart
      → (p' : Port S) × (rgc_shift_buffer p ≡ ok p') × Kept p p' × (len p'.buf ≡ len p.buf)
  unfolding rgc_shift_buffer
  rgc_shift_buffer-Kept p v h =
      let n = p.bufpos - p.matchstart + 1 in
      let cs = take n (drop p.matchstart (memory p.buf)) in
      let size : length cs ≡ n =
        length-take n (drop p.matchstart (memory p.buf))
          (omega (arith, length-drop p.matchstart (memory p.buf), length-memory p.buf)) in
      let (last, e) =
        get_elem?-some (memory p.buf) (p.matchstart - 1) (omega (arith, length-memory p.buf)) in
      let kept : take (p.bufpos - p.matchstart) (stored 0 cs p.buf.chars) ≡ window p =
        take-append (p.bufpos - p.matchstart) cs (drop (0 + length cs) p.buf.chars)
          (omega (arith, size))
        ∙ take-take (p.bufpos - p.matchstart) n (drop p.matchstart (memory p.buf)) (omega arith)
        ∙ take-drop-append (p.bufpos - p.matchstart) p.matchstart p.buf.chars (p.buf.after ∷ [])
            (omega arith)
        ∙ sym (drop-take p.matchstart p.bufpos p.buf.chars) in
      let whole = length-stored 0 cs p.buf.chars (omega (arith, size)) in
      (
        record p {
          lastchar = last;
          buf = record { chars = stored 0 cs p.buf.chars; after = p.buf.after };
          bufpos = p.bufpos - p.matchstart;
          matchstop = p.matchstop - p.matchstart;
          forward = p.forward - p.matchstart;
          matchstart = 0;
        },
        rw (e, move-chars p.buf 0 p.matchstart n (omega arith) (omega arith)) refl,
        record {
          valid = omega (arith, whole);
          same = kept;
          token = omega arith;
          looked = omega arith;
          source = refl;
          eof = refl;
          barrier = refl;
        },
        whole,
      )

  -- The buffer is twice as large and begins with the old one.
  pub rgc_double_buffer_lem :
      (held : ℕ → ℕ) (p : Port S)
      → (b : Str) × (rgc_double_buffer held p ≡ ok (record p { buf = b }))
        × (len b ≡ len p.buf * 2)
        × ((n : ℕ) → n ≤ len p.buf → take n b.chars ≡ take n p.buf.chars)
  unfolding rgc_double_buffer
  rgc_double_buffer_lem held p =
      let fresh = fresh_units held (len p.buf * 2) in
      let size : length fresh ≡ len p.buf * 2 = length-fresh_units held (len p.buf * 2) in
      (
        record { chars = stored 0 p.buf.chars fresh; after = 0 },
        rw
            (
              units-memory p.buf,
              store-chars (record { chars = fresh; after = 0 }) 0 p.buf.chars (omega (arith, size)),
            )
            refl,
        length-stored 0 p.buf.chars fresh (omega (arith, size)) ∙ size,
        λ n h. take-append n p.buf.chars (drop (0 + len p.buf) fresh) h,
      )

  pub rgc_double_buffer-Kept :
      (held : ℕ → ℕ) (p : Port S)
      → IsValid p
      → (p' : Port S) × (rgc_double_buffer held p ≡ ok p')
        × Kept p p'
        × (len p'.buf ≡ len p.buf * 2)
  rgc_double_buffer-Kept held p v =
      let (b, run, size, same) = rgc_double_buffer_lem held p in
      (
        record p { buf = b },
        run,
        record {
          valid = omega (arith, size);
          same = ap (drop p.matchstart) (same p.bufpos v.within);
          token = refl;
          looked = refl;
          source = refl;
          eof = refl;
          barrier = refl;
        },
        size,
      )
