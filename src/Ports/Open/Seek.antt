-- ===== src/Ports/Open/Seek.antt =====
-- Where reading goes on after a seek.
use bigloo.Prelude.{
  ℕ, ◌+◌, ◌-◌, ◌<◌, ◌==◌, ltb, true, false, take, drop, ◌≡◌, refl, arith, ap, ◌∙◌, ◌⊎◌, inl, inr,
  Bool-cases, append-nil, take_all,
}
use bigloo.Prelude.Int.{pos}
use bigloo.Memory.{len}
use bigloo.Rgc.Run.{port_error, ok, fails}
use bigloo.Rgc.Port.{Port, is_closed}
use bigloo.Rgc.Port.Valid.{IsValid, pending}
use bigloo.Rgc.Fill.{rgc_fill_buffer}
use bigloo.Ports.Source.{Mmap, bgl_input_mmap_read}
use bigloo.Ports.Source.Laws.{eof_stream, mmap_stream, mmap_rest}
use bigloo.Ports.Open.{StringSource, bgl_input_string_seek, bgl_input_mmap_seek}

-- On a valid string port that was opened at the start of its buffer, all of which is its text, a seek
-- to a place in the text makes the text behind that place what is to come. A seek to the end of
-- the text is accepted, but what is to come stays what it was. A seek beyond it fails.
pub string_seek-pending :
    (p : Port StringSource) (n : ℕ)
    → IsValid p
    → p.source.offset ≡ 0
    → p.bufpos ≡ len p.buf
    → ((n < len p.buf)
        × (p' : Port StringSource) × (bgl_input_string_seek p (pos n) ≡ ok p')
        × IsValid p'
        × (pending eof_stream p' ≡ drop n p.buf.chars))
      ⊎ (((n ≡ len p.buf)
            × (p' : Port StringSource) × (bgl_input_string_seek p (pos n) ≡ ok p')
            × IsValid p'
            × (pending eof_stream p' ≡ pending eof_stream p))
          ⊎ ((len p.buf < n) × (bgl_input_string_seek p (pos n) ≡ fails port_error)))
unfolding bgl_input_string_seek eof_stream
string_seek-pending p n v first full = elim (Bool-cases (ltb n (len p.buf))) [
  | inl inside ↦
      let to = n + p.source.offset in
      let at : to ≡ n = omega (arith, first) in
      inl (
        ground arith,
        record p { filepos = pos to; matchstart = to; matchstop = to; forward = to },
        rw inside refl,
        ground (arith, v, at, full),
        append-nil (drop to (take p.bufpos p.buf.chars))
            ∙ ap (λ k. drop k (take p.bufpos p.buf.chars)) at
            ∙ ap (drop n) (take_all p.bufpos p.buf.chars (omega (arith, full))),
      )
  | inr outside ↦ elim (Bool-cases (n == len p.buf)) [
    | inl last ↦ inr (
        inl
          (ground arith, record p { eof = true }, rw (outside, last) refl, omega (arith, v), refl))
    | inr beyond ↦ inr (inr (ground arith, rw (outside, beyond) refl))
  ]
]

-- On a port of a file in memory that has seen its end, a seek to a place of the file succeeds and
-- makes the bytes from that place to its end, at least one when the file is within the map, what
-- is to come; but a refill of the buffer still gives nothing, so that they are never read.
pub mmap_seek-fill :
    (held : ℕ → ℕ) (p : Port Mmap) (n : ℕ)
    → p.eof ≡ true
    → is_closed p.kindof ≡ false
    → n < p.source.end - p.source.start
    → (p' : Port Mmap) × (bgl_input_mmap_seek p (pos n) ≡ ok p')
      × (pending mmap_stream p'
          ≡ take (p.source.end - (p.source.start + n)) (drop (p.source.start + n) p.source.map))
      × (rgc_fill_buffer bgl_input_mmap_read held p' ≡ ok (false, p'))
unfolding bgl_input_mmap_seek mmap_stream mmap_rest rgc_fill_buffer
mmap_seek-fill held p n end on h =
    let inside : ltb n (p.source.end - p.source.start) ≡ true = ground arith in
    (
      record p {
        filepos = pos (p.source.start + n);
        source = record (p.source) { offset = p.source.start + n };
        matchstart = 0;
        matchstop = 0;
        forward = 0;
        bufpos = 0;
      },
      rw inside refl,
      refl,
      rw (end, on) refl,
    )
