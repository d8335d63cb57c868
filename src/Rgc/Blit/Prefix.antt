-- ===== src/Rgc/Blit/Prefix.antt =====
-- A blit gives a prefix of the text that is to come, and the rest of it is still to come.
use bigloo.Prelude.{
  ℕ, suc, ◌+◌, ◌-◌, ◌≤◌, ◌<◌, ltb, leb, true, false, List, ◌++◌, take, if◌then◌else◌, ◌≡◌, refl,
  arith, ap, ◌∙◌, sym, inl, inr, take_all, Bool-cases,
}
use bigloo.Prelude.Int.{pos, ◌+ℤ◌}
use bigloo.Memory.{Str, len}
use bigloo.Rgc.Run.{Run, ok, ◌>>=◌}
use bigloo.Rgc.Port.{Port, Read, is_closed}
use bigloo.Rgc.Port.Laws.{stored, length-stored, stored_nothing}
use bigloo.Rgc.Port.Stream.{Stream, Progresses}
use bigloo.Rgc.Port.Valid.{IsValid, available}
use bigloo.Rgc.Blit.{from_buffer, bgl_rgc_blit_string, blit_loop}
use bigloo.Rgc.Blit.Laws.{from_buffer_lem}
use bigloo.Rgc.Blit.Loop.{blit_loop-Reads}
use bigloo.Rgc.Blit.Blitted.{
  avail, from_here, copy_available, Blits, length-available, from_here-Blitted, Took-Blitted,
}

module _ {S : Type 0} {read : S → ℕ → Read S} (stream : Stream read) where
  module _ (p : Port S) (s : Str) (o l : ℕ) (v : IsValid p) (room : o + l ≤ len s) where
    -- The port when the match has started.
    abbrev started_match : Port S
    started_match = record p { forward = p.matchstop; matchstart = p.matchstop }

    abbrev finish : ℕ × Port S × Str → Run (ℕ × Port S × Str)
    finish (o', p', s') = ok (
      o' - o,
      record p' {
        forward = 0;
        bufpos = 0;
        matchstart = 0;
        matchstop = 0;
        lastchar = 10;
        filepos = p'.filepos +ℤ pos (o' - o);
      },
      s',
    )

    collect :
        avail p ≤ l
        → (if ltb 0 (avail p) then from_buffer started_match s o (avail p) else ok s)
          ≡ ok (copy_available p s o)
    collect h =
        let copy : List ℕ → Run Str = λ xs. ok (record { chars = xs; after = s.after }) in
        elim (Bool-cases (ltb 0 (avail p))) [
          | inl some ↦ rw some (
              from_buffer_lem p s o (avail p) v (omega arith) (omega arith)
              ∙ ap (λ cs. copy (stored o cs s.chars))
                  (take_all (avail p) (available p)
                    (omega (arith, length-available stream p s o l v room))))
          | inr nothing ↦ rw nothing (
              ap copy (
                sym (stored_nothing o s.chars)
                ∙ ap (λ cs. stored o cs s.chars)
                    (take_all 0 (available p)
                      (ground (arith, length-available stream p s o l v room)))))
        ]

    module _ (io : ℕ) (on : is_closed p.kindof ≡ false) where
      pub blit_here :
          (size : ℕ)
          → (if p.eof then (if ltb (avail p) l then (avail p) else l) else l) ≡ size
          → size ≤ avail p
          → size ≤ l
          → bgl_rgc_blit_string read io p s o l
            ≡ ok (
              size,
              (from_here p size),
              record { chars = stored o (take size (available p)) s.chars; after = s.after },
            )
      unfolding bgl_rgc_blit_string
      blit_here size e h k =
          let fits : leb size (avail p) ≡ true = ground arith in
          rw (on, e, fits, from_buffer_lem p s o size v h (omega arith)) refl

      blit_away :
          p.eof ≡ false
          → avail p < l
          → bgl_rgc_blit_string read io p s o l ≡ (
              blit_loop read io
                (suc (l - avail p))
                started_match
                (copy_available p s o)
                (o + avail p)
                (l - avail p)
              >>= finish)
      unfolding bgl_rgc_blit_string
      blit_away e h =
          let more : leb l (avail p) ≡ false = ground arith in
          rw (on, e, more, collect (omega arith)) refl

      blit_away-Blits :
          0 < io
          → Progresses read
          → p.eof ≡ false
          → avail p < l
          → Blits stream (bgl_rgc_blit_string read io p s o l) p s o l
      blit_away-Blits some_io progress e h =
          let loop =
            blit_loop-Reads stream io some_io progress (suc (l - avail p)) started_match
              (copy_available p s o) (o + avail p) (l - avail p) (omega arith) (omega arith)
              (omega (
                arith,
                length-stored o (available p) s.chars
                    (omega (arith, length-available stream p s o l v room)),
                room,
              )) in
          elim loop [
            | inl (o', p', s', cs, run, t) ↦ inl (
              o' - o,
              record p' {
                forward = 0;
                bufpos = 0;
                matchstart = 0;
                matchstop = 0;
                lastchar = 10;
                filepos = p'.filepos +ℤ pos (o' - o);
              },
              s',
              available p ++ cs,
              blit_away e h ∙ ap (λ m. m >>= finish) run,
              Took-Blitted stream p s o l v room started_match refl refl refl h o' p' s' cs t,
            )
            | inr (source, n, reset, r, run) ↦
                inr (source, n, reset, r, blit_away e h ∙ ap (λ m. m >>= finish) run)
          ]

  -- On a valid open port whose source gives a byte or the end of the file for each request, a blit
  -- of `l` bytes to a place that the string has always ends: it returns, or fails as a read of
  -- the source fails, and accesses no memory outside the buffer and the string. It returns the
  -- number of bytes that it has copied, which are the first bytes of the text that is to come;
  -- that text goes on behind them, the rest of the string is as it was, the position in the file
  -- has moved by as much, and less than `l` bytes are copied only at the end of the file and from a
  -- datagram.
  pub blit_string-Blits :
      (io : ℕ) (p : Port S) (s : Str) (o l : ℕ)
      → 0 < io
      → Progresses read
      → IsValid p
      → is_closed p.kindof ≡ false
      → o + l ≤ len s
      → Blits stream (bgl_rgc_blit_string read io p s o l) p s o l
  blit_string-Blits io p s o l some_io progress v on room =
      let here = from_here-Blitted stream p s o l v room in
      let copy : ℕ → Str =
        λ n. record { chars = stored o (take n (available p)) s.chars; after = s.after } in
      let n = (avail p) in
      elim (Bool-cases p.eof) [
        | inl end ↦ elim (Bool-cases (ltb n l)) [
          | inl less ↦ inl (
            n,
            (from_here p n),
            copy n,
            take n (available p),
            blit_here p s o l v room io on n (rw (end, less) refl) (omega arith) (ground arith),
            here n (omega arith) (ground arith) (λ h. end),
          )
          | inr enough ↦ inl (
            l,
            (from_here p l),
            copy l,
            take l (available p),
            blit_here p s o l v room io on l (rw (end, enough) refl) (ground arith) (omega arith),
            here l (ground arith) (omega arith) (λ h. end),
          )
        ]
        | inr more ↦ elim (Bool-cases (ltb n l)) [
          | inl less ↦ blit_away-Blits p s o l v room io on some_io progress more (ground arith)
          | inr enough ↦ inl (
            l,
            (from_here p l),
            copy l,
            take l (available p),
            blit_here p s o l v room io on l (rw more refl) (ground arith) (omega arith),
            here l (ground arith) (omega arith) (λ h. absurd (omega arith)),
          )
        ]
      ]
