-- ===== src/Rgc/Blit.antt =====
-- runtime/Clib/crgc.c: `bgl_rgc_blit_string`, which copies what is to be read to a string. The size that is
-- asked for is a natural number, and the place in the string is within it. On ports whose source
-- gives a byte or the end of the file for each request, the fuel is a round of the loop for each byte and one to end with.
pub mod Laws
pub mod Loop
pub mod Blitted
pub mod Prefix
use bigloo.Prelude.{
  ℕ, zero, suc, ◌+◌, ◌-◌, ltb, leb, ◌&&◌, not, Bool, true, false, List, length, drop, if◌then◌else◌,
}
use bigloo.Prelude.Int.{pos, ◌+ℤ◌}
use bigloo.Memory.{Str, memory, advance, units}
use bigloo.Rgc.Run.{closed_error, Run, ok, fails, unfinished, checked, ◌>>=◌}
use bigloo.Rgc.Port.{Port, Read, is_closed, is_datagram, store}
use bigloo.Rgc.Fill.{sysread}

module _ {S : Type 0} where
  -- The bytes from the start of the match on, copied to the string.
  abbrev pub from_buffer : Port S → Str → ℕ → ℕ → Run Str
  from_buffer p s o n = do
    m ← checked (advance p.matchstart (memory p.buf))
    cs ← checked (units n m)
    checked (store o cs s)

module _ {S : Type 0} (read : S → ℕ → Read S) (default_io_bufsiz : ℕ) where
  -- The label `_loop`: what is left of the source goes straight to the string.
  unfoldable pub blit_loop : ℕ → Port S → Str → ℕ → ℕ → Run (ℕ × Port S × Str)
  blit_loop zero p s o l = unfinished
  blit_loop (suc fuel) p s o l = if p.eof then ok (o, p, s) else (do
    (cs, e, source) ← sysread read p (if ltb l default_io_bufsiz then l else default_io_bufsiz)
    s' ← checked (store o cs s)
    let p' : Port S = record p { eof = if e then true else p.eof; source = source }
    let rest = blit_loop fuel p' s' (o + length cs) (l - length cs)
    let again = ltb 0 (l - length cs) && not (is_datagram p.kindof)
    if again then rest else ok (o + length cs, p', s'))

  unfoldable pub bgl_rgc_blit_string : Port S → Str → ℕ → ℕ → Run (ℕ × Port S × Str)
  bgl_rgc_blit_string port s o l =
      let avail = port.bufpos - port.matchstop in
      let p : Port S = record port { forward = port.matchstop; matchstart = port.matchstop } in
      let size = if p.eof then (if ltb avail l then avail else l) else l in
      if is_closed port.kindof
      then fails closed_error
      else (if leb size avail
          then (do
            s' ← from_buffer p s o size
            let start = p.matchstart + size
            ok (
              size,
              record p {
                matchstart = start;
                forward = start;
                matchstop = start;
                filepos = p.filepos +ℤ pos size;
              },
              s',
            ))
          else (do
            s' ← if ltb 0 avail then from_buffer p s o avail else ok s
            (o', p', s'') ← blit_loop (suc (size - avail)) p s' (o + avail) (size - avail)
            ok (
              o' - o,
              record p' {
                forward = 0;
                bufpos = 0;
                matchstart = 0;
                matchstop = 0;
                lastchar = 10;
                filepos = p'.filepos +ℤ pos (o' - o);
              },
              s'',
            )))
