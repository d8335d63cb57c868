-- ===== src/Rgc/Position.antt =====
-- runtime/Clib/crgc.c: tests of the position of a match. The end of a line is looked for in what is read
-- next, which may take a refill; after a refill that gave bytes there is one, so that two rounds are enough.
pub mod Lines
use bigloo.Prelude.{
  ℕ, zero, suc, ◌-◌, ◌==◌, ◌&&◌, ltb, not, Bool, true, false, get_elem?, if◌then◌else◌,
}
use bigloo.Prelude.Int.{ℤ, pos}
use bigloo.Memory.{memory}
use bigloo.Rgc.Run.{Run, ok, unfinished, checked, ◌>>=◌}
use bigloo.Rgc.Port.{Port, Read}
use bigloo.Rgc.Fill.{rgc_fill_buffer}

module _ {S : Type 0} where
  unfoldable pub rgc_buffer_bol_p : Port S → Run Bool
  rgc_buffer_bol_p ip =
      if ltb 0 ip.matchstart
      then (do c ← checked (get_elem? (memory ip.buf) (ip.matchstart - 1)); ok (c == 10))
      else ok (ip.lastchar == 10)

  unfoldable pub rgc_buffer_eof_p : Port S → Bool
  rgc_buffer_eof_p ip = ip.eof && (ip.matchstop == ip.bufpos)

module _ {S : Type 0} (read : S → ℕ → Read S) (held : ℕ → ℕ) where
  unfoldable pub rgc_buffer_eol_p : ℕ → Port S → ℕ → ℕ → Run (Bool × Port S)
  rgc_buffer_eol_p zero ip forward bufpos = unfinished
  rgc_buffer_eol_p (suc fuel) ip forward bufpos =
      let filled = (do
        (more, p) ← rgc_fill_buffer read held ip
        let again = rgc_buffer_eol_p fuel p p.forward p.bufpos
        if more then again else ok (false, p)) in
      let here = (do
        c ← checked (get_elem? (memory ip.buf) forward)
        ok (c == 10, record ip { forward = forward; bufpos = bufpos })) in
      if forward == bufpos then filled else here

  unfoldable pub rgc_buffer_eof2_p : Port S → ℕ → ℕ → Run (Bool × Port S)
  rgc_buffer_eof2_p ip forward bufpos =
      let here : Port S = record ip { forward = forward; bufpos = bufpos } in
      if ltb forward bufpos
      then ok (false, here)
      else if ip.eof
      then ok (true, here)
      else (do (more, p) ← rgc_fill_buffer read held ip; ok (not more, p))
