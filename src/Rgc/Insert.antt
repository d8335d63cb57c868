-- ===== src/Rgc/Insert.antt =====
-- runtime/Clib/crgc.c: characters that are put back in front of what is to be read.
pub mod Laws
pub mod Unread
use bigloo.Prelude.{
  ℕ, zero, suc, ◌+◌, ◌-◌, ◌%◌, ltb, leb, Bool, true, false, [], ◌∷◌, if◌then◌else◌,
}
use bigloo.Prelude.Int.{ℤ, pos, ◌-ℤ◌, ltb_ℤ}
use bigloo.Memory.{Str, len, memory, advance, units}
use bigloo.Rgc.Run.{Run, ok, unfinished, checked, ◌>>=◌}
use bigloo.Rgc.Port.{Port, is_closed, store, move}
use bigloo.Rgc.Fill.{rgc_double_buffer}

-- `if (filepos >= len) filepos -= len; else filepos = 0;`
abbrev pub moved_back : ℤ → ℕ → ℤ
moved_back filepos n = if ltb_ℤ filepos (pos n) then pos 0 else filepos -ℤ pos n

module _ {S : Type 0} (held : ℕ → ℕ) where
  -- The call at the end of the function is the next round.
  pub rgc_reserve_space : ℕ → Port S → ℕ → Run (Port S)
  rgc_reserve_space zero port amount = unfinished
  rgc_reserve_space (suc fuel) port amount =
      let again = rgc_double_buffer held port >>= (λ p. rgc_reserve_space fuel p amount) in
      let shifted = (do
        buf ← checked (move amount port.matchstop (port.bufpos - port.matchstop) port.buf)
        let diff = amount - port.matchstop
        ok (record port {
          buf = buf;
          bufpos = port.bufpos + diff;
          matchstop = port.matchstop + diff;
        })) in
      if leb amount port.matchstop
      then ok port
      else if leb amount (port.matchstop + (len port.buf - port.bufpos))
      then shifted
      else again

  -- What both functions below do once there is room: `cs` is stored before the end of the match.
  -- A round of `rgc_reserve_space` doubles the buffer, so the fuel is one round for each byte
  -- and one to end with.
  unfoldable pub rgc_buffer_insert_substring : Port S → Str → ℕ → ℕ → Run (Bool × Port S)
  rgc_buffer_insert_substring ip str from to =
      if is_closed ip.kindof then ok (false, ip) else if leb to from then ok (true, ip) else (do
        let n = to - from
        p ← rgc_reserve_space (suc n) ip n
        s ← checked (advance from (memory str))
        cs ← checked (units n s)
        buf ← checked (store (p.matchstop - n) cs p.buf)
        let stop = p.matchstop - n
        ok (
          true,
          record p {
            buf = buf;
            filepos = moved_back p.filepos n;
            matchstop = stop;
            forward = stop;
            matchstart = stop;
          },
        ))

  unfoldable pub rgc_buffer_insert_char : Port S → ℕ → Run (Bool × Port S)
  rgc_buffer_insert_char ip c = if is_closed ip.kindof then ok (false, ip) else (do
    p ← rgc_reserve_space 2 ip 1
    buf ← checked (store (p.matchstop - 1) (c % 256 ∷ []) p.buf)
    let stop = p.matchstop - 1
    ok (
      true,
      record p {
        buf = buf;
        filepos = moved_back p.filepos 1;
        matchstop = stop;
        forward = stop;
        matchstart = stop;
      },
    ))

module _ {S : Type 0} where
  unfoldable pub rgc_buffer_unget_char : Port S → ℕ → Run (ℕ × Port S)
  rgc_buffer_unget_char ip c =
      let filepos = ip.filepos -ℤ pos 1 in
      if ltb 0 ip.matchstop
      then ok (c, record ip { filepos = filepos; matchstop = ip.matchstop - 1 })
      else (do
        buf ← checked (store 0 (c % 256 ∷ []) ip.buf)
        ok (c, record ip { filepos = filepos; buf = buf }))
