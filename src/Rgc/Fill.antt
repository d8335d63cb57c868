-- ===== src/Rgc/Fill.antt =====
-- runtime/Clib/crgc.c: `rgc_fill_buffer` and what it calls.
pub mod Arrange
pub mod Laws
use bigloo.Prelude.{
  ℕ, zero, suc, ◌+◌, ◌-◌, ◌*◌, ◌%◌, ltb, Bool, true, false, List, length, if◌then◌else◌, get_elem?,
}
use bigloo.Prelude.Int.{ℤ, pos, negsuc, sub_ℕ}
use bigloo.Memory.{len, memory, units}
use bigloo.Cstring.Build.{make_string_sans_fill}
use bigloo.Rgc.Run.{IoError, read_error, connection_error, Run, ok, fails, checked, ◌>>=◌}
use bigloo.Rgc.Port.{Port, Read, bytes, failed, is_closed, store, move, fresh_units}

module _ {S : Type 0} where
  -- `held` is what the new buffer holds before it is written.
  unfoldable pub rgc_double_buffer : (ℕ → ℕ) → Port S → Run (Port S)
  unfolding make_string_sans_fill
  rgc_double_buffer held port = do
    let bufsiz = len port.buf
    let newbuf = make_string_sans_fill (fresh_units held (bufsiz * 2))
    cs ← checked (units bufsiz (memory port.buf))
    buf ← checked (store 0 cs newbuf)
    ok (record port { buf = buf })

  unfoldable pub rgc_shift_buffer : Port S → Run (Port S)
  rgc_shift_buffer port = do
    let start = port.matchstart
    last ← checked (get_elem? (memory port.buf) (start - 1))
    buf ← checked (move 0 start (port.bufpos - start + 1) port.buf)
    ok (record port {
      lastchar = last;
      buf = buf;
      bufpos = port.bufpos - start;
      matchstop = port.matchstop - start;
      forward = port.forward - start;
      matchstart = 0;
    })

-- `e = (errno == BGL_ECONNRESET ? BGL_IO_CONNECTION_ERROR : BGL_IO_READ_ERROR)`
abbrev pub error_of : Bool → IoError
error_of true = connection_error
error_of false = read_error

-- `int fb`, from a `long`.
abbrev pub int_of : ℤ → ℤ
int_of (pos n) =
    if ltb (n % 4294967296) 2147483648
    then pos (n % 4294967296)
    else negsuc (4294967295 - n % 4294967296)
int_of (negsuc n) =
    if ltb (n % 4294967296) 2147483648
    then negsuc (n % 4294967296)
    else pos (4294967295 - n % 4294967296)

-- `if ((fb > 0) && (size > fb)) size = fb;`
abbrev pub barred : ℤ → ℕ → ℕ
barred (pos (suc fb)) size = if ltb (suc fb) size then suc fb else size
barred _ size = size

-- `if (fb > 0) fillbarrier = fb - r;`, with the barrier as it was.
abbrev pub lowered : ℤ → ℤ → ℕ → ℤ
lowered fillbarrier (pos (suc fb)) r = sub_ℕ (suc fb) r
lowered fillbarrier _ r = fillbarrier

-- `fb == 0`
abbrev pub is_barrier : ℤ → Bool
is_barrier (pos zero) = true
is_barrier _ = false

abbrev pub positive : ℕ → Bool
positive zero = false
positive (suc n) = true

module _ {S : Type 0} (read : S → ℕ → Read S) where
  unfoldable pub sysread : Port S → ℕ → Run (List ℕ × Bool × S)
  sysread port size = elim (read port.source size) [
    | bytes cs e s ↦ ok (cs, e, s)
    | failed reset ↦ fails (error_of reset)
  ]

  -- `bufpos` and `size` are parts of a buffer of fewer than `2 ^ 31` bytes, so an `int` holds them.
  unfoldable pub rgc_fillsize_buffer : Port S → ℕ → ℕ → Run (Bool × Port S)
  unfolding sysread
  rgc_fillsize_buffer port bufpos size =
      if is_barrier (int_of port.fillbarrier)
      then ok (false, record port { bufpos = bufpos })
      else (do
        (cs, e, s) ← sysread port (barred (int_of port.fillbarrier) size)
        buf ← checked (store bufpos cs port.buf)
        ok (
          positive (length cs),
          record port {
            eof = if e then true else port.eof;
            source = s;
            buf = buf;
            fillbarrier = lowered port.fillbarrier (int_of port.fillbarrier) (length cs);
            bufpos = bufpos + length cs;
          },
        ))

  -- The label `fill`, with `bufsize` as it is then.
  abbrev pub fill : Port S → ℕ → Run (Bool × Port S)
  fill port bufsize = rgc_fillsize_buffer port port.bufpos (bufsize - port.bufpos)

  unfoldable pub rgc_fill_buffer : (ℕ → ℕ) → Port S → Run (Bool × Port S)
  unfolding rgc_fillsize_buffer rgc_shift_buffer rgc_double_buffer
  rgc_fill_buffer held port =
      if is_closed port.kindof
      then fails read_error
      else (let port' : Port S = record port { forward = port.bufpos } in
          if port.eof
          then ok (false, port')
          else if ltb port.bufpos (len port.buf)
          then fill port' (len port.buf)
          else if ltb 0 port.matchstart
          then (do shifted ← rgc_shift_buffer port'; fill shifted (len port.buf))
          else (do doubled ← rgc_double_buffer held port'; fill doubled (len doubled.buf)))
