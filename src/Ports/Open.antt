-- ===== src/Ports/Open.antt =====
-- runtime/Clib/cports.c: how an input port is opened, positioned and closed. The field `length` is
-- not kept: on a port of a file in memory it is `end - start`, and no other modelled function reads it. Close
-- hooks, names and timeouts are left out.
pub mod Strings
pub mod Seek
use bigloo.Prelude.{
  ℕ, ◌+◌, ◌-◌, ◌==◌, ltb, Bool, true, false, Option, none, some, List, if◌then◌else◌,
}
use bigloo.Prelude.Int.{ℤ, pos, negsuc}
use bigloo.Memory.{Str, len, memory, advance, units}
use bigloo.Cstring.Build.{make_string_sans_fill, string_to_bstring_len, strlen}
use bigloo.Rgc.Run.{port_error, Run, ok, fails, checked, ◌>>=◌}
use bigloo.Rgc.Port.{Kind, file, console, string, closed, mmap, Port, is_closed, store, fresh_units}
use bigloo.Ports.Source.{Mmap}

module _ {S : Type 0} where
  unfoldable pub bgl_make_input_port : Kind → Str → S → Port S
  bgl_make_input_port kindof buf source = record {
    kindof = kindof;
    filepos = pos 0;
    fillbarrier = negsuc 0;
    eof = false;
    matchstart = 0;
    matchstop = 0;
    forward = 0;
    bufpos = 0;
    buf = buf;
    lastchar = 10;
    source = source;
  }

-- `struct input_string_port`: its own field.
pub record StringSource : Type 0 where
  pub offset : ℕ

-- The indices `offset` and `end` are in bounds.
unfoldable pub bgl_open_input_substring_bang : Str → ℕ → ℕ → Port StringSource
unfolding bgl_make_input_port
bgl_open_input_substring_bang buffer offset end =
    record (bgl_make_input_port string buffer (record { offset = offset })) {
      eof = true;
      bufpos = end;
      matchstart = offset;
      matchstop = offset;
    }

-- `held` is what the new buffer holds before it is written.
module _ (held : ℕ → ℕ) where
  unfoldable pub bgl_open_input_substring : Str → ℕ → ℕ → Run (Port StringSource)
  unfolding make_string_sans_fill
  bgl_open_input_substring str offset end = do
    let n = end - offset
    let fresh = make_string_sans_fill (fresh_units held n)
    m ← checked (advance offset (memory str))
    cs ← checked (units n m)
    buffer ← checked (store 0 cs fresh)
    ok (bgl_open_input_substring_bang buffer 0 n)

  unfoldable pub bgl_open_input_string : Str → ℕ → Run (Port StringSource)
  bgl_open_input_string buffer offset = bgl_open_input_substring buffer offset (len buffer)

  unfoldable pub bgl_open_input_c_string : List ℕ → Run (Port StringSource)
  unfolding strlen string_to_bstring_len
  bgl_open_input_c_string c_string = do
    bufsiz ← checked (strlen c_string)
    buffer ← checked (string_to_bstring_len (some c_string) bufsiz)
    bgl_open_input_substring buffer 0 bufsiz

unfoldable pub bgl_input_string_seek : Port StringSource → ℤ → Run (Port StringSource)
bgl_input_string_seek port (negsuc n) = fails port_error
bgl_input_string_seek port (pos n) =
    let to = n + port.source.offset in
    if ltb n (len port.buf)
    then ok (record port { filepos = pos to; matchstart = to; matchstop = to; forward = to })
    else if n == len port.buf
    then ok (record port { eof = true })
    else fails port_error

unfoldable pub bgl_input_mmap_seek : Port Mmap → ℤ → Run (Port Mmap)
bgl_input_mmap_seek port (negsuc n) = fails port_error
bgl_input_mmap_seek port (pos n) =
    let source = port.source in
    let size = source.end - source.start in
    if ltb n size
    then ok (record port {
      filepos = pos (source.start + n);
      source = record source { offset = source.start + n };
      matchstart = 0;
      matchstop = 0;
      forward = 0;
      bufpos = 0;
    })
    else if n == size
    then ok (record port { eof = true })
    else fails port_error

-- `fseek` is none where fseek(3) answers -1.
module _ {F : Type 0} (fseek : F → ℤ → Option F) where
  unfoldable pub bgl_input_file_seek : Port F → ℤ → Run (Port F)
  bgl_input_file_seek port n = elim (fseek port.source n) [
    | none ↦ fails port_error
    | some source ↦ ok (record port {
      source = source;
      filepos = n;
      eof = false;
      matchstart = 0;
      matchstop = 0;
      forward = 0;
      bufpos = 0;
      lastchar = 10;
    })
  ]

-- Ports that closing leaves as they are.
abbrev pub kept_by_close : Kind → Bool
kept_by_close closed = true
kept_by_close console = true
kept_by_close _ = false

module _ {S : Type 0} where
  -- `sysclose` is what closing does to the source.
  unfoldable pub bgl_close_input_port : (S → S) → Port S → Port S
  bgl_close_input_port sysclose port =
      if kept_by_close port.kindof
      then port
      else record port { source = sysclose port.source; eof = true; kindof = closed }

  unfoldable pub bgl_input_port_buffer_set : Port S → Str → Port S
  bgl_input_port_buffer_set ip buffer = record ip {
    buf = buffer;
    matchstart = 0;
    matchstop = 0;
    forward = 0;
    bufpos = 0;
    lastchar = 10;
  }
