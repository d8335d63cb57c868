-- ===== src/Rgc/Port.antt =====
-- The state of an input port, `struct input_port` in runtime/Include/bigloo.h, and the macros on
-- it. Cursors are offsets in the buffer. They are natural numbers: where the code takes one cursor
-- from another, the invariant of Rgc/Port/Valid says that the first is not below the second. The
-- sizes of buffers are within `int`.
pub mod Laws
pub mod Stream
pub mod Valid
use bigloo.Prelude.{
  ℕ, zero, suc, ◌+◌, leb, Bool, true, false, Option, none, List, [], ◌∷◌, ◌++◌, ◌>>=◌,
  if◌then◌else◌, length, take, drop,
}
use bigloo.Prelude.Int.{ℤ}
use bigloo.Memory.{Str, len, memory, of_memory}
use bigloo.Cstring.Build.{memmove}

-- The constants `KINDOF_`.
pub data Kind : Type 0 where
  file console socket procpipe pipe virtual string closed procedure gzip bzip2 : Kind
  timeout datagram mmap unused : Kind

-- What the function that a port's `sysread` points to answers to a request: bytes, and whether
-- it sets the port's `eof`, or a negative count, with whether `errno` is ECONNRESET.
pub data Read (S : Type 0) : Type 0 where
  bytes : List ℕ → Bool → S → Read S
  failed : Bool → Read S

-- `source` is what stands behind `sysread`: a descriptor, a procedure, a map.
pub record Port (S : Type 0) : Type 0 where
  pub kindof : Kind
  pub filepos : ℤ
  pub fillbarrier : ℤ
  pub eof : Bool
  pub matchstart : ℕ
  pub matchstop : ℕ
  pub forward : ℕ
  pub bufpos : ℕ
  pub buf : Str
  pub lastchar : ℕ
  pub source : S

-- `INPUT_PORT_CLOSEP`
abbrev pub is_closed : Kind → Bool
is_closed closed = true
is_closed _ = false

-- `kindof == KINDOF_DATAGRAM`
abbrev pub is_datagram : Kind → Bool
is_datagram datagram = true
is_datagram _ = false

-- The bytes that a `sysread` stores from the offset `o` on, in the memory of a string.
unfoldable pub store : ℕ → List ℕ → Str → Option Str
store o cs s =
    if leb (o + length cs) (length (memory s))
    then of_memory (len s) (take o (memory s) ++ (cs ++ drop (o + length cs) (memory s)))
    else none

-- `memmove` within the memory of a string.
unfoldable pub move : ℕ → ℕ → ℕ → Str → Option Str
unfolding memmove
move dest src n s = do m ← memmove dest src n (memory s); of_memory (len s) m

-- Memory that was allocated and not written: `held` says what it holds.
pub fresh_units : (ℕ → ℕ) → ℕ → List ℕ
fresh_units held zero = []
fresh_units held (suc n) = held n ∷ fresh_units held n
