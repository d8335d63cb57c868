-- ===== src/Lib.antt =====
-- A model of the C runtime of Bigloo and of its mutexes of threads, and what holds of it.
--
-- The runtime under runtime/Clib implements the data of the Scheme programs that the compiler
-- translates. The parts that are modelled, and the files that model them:
--
-- * Prelude passes the names of the libraries on, and has the lists over native numbers, the signed
--   integers, the conditional, and the monad of runs that may go wrong.
-- * Memory is what a C function sees of a string object: its units, the unit allocated behind them,
--   pointers as the units from an address to the end of the object, and memcmp. A read outside an
--   object is `none`, so a theorem that a function returns says that it reads within its objects.
-- * Cstring is runtime/Clib/cstring.c, function by function under the names of the source: Build
--   (string_append, c_substring, blit_string, ...), Equal (bigloo_strcmp and the tests at an offset,
--   of a prefix, and without case), Compare (bigloo_string_lt, ...), Digits (integer_to_string, ...),
--   Escape (create_string_for_read, bgl_escape_C_string, ...).
-- * Cunicode is runtime/Clib/cunicode.c, the strings of 16-bit units: Build, Compare, and Utf8
--   (ucs2_to_utf8_string, utf8_string_to_ucs2_string).
-- * Hash is runtime/Clib/chash.c, the hash numbers of strings and integers, which Symbol,
--   runtime/Clib/csymbol.c, uses to choose the bucket of a name in the table of symbols.
-- * Rgc is runtime/Clib/crgc.c, the buffer of an input port: Run (how a function on ports ends),
--   Port (the state, the struct of runtime/Include/bigloo.h), Fill (rgc_fill_buffer), Insert (what
--   puts characters back), Blit (bgl_rgc_blit_string), Number (rgc_buffer_integer,
--   rgc_buffer_fixnum), Position (rgc_buffer_bol_p, rgc_buffer_eol_p, ...).
-- * Ports is the input side of runtime/Clib/cports.c: Source (the functions that `sysread` points
--   to), Open (bgl_open_input_substring, the seeks, bgl_close_input_port).
-- * Outports is the output side of runtime/Clib/cports.c: the port and its flush (bgl_write,
--   output_flush, ...), and StringPort, the ports on strings (bgl_open_output_string, strwrite,
--   strseek, ...).
-- * Mutex is api/srfi18/src/Posix/cmutex.c and ccondvar.c, the mutexes of threads: the state with
--   the list of the mutexes that each thread has locked, linked in both directions (Links, Lists,
--   Owned, Invariant), what locking, unlocking and the end of a thread do to it (Laws, Failed,
--   Abandon, Condvar), and the runs of threads (Steps, Runs). Timeout has the deadlines, also those
--   of api/pthread/src/Posix/bglpmutex.c.
-- * Bmem is bde/bmem/lib/hash.c, the hash table of the memory profiler: hashtable_put,
--   hashtable_get and the rehash.
--
-- Outports takes the function that writes to the system as a parameter, and what it relies on is the
-- record Takes of Outports/System: it does not fail, and a call takes the first bytes, one or more
-- and no more than there are, or is interrupted, a bounded number of times in a row.
--
-- Rgc takes the source of a port as a parameter, a function from the state of the source and a size
-- to bytes, and what it relies on is the record Stream of Rgc/Port/Stream; Ports/Source/Laws fills
-- it for strings, files and files in memory. read(2), fseek(3), the Scheme procedures of ports,
-- `isspace` and the library of big numbers are parameters. A signed overflow is a fault there.
--
-- Escape calls Utf8 for the escape \u, Symbol calls Build for the copy of a name.
--
-- Numbers. A character is a number below 2 ^ 8, a unit one below 2 ^ 16. A `long` has 64 bits.
-- Where the code's arithmetic on machine words can wrap, `%` says so; lengths and offsets are taken
-- to be far from the bounds of `int`, which the files say where they rely on it. Loops on a number
-- have fuel: 65 rounds to count the digits of a number of 64 bits, 8 for its bytes, 8 for the
-- following bytes of an encoded character, and the distance to the end of the text where a round
-- reads at least one character. A copy from a port has one round for each byte and one to end, the
-- search of room in a buffer one for each byte and one to end, the test of the end of a line two.
-- The theorems say that the runs return, so the fuel is enough.
--
-- Fuel of a put into the hash table counts its calls of itself. One is enough where the put finds a
-- place; no amount is shown to be enough for a rehash, as the code bounds its calls by nothing. Its
-- loop has five rounds. A flush has, for each byte that is to be taken, one round and one for each
-- interruption that can happen in a row. The loop over the mutexes of a thread has one round for
-- each, the polling for a mutex one for each tenth of a second begun and one more.
--
-- The C library's `tolower` is a parameter. Locks are held from the first read of shared state to
-- the last write, so a call is one step. pthread is a parameter: whether its calls answer an error.
-- The conditions on the runs of threads are in Mutex/Steps.
--
-- Not modelled: conversions by sprintf and of floating-point numbers, the rest of the runtime's
-- system calls, and the Scheme code.
pub mod Prelude
pub mod Memory
pub mod Cstring
pub mod Cunicode
pub mod Hash
pub mod Symbol
pub mod Rgc
pub mod Ports
pub mod Mutex
pub mod Outports
pub mod Bmem
