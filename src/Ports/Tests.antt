-- ===== src/Ports/Tests.antt =====
-- Ports on a string, on a procedure and on a file in memory.
use bigloo.Prelude.{
  ℕ, ◌+◌, ◌-◌, ◌<◌, ◌≡◌, ◌⊎◌, refl, arith, true, false, Option, none, some, List, [], ◌∷◌, ◌++◌,
  take, drop,
}
use bigloo.Prelude.Int.{pos, negsuc}
use bigloo.Memory.{Str}
use bigloo.Rgc.Run.{port_error, ok, fails}
use bigloo.Rgc.Port.{Port, string, mmap}
use bigloo.Rgc.Port.Laws.{stored}
use bigloo.Rgc.Port.Valid.{IsValid, pending}
use bigloo.Rgc.Fill.{rgc_fill_buffer}
use bigloo.Rgc.Blit.{bgl_rgc_blit_string}
use bigloo.Ports.Source.{bgl_eof_read, Proc, bgl_proc_read, Mmap, bgl_input_mmap_read}
use bigloo.Ports.Source.Laws.{
  eof_stream, IsTaken, Produces, proc_rest, IsPlaced, IsNext, proc_read-IsTaken, mmap_stream,
}
use bigloo.Ports.Open.{
  StringSource, bgl_open_input_substring, bgl_input_string_seek, bgl_input_mmap_seek,
}
use bigloo.Ports.Open.Strings.{Holds, open_input_substring-Holds, substring_blit}
use bigloo.Ports.Open.Seek.{string_seek-pending, mmap_seek-fill}

abbrev zeros : ℕ → ℕ
zeros n = 0

abbrev abc : Str
abc = record { chars = b'a' ∷ b'b' ∷ b'c' ∷ []; after = 0 }

abbrev six : Str
six = record { chars = 0 ∷ 1 ∷ 2 ∷ 3 ∷ 4 ∷ 5 ∷ []; after = 0 }

open_input_substring-Holds_example :
    (p : Port StringSource) × (bgl_open_input_substring zeros abc 1 3 ≡ ok p)
    × Holds zeros abc 1 3 p
open_input_substring-Holds_example =
    open_input_substring-Holds zeros abc 1 3 (omega arith) (omega arith)

substring_blit_example :
    (p p' : Port StringSource) × (bgl_open_input_substring zeros abc 1 3 ≡ ok p)
    × (bgl_rgc_blit_string bgl_eof_read 8 p six 2 2
        ≡ ok (2, p', record { chars = stored 2 (take 2 (drop 1 abc.chars)) six.chars; after = 0 }))
    × (pending eof_stream p' ≡ [])
substring_blit_example =
    substring_blit zeros abc 1 3 six 2 8 (omega arith) (omega arith) (omega arith)

abbrev on_string : Port StringSource
on_string = record {
  kindof = string;
  filepos = pos 0;
  fillbarrier = negsuc 0;
  eof = true;
  matchstart = 0;
  matchstop = 0;
  forward = 0;
  bufpos = 3;
  buf = abc;
  lastchar = 10;
  source = record { offset = 0 };
}

on_string-IsValid : IsValid on_string
on_string-IsValid = omega arith

string_seek-pending_example :
    ((3 < 3)
      × (p' : Port StringSource) × (bgl_input_string_seek on_string (pos 3) ≡ ok p')
      × IsValid p'
      × (pending eof_stream p' ≡ drop 3 abc.chars))
    ⊎ (((◌≡◌ {A = ℕ} 3 3)
          × (p' : Port StringSource) × (bgl_input_string_seek on_string (pos 3) ≡ ok p')
          × IsValid p'
          × (pending eof_stream p' ≡ pending eof_stream on_string))
        ⊎ ((3 < 3) × (bgl_input_string_seek on_string (pos 3) ≡ fails port_error)))
string_seek-pending_example = string_seek-pending on_string 3 on_string-IsValid refl refl

-- A procedure that gives a string each time: the strings that are left.
abbrev next : List (List ℕ) → Option (List ℕ) × List (List ℕ)
next [] = (none, [])
next (s ∷ ss) = (some s, ss)

abbrev all : List (List ℕ) → List ℕ
all [] = []
all (s ∷ ss) = s ++ all ss

all-some :
    (g : List (List ℕ)) (buf : List ℕ) (g' : List (List ℕ))
    → next g ≡ (some buf, g')
    → all g ≡ buf ++ all g'
all-some [] buf g' h = absurd (cc)
all-some (s ∷ ss) buf g' h = cc

all-none : (g g' : List (List ℕ)) → next g ≡ (none, g') → all g ≡ all g'
all-none [] g' h = cc
all-none (s ∷ ss) g' h = absurd (cc)

next-Produces : Produces next
next-Produces = record { text = all; text-some = all-some; text-none = all-none }

-- Two bytes of the last string are left.
abbrev on_proc : Proc (List (List ℕ))
on_proc = record { proc = (b'd' ∷ []) ∷ []; pbuffer = some (b'a' ∷ b'b' ∷ b'c' ∷ []); pbufpos = 1 }

on_proc-IsPlaced : IsPlaced next next-Produces on_proc
on_proc-IsPlaced = omega arith

proc_read-IsTaken_example :
    IsTaken (proc_rest next next-Produces) on_proc 1 (bgl_proc_read next on_proc 1)
    × IsNext next next-Produces (bgl_proc_read next on_proc 1)
proc_read-IsTaken_example = proc_read-IsTaken next next-Produces on_proc 1 on_proc-IsPlaced

abbrev on_mmap : Port Mmap
on_mmap = record {
  kindof = mmap;
  filepos = pos 3;
  fillbarrier = negsuc 0;
  eof = true;
  matchstart = 0;
  matchstop = 3;
  forward = 3;
  bufpos = 3;
  buf = abc;
  lastchar = 10;
  source = record { map = abc.chars; start = 0; end = 3; offset = 3 };
}

mmap_seek-fill_example :
    (p' : Port Mmap) × (bgl_input_mmap_seek on_mmap (pos 1) ≡ ok p')
    × (pending mmap_stream p' ≡ take (3 - (0 + 1)) (drop (0 + 1) abc.chars))
    × (rgc_fill_buffer bgl_input_mmap_read zeros p' ≡ ok (false, p'))
mmap_seek-fill_example = mmap_seek-fill zeros on_mmap 1 refl refl (omega arith)

abbrev same : StringSource → StringSource
same s = s
