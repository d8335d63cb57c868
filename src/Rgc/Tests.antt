-- ===== src/Rgc/Tests.antt =====
-- The buffer of a port on a file of five bytes, and of a port on a string.
use bigloo.Prelude.{
  ℕ, ◌%◌, ◌==◌, ◌⊎◌, Bool, ◌≡◌, refl, arith, sym, ap, ◌∙◌, true, false, List, [], ◌∷◌, ◌++◌, length,
  take, drop, take-append-drop, take-le_length,
}
use bigloo.Prelude.Int.{pos, negsuc}
use bigloo.Memory.{Str}
use bigloo.Rgc.Run.{ok, fails, unfinished}
use bigloo.Rgc.Port.{Port, failed, file}
use bigloo.Rgc.Port.Stream.{Stream}
use bigloo.Rgc.Port.Valid.{IsValid, window, pending}
use bigloo.Rgc.Fill.Laws.{Fills, rgc_fill_buffer-Fills}
use bigloo.Rgc.Insert.{rgc_reserve_space, rgc_buffer_insert_substring, rgc_buffer_unget_char}
use bigloo.Rgc.Insert.Laws.{insert_substring-pending}
use bigloo.Rgc.Insert.Unread.{reserve_space_empty, unget_char_overwrites}
use bigloo.Rgc.Blit.{bgl_rgc_blit_string}
use bigloo.Rgc.Blit.Blitted.{Blits}
use bigloo.Rgc.Blit.Prefix.{blit_string-Blits}
use bigloo.Rgc.Number.Exact.{minus, Exact, integer-Exact}
use bigloo.Rgc.Fill.{error_of, rgc_fill_buffer}
use bigloo.Rgc.Position.{rgc_buffer_eol_p}
use bigloo.Rgc.Position.Lines.{ends_line, eol_p-ends_line}
use bigloo.Ports.Source.{Answer, got, bgl_read}
use bigloo.Ports.Source.Laws.{Reads, read_stream, read-Progresses}

-- A file is what is left of it.
abbrev sys : List ℕ → ℕ → Answer (List ℕ)
sys xs n = got (take n xs) (drop n xs)

got-bytes : {cs ds xs ys : List ℕ} → got cs xs ≡ got ds ys → cs ≡ ds
got-bytes h = cc

got-rest : {cs ds xs ys : List ℕ} → got cs xs ≡ got ds ys → xs ≡ ys
got-rest h = cc

sys-Reads : Reads sys
sys-Reads = record {
  text = λ xs. xs;
  text-got = λ xs n cs ys h.
      sym (take-append-drop n xs)
      ∙ ap (λ zs. zs ++ drop n xs) (got-bytes h)
      ∙ ap (λ zs. cs ++ zs) (got-rest h);
  got-le = λ xs n cs ys h. omega (arith, take-le_length n xs, ap length (got-bytes h));
}

abbrev stream : Stream (bgl_read sys)
stream = read_stream sys sys-Reads

abbrev zeros : ℕ → ℕ
zeros n = 0

-- Two bytes are matched, and two are to be read before the file is asked.
abbrev port : Port (List ℕ)
port = record {
  kindof = file;
  filepos = pos 2;
  fillbarrier = negsuc 0;
  eof = false;
  matchstart = 0;
  matchstop = 2;
  forward = 2;
  bufpos = 4;
  buf = record { chars = b'a' ∷ b'b' ∷ b'c' ∷ b'd' ∷ []; after = 0 };
  lastchar = 10;
  source = b'e' ∷ b'f' ∷ b'g' ∷ b'h' ∷ b'i' ∷ [];
}

abbrev unmatched : Port (List ℕ)
unmatched = record port { matchstop = 0; forward = 0 }

abbrev empty : Port (List ℕ)
empty = record unmatched { bufpos = 0; buf = record { chars = []; after = 0 } }

abbrev six : Str
six = record { chars = 0 ∷ 1 ∷ 2 ∷ 3 ∷ 4 ∷ 5 ∷ []; after = 0 }

port-IsValid : IsValid port
port-IsValid = omega arith

unmatched-IsValid : IsValid unmatched
unmatched-IsValid = omega arith

rgc_fill_buffer-Fills_example :
    Fills stream (rgc_fill_buffer (bgl_read sys) zeros port) (record port { forward = 4 })
rgc_fill_buffer-Fills_example = rgc_fill_buffer-Fills stream zeros port port-IsValid refl

blit_string-Blits_example :
    Blits stream (bgl_rgc_blit_string (bgl_read sys) 2 port six 1 5) port six 1 5
blit_string-Blits_example =
    blit_string-Blits stream 2 port six 1 5 (omega arith) (read-Progresses sys) port-IsValid refl
      (omega arith)

insert_substring-pending_example :
    (p' : Port (List ℕ)) × (rgc_buffer_insert_substring zeros port six 1 4 ≡ ok (true, p'))
    × IsValid p'
    × (pending stream p' ≡ take 3 (drop 1 six.chars) ++ pending stream port)
insert_substring-pending_example =
    insert_substring-pending stream zeros port six 1 4 port-IsValid refl (omega arith) (omega arith)
      (omega arith)

reserve_space_empty_example : rgc_reserve_space zeros 7 empty 1 ≡ unfinished
reserve_space_empty_example = reserve_space_empty zeros 7 empty 1 refl refl (omega arith)

unget_char_overwrites_example :
    (p' : Port (List ℕ)) × (rgc_buffer_unget_char unmatched b'z' ≡ ok (b'z', p'))
    × IsValid p'
    × (pending stream p' ≡ b'z' % 256 ∷ drop 1 (pending stream unmatched))
unget_char_overwrites_example =
    unget_char_overwrites stream unmatched b'z' unmatched-IsValid refl (omega arith)

-- A buffer that holds `-42 x`, with the number matched.
abbrev number : Port (List ℕ)
number = record port {
  buf = record { chars = b'-' ∷ b'4' ∷ b'2' ∷ b' ' ∷ b'x' ∷ []; after = 0 };
  matchstop = 3;
  forward = 3;
  bufpos = 5;
}

number-IsValid : IsValid number
number-IsValid = omega arith

abbrev is_space : ℕ → Bool
is_space c = c == b' '

abbrev keep : List ℕ → List ℕ
keep s = s

integer-Exact_example : Exact number number-IsValid is_space keep 3 minus 42
integer-Exact_example =
    integer-Exact number number-IsValid is_space keep 3 minus b'4' (b'2' ∷ []) refl refl

-- The match starts behind the first byte.
abbrev second : Port (List ℕ)
second = record port { matchstart = 1 }

second-IsValid : IsValid second
second-IsValid = omega arith

eol_p-ends_line_example :
    ((p' : Port (List ℕ)) × (more : List ℕ) × (rgc_buffer_eol_p (bgl_read sys) zeros 2 port 4 4
        ≡ ok (ends_line more, p'))
      × IsValid p'
      × (window p' ≡ window port ++ more)
      × (stream.rest port.source ≡ more ++ stream.rest p'.source))
    ⊎ ((n : ℕ) × (reset : Bool) × (bgl_read sys port.source n ≡ failed reset)
        × (rgc_buffer_eol_p (bgl_read sys) zeros 2 port 4 4 ≡ fails (error_of reset)))
eol_p-ends_line_example = eol_p-ends_line stream zeros port port-IsValid refl
