-- ===== src/Ports/Open/Strings.antt =====
-- A port that is opened on a string gives its characters, and then its end.
use bigloo.Prelude.{
  ℕ, ◌+◌, ◌-◌, ◌≤◌, ltb, true, false, some, [], ◌∷◌, ◌++◌, length, take, drop, ◌≡◌, refl, arith, ap,
  ◌∙◌, sym, append-nil, length-take, length-drop, take_all, take-le_length, drop_all, if◌then◌else◌,
}
use bigloo.Memory.{Str, len, memory, units}
use bigloo.Memory.Laws.{length-memory, advance-drop, units-take}
use bigloo.Cstring.Build.{make_string_sans_fill}
use bigloo.Cstring.Equal.Laws.{take-drop-append}
use bigloo.Rgc.Run.{ok}
use bigloo.Rgc.Port.{Port, fresh_units, is_closed}
use bigloo.Rgc.Port.Laws.{length-fresh_units, stored, store-chars}
use bigloo.Rgc.Port.Valid.{IsValid, available, pending}
use bigloo.Rgc.Blit.{bgl_rgc_blit_string}
use bigloo.Rgc.Blit.Blitted.{length-available, from_here}
use bigloo.Rgc.Blit.Prefix.{blit_here}
use bigloo.Ports.Source.{bgl_eof_read}
use bigloo.Ports.Source.Laws.{eof_stream}
use bigloo.Ports.Open.{
  bgl_make_input_port, StringSource, bgl_open_input_substring_bang, bgl_open_input_substring,
}

module _ (held : ℕ → ℕ) (str : Str) (offset end : ℕ) where
  -- The port holds the characters from `offset` to `end`, and no more will be read.
  pub record Holds (p : Port StringSource) : Type 0 where
    pub valid : IsValid p
    pub text : pending eof_stream p ≡ take (end - offset) (drop offset str.chars)
    pub at_eof : p.eof ≡ true
    pub is_open : is_closed p.kindof ≡ false
    pub first : p.source.offset ≡ 0
    pub start : p.matchstop ≡ 0
    pub stop : p.bufpos ≡ len p.buf

  -- `bgl_open_input_substring` of the bounds of a part of a string returns a valid open port at its
  -- end of file: the text that is to come is that part of the string, whatever the new buffer held.
  pub open_input_substring-Holds :
      offset ≤ end
      → end ≤ len str
      → (p : Port StringSource) × (bgl_open_input_substring held str offset end ≡ ok p) × Holds p
  unfolding bgl_open_input_substring bgl_open_input_substring_bang bgl_make_input_port
      make_string_sans_fill eof_stream
  open_input_substring-Holds h k =
      let n = end - offset in
      let cs = take n (drop offset str.chars) in
      let size : length cs ≡ n =
        length-take n (drop offset str.chars) (omega (arith, length-drop offset str.chars)) in
      let fresh = fresh_units held n in
      let whole = length-fresh_units held n in
      let part : units n (drop offset (memory str)) ≡ some cs =
        units-take n (drop offset (memory str))
          (omega (arith, length-drop offset (memory str), length-memory str))
        ∙ ap some (take-drop-append n offset str.chars (str.after ∷ []) (omega arith)) in
      let all : stored 0 cs fresh ≡ cs =
        ap (λ xs. cs ++ xs) (drop_all (0 + length cs) fresh (omega (arith, size, whole)))
        ∙ append-nil cs in
      (
        bgl_open_input_substring_bang (record { chars = cs; after = 0 }) 0 n,
        rw
            (
              advance-drop offset (memory str) (omega (arith, length-memory str)),
              part,
              store-chars (record { chars = fresh; after = 0 }) 0 cs (omega (arith, size, whole)),
              all,
            )
            refl,
        record {
          valid = omega (arith, size);
          text = append-nil (take n cs) ∙ take_all n cs (omega (arith, size));
          at_eof = refl;
          is_open = refl;
          first = refl;
          start = refl;
          stop = sym size;
        },
      )

-- What is copied by a blit of the whole text of a port that is opened on a part of a string to a
-- place that another string has is that part of the string: the blit returns its length, changes
-- nothing else of the other string, and leaves nothing to come.
pub substring_blit :
    (held : ℕ → ℕ) (str : Str) (offset end : ℕ) (s : Str) (o io : ℕ)
    → offset ≤ end
    → end ≤ len str
    → o + (end - offset) ≤ len s
    → (p p' : Port StringSource) × (bgl_open_input_substring held str offset end ≡ ok p)
      × (bgl_rgc_blit_string bgl_eof_read io p s o (end - offset)
          ≡ ok (
            end - offset,
            p',
            record {
              chars = stored o (take (end - offset) (drop offset str.chars)) s.chars;
              after = s.after;
            },
          ))
      × (pending eof_stream p' ≡ [])
unfolding eof_stream
substring_blit held str offset end s o io h k room =
    let n = end - offset in
    let cs = take n (drop offset str.chars) in
    let (p, run, holds) = open_input_substring-Holds held str offset end h k in
    let size : length cs ≡ n =
      length-take n (drop offset str.chars) (omega (arith, length-drop offset str.chars)) in
    let here : available p ≡ cs = sym (append-nil (available p)) ∙ holds.text in
    let count : p.bufpos - p.matchstop ≡ n =
      sym (length-available eof_stream p s o n holds.valid room) ∙ ap length here ∙ size in
    let whole : take n (available p) ≡ cs =
      ap (take n) here ∙ take_all n cs (omega (arith, size)) in
    let asked : (if p.eof
          then (if ltb (p.bufpos - p.matchstop) n then p.bufpos - p.matchstop else n)
          else n)
        ≡ n =
      rw holds.at_eof (ground (arith, count)) in
    let p' = from_here p n in
    (
      p,
      p',
      run,
      blit_here eof_stream p s o n holds.valid room io holds.is_open n asked (omega (arith, count))
            (omega arith)
          ∙ ap (λ xs. ok (n, p', record { chars = stored o xs s.chars; after = s.after })) whole,
      append-nil (available p')
          ∙ drop_all (p.matchstop + n) (take p.bufpos p.buf.chars)
              (omega (arith, take-le_length p.bufpos p.buf.chars, count, holds.valid)),
    )
