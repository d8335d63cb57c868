-- ===== src/Rgc/Blit/Blitted.antt =====
-- What a blit has done, from the buffer alone and after the loop.
use bigloo.Prelude.{
  ℕ, ◌+◌, ◌-◌, ◌≤◌, ◌<◌, ltb, Bool, true, List, ◌++◌, length, take, drop, ◌≡◌, refl, arith, ap, ◌∙◌,
  sym, ◌⊎◌, inl, inr, append_assoc, take-append-drop, length-append, length-take, length-drop,
  drop-drop, Bool-cases,
}
use bigloo.Prelude.Int.{pos, ◌+ℤ◌}
use bigloo.Memory.{Str, len}
use bigloo.Rgc.Run.{Run, ok, fails}
use bigloo.Rgc.Port.{Port, Read, failed, is_datagram}
use bigloo.Rgc.Port.Laws.{stored, stored_twice}
use bigloo.Rgc.Port.Stream.{Stream}
use bigloo.Rgc.Port.Valid.{IsValid, available, pending}
use bigloo.Rgc.Fill.{error_of}
use bigloo.Rgc.Blit.Laws.{Took}

module _ {S : Type 0} where
  -- `RGC_BUFFER_AVAILABLE`
  abbrev pub avail : Port S → ℕ
  avail p = p.bufpos - p.matchstop

  -- The buffer has all that is asked for.
  abbrev pub from_here : Port S → ℕ → Port S
  from_here p size = record p {
    matchstart = p.matchstop + size;
    forward = p.matchstop + size;
    matchstop = p.matchstop + size;
    filepos = p.filepos +ℤ pos size;
  }

  -- What the buffer has, and then what the loop has taken.
  abbrev pub copy_available : Port S → Str → ℕ → Str
  copy_available p s o = record { chars = stored o (available p) s.chars; after = s.after }

module _ {S : Type 0} {read : S → ℕ → Read S} (stream : Stream read) where
  -- `cs` was copied, and nothing else of the string has changed.
  pub record Blitted (p : Port S) (s : Str) (o l n : ℕ) (p' : Port S) (s' : Str) (cs : List ℕ)
      : Type 0 where
    pub valid : IsValid p'
    pub count : n ≡ length cs
    pub small : n ≤ l
    pub text : pending stream p ≡ cs ++ pending stream p'
    pub copied : s' ≡ record { chars = stored o cs s.chars; after = s.after }
    pub filepos : p'.filepos ≡ p.filepos +ℤ pos n
    pub short : (n ≡ l) ⊎ ((p'.eof ≡ true) ⊎ (is_datagram p.kindof ≡ true))

  abbrev pub Blits : Run (ℕ × Port S × Str) → Port S → Str → ℕ → ℕ → Type 0
  Blits run p s o l =
      ((n : ℕ) × (p' : Port S) × (s' : Str) × (cs : List ℕ) × (run ≡ ok (n, p', s'))
        × Blitted p s o l n p' s' cs)
      ⊎ ((source : S) × (n : ℕ) × (reset : Bool) × (read source n ≡ failed reset)
          × (run ≡ fails (error_of reset)))

  module _ (p : Port S) (s : Str) (o l : ℕ) (v : IsValid p) (room : o + l ≤ len s) where
    pub length-available : length (available p) ≡ avail p
    length-available = omega (
      arith,
      length-drop p.matchstop (take p.bufpos p.buf.chars),
      length-take p.bufpos p.buf.chars v.within,
      v.stopped,
    )

    pub from_here-Blitted :
        (size : ℕ)
        → size ≤ avail p
        → size ≤ l
        → (size < l → p.eof ≡ true)
        → Blitted p s o l size
            (from_here p size)
            (record { chars = stored o (take size (available p)) s.chars; after = s.after })
            (take size (available p))
    from_here-Blitted size h k short =
        let cs = take size (available p) in
        let left = drop size (available p) in
        record {
          valid = omega (arith, v);
          count = sym (length-take size (available p) (omega (arith, length-available)));
          small = k;
          text =
              ap (λ xs. xs ++ stream.rest p.source) (sym (take-append-drop size (available p)))
              ∙ append_assoc cs left (stream.rest p.source)
              ∙ ap (λ xs. cs ++ (xs ++ stream.rest p.source))
                  (drop-drop size p.matchstop (take p.bufpos p.buf.chars));
          copied = refl;
          filepos = refl;
          short = elim (Bool-cases (ltb size l)) [
            | inl less ↦ inr (inl (short (ground arith)))
            | inr enough ↦ inl (ground arith)
          ];
        }

    pub Took-Blitted :
        (q : Port S)
        → q.source ≡ p.source
        → q.filepos ≡ p.filepos
        → q.kindof ≡ p.kindof
        → avail p < l
        → (o' : ℕ) (p' : Port S) (s' : Str) (cs : List ℕ)
        → Took stream q (copy_available p s o) (o + avail p) (l - avail p) o' p' s' cs
        → Blitted p s o l
            (o' - o)
            (record p' {
              forward = 0;
              bufpos = 0;
              matchstart = 0;
              matchstop = 0;
              lastchar = 10;
              filepos = p'.filepos +ℤ pos (o' - o);
            })
            s'
            (available p ++ cs)
    Took-Blitted q src fp kd less o' p' s' cs t =
        let size = length-append (available p) cs in
        let at : o + avail p ≡ o + length (available p) = omega (arith, length-available) in
        record {
          valid = omega arith;
          count = omega (arith, t.place, size, length-available);
          small = omega (arith, t.place, t.small);
          text =
              ap (λ x. available p ++ stream.rest x) (sym src)
              ∙ ap (λ xs. available p ++ xs) t.text
              ∙ sym (append_assoc (available p) cs (stream.rest p'.source));
          copied =
              t.copied
              ∙ ap
                  (λ k. record {
                    chars = stored k cs (copy_available p s o).chars;
                    after = s.after;
                  })
                  at
              ∙ ap (λ xs. record { chars = xs; after = s.after })
                  (stored_twice o (available p) cs s.chars (omega (arith, length-available)));
          filepos = ap (λ f. f +ℤ pos (o' - o)) (t.filepos ∙ fp);
          short = elim (Bool-cases (ltb (o' - o) l)) [
            | inr enough ↦ inl (ground (arith, t.place, t.small))
            | inl less ↦ elim (t.short (ground (arith, t.place))) [
              | inl e ↦ inr (inl e)
              | inr d ↦ inr (inr (ap is_datagram (sym kd) ∙ d))
            ]
          ];
        }
