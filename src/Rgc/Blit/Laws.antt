-- ===== src/Rgc/Blit/Laws.antt =====
-- What the loop of a blit reads, and what comes from the buffer.
use bigloo.Prelude.{
  ℕ, ◌+◌, ◌-◌, ◌≤◌, ◌<◌, ltb, Bool, true, false, ◌&&◌, not, List, [], ◌∷◌, ◌++◌, length, take, drop,
  ◌≡◌, refl, arith, ap, ◌∙◌, sym, ◌⊎◌, inl, inr, append_assoc, length-append, length-take,
  length-drop, drop-take, take-take,
}
use bigloo.Memory.{Str, len, memory}
use bigloo.Memory.Laws.{length-memory, advance-drop, units-take}
use bigloo.Cstring.Equal.Laws.{take-drop-append}
use bigloo.Rgc.Run.{Run, ok, fails}
use bigloo.Rgc.Port.{Port, Read, failed, is_datagram}
use bigloo.Rgc.Port.Laws.{stored, stored_twice, stored_nothing, store-chars}
use bigloo.Rgc.Port.Stream.{Stream}
use bigloo.Rgc.Port.Valid.{IsValid, available}
use bigloo.Rgc.Fill.{error_of}
use bigloo.Rgc.Blit.{from_buffer}

module _ {S : Type 0} where
  pub from_buffer_lem :
      (p : Port S) (s : Str) (o n : ℕ)
      → IsValid p
      → n ≤ p.bufpos - p.matchstop
      → o + n ≤ len s
      → from_buffer (record p { forward = p.matchstop; matchstart = p.matchstop }) s o n
        ≡ ok (record { chars = stored o (take n (available p)) s.chars; after = s.after })
  from_buffer_lem p s o n v h k =
      let m = drop p.matchstop (memory p.buf) in
      let cs = take n (available p) in
      let part : take n m ≡ cs =
        take-drop-append n p.matchstop p.buf.chars (p.buf.after ∷ []) (omega arith)
        ∙ sym (take-take n (p.bufpos - p.matchstop) (drop p.matchstop p.buf.chars) h)
        ∙ ap (take n) (sym (drop-take p.matchstop p.bufpos p.buf.chars)) in
      let size : length cs ≡ n = length-take n (available p) (
        omega (
          arith,
          length-drop p.matchstop (take p.bufpos p.buf.chars),
          length-take p.bufpos p.buf.chars,
        )) in
      rw
        (
          advance-drop p.matchstop (memory p.buf) (omega (arith, length-memory p.buf)),
          units-take n m
              (omega (arith, length-drop p.matchstop (memory p.buf), length-memory p.buf)),
          part,
          store-chars s o cs (omega (arith, size)),
        )
        refl

module _ {S : Type 0} {read : S → ℕ → Read S} (stream : Stream read) where
  -- The loop has stored `cs`, all that was asked for if there is so much, and nothing else.
  pub record Took (p : Port S) (s : Str) (o l : ℕ) (o' : ℕ) (p' : Port S) (s' : Str) (cs : List ℕ)
      : Type 0 where
    pub place : o' ≡ o + length cs
    pub text : stream.rest p.source ≡ cs ++ stream.rest p'.source
    pub small : length cs ≤ l
    pub copied : s' ≡ record { chars = stored o cs s.chars; after = s.after }
    pub filepos : p'.filepos ≡ p.filepos
    pub kind : p'.kindof ≡ p.kindof
    pub short : length cs < l → (p'.eof ≡ true) ⊎ (is_datagram p.kindof ≡ true)

  pub Took-nothing : (p : Port S) (s : Str) (o l : ℕ) → p.eof ≡ true → Took p s o l o p s []
  Took-nothing p s o l e = record {
    place = omega arith;
    text = refl;
    small = omega arith;
    copied = ap (λ xs. record { chars = xs; after = s.after }) (sym (stored_nothing o s.chars));
    filepos = refl;
    kind = refl;
    short = λ h. inl e;
  }

  -- One read of `cs` before what the rest of the loop does.
  Took-more :
      (p p₁ : Port S) (s : Str) (o l : ℕ) (cs : List ℕ) {o' : ℕ} {p' : Port S} {s' : Str}
      {ds : List ℕ}
      → o + l ≤ len s
      → length cs ≤ l
      → stream.rest p.source ≡ cs ++ stream.rest p₁.source
      → p₁.filepos ≡ p.filepos
      → p₁.kindof ≡ p.kindof
      → Took p₁
          (record { chars = stored o cs s.chars; after = s.after })
          (o + length cs)
          (l - length cs)
          o'
          p'
          s'
          ds
      → Took p s o l o' p' s' (cs ++ ds)
  Took-more p p₁ s o l cs {p' = p'} {ds = ds} room h text f k t = record {
    place = omega (arith, t.place, length-append cs ds);
    text = text ∙ ap (λ xs. cs ++ xs) t.text ∙ sym (append_assoc cs ds (stream.rest p'.source));
    small = omega (arith, t.small, length-append cs ds);
    copied =
        t.copied
        ∙ ap (λ xs. record { chars = xs; after = s.after })
            (stored_twice o cs ds s.chars (omega arith));
    filepos = t.filepos ∙ f;
    kind = t.kind ∙ k;
    short = λ less. elim (t.short (omega (arith, less, length-append cs ds))) [
      | inl e ↦ inl e
      | inr d ↦ inr (ap is_datagram (sym k) ∙ d)
    ];
  }

  -- The loop returns, or fails as a read of the source fails.
  abbrev pub Reads : Run (ℕ × Port S × Str) → Port S → Str → ℕ → ℕ → Type 0
  Reads run p s o l =
      ((o' : ℕ) × (p' : Port S) × (s' : Str) × (cs : List ℕ) × (run ≡ ok (o', p', s'))
        × Took p s o l o' p' s' cs)
      ⊎ ((source : S) × (n : ℕ) × (reset : Bool) × (read source n ≡ failed reset)
          × (run ≡ fails (error_of reset)))

  pub Reads_more :
      (p p₁ : Port S) (s : Str) (o l : ℕ) (cs : List ℕ) {run : Run (ℕ × Port S × Str)}
      → o + l ≤ len s
      → length cs ≤ l
      → stream.rest p.source ≡ cs ++ stream.rest p₁.source
      → p₁.filepos ≡ p.filepos
      → p₁.kindof ≡ p.kindof
      → Reads run p₁
          (record { chars = stored o cs s.chars; after = s.after })
          (o + length cs)
          (l - length cs)
      → Reads run p s o l
  Reads_more p p₁ s o l cs room h text f k r = elim r [
    | inl (o', p', s', ds, run, t) ↦
        inl (o', p', s', cs ++ ds, run, Took-more p p₁ s o l cs room h text f k t)
    | inr e ↦ inr e
  ]

  -- A read that was the last one: all is there, or the port takes no more.
  pub Took-last :
      (p : Port S) (s : Str) (o l : ℕ)
      → (ltb 0 l && not (is_datagram p.kindof)) ≡ false
      → Took p s o l o p s []
  Took-last p s o l h = record {
    place = omega arith;
    text = refl;
    small = omega arith;
    copied = ap (λ xs. record { chars = xs; after = s.after }) (sym (stored_nothing o s.chars));
    filepos = refl;
    kind = refl;
    short = λ less. inr (ground arith);
  }
