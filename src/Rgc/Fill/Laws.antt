-- ===== src/Rgc/Fill/Laws.antt =====
-- A refill of the buffer keeps the token that is being matched and loses no byte of the input.
use bigloo.Prelude.{
  ℕ, ◌+◌, ◌-◌, ◌≤◌, ltb, Bool, true, false, List, [], ◌++◌, length, take, drop, if◌then◌else◌, ◌≡◌,
  refl, arith, ap, ◌∙◌, sym, ◌⊎◌, inl, inr, append-nil, length-take, drop-append, Bool-cases,
}
use mathlib.Core.Path.{subst}
use bigloo.Prelude.Int.{ℤ}
use bigloo.Memory.{len}
use bigloo.Rgc.Run.{Run, ok, fails, ◌>>=◌}
use bigloo.Rgc.Port.{Port, Read, bytes, failed, is_closed}
use bigloo.Rgc.Port.Laws.{stored, length-stored, take-stored, store-chars}
use bigloo.Rgc.Port.Stream.{Stream, read-cases}
use bigloo.Rgc.Port.Valid.{IsValid, window}
use bigloo.Rgc.Fill.{
  rgc_double_buffer, rgc_shift_buffer, error_of, int_of, barred, lowered, is_barrier, positive,
  sysread, rgc_fillsize_buffer, fill, rgc_fill_buffer,
}
use bigloo.Rgc.Fill.Arrange.{Kept, rgc_shift_buffer-Kept, rgc_double_buffer-Kept}

module _ {S : Type 0} where
  -- `more` was read behind what was there, and `b` says whether it is anything.
  pub record Refilled (b : Bool) (p p' : Port S) (more : List ℕ) : Type 0 where
    pub valid : IsValid p'
    pub longer : window p' ≡ window p ++ more
    pub token : p'.matchstop - p'.matchstart ≡ p.matchstop - p.matchstart
    pub looked : p'.forward - p'.matchstart ≡ p.forward - p.matchstart
    pub answer : b ≡ positive (length more)

  Kept-Refilled :
      {b : Bool} {p q r : Port S} {more : List ℕ}
      → Kept p q
      → Refilled b q r more
      → Refilled b p r more
  Kept-Refilled {more = more} k f = record {
    valid = f.valid;
    longer = f.longer ∙ ap (λ xs. xs ++ more) k.same;
    token = f.token ∙ k.token;
    looked = f.looked ∙ k.looked;
    answer = f.answer;
  }

  -- Nothing was read.
  Refilled-nothing :
      (p p' : Port S)
      → IsValid p'
      → window p' ≡ window p
      → p'.matchstop - p'.matchstart ≡ p.matchstop - p.matchstart
      → p'.forward - p'.matchstart ≡ p.forward - p.matchstart
      → Refilled false p p' []
  Refilled-nothing p p' v e t l = record {
    valid = v;
    longer = e ∙ sym (append-nil (window p));
    token = t;
    looked = l;
    answer = refl;
  }

  stored-window :
      (p : Port S) (cs : List ℕ)
      → IsValid p
      → p.bufpos + length cs ≤ len p.buf
      → drop p.matchstart (take (p.bufpos + length cs) (stored p.bufpos cs p.buf.chars))
        ≡ window p ++ cs
  stored-window p cs v h =
      ap (drop p.matchstart) (take-stored p.bufpos cs p.buf.chars h)
      ∙ drop-append p.matchstart (take p.bufpos p.buf.chars) cs
          (omega (arith, length-take p.bufpos p.buf.chars))

barred-le : (fb : ℤ) (size : ℕ) → barred fb size ≤ size
barred-le fb size = ground arith

module _ {S : Type 0} {read : S → ℕ → Read S} (stream : Stream read) where
  -- The run returns with what it has read, or fails as the read of the source failed.
  abbrev pub Fills : Run (Bool × Port S) → Port S → Type 0
  Fills run p =
      ((b : Bool) × (p' : Port S) × (more : List ℕ) × (run ≡ ok (b, p'))
        × Refilled b p p' more
        × (stream.rest p.source ≡ more ++ stream.rest p'.source))
      ⊎ ((n : ℕ) × (reset : Bool) × (read p.source n ≡ failed reset)
          × (run ≡ fails (error_of reset)))

  pub sysread-bytes :
      (p : Port S) (n : ℕ) {cs : List ℕ} {e : Bool} {s' : S}
      → read p.source n ≡ bytes cs e s'
      → sysread read p n ≡ ok (cs, e, s')
  unfolding sysread
  sysread-bytes p n r = rw (r, sysread) refl

  pub sysread-failed :
      (p : Port S) (n : ℕ) {reset : Bool}
      → read p.source n ≡ failed reset
      → sysread read p n ≡ fails (error_of reset)
  unfolding sysread
  sysread-failed p n r = rw (r, sysread) refl

  rgc_fillsize_buffer-Fills :
      (p : Port S) (size : ℕ)
      → IsValid p
      → p.bufpos + size ≤ len p.buf
      → Fills (rgc_fillsize_buffer read p p.bufpos size) p
  unfolding rgc_fillsize_buffer
  rgc_fillsize_buffer-Fills p size v h = elim (Bool-cases (is_barrier (int_of p.fillbarrier))) [
    | inl stop ↦ inl (false, p, [], rw stop refl, Refilled-nothing p p v refl refl refl, refl)
    | inr on ↦ elim (read-cases read p.source (barred (int_of p.fillbarrier) size)) [
      | inr (reset, e) ↦ inr (
        barred (int_of p.fillbarrier) size,
        reset,
        e,
        rw (on, sysread-failed p (barred (int_of p.fillbarrier) size) e) refl,
      )
      | inl (cs, e, s', r) ↦
          let small : p.bufpos + length cs ≤ len p.buf = omega (
            arith,
            stream.read-le p.source (barred (int_of p.fillbarrier) size) cs e s' r,
            barred-le (int_of p.fillbarrier) size,
          ) in
          let whole = length-stored p.bufpos cs p.buf.chars small in
          inl (
            positive (length cs),
            record p {
              eof = if e then true else p.eof;
              source = s';
              buf = record { chars = stored p.bufpos cs p.buf.chars; after = p.buf.after };
              fillbarrier = lowered p.fillbarrier (int_of p.fillbarrier) (length cs);
              bufpos = p.bufpos + length cs;
            },
            cs,
            rw
                (
                  on,
                  sysread-bytes p (barred (int_of p.fillbarrier) size) r,
                  store-chars p.buf p.bufpos cs small,
                )
                refl,
            record {
              valid = omega (arith, whole);
              longer = stored-window p cs v small;
              token = refl;
              looked = refl;
              answer = refl;
            },
            stream.rest-read p.source (barred (int_of p.fillbarrier) size) cs e s' r,
          )
    ]
  ]

  Fills-after :
      (p q : Port S) (size : ℕ)
      → Kept p q
      → q.bufpos + size ≤ len q.buf
      → Fills (rgc_fillsize_buffer read q q.bufpos size) p
  Fills-after p q size k h = elim (rgc_fillsize_buffer-Fills q size k.valid h) [
    | inl (b, p', more, run, f, text) ↦
        inl (b, p', more, run, Kept-Refilled k f, ap stream.rest (sym k.source) ∙ text)
    | inr (n, reset, e, run) ↦ inr (n, reset, ap (λ s. read s n) (sym k.source) ∙ e, run)
  ]

  -- On a valid port that is not closed, and for whatever new memory holds, `rgc_fill_buffer` either
  -- returns a valid port or fails as the read of the source fails; it never accesses memory
  -- outside the buffer. Where it returns, what the source gave stands behind the bytes from the
  -- start of the match on, none of which is lost, the token has its length, the read position is
  -- where these bytes ended, and the answer says whether anything was read.
  pub rgc_fill_buffer-Fills :
      (held : ℕ → ℕ) (p : Port S)
      → IsValid p
      → is_closed p.kindof ≡ false
      → Fills (rgc_fill_buffer read held p) (record p { forward = p.bufpos })
  unfolding rgc_fill_buffer
  rgc_fill_buffer-Fills held p v on =
      let p' : Port S = record p { forward = p.bufpos } in
      let v' : IsValid p' = omega arith in
      elim (Bool-cases p.eof) [
        | inl end ↦
            let e : rgc_fill_buffer read held p ≡ ok (false, p') = rw (on, end) refl in
            inl (false, p', [], e, Refilled-nothing p' p' v' refl refl refl, refl)
        | inr more ↦ elim (Bool-cases (ltb p.bufpos (len p.buf))) [
          | inl room ↦
              let e : rgc_fill_buffer read held p
                  ≡ rgc_fillsize_buffer read p' p.bufpos (len p.buf - p.bufpos) =
                rw (on, more, room) refl in
              subst (λ run. Fills run p') (sym e)
                (rgc_fillsize_buffer-Fills p' (len p.buf - p.bufpos) v' (ground arith))
          | inr full ↦ elim (Bool-cases (ltb 0 p.matchstart)) [
            | inl behind ↦
                let (q, run, k, size) = rgc_shift_buffer-Kept p' v' (ground arith) in
                let e : rgc_fill_buffer read held p
                    ≡ (rgc_shift_buffer p' >>= λ q. fill read q (len p.buf)) =
                  rw (on, more, full, behind) refl in
                subst (λ run. Fills run p')
                  (sym (e ∙ ap (λ m. m >>= λ q. fill read q (len p.buf)) run))
                  (Fills-after p' q (len p.buf - q.bufpos) k (omega (arith, size, k.valid)))
            | inr start ↦
                let (q, run, k, size) = rgc_double_buffer-Kept held p' v' in
                let e : rgc_fill_buffer read held p
                    ≡ (rgc_double_buffer held p' >>= λ q. fill read q (len q.buf)) =
                  rw (on, more, full, start) refl in
                subst (λ run. Fills run p')
                  (sym (e ∙ ap (λ m. m >>= λ q. fill read q (len q.buf)) run))
                  (Fills-after p' q (len q.buf - q.bufpos) k (omega (arith, size, k.valid)))
          ]
        ]
      ]
