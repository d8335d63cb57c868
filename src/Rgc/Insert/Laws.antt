-- ===== src/Rgc/Insert/Laws.antt =====
-- What is put back is read next, and what was to be read follows it.
use bigloo.Prelude.{
  ℕ, zero, suc, ◌+◌, ◌-◌, ◌%◌, ◌≤◌, ◌<◌, leb, true, false, List, [], ◌∷◌, ◌++◌, length, take, drop,
  ◌≡◌, refl, arith, ap, ◌∙◌, sym, length-take, length-drop, drop-take, drop_at, Bool-cases, inl,
  inr, some, append_assoc,
}
use bigloo.Prelude.Int.{ℤ}
use bigloo.Memory.{Str, len, memory, units}
use bigloo.Memory.Laws.{length-memory, advance-drop, units-take}
use bigloo.Cstring.Equal.Laws.{take-drop-append}
use bigloo.Rgc.Run.{ok}
use bigloo.Rgc.Port.{Port, Read, is_closed}
use bigloo.Rgc.Port.Laws.{stored, length-stored, take-stored, drop-stored, store-chars, move-chars}
use bigloo.Rgc.Port.Stream.{Stream}
use bigloo.Rgc.Port.Valid.{IsValid, available, pending}
use bigloo.Rgc.Fill.Arrange.{rgc_double_buffer_lem}
use bigloo.Rgc.Insert.{
  moved_back, rgc_reserve_space, rgc_buffer_insert_substring, rgc_buffer_insert_char,
}

module _ {S : Type 0} where
  -- There is room before the end of the match, and what is to be read has not changed.
  record Reserved (amount : ℕ) (p q : Port S) : Type 0 where
    valid : IsValid q
    room : amount ≤ q.matchstop
    same : available q ≡ available p
    source : q.source ≡ p.source

module _ {S : Type 0} (held : ℕ → ℕ) where
  reserve_shift :
      (fuel : ℕ) (p : Port S) (amount : ℕ)
      → IsValid p
      → p.matchstop < amount
      → amount ≤ p.matchstop + (len p.buf - p.bufpos)
      → (q : Port S) × (rgc_reserve_space held (suc fuel) p amount ≡ ok q) × Reserved amount p q
  unfolding rgc_reserve_space
  reserve_shift fuel p amount v low fits =
      let n = p.bufpos - p.matchstop in
      let cs = take n (drop p.matchstop (memory p.buf)) in
      let size : length cs ≡ n =
        length-take n (drop p.matchstop (memory p.buf))
          (omega (arith, length-drop p.matchstop (memory p.buf), length-memory p.buf)) in
      let whole = length-stored amount cs p.buf.chars (omega (arith, size)) in
      let bound : p.bufpos + (amount - p.matchstop) ≡ amount + length cs = omega (arith, size) in
      let later : leb amount p.matchstop ≡ false = ground arith in
      let here : leb amount (p.matchstop + (len p.buf - p.bufpos)) ≡ true = ground arith in
      (
        record p {
          buf = record { chars = stored amount cs p.buf.chars; after = p.buf.after };
          bufpos = p.bufpos + (amount - p.matchstop);
          matchstop = p.matchstop + (amount - p.matchstop);
        },
        rw (later, here, move-chars p.buf amount p.matchstop n (omega arith) (omega arith)) refl,
        record {
          valid = omega (arith, whole, v.started, v.ahead, v.behind);
          room = omega arith;
          same =
              ap
                (λ b.
                  drop (p.matchstop + (amount - p.matchstop))
                    (take b (stored amount cs p.buf.chars)))
                bound
              ∙ ap (drop (p.matchstop + (amount - p.matchstop)))
                  (take-stored amount cs p.buf.chars (omega (arith, size)))
              ∙ drop_at (p.matchstop + (amount - p.matchstop)) (take amount p.buf.chars) cs
                  (omega (arith, length-take amount p.buf.chars))
              ∙ take-drop-append n p.matchstop p.buf.chars (p.buf.after ∷ []) (omega arith)
              ∙ sym (drop-take p.matchstop p.bufpos p.buf.chars);
          source = refl;
        },
      )

  reserved : (p : Port S) (amount : ℕ) → IsValid p → amount ≤ p.matchstop → Reserved amount p p
  reserved p amount v h = record { valid = v; room = h; same = refl; source = refl }

  -- A buffer that is not empty grows by at least one byte in each round.
  reserve_lem :
      (fuel : ℕ) (p : Port S) (amount : ℕ)
      → IsValid p
      → 0 < len p.buf
      → amount ≤ p.matchstop + (len p.buf - p.bufpos) + fuel
      → (q : Port S) × (rgc_reserve_space held (suc fuel) p amount ≡ ok q) × Reserved amount p q
  unfolding rgc_reserve_space
  reserve_lem zero p amount v full enough = elim (Bool-cases (leb amount p.matchstop)) [
    | inl done ↦ (p, rw done refl, reserved p amount v (ground arith))
    | inr low ↦ reserve_shift zero p amount v (ground arith) (omega arith)
  ]
  reserve_lem (suc fuel) p amount v full enough = elim (Bool-cases (leb amount p.matchstop)) [
    | inl done ↦ (p, rw done refl, reserved p amount v (ground arith))
    | inr low ↦ elim (Bool-cases (leb amount (p.matchstop + (len p.buf - p.bufpos)))) [
      | inl fits ↦ reserve_shift (suc fuel) p amount v (ground arith) (ground arith)
      | inr more ↦
          let (b, run, size, same) = rgc_double_buffer_lem held p in
          let (q, rest, r) =
            reserve_lem fuel (record p { buf = b }) amount (omega (arith, size, v))
              (omega (arith, size)) (omega (arith, size, v.within)) in
          (
            q,
            rw (low, more, run) rest,
            record {
              valid = r.valid;
              room = r.room;
              same = r.same ∙ ap (drop p.matchstop) (same p.bufpos v.within);
              source = r.source;
            },
          )
    ]
  ]

module _ {S : Type 0} where
  -- The bytes `cs` stored before the end of the match of a port with room for them.
  module _ (p q : Port S) (cs : List ℕ) (r : Reserved (length cs) p q) where
    abbrev low : ℕ
    low = q.matchstop - length cs

    insert_fits : low + length cs ≤ len q.buf
    insert_fits = omega (arith, r.valid, r.room)

    insert_available : drop low (take q.bufpos (stored low cs q.buf.chars)) ≡ cs ++ available p
    insert_available =
        let e : low + length cs ≡ q.matchstop = omega (arith, r.room) in
        drop-stored low q.bufpos cs q.buf.chars (omega (arith, r.valid, r.room)) r.valid.within
        ∙ ap (λ k. cs ++ drop k (take q.bufpos q.buf.chars)) e
        ∙ ap (λ xs. cs ++ xs) r.same

module _ {S : Type 0} {read : S → ℕ → Read S} (stream : Stream read) (held : ℕ → ℕ) where
  -- What the insertion of `cs` leaves of a port with room for them.
  module _ (p q : Port S) (cs : List ℕ) (filepos : ℤ) (r : Reserved (length cs) p q) where
    abbrev put_back : Port S
    put_back = record q {
      buf = record { chars = stored (low p q cs r) cs q.buf.chars; after = q.buf.after };
      filepos = filepos;
      matchstop = low p q cs r;
      forward = low p q cs r;
      matchstart = low p q cs r;
    }

    put_back-IsValid : IsValid put_back
    put_back-IsValid =
        let whole = length-stored (low p q cs r) cs q.buf.chars (insert_fits p q cs r) in
        omega (arith, whole, r.valid, r.room)

    put_back-pending : pending stream put_back ≡ cs ++ pending stream p
    put_back-pending =
        ap (λ xs. xs ++ stream.rest q.source) (insert_available p q cs r)
        ∙ ap (λ s. (cs ++ available p) ++ stream.rest s) r.source
        ∙ append_assoc cs (available p) (stream.rest p.source)

  insert_part :
      (p : Port S) (s : Str) (from to : ℕ)
      → IsValid p
      → is_closed p.kindof ≡ false
      → 0 < len p.buf
      → from < to
      → to ≤ len s
      → (p' : Port S) × (rgc_buffer_insert_substring held p s from to ≡ ok (true, p'))
        × IsValid p'
        × (pending stream p' ≡ take (to - from) (drop from s.chars) ++ pending stream p)
  unfolding rgc_buffer_insert_substring
  insert_part p s from to v on full h k =
      let n = to - from in
      let cs = take n (drop from s.chars) in
      let size : length cs ≡ n =
        length-take n (drop from s.chars) (omega (arith, length-drop from s.chars)) in
      let (q, run, r0) = reserve_lem held n p n v full (omega arith) in
      let r : Reserved (length cs) p q = record {
        valid = r0.valid;
        room = omega (arith, r0.room, size);
        same = r0.same;
        source = r0.source;
      } in
      let at : q.matchstop - n ≡ low p q cs r = ap (λ m. q.matchstop - m) (sym size) in
      let filepos = moved_back q.filepos n in
      let later : leb to from ≡ false = ground arith in
      let part : units n (drop from (memory s)) ≡ some cs =
        units-take n (drop from (memory s))
          (omega (arith, length-drop from (memory s), length-memory s))
        ∙ ap some (take-drop-append n from s.chars (s.after ∷ []) (omega arith)) in
      (
        put_back p q cs filepos r,
        rw
            (
              on,
              later,
              run,
              advance-drop from (memory s) (omega (arith, length-memory s)),
              part,
              at,
              store-chars q.buf (low p q cs r) cs (insert_fits p q cs r),
            )
            refl,
        put_back-IsValid p q cs filepos r,
        put_back-pending p q cs filepos r,
      )

  -- On a valid open port whose buffer is not empty, `rgc_buffer_insert_substring` of a part of a
  -- string returns true and a valid port: the text that is to come is that part, followed by the
  -- text that was to come, however small the buffer and whatever new memory holds.
  pub insert_substring-pending :
      (p : Port S) (s : Str) (from to : ℕ)
      → IsValid p
      → is_closed p.kindof ≡ false
      → 0 < len p.buf
      → from ≤ to
      → to ≤ len s
      → (p' : Port S) × (rgc_buffer_insert_substring held p s from to ≡ ok (true, p'))
        × IsValid p'
        × (pending stream p' ≡ take (to - from) (drop from s.chars) ++ pending stream p)
  unfolding rgc_buffer_insert_substring
  insert_substring-pending p s from to v on full h k = elim (Bool-cases (leb to from)) [
    | inl empty ↦ let e : to - from ≡ 0 = ground arith in (p, rw (on, empty) refl, v, rw e refl)
    | inr more ↦ insert_part p s from to v on full (ground arith) k
  ]

  -- On a valid open port whose buffer is not empty, `rgc_buffer_insert_char` returns true and a
  -- valid port: the text that is to come is the byte of the character, followed by the text that
  -- was to come.
  pub insert_char-pending :
      (p : Port S) (c : ℕ)
      → IsValid p
      → is_closed p.kindof ≡ false
      → 0 < len p.buf
      → (p' : Port S) × (rgc_buffer_insert_char held p c ≡ ok (true, p'))
        × IsValid p'
        × (pending stream p' ≡ c % 256 ∷ pending stream p)
  unfolding rgc_buffer_insert_char
  insert_char-pending p c v on full =
      let (q, run, r) = reserve_lem held 1 p 1 v full (omega arith) in
      let cs = c % 256 ∷ [] in
      let filepos = moved_back q.filepos 1 in
      (
        put_back p q cs filepos r,
        rw (on, run, store-chars q.buf (q.matchstop - 1) cs (insert_fits p q cs r)) refl,
        put_back-IsValid p q cs filepos r,
        put_back-pending p q cs filepos r,
      )
