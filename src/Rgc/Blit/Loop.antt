-- ===== src/Rgc/Blit/Loop.antt =====
-- The loop of a blit ends: each round reads a byte or the end of the file.
use bigloo.Prelude.{
  ℕ, zero, suc, ◌+◌, ◌-◌, ◌≤◌, ◌<◌, ltb, Bool, true, false, ◌&&◌, not, List, [], length,
  if◌then◌else◌, ◌≡◌, refl, arith, sym, inl, inr, Bool-cases,
}
use mathlib.Core.Path.{subst}
use bigloo.Memory.{Str, len}
use bigloo.Rgc.Run.{ok, fails}
use bigloo.Rgc.Port.{Port, Read, bytes, failed, is_datagram}
use bigloo.Rgc.Port.Laws.{stored, length-stored, store-chars}
use bigloo.Rgc.Port.Stream.{Stream, Progresses, read-cases}
use bigloo.Rgc.Fill.{error_of}
use bigloo.Rgc.Fill.Laws.{sysread-bytes, sysread-failed}
use bigloo.Rgc.Blit.{blit_loop}
use bigloo.Rgc.Blit.Laws.{Took-nothing, Took-last, Reads, Reads_more}

module _ {S : Type 0} {read : S → ℕ → Read S} (stream : Stream read) where
  module _ (io : ℕ) (some_io : 0 < io) (progress : Progresses read) where
    blit_loop_eof :
        (fuel : ℕ) (p : Port S) (s : Str) (o l : ℕ)
        → p.eof ≡ true
        → blit_loop read io (suc fuel) p s o l ≡ ok (o, p, s)
    unfolding blit_loop
    blit_loop_eof fuel p s o l e = rw e refl

    module _ (fuel : ℕ) (p : Port S) (s : Str) (o l : ℕ) where
      abbrev asked : ℕ
      asked = if ltb l io then l else io

      -- The port and the string after a read of `cs`.
      abbrev then_port : Bool → S → Port S
      then_port e source = record p { eof = if e then true else p.eof; source = source }

      abbrev then_string : List ℕ → Str
      then_string cs = record { chars = stored o cs s.chars; after = s.after }

      blit_failed :
          {reset : Bool}
          → p.eof ≡ false
          → read p.source asked ≡ failed reset
          → blit_loop read io (suc fuel) p s o l ≡ fails (error_of reset)
      unfolding blit_loop
      blit_failed on r = rw (sysread-failed stream p asked r, on) refl

      blit_round :
          {cs : List ℕ} {e : Bool} {source : S}
          → p.eof ≡ false
          → read p.source asked ≡ bytes cs e source
          → o + length cs ≤ len s
          → blit_loop read io (suc fuel) p s o l ≡ (
              if ltb 0 (l - length cs) && not (is_datagram p.kindof)
              then blit_loop read io fuel
                  (then_port e source)
                  (then_string cs)
                  (o + length cs)
                  (l - length cs)
              else ok (o + length cs, then_port e source, then_string cs))
      unfolding blit_loop
      blit_round {cs = cs} on r room =
          rw (sysread-bytes stream p asked r, store-chars s o cs room, on) refl

    pub blit_loop-Reads :
        (fuel : ℕ) (p : Port S) (s : Str) (o l : ℕ)
        → 0 < l
        → l < fuel
        → o + l ≤ len s
        → Reads stream (blit_loop read io fuel p s o l) p s o l
    blit_loop-Reads zero p s o l some enough room = absurd (omega arith)
    blit_loop-Reads (suc zero) p s o l some enough room = absurd (omega arith)
    blit_loop-Reads (suc (suc fuel)) p s o l some enough room = elim (Bool-cases p.eof) [
      | inl end ↦
          inl (o, p, s, [], blit_loop_eof (suc fuel) p s o l end, Took-nothing stream p s o l end)
      | inr on ↦
          let n = asked (suc fuel) p s o l in
          let big : 0 < n = ground arith in
          let least : n ≤ l = ground arith in
          elim (read-cases read p.source n) [
            | inr (reset, e) ↦ inr (p.source, n, reset, e, blit_failed (suc fuel) p s o l on e)
            | inl (cs, e, source, r) ↦
                let size : length cs ≤ l =
                  omega (arith, stream.read-le p.source n cs e source r, least) in
                let text = stream.rest-read p.source n cs e source r in
                let q = then_port (suc fuel) p s o l e source in
                let s' = then_string (suc fuel) p s o l cs in
                let room' : o + length cs + (l - length cs) ≤ len s' =
                  omega (arith, length-stored o cs s.chars (omega arith)) in
                let run = blit_round (suc fuel) p s o l on r (omega arith) in
                let more = ltb 0 (l - length cs) && not (is_datagram p.kindof) in
                subst (λ run. Reads stream run p s o l) (sym run)
                  (Reads_more stream p q s o l cs room size text refl refl (elim (Bool-cases more) [
                    | inr last ↦ rw last (
                        inl (
                          o + length cs,
                          q,
                          s',
                          [],
                          refl,
                          Took-last stream q s' (o + length cs) (l - length cs) last,
                        ))
                    | inl again ↦ rw again (elim (Bool-cases e) [
                      | inl end ↦
                          let e' : q.eof ≡ true = rw end refl in
                          inl (
                            o + length cs,
                            q,
                            s',
                            [],
                            blit_loop_eof fuel q s' (o + length cs) (l - length cs) e',
                            Took-nothing stream q s' (o + length cs) (l - length cs) e',
                          )
                      | inr open_ ↦
                          blit_loop-Reads (suc fuel) q s' (o + length cs) (l - length cs)
                            (ground arith)
                            (elim (progress p.source n cs e source big r) [
                              | inl c ↦ omega arith
                              | inr c ↦ absurd (cc)
                            ])
                            room'
                    ])
                  ]))
          ]
    ]
