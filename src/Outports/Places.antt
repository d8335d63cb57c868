-- ===== src/Outports/Places.antt =====
-- Writes to a string port after its close.
use bigloo.Prelude.{
  ℕ, ◌+◌, ◌-◌, ltb, leb, Bool-cases, true, false, Option, none, some, List, ◌∷◌, length, take,
  if◌then◌else◌, ◌≡◌, inl, inr, refl, ap, arith, length-take,
}
use bigloo.Outports.{
  KindOf, kindof_string, BufMode, OutputPort, failure, bgl_output_port_cnt, bgl_write,
  bgl_output_flush,
}
use bigloo.Outports.Flush.{output_flush_closed}
use bigloo.Outports.StringPort.{strwrite, bgl_close_output_string}
use bigloo.Outports.Text.{IsString}

closed_write :
    (fresh : ℕ → List ℕ) (fuel : ℕ) (q : OutputPort Unit) (c : ℕ) (s : List ℕ)
    → q.kindof ≡ KindOf.kindof_closed
    → q.bufmode ≡ BufMode.ioebf
    → q.ptr ≡ length q.buf
    → bgl_write (strwrite fresh) fuel q (c ∷ s)
      ≡ (if ltb (length (c ∷ s)) (bgl_output_port_cnt q) then none else some (failure q))
unfolding bgl_write bgl_output_flush
closed_write fresh fuel q c s k m at_end =
    let over : leb (q.ptr + length (c ∷ s)) (length q.buf) ≡ false = ground arith in
    elim (Bool-cases (ltb (length (c ∷ s)) (bgl_output_port_cnt q))) [
      | inl e ↦ rw (e, m, over) refl
      | inr e ↦ rw e (output_flush_closed (strwrite fresh) fuel q (c ∷ s) false true k)
    ]

close_lem :
    (p : OutputPort Unit)
    → IsString p
    → (bgl_close_output_string p).1 ≡ record p {
      kindof = KindOf.kindof_closed;
      buf = take (length p.buf - bgl_output_port_cnt p) p.buf;
    }
unfolding bgl_close_output_string
close_lem p h =
    let res = take (length p.buf - bgl_output_port_cnt p) p.buf in
    let choose : KindOf → Option (List ℕ) × OutputPort Unit = λ kind. elim kind [
      | kindof_string ↦ (some res, record p { kindof = KindOf.kindof_closed; buf = res })
      | _ ↦ (none, p)
    ] in
    ap (λ x. (choose x).1) h.kind

-- A write to a string port that was closed raises the failure where the string does not fit the
-- room that the buffer had; where it does, the run accesses memory outside of the string that the
-- close gave.
pub close-write :
    (fresh : ℕ → List ℕ) (fuel : ℕ) (p : OutputPort Unit) (c : ℕ) (s : List ℕ)
    → IsString p
    → bgl_write (strwrite fresh) fuel (bgl_close_output_string p).1 (c ∷ s) ≡ (
        if ltb (length (c ∷ s)) (bgl_output_port_cnt p)
        then none
        else some (failure (bgl_close_output_string p).1))
close-write fresh fuel p c s h =
    let whole = h.whole in
    let within = h.within in
    let q : OutputPort Unit = record p {
      kindof = KindOf.kindof_closed;
      buf = take (length p.buf - bgl_output_port_cnt p) p.buf;
    } in
    let n : p.ptr ≡ length q.buf =
      omega (arith, length-take (length p.buf - bgl_output_port_cnt p) p.buf (omega arith)) in
    rw (close_lem p h) (closed_write fresh fuel q c s refl h.mode n)
