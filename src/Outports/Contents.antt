-- ===== src/Outports/Contents.antt =====
-- What a string port holds after any writes, and what is read from it.
use bigloo.Prelude.{
  ℕ, ◌==◌, Bool-cases, true, false, Option, some, List, [], ◌∷◌, ◌++◌, length, ◌≡◌, inl, inr, refl,
  ap, sym, ◌∙◌, arith, append_assoc, append-nil,
}
use bigloo.Outports.{
  OutputPort, Outcome, done, bgl_output_port_cnt, and_then, bgl_write, bgl_output_flush,
  bgl_output_port_buffer_set,
}
use bigloo.Outports.Flush.{output_flush_extensible, flush_extensible_rests}
use bigloo.Outports.StringPort.{
  strwrite, bgl_open_output_string, get_output_string, bgl_reset_output_string_port,
  bgl_flush_output_string,
}
use bigloo.Outports.Text.{IsString, text, Appends, get_output_string_lem, grown, bgl_write-text}

abbrev pub concat : List (List ℕ) → List ℕ
concat [] = []
concat (s ∷ ss) = s ++ concat ss

-- The writes of the strings one after the other.
abbrev pub writes : (ℕ → List ℕ) → ℕ → OutputPort Unit → List (List ℕ) → Option (Outcome Unit)
writes fresh fuel p [] = some (done p)
writes fresh fuel p (s ∷ ss) =
    and_then (bgl_write (strwrite fresh) fuel p s) (λ q. writes fresh fuel q ss)

pub open-IsString : (buf : List ℕ) → IsString (bgl_open_output_string buf)
unfolding bgl_open_output_string bgl_output_port_buffer_set
open-IsString buf = record {
  kind = refl;
  mode = refl;
  no_hook = refl;
  whole = refl;
  within = omega arith;
}

open-text : (buf : List ℕ) → text (bgl_open_output_string buf) ≡ []
unfolding bgl_open_output_string bgl_output_port_buffer_set
open-text buf = refl

reset-IsString : (q : OutputPort Unit) → IsString q → IsString (bgl_output_port_buffer_set q q.buf)
unfolding bgl_output_port_buffer_set
reset-IsString q h = record {
  kind = h.kind;
  mode = h.mode;
  no_hook = h.no_hook;
  whole = refl;
  within = omega arith;
}

reset-text : (q : OutputPort Unit) → text (bgl_output_port_buffer_set q q.buf) ≡ []
unfolding bgl_output_port_buffer_set
reset-text q = refl

module _ (fresh : ℕ → List ℕ) (sized : (n : ℕ) → length (fresh n) ≡ n) where
  pub writes-text :
      (fuel : ℕ) (p : OutputPort Unit) (ss : List (List ℕ))
      → IsString p
      → Appends p (concat ss) (writes fresh fuel p ss)
  writes-text fuel p [] h = (p, refl, h, sym (append-nil (text p)))
  writes-text fuel p (s ∷ ss) h =
      let (q, run, hq, tq) = bgl_write-text fresh sized fuel p s h in
      let (r, runs, hr, tr) = writes-text fuel q ss hq in
      (
        r,
        ap (λ o. and_then o (λ q'. writes fresh fuel q' ss)) run ∙ runs,
        hr,
        tr ∙ ap (λ xs. xs ++ concat ss) tq ∙ append_assoc (text p) s (concat ss),
      )

  -- A string port that is opened with any buffer holds, after any writes, the strings one behind
  -- the other.
  pub open-writes :
      (fuel : ℕ) (buf : List ℕ) (ss : List (List ℕ))
      → (p : OutputPort Unit) × (writes fresh fuel (bgl_open_output_string buf) ss ≡ some (done p))
        × (get_output_string p ≡ some (concat ss))
  open-writes fuel buf ss =
      let (p, runs, h, t) = writes-text fuel (bgl_open_output_string buf) ss (open-IsString buf) in
      (
        p,
        runs,
        get_output_string_lem p h ∙ ap some (t ∙ ap (λ xs. xs ++ concat ss) (open-text buf)),
      )

  flushed :
      (fuel : ℕ) (p : OutputPort Unit)
      → IsString p
      → Appends p [] (bgl_output_flush (strwrite fresh) fuel p [])
  unfolding bgl_output_flush
  flushed fuel p h = elim (Bool-cases (bgl_output_port_cnt p == 0)) [
    | inl e ↦ grown fresh sized fuel p [] h (ground arith)
    | inr e ↦ (
      p,
      output_flush_extensible (strwrite fresh) fuel p [] false true h.kind h.mode
          ∙ flush_extensible_rests (strwrite fresh) fuel p [] true h.no_hook (ground arith),
      h,
      sym (append-nil (text p)),
    )
  ]

  -- A flush of an open string port without a flush hook gives the text, and keeps it; a reset gives
  -- it and leaves an empty text.
  pub flush-reset :
      (fuel : ℕ) (p : OutputPort Unit)
      → IsString p
      → (q r : OutputPort Unit) × (bgl_flush_output_string fresh fuel p
          ≡ some (some (text p), done q))
        × (get_output_string q ≡ some (text p))
        × (bgl_reset_output_string_port q ≡ some (text p, r))
        × (get_output_string r ≡ some [])
  unfolding bgl_flush_output_string bgl_reset_output_string_port
  flush-reset fuel p h =
      let (q, run, hq, t) = flushed fuel p h in
      let e = get_output_string_lem q hq ∙ ap some (t ∙ append-nil (text p)) in
      let r = bgl_output_port_buffer_set q q.buf in
      (
        q,
        r,
        rw (run, e) refl,
        e,
        rw e refl,
        get_output_string_lem r (reset-IsString q hq) ∙ ap some (reset-text q),
      )
