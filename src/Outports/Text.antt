-- ===== src/Outports/Text.antt =====
-- A string port holds what was written to it.
use bigloo.Prelude.{
  ℕ, ◌+◌, ◌-◌, ◌*◌, ◌≤◌, ◌==◌, ltb, leb, Bool-cases, true, false, ◌||◌, Option, none, some, List,
  ◌++◌, length, take, drop, ◌>>=◌, ◌≡◌, inl, inr, refl, ap, sym, ◌∙◌, arith, length-append,
  length-take, take_at, length-drop,
}
use bigloo.Outports.{
  KindOf, BufMode, OutputPort, Outcome, done, bgl_output_port_cnt, put_at, bgl_write,
  bgl_output_flush,
}
use bigloo.Outports.Flush.{output_flush_extensible, flush_extensible_calls}
use bigloo.Outports.StringPort.{strwrite, get_output_string}

-- An open string port without a flush hook, whose buffer ends where its string does.
pub record IsString (p : OutputPort Unit) : Type 0 where
  pub kind : p.kindof ≡ KindOf.kindof_string
  pub mode : p.bufmode ≡ BufMode.ioebf
  pub no_hook : p.fhook ≡ none
  pub whole : p.end ≡ length p.buf
  pub within : p.ptr ≤ length p.buf

abbrev pub text : OutputPort Unit → List ℕ
text p = take p.ptr p.buf

pub get_output_string_lem : (p : OutputPort Unit) → IsString p → get_output_string p ≡ some (text p)
unfolding get_output_string
get_output_string_lem p h =
    let within = h.within in rw (h.kind, h.whole) (ap (λ n. some (take n p.buf)) (omega arith))

pub take_put :
    (n : ℕ) (b s t : List ℕ)
    → n ≤ length b
    → take (n + length s) (take n b ++ s ++ t) ≡ take n b ++ s
take_put n b s t h =
    take_at (n + length s) (take n b ++ s) t
      (omega (arith, length-append (take n b) s, length-take n b h))

pub length_put :
    (n : ℕ) (b s : List ℕ)
    → n + length s ≤ length b
    → length (take n b ++ s ++ drop (n + length s) b) ≡ length b
length_put n b s h = omega (
  arith,
  length-append (take n b ++ s) (drop (n + length s) b),
  length-append (take n b) s,
  length-take n b (omega arith),
  length-drop (n + length s) b,
)

-- What a write leaves.
abbrev pub Appends : OutputPort Unit → List ℕ → Option (Outcome Unit) → Type 0
Appends p str r =
    (p' : OutputPort Unit) × (r ≡ some (done p')) × IsString p' × (text p' ≡ text p ++ str)

module _ (fresh : ℕ → List ℕ) (sized : (n : ℕ) → length (fresh n) ≡ n) where
  -- The buffer that is twice as large takes the text and the string.
  pub grown :
      (fuel : ℕ) (p : OutputPort Unit) (str : List ℕ)
      → IsString p
      → ltb (length str) (bgl_output_port_cnt p) ≡ false
      → Appends p str (bgl_output_flush (strwrite fresh) fuel p str)
  unfolding bgl_output_flush strwrite
  grown fuel p str h full =
      let whole = h.whole in
      let within = h.within in
      let used = length p.buf - bgl_output_port_cnt p in
      let size = (length p.buf + length str) * 2 in
      let start : List ℕ = take used p.buf ++ drop used (fresh size) in
      let buf : List ℕ = take used start ++ str ++ drop (used + length str) start in
      let e : used ≡ p.ptr = omega arith in
      let n = length-take used p.buf (omega arith) in
      let start_size : length start ≡ size = omega (
        arith,
        length-append (take used p.buf) (drop used (fresh size)),
        n,
        length-drop used (fresh size),
        sized size,
      ) in
      let calls : (ltb 0 (length str) || (bgl_output_port_cnt p == 0)) ≡ true = ground arith in
      let kept : take used start ≡ text p =
        take_at used (take used p.buf) (drop used (fresh size)) (sym n)
        ∙ ap (λ k. take k p.buf) e in
      let buf_size = length_put used start str (omega arith) in
      (
        record p { buf = buf; ptr = used + length str; end = size },
        output_flush_extensible (strwrite fresh) fuel p str false true h.kind h.mode
            ∙ flush_extensible_calls (strwrite fresh) fuel p
                (record p { buf = buf; ptr = used + length str; end = size }) str true (length str)
                h.no_hook calls refl,
        record {
          kind = h.kind;
          mode = h.mode;
          no_hook = h.no_hook;
          whole = sym (buf_size ∙ start_size);
          within = omega (arith, buf_size);
        },
        take_put used start str (drop (used + length str) start) (omega arith)
            ∙ ap (λ xs. xs ++ str) kept,
      )

  copied :
      (p : OutputPort Unit) (str : List ℕ)
      → IsString p
      → ltb (length str) (bgl_output_port_cnt p) ≡ true
      → Appends p str (
          put_at p.buf p.ptr str >>= λ buf.
          some (done (record p { buf = buf; ptr = p.ptr + length str })))
  copied p str h room =
      let whole = h.whole in
      let within = h.within in
      let buf = take p.ptr p.buf ++ str ++ drop (p.ptr + length str) p.buf in
      let le : p.ptr + length str ≤ length p.buf = ground arith in
      let fits : leb (p.ptr + length str) (length p.buf) ≡ true = ground arith in
      let size = length_put p.ptr p.buf str le in
      (
        record p { buf = buf; ptr = p.ptr + length str },
        rw fits refl,
        record {
          kind = h.kind;
          mode = h.mode;
          no_hook = h.no_hook;
          whole = whole ∙ sym size;
          within = omega (arith, size);
        },
        take_put p.ptr p.buf str (drop (p.ptr + length str) p.buf) within,
      )

  -- A write to a string port returns, and puts the string behind the text that the port holds.
  pub bgl_write-text :
      (fuel : ℕ) (p : OutputPort Unit) (str : List ℕ)
      → IsString p
      → Appends p str (bgl_write (strwrite fresh) fuel p str)
  unfolding bgl_write
  bgl_write-text fuel p str h = elim (Bool-cases (ltb (length str) (bgl_output_port_cnt p))) [
    | inl e ↦ rw (e, h.mode) (copied p str h e)
    | inr e ↦ rw e (grown fuel p str h e)
  ]
